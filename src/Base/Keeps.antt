-- ===== src/Base/Keeps.antt =====
-- Actions that keep a property of the state, whether they succeed or throw.
use mathlib.Core.Bool.{Bool}
use mathlib.Core.Option.{Option, none, some}
use nexa_fx_js.Base.Action.{
  Action, Result, ok, err, Error, ◌>>=◌, after, get, pure, throw, throw_if, or_throw, lift,
}

pub record Keeps {S A : Type 0} (P : S → Type 0) (m : Action S A) : Type 0 where
  pub at : (s : S) → P s → P (m s).1

module _ {S : Type 0} {P : S → Type 0} where
  after_kept :
      {A B : Type 0} (f : A → Action S B) (r : Result A × S)
      → P r.1
      → ((a : A) → Keeps P (f a))
      → P (after f r).1
  after_kept f (ok a, s) h k = (k a).at s h
  after_kept f (err e, s) h k = h

  pub Keeps-bind :
      {A B : Type 0} (m : Action S A) (f : A → Action S B)
      → Keeps P m
      → ((a : A) → Keeps P (f a))
      → Keeps P (m >>= f)
  Keeps-bind m f h k = record { at = λ s p. after_kept f (m s) (h.at s p) k }

  pub Keeps-pure : {A : Type 0} (a : A) → Keeps P (pure a)
  Keeps-pure a = record { at = λ s p. p }

  pub Keeps-throw : {A : Type 0} (e : Error) → Keeps {A = A} P (throw e)
  Keeps-throw e = record { at = λ s p. p }

  pub Keeps-get : {A : Type 0} (f : S → A) → Keeps P (get f)
  Keeps-get f = record { at = λ s p. p }

  pub Keeps-throw_if : (b : Bool) (e : Error) → Keeps P (throw_if b e)
  Keeps-throw_if b e = record { at = λ s p. p }

  pub Keeps-lift : {A : Type 0} (r : Result A) → Keeps P (lift r)
  Keeps-lift r = record { at = λ s p. p }

  pub Keeps-or_throw : {A : Type 0} (o : Option A) (e : Error) → Keeps P (or_throw o e)
  Keeps-or_throw none e = record { at = λ s p. p }
  Keeps-or_throw (some a) e = record { at = λ s p. p }

pub ruleset keeps_rules =
    (Keeps-bind, Keeps-pure, Keeps-throw, Keeps-get, Keeps-throw_if, Keeps-lift, Keeps-or_throw)
