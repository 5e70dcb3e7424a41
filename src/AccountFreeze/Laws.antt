-- ===== src/AccountFreeze/Laws.antt =====
-- Freezing and unfreezing an account.
use Prim.Native.String.{String}
use nexa_fx_js.Base.{
  ℕ, ◌+◌, ◌≡◌, ◌∙◌, refl, true, false, ◌||◌, Option, none, some, List, [], ◌∷◌, ◌++◌, ◌==◌, arith,
  is_some, find, update_where,
}
use nexa_fx_js.Base.Action.{ok, err, conflict, not_found, already_frozen, no_active_freeze}
use nexa_fx_js.AccountFreeze.{
  AccountFreeze, State, is_active_of, active_freeze, is_account_frozen, freeze_account,
  unfreeze_account, lifted,
}

is_some-find-append :
    (user : ℕ) (f : AccountFreeze) (rows : List AccountFreeze)
    → is_some (find (is_active_of user) (rows ++ f ∷ []))
      ≡ (is_some (find (is_active_of user) rows) || is_active_of user f)
is_some-find-append user f [] = ground arith
is_some-find-append user f (g ∷ gs) = ground (arith, is_some-find-append user f gs)

abbrev freeze_row : (now user : ℕ) → String → ℕ → Option String → State → AccountFreeze
freeze_row now user reason by notes s = record {
  id = s.next_id;
  user_id = user;
  reason = reason;
  frozen_by = by;
  notes = notes;
  frozen_at = now;
  is_active = true;
  unfrozen_by = none;
  unfrozen_at = none;
}

abbrev frozen_state : (now user : ℕ) → String → ℕ → Option String → State → State
frozen_state now user reason by notes s = record s {
  rows = s.rows ++ freeze_row now user reason by notes s ∷ [];
  next_id = s.next_id + 1;
}

module _ (now user : ℕ) (reason : String) (by : ℕ) (notes : Option String) (s : State) where
  frozen_lem :
      is_account_frozen user s ≡ false
      → freeze_account now user reason by notes s
        ≡ (ok (freeze_row now user reason by notes s), frozen_state now user reason by notes s)
  unfolding freeze_account
  frozen_lem free = ground arith

  refused_lem :
      is_account_frozen user s ≡ true
      → freeze_account now user reason by notes s ≡ (err (conflict already_frozen), s)
  unfolding freeze_account
  refused_lem frozen = ground arith

  frozen_after :
      (other : ℕ)
      → is_account_frozen other (frozen_state now user reason by notes s)
        ≡ (is_account_frozen other s || other == user)
  unfolding is_account_frozen
  frozen_after other =
      is_some-find-append other (freeze_row now user reason by notes s) s.rows ∙ ground arith

-- Freezing an account that is not frozen succeeds: it is frozen afterwards, a second freeze is then
-- refused and writes nothing, and any other account is frozen exactly if it was.
pub freeze_account_lem :
    (now user : ℕ) (reason : String) (by : ℕ) (notes : Option String) (s : State)
    → is_account_frozen user s ≡ false
    → (f : AccountFreeze) × (s' : State) × (freeze_account now user reason by notes s ≡ (ok f, s'))
      × ((later : ℕ) (reason' : String) (by' : ℕ) (notes' : Option String)
          → freeze_account later user reason' by' notes' s' ≡ (err (conflict already_frozen), s'))
      × ((other : ℕ) → is_account_frozen other s' ≡ (is_account_frozen other s || other == user))
freeze_account_lem now user reason by notes s free =
    let kept = frozen_after now user reason by notes s in
    (
      _,
      _,
      frozen_lem now user reason by notes s free,
      (λ later reason' by' notes'.
          refused_lem later user reason' by' notes' _ (kept user ∙ ground arith)),
      kept,
    )

-- The active freeze of a frozen state is the one just added, and lifting it leaves none.
find_added :
    (user : ℕ) (f : AccountFreeze) (rows : List AccountFreeze)
    → find (is_active_of user) rows ≡ none
    → is_active_of user f ≡ true
    → find (is_active_of user) (rows ++ f ∷ []) ≡ some f
find_added user f [] h k = ground arith
find_added user f (g ∷ gs) h k = ground (arith, find_added user f gs)

find_lifted :
    (user id : ℕ) (f y : AccountFreeze) (rows : List AccountFreeze)
    → find (is_active_of user) rows ≡ none
    → is_active_of user y ≡ false
    → (f.id == id) ≡ true
    → find (is_active_of user) (update_where (λ r. r.id == id) (λ _. y) (rows ++ f ∷ [])) ≡ none
find_lifted user id f y [] h k l = ground arith
find_lifted user id f y (g ∷ gs) h k l = ground (arith, find_lifted user id f y gs)

lift_lem :
    (now user by : ℕ) (notes : Option String) (s : State) (f : AccountFreeze)
    → active_freeze user s ≡ some f
    → unfreeze_account now user by notes s ≡ (
      ok (lifted now by notes f),
      record s { rows = update_where (λ r. r.id == f.id) (λ _. lifted now by notes f) s.rows },
    )
unfolding unfreeze_account
lift_lem now user by notes s f p = ground arith

no_freeze_lem :
    (now user by : ℕ) (notes : Option String) (s : State)
    → active_freeze user s ≡ none
    → unfreeze_account now user by notes s ≡ (err (not_found no_active_freeze), s)
unfolding unfreeze_account
no_freeze_lem now user by notes s p = ground arith

none_of_free :
    (user : ℕ) (s : State) → is_account_frozen user s ≡ false → active_freeze user s ≡ none
unfolding is_account_frozen
none_of_free user s free = ground arith

free_of_none :
    (user : ℕ) (s : State) → active_freeze user s ≡ none → is_account_frozen user s ≡ false
unfolding is_account_frozen
free_of_none user s e = ground arith

-- A freeze and an unfreeze of an account that was not frozen both succeed, and the account is not
-- frozen afterwards; another unfreeze is then refused.
pub freeze_account-unfreeze_account :
    (now later user by admin : ℕ) (reason : String) (notes note : Option String) (s : State)
    → is_account_frozen user s ≡ false
    → (f g : AccountFreeze) × (s₁ s₂ : State) × (freeze_account now user reason by notes s
        ≡ (ok f, s₁))
      × (unfreeze_account later user admin note s₁ ≡ (ok g, s₂))
      × (g.id ≡ f.id)
      × (is_account_frozen user s₂ ≡ false)
      × (unfreeze_account later user admin note s₂ ≡ (err (not_found no_active_freeze), s₂))
freeze_account-unfreeze_account now later user by admin reason notes note s free =
    let f = freeze_row now user reason by notes s in
    let s₁ = frozen_state now user reason by notes s in
    let none_before = none_of_free user s free in
    let added = find_added user f s.rows none_before (ground arith) in
    let gone =
      find_lifted user s.next_id f (lifted later admin note f) s.rows none_before (ground arith)
        (ground arith) in
    (
      f,
      lifted later admin note f,
      s₁,
      _,
      frozen_lem now user reason by notes s free,
      lift_lem later user admin note s₁ f added,
      refl,
      free_of_none user _ gone,
      no_freeze_lem later user admin note _ gone,
    )
