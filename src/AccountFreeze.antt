-- ===== src/AccountFreeze.antt =====
-- src/modules/account-freeze/services/account-freeze.service.ts.
pub mod Laws
use Prim.Native.String.{String}
use nexa_fx_js.Base.{
  ℕ, ◌+◌, Bool, true, false, ◌&&◌, Option, none, some, List, [], ◌∷◌, ◌++◌, ◌==◌, if◌then◌else◌,
  find, filter, update_where, is_some,
}
use nexa_fx_js.Base.Action.{
  Action, Result, ok, err, Error, conflict, not_found, already_frozen, no_active_freeze, ◌>>=◌,
  ◌>>◌, get, pure, throw_if, or_throw, modify,
}

pub record AccountFreeze : Type 0 where
  pub id : ℕ
  pub user_id : ℕ
  pub reason : String
  pub frozen_by : ℕ
  pub notes : Option String
  pub frozen_at : ℕ
  pub is_active : Bool
  pub unfrozen_by : Option ℕ
  pub unfrozen_at : Option ℕ

pub record State : Type 0 where
  pub rows : List AccountFreeze
  pub next_id : ℕ

abbrev pub is_active_of : ℕ → AccountFreeze → Bool
is_active_of user f = (f.user_id == user) && f.is_active

-- `findOne({ where: { userId, isActive: true } })`
abbrev pub active_freeze : ℕ → State → Option AccountFreeze
active_freeze user s = find (is_active_of user) s.rows

unfoldable pub is_account_frozen : ℕ → State → Bool
is_account_frozen user s = is_some (active_freeze user s)

unfoldable pub freeze_account :
    (now user : ℕ) → String → ℕ → Option String → Action State AccountFreeze
freeze_account now user reason frozen_by notes = do
  frozen ← get (is_account_frozen user)
  throw_if frozen (conflict already_frozen)
  id ← get (λ s. s.next_id)
  let freeze : AccountFreeze = record {
    id = id;
    user_id = user;
    reason = reason;
    frozen_by = frozen_by;
    notes = notes;
    frozen_at = now;
    is_active = true;
    unfrozen_by = none;
    unfrozen_at = none;
  }
  modify (λ s. record s { rows = s.rows ++ freeze ∷ []; next_id = s.next_id + 1 })
  pure freeze

-- `if (notes)`: an empty text leaves the notes alone.
abbrev pub noted : Option String → Option String → Option String
noted none old = old
noted (some String.[]) old = old
noted (some t) old = some t

abbrev pub lifted : (now unfrozen_by : ℕ) → Option String → AccountFreeze → AccountFreeze
lifted now unfrozen_by notes f = record f {
  is_active = false;
  unfrozen_by = some unfrozen_by;
  unfrozen_at = some now;
  notes = noted notes f.notes;
}

unfoldable pub unfreeze_account :
    (now user unfrozen_by : ℕ) → Option String → Action State AccountFreeze
unfreeze_account now user unfrozen_by notes = do
  active ← get (active_freeze user)
  freeze ← or_throw active (not_found no_active_freeze)
  let saved = lifted now unfrozen_by notes freeze
  modify (λ s. record s { rows = update_where (λ f. f.id == saved.id) (λ _. saved) s.rows })
  pure saved

abbrev pub get_freeze_history : ℕ → State → List AccountFreeze
get_freeze_history user s = filter (λ f. f.user_id == user) s.rows
