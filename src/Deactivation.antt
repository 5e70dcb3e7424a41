-- ===== src/Deactivation.antt =====
-- src/modules/user-deactivation/services/user-deactivation.service.ts with its entity. Ids that the
-- table draws are arguments.
pub mod Switch
pub mod Blocks
use Prim.Native.String.{String}
use nexa_fx_js.Base.{
  ℕ, Bool, true, false, ◌&&◌, Option, none, some, List, [], ◌∷◌, ◌++◌, ◌==◌, if◌then◌else◌, find,
  filter, update_where, is_some,
}
use nexa_fx_js.Base.Action.{
  Action, Result, ok, err, conflict, not_found, already_deactivated, no_active_deactivation, ◌>>=◌,
  ◌>>◌, get, pure, throw_if, or_throw, modify,
}

pub record UserDeactivation : Type 0 where
  pub id : ℕ
  pub user_id : ℕ
  pub reason : Option String
  pub deactivated_by : Option ℕ
  pub reactivated_by : Option ℕ
  pub deactivated_at : ℕ
  pub reactivated_at : Option ℕ
  pub is_active : Bool

abbrev pub Rows : Type 0
Rows = List UserDeactivation

-- `where: { userId, isActive: true }`
abbrev pub is_active_of : ℕ → UserDeactivation → Bool
is_active_of user r = (r.user_id == user) && r.is_active

abbrev pub active_row : ℕ → Rows → Option UserDeactivation
active_row user rows = find (is_active_of user) rows

abbrev pub new_row : (now id user : ℕ) → Option String → ℕ → UserDeactivation
new_row now id user reason admin = record {
  id = id;
  user_id = user;
  reason = reason;
  deactivated_by = some admin;
  reactivated_by = none;
  deactivated_at = now;
  reactivated_at = none;
  is_active = true;
}

unfoldable pub deactivate : (now id user : ℕ) → Option String → ℕ → Action Rows UserDeactivation
deactivate now id user reason admin = do
  existing ← get (active_row user)
  throw_if (is_some existing) (conflict already_deactivated)
  modify (λ rows. rows ++ new_row now id user reason admin ∷ [])
  pure (new_row now id user reason admin)

abbrev pub ended : (now admin : ℕ) → UserDeactivation → UserDeactivation
ended now admin r = record r {
  is_active = false;
  reactivated_by = some admin;
  reactivated_at = some now;
}

unfoldable pub reactivate : (now user admin : ℕ) → Action Rows UserDeactivation
reactivate now user admin = do
  row ← or_throw (← get (active_row user)) (not_found no_active_deactivation)
  modify (update_where (λ r. r.id == row.id) (λ _. ended now admin row))
  pure (ended now admin row)

unfoldable pub is_user_deactivated : Rows → ℕ → Bool
is_user_deactivated rows user = is_some (active_row user rows)

-- Newest first, as the rows are stored in the order of their dates.
unfoldable pub get_history : ℕ → Rows → Rows
get_history user rows = reverse (filter (λ r. r.user_id == user) rows)
  where
    reverse : Rows → Rows
    reverse [] = []
    reverse (r ∷ rs) = reverse rs ++ r ∷ []
