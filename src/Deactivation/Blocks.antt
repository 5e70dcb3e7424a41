-- ===== src/Deactivation/Blocks.antt =====
-- What src/transactions/transactions.service.ts and src/auth/auth.service.ts refuse to a user whom
-- src/modules/user-deactivation has deactivated.
use Prim.Native.String.{String}
use nexa_fx_js.Base.{ℕ, ◌≡◌, refl, true, false, Option, Bool-cases, inl, inr}
use nexa_fx_js.Base.Action.{ok, err, Error}
use nexa_fx_js.Base.Rows.{has_key}
use nexa_fx_js.Deactivation.{UserDeactivation, Rows, deactivate, is_user_deactivated}
use nexa_fx_js.Deactivation.Switch.{IsSound, deactivate-IsSwitched}
use nexa_fx_js.Transactions.Data.{Env, State}
use nexa_fx_js.Transactions.Transfer.{TransferDto, admit_transfer, transfer}
use nexa_fx_js.Login.{User, finish_login}
use nexa_fx_js.Login

transfer_blocked :
    (env : Env) (dto : TransferDto) (s : State)
    → env.is_deactivated dto.sender_id ≡ true
    → (e : Error) × (transfer env dto s ≡ (err e, s))
unfolding transfer admit_transfer
transfer_blocked env dto s off = elim (Bool-cases (env.terms_accepted dto.sender_id)) [
  | inl accepted ↦ rw (accepted, off) (_, refl)
  | inr refused ↦ rw (refused) (_, refl)
]

entry_blocked :
    (env : Login.Env) (u : User) (s : Login.State)
    → env.is_deactivated u.id ≡ true
    → (e : Error) × (finish_login env u s ≡ (err e, s))
unfolding finish_login
entry_blocked env u s off = elim (Bool-cases (env.terms_accepted u.id)) [
  | inl accepted ↦ rw (accepted, off) (_, refl)
  | inr refused ↦ rw (refused) (_, refl)
]

-- After a deactivation that succeeded, on a sound table and with an id that no row has, every transfer that
-- the user sends, and what follows the password of every log-in of the user, throws and changes nothing, as
-- long as the services ask the table that the deactivation left.
pub deactivated_blocked :
    (now id user : ℕ) (reason : Option String) (admin : ℕ) (rows : Rows) (row : UserDeactivation)
    (rows' : Rows)
    → IsSound rows
    → has_key (λ r. r.id) id rows ≡ false
    → deactivate now id user reason admin rows ≡ (ok row, rows')
    → (env : Env) (dto : TransferDto) (s : State) → env.is_deactivated ≡ is_user_deactivated rows'
    → dto.sender_id ≡ user
    → (gate : Login.Env) (u : User) (t : Login.State)
    → gate.is_deactivated ≡ is_user_deactivated rows'
    → u.id ≡ user
    → ((e : Error) × (transfer env dto s ≡ (err e, s)))
      × ((e : Error) × (finish_login gate u t ≡ (err e, t)))
deactivated_blocked now id user reason admin rows row rows' v new done env dto s asks sender gate u
      t asks' same =
    let (_, on, _, _) = rw (done) at (deactivate-IsSwitched now id user reason admin rows v new) in
    (
      transfer_blocked env dto s (rw (asks, sender) on),
      entry_blocked gate u t (rw (asks', same) on),
    )
