-- ===== src/Base/Action.antt =====
-- A service method: it reads and writes a state and may throw. What was written before a throw
-- stays written, unless a database transaction rolls it back.
use mathlib.Core.Path.{◌≡◌, refl, ap}
use mathlib.Core.Logic.{◌⊎◌, inl, inr}
use mathlib.Core.Bool.{Bool, true, false}
use mathlib.Core.Option.{Option, none, some}
use native.Mathlib.Omega.{arith}
use nexa_fx_js.Base.Tests.{if◌then◌else◌}

-- The messages of the exceptions that the modelled methods throw.
pub data Reason : Type 0 where
  unsupported_currency insufficient_balance insufficient_with_fee : Reason
  terms_not_accepted account_deactivated amount_not_positive same_party same_currency : Reason
  over_single_limit over_daily_limit over_monthly_limit destination_not_funded : Reason
  transaction_not_found not_sender not_pending already_reversed user_not_found : Reason
  wallet_not_found used_before_init database_fault bulk_payment_not_found screening_not_found
        limit_not_found :
      Reason
  dispute_not_found dispute_closed not_completed : Reason
  document_not_found already_reviewed not_rejected submission_exists bad_document_url : Reason
  already_frozen no_active_freeze key_required key_too_short key_too_long key_reused : Reason
  no_otp otp_used otp_expired otp_attempts_exceeded : Reason
  program_inactive already_referred code_not_found max_referrals referral_not_found : Reason
  not_pending_referral not_qualified token_revoked token_expired : Reason
  invalid_credentials two_factor_required account_locked undefined_variable two_factor_wrong
        password_wrong confirmation_required invalid_access_token account_not_found
        balance_not_zero :
      Reason
  upgrade_not_found upgrade_not_pending invalid_tier tier_not_higher upgrade_exists : Reason
  no_review_ids too_many_review_ids too_many_endpoints bad_url local_url private_address dns_failed
        endpoint_not_found delivery_failed delivery_not_found :
      Reason
  approval_not_found approval_not_pending own_request email_in_use missing_delete_column : Reason
  reset_token_not_found reset_token_used reset_token_expired reset_attempts_exceeded : Reason
  key_name_taken api_key_not_found bad_api_key api_key_expired : Reason
  providers_down not_successful already_rolled_back ip_not_allowed already_deactivated
        no_active_deactivation password_policy reset_link_invalid already_verified
        verification_link_invalid :
      Reason

-- Nest's exception classes; `error` is any other JavaScript error.
pub data Error : Type 0 where
  bad_request unauthorized forbidden not_found conflict unprocessable : Reason → Error
  service_unavailable error : Reason → Error

pub data Result {ℓ} (A : Type ℓ) : Type ℓ where
  ok : A → Result A
  err : Error → Result A

abbrev pub Action {ℓ} : Type ℓ → Type ℓ → Type ℓ
Action S A = S → Result A × S

module _ {ℓ} {S A : Type ℓ} where
  abbrev pub pure : A → Action S A
  pure a s = (ok a, s)

  abbrev pub throw : Error → Action S A
  throw e s = (err e, s)

  abbrev pub get : (S → A) → Action S A
  get f s = (ok (f s), s)

  -- `if (!row) throw …`
  abbrev pub or_throw : Option A → Error → Action S A
  or_throw none e s = (err e, s)
  or_throw (some a) e s = (ok a, s)

  -- `dataSource.transaction`: the state of a failed body is forgotten.
  abbrev pub roll_back : S → Result A × S → Result A × S
  roll_back s (ok a, s') = (ok a, s')
  roll_back s (err e, s') = (err e, s)

abbrev pub after {ℓ} : {S A B : Type ℓ} → (A → Action S B) → Result A × S → Result B × S
after f (ok a, s) = f a s
after f (err e, s) = (err e, s)

infixl 5 ◌>>=◌ ◌>>◌
abbrev pub ◌>>=◌ {ℓ} : {S A B : Type ℓ} → Action S A → (A → Action S B) → Action S B
◌>>=◌ m f s = after f (m s)

abbrev pub ◌>>◌ : {S A B : Type 0} → Action S A → Action S B → Action S B
m >> k = m >>= λ _. k

-- `if (b) throw e;`
abbrev pub throw_if : {S : Type 0} → Bool → Error → Action S (Unit {0})
throw_if b e s = (if b then err e else ok tt, s)

abbrev pub modify : {S : Type 0} → (S → S) → Action S (Unit {0})
modify f s = (ok tt, f s)

-- The exceptions of a pure check.
abbrev pub lift : {S A : Type 0} → Result A → Action S A
lift r s = (r, s)

abbrev pub IsOk : {A : Type 0} → Result A → Type 0
IsOk (ok a) = Unit
IsOk (err e) = ⊥

pub Result-cases {ℓ} :
    {A : Type ℓ} (r : Result A) → ((a : A) × (r ≡ ok a)) ⊎ ((e : Error) × (r ≡ err e))
Result-cases (ok a) = inl (a, refl)
Result-cases (err e) = inr (e, refl)

module _ {S A B : Type 0} (m : Action S A) (f : A → Action S B) (s : S) where
  -- A step whose outcome is known, in a `do` block.
  pub bind_ok : {a : A} {s' : S} → m s ≡ (ok a, s') → (m >>= f) s ≡ f a s'
  bind_ok h = ap (after f) h

  pub bind_err : {e : Error} {s' : S} → m s ≡ (err e, s') → (m >>= f) s ≡ (err e, s')
  bind_err h = ap (after f) h

-- What an action that succeeded has passed.
module _ {S A : Type 0} {s : S} {r : A × S} where
  pub passed_throw_if :
      (b : Bool) (e : Error) (f : Unit {0} → Action S A)
      → (throw_if b e >>= f) s ≡ (ok r.0, r.1)
      → (b ≡ false) × (f tt s ≡ (ok r.0, r.1))
  passed_throw_if true e f h = cc
  passed_throw_if false e f h = (refl, h)

  pub passed_or_throw :
      {B : Type 0} (o : Option B) (e : Error) (f : B → Action S A)
      → (or_throw o e >>= f) s ≡ (ok r.0, r.1)
      → (b : B) × (o ≡ some b) × (f b s ≡ (ok r.0, r.1))
  passed_or_throw none e f h = cc
  passed_or_throw (some b) e f h = (b, refl, h)

pub after_ok :
    {S A B : Type 0} (f : A → Action S B) (r : Result A × S) (a : A)
    → r.0 ≡ ok a
    → after f r ≡ f a r.1
after_ok f (ok b, s) a h = let e : b ≡ a = ground arith in ap (λ x. f x s) e
after_ok f (err e, s) a h = cc
