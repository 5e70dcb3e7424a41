-- ===== src/Otp.antt =====
-- src/otp/otp.service.ts over the rows of `otp.entity.ts`, the newest first. The keyed hash and the
-- random code are parameters; the mail of a code is sent.
pub mod Attempts
use nexa_fx_js.Base.{
  ℕ, ◌+◌, ◌*◌, Bool, true, false, ◌&&◌, not, Option, none, some, List, [], ◌∷◌, ◌==◌, ltb, leb,
  if◌then◌else◌, find, filter, update_where, is_some,
}
use nexa_fx_js.Base.Action.{
  Action, Result, ok, err, Error, unauthorized, no_otp, otp_used, otp_expired,
  otp_attempts_exceeded,
}

-- A purpose is the number of its enum member.
pub record Otp : Type 0 where
  pub id : ℕ
  pub user_id : ℕ
  pub code_hash : ℕ
  pub purpose : ℕ
  pub expires_at : ℕ
  pub used_at : Option ℕ
  pub attempts : ℕ

pub record State : Type 0 where
  pub otps : List Otp
  pub next_id : ℕ

abbrev pub max_attempts : ℕ
max_attempts = 5

abbrev pub is_for : ℕ → ℕ → Otp → Bool
is_for user purpose o = (o.user_id == user) && (o.purpose == purpose)

-- The `undefined` of the `where` restricts nothing: all codes of the user for the purpose are deleted.
unfoldable pub generate : (hash : ℕ → ℕ) (expiry now code user purpose : ℕ) → State → State
generate hash expiry now code user purpose s = record {
  otps =
      record {
        id = s.next_id;
        user_id = user;
        code_hash = hash code;
        purpose = purpose;
        expires_at = now + expiry * 1000;
        used_at = none;
        attempts = 0;
      }
      ∷ filter (λ o. not (is_for user purpose o)) s.otps;
  next_id = s.next_id + 1;
}

-- What `verify` does with the row it finds.
unfoldable pub verify_otp : (hash : ℕ → ℕ) (now code : ℕ) → Otp → Result Bool × Otp
verify_otp hash now code otp =
    if is_some otp.used_at
    then (err (unauthorized otp_used), otp)
    else if ltb otp.expires_at now
    then (err (unauthorized otp_expired), otp)
    else if leb max_attempts otp.attempts
    then (err (unauthorized otp_attempts_exceeded), otp)
    else if hash code == otp.code_hash
    then (ok true, record otp { used_at = some now })
    else (ok false, record otp { attempts = otp.attempts + 1 })

unfoldable pub verify : (hash : ℕ → ℕ) (now user code purpose : ℕ) → Action State Bool
verify hash now user code purpose s = elim (find (is_for user purpose) s.otps) [
  | none ↦ (err (unauthorized no_otp), s)
  | some otp ↦
      let (r, otp') = verify_otp hash now code otp in
      (r, record s { otps = update_where (λ o. o.id == otp.id) (λ _. otp') s.otps })
]

abbrev pub invalidate : (now id : ℕ) → State → State
invalidate now id s = record s {
  otps = update_where (λ o. o.id == id) (λ o. record o { used_at = some now }) s.otps;
}
