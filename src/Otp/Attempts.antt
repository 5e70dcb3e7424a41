-- ===== src/Otp/Attempts.antt =====
-- How often a code can be tried.
use nexa_fx_js.Base.{
  ℕ, ◌+◌, ◌-◌, ◌≤◌, ◌≡◌, refl, Bool, true, false, none, some, List, [], ◌∷◌, ◌==◌, ltb, leb,
  if◌then◌else◌, arith, find, update_where, find-update,
}
use nexa_fx_js.Base.Action.{Result, ok, err, unauthorized, otp_used}
use nexa_fx_js.Otp.{Otp, State, max_attempts, verify_otp, verify, is_for}

abbrev is_answer : Result Bool → Bool
is_answer (ok b) = true
is_answer (err e) = false

-- The number of tries, each a time and a code, that are told whether the code is right.
abbrev pub answers : (ℕ → ℕ) → List (ℕ × ℕ) → Otp → ℕ
answers hash [] otp = 0
answers hash ((now, code) ∷ tries) otp =
    let (r, otp') = verify_otp hash now code otp in
    (if is_answer r then 1 else 0) + answers hash tries otp'

used_up :
    (hash : ℕ → ℕ) (tries : List (ℕ × ℕ)) (otp : Otp) (at : ℕ)
    → otp.used_at ≡ some at
    → answers hash tries otp ≡ 0
unfolding verify_otp
used_up hash [] otp at h = refl
used_up hash ((now, code) ∷ tries) otp at h = ground (arith, used_up hash tries otp at h)

-- Of any tries on a code, whenever and whatever they are, no more are answered than are left of the
-- five attempts; all later ones are refused.
pub answers_bounded :
    (hash : ℕ → ℕ) (tries : List (ℕ × ℕ)) (otp : Otp)
    → answers hash tries otp ≤ max_attempts - otp.attempts
unfolding verify_otp
answers_bounded hash [] otp = omega arith
answers_bounded hash ((now, code) ∷ tries) otp = ground (
  arith,
  answers_bounded hash tries otp,
  answers_bounded hash tries (record otp { attempts = otp.attempts + 1 }),
  used_up hash tries (record otp { used_at = some now }) now refl,
)

found_for :
    (user purpose : ℕ) (o : Otp) (os : List Otp)
    → find (is_for user purpose) os ≡ some o
    → is_for user purpose o ≡ true
found_for user purpose o [] e = ground arith
found_for user purpose o (p ∷ ps) e = ground (arith, found_for user purpose o ps)

accepted_lem :
    (hash : ℕ → ℕ) (now user code purpose : ℕ) (s : State) (o : Otp)
    → find (is_for user purpose) s.otps ≡ some o
    → o.used_at ≡ none
    → ltb o.expires_at now ≡ false
    → leb max_attempts o.attempts ≡ false
    → hash code ≡ o.code_hash
    → verify hash now user code purpose s ≡ (
      ok true,
      record s {
        otps = update_where (λ q. q.id == o.id) (λ _. record o { used_at = some now }) s.otps;
      },
    )
unfolding verify verify_otp
accepted_lem hash now user code purpose s o p q e f g = ground arith

refused_lem :
    (hash : ℕ → ℕ) (now user code purpose : ℕ) (s : State) (o : Otp) (at : ℕ)
    → find (is_for user purpose) s.otps ≡ some o
    → o.used_at ≡ some at
    → (verify hash now user code purpose s).0 ≡ err (unauthorized otp_used)
unfolding verify verify_otp
refused_lem hash now user code purpose s o at p q = ground arith

-- The right code of an unused row in time and with attempts left is accepted, and the next call for
-- that user and purpose is refused, whatever its code.
pub accepted_once :
    (hash : ℕ → ℕ) (now later user code again purpose : ℕ) (s : State) (o : Otp)
    → find (is_for user purpose) s.otps ≡ some o
    → o.used_at ≡ none
    → ltb o.expires_at now ≡ false
    → leb max_attempts o.attempts ≡ false
    → hash code ≡ o.code_hash
    → (s' : State) × (verify hash now user code purpose s ≡ (ok true, s'))
      × ((verify hash later user again purpose s').0 ≡ err (unauthorized otp_used))
accepted_once hash now later user code again purpose s o p q e f g =
    let spent = record o { used_at = some now } in
    (
      _,
      accepted_lem hash now user code purpose s o p q e f g,
      refused_lem hash later user again purpose _ spent now
          (find-update (is_for user purpose) (λ r. r.id == o.id) o spent s.otps p (ground arith)
            (found_for user purpose o s.otps p))
          refl,
    )
