-- ===== src/PasswordReset/Outcome.antt =====
-- `validateToken` of src/auth/password-reset.service.ts on each of its branches.
use nexa_fx_js.Base.{
  ℕ, ◌≡◌, refl, ◌+◌, ◌≤◌, ◌<◌, true, false, Option, none, some, ◌==◌, ltb, leb, update_where, arith,
  inl, inr, Option-cases, Bool-cases,
}
use nexa_fx_js.Base.Action.{
  Result, ok, err, bad_request, not_found, reset_token_not_found, reset_token_used,
  reset_token_expired, reset_attempts_exceeded,
}
use nexa_fx_js.PasswordReset.{
  PasswordResetToken, Tokens, max_attempts, delete_where, validate_row, row_of, validate_token,
}

-- How a validation ends, by the row `o` that is stored under the token's hash.
pub data IsValidated (now : ℕ) (o : Option PasswordResetToken) (ts : Tokens)
    : Result ℕ × Tokens → Type 0 where
  is_missing : o ≡ none → IsValidated now o ts (err (not_found reset_token_not_found), ts)
  was_used :
      (row : PasswordResetToken)
      → o ≡ some row
      → row.used ≡ true
      → IsValidated now o ts (err (bad_request reset_token_used), ts)
  has_expired :
      (row : PasswordResetToken)
      → o ≡ some row
      → row.used ≡ false
      → row.expires_at < now
      → IsValidated now o ts
          (err (bad_request reset_token_expired), delete_where (λ t. t.id == row.id) ts)
  was_tried :
      (row : PasswordResetToken)
      → o ≡ some row
      → row.used ≡ false
      → now ≤ row.expires_at
      → max_attempts ≤ row.attempts
      → IsValidated now o ts
          (err (bad_request reset_attempts_exceeded), delete_where (λ t. t.id == row.id) ts)
  is_counted :
      (row : PasswordResetToken)
      → o ≡ some row
      → row.used ≡ false
      → now ≤ row.expires_at
      → row.attempts < max_attempts
      → IsValidated now o ts (
        ok row.user_id,
        update_where (λ t. t.id == row.id) (λ t. record t { attempts = row.attempts + 1 }) ts,
      )

row-IsValidated :
    (now : ℕ) (row : PasswordResetToken) (ts : Tokens)
    → IsValidated now (some row) ts (validate_row now row ts)
unfolding validate_row
row-IsValidated now row ts = elim (Bool-cases row.used) [
  | inl used ↦ simp used (was_used row refl used)
  | inr fresh ↦ elim (Bool-cases (ltb row.expires_at now)) [
    | inl late ↦ simp (fresh, late) (has_expired row refl fresh (ground arith))
    | inr good ↦ elim (Bool-cases (leb max_attempts row.attempts)) [
      | inl tried ↦
          simp (fresh, good, tried) (was_tried row refl fresh (ground arith) (ground arith))
      | inr left ↦
          simp (fresh, good, left) (is_counted row refl fresh (ground arith) (ground arith))
    ]
  ]
]

-- A token is accepted, and then counts one attempt more, if its row is not used, has not expired and
-- counts fewer than three attempts; otherwise the call throws, and the row of a token that is too
-- late or was tried too often is deleted.
pub validate_token-IsValidated :
    (hash : ℕ → ℕ) (now raw_token : ℕ) (ts : Tokens)
    → IsValidated now (row_of hash raw_token ts) ts (validate_token hash now raw_token ts)
unfolding validate_token
validate_token-IsValidated hash now raw_token ts = elim (Option-cases (row_of hash raw_token ts)) [
  | inl missing ↦ rw (missing) (is_missing refl)
  | inr (row, found) ↦ rw (found) (row-IsValidated now row ts)
]
