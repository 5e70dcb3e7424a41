-- ===== src/PasswordReset/Budget.antt =====
-- The attempts that the rows of src/auth/password-reset.service.ts leave to a token.
use nexa_fx_js.Base.{
  ℕ, ◌+◌, ◌-◌, ◌≤◌, ◌<◌, ◌≡◌, sym, subst, Bool, true, false, ◌&&◌, not, some, [], ◌∷◌, ◌++◌, ◌==◌,
  if◌then◌else◌, find, filter, update_where, arith, inl, inr, Bool-cases,
}
use nexa_fx_js.Base.Rows.{has_key, Distinct, update_absent, absent_of_find}
use nexa_fx_js.PasswordReset.{PasswordResetToken, Tokens, max_attempts}

-- The attempts that a row leaves to the tokens of hash `h`.
abbrev pub left : ℕ → PasswordResetToken → ℕ
left h t = if (t.token_hash == h) && not t.used then max_attempts - t.attempts else 0

abbrev pub budget : ℕ → Tokens → ℕ
budget h [] = 0
budget h (t ∷ ts) = left h t + budget h ts

-- The ids are a primary key.
abbrev pub has_id : ℕ → Tokens → Bool
has_id = has_key (λ t. t.id)

abbrev pub IsDistinct : Tokens → Type 0
IsDistinct = Distinct (λ t. t.id)

module _ (p : PasswordResetToken → Bool) where
  pub budget-filter : (h : ℕ) (ts : Tokens) → budget h (filter p ts) ≤ budget h ts
  budget-filter h [] = omega arith
  budget-filter h (t ∷ ts) =
      let rest = budget-filter h ts in
      elim (Bool-cases (p t)) [
        | inl stays ↦ rw (stays) (omega arith)
        | inr goes ↦ rw (goes) (omega arith)
      ]

pub budget-append :
    (h : ℕ) (ts : Tokens) (x : PasswordResetToken)
    → budget h (ts ++ x ∷ []) ≡ budget h ts + left h x
budget-append h [] x = omega arith
budget-append h (t ∷ ts) x = omega (arith, budget-append h ts x)

abbrev pub count : (h g : ℕ) → ℕ
count h g = if g == h then 1 else 0

abbrev pub counted : PasswordResetToken → Tokens → Tokens
counted row ts =
    update_where (λ t. t.id == row.id) (λ t. record t { attempts = row.attempts + 1 }) ts

left_counted :
    (h : ℕ) (row : PasswordResetToken)
    → row.used ≡ false
    → row.attempts < max_attempts
    → count h row.token_hash + left h (record row { attempts = row.attempts + 1 }) ≤ left h row
left_counted h row free low = ground arith

budget-counted_head :
    (h : ℕ) (row : PasswordResetToken) (ts : Tokens)
    → has_id row.id ts ≡ false
    → row.used ≡ false
    → row.attempts < max_attempts
    → count h row.token_hash + budget h (counted row (row ∷ ts)) ≤ budget h (row ∷ ts)
budget-counted_head h row ts k free low =
    let same : (row.id == row.id) ≡ true = ground arith in
    rw (same, update_absent (λ t. t.id) row.id (λ t. record t { attempts = row.attempts + 1 }) ts k)
      (omega (arith, left_counted h row free low))

-- One attempt more, of a row that a search for hash `g` has found.
pub budget-counted :
    (h g : ℕ) (row : PasswordResetToken) (ts : Tokens)
    → IsDistinct ts
    → find (λ t. t.token_hash == g) ts ≡ some row
    → row.used ≡ false
    → row.attempts < max_attempts
    → count h g + budget h (counted row ts) ≤ budget h ts
budget-counted h g row [] v found free low = cc
budget-counted h g row (t ∷ ts) (k, v) found free low = elim (Bool-cases (t.token_hash == g)) [
  | inl hit ↦
      let same : t ≡ row = ground arith in
      let here : row.token_hash ≡ g = ground arith in
      subst (λ x. count h x + budget h (counted row (t ∷ ts)) ≤ budget h (t ∷ ts)) here
        (subst (λ r. count h row.token_hash + budget h (counted row (r ∷ ts)) ≤ budget h (r ∷ ts))
          (sym same) (budget-counted_head h row ts (ground arith) free low))
  | inr miss ↦
      let rest = budget-counted h g row ts v (rw (miss) at found) free low in
      let other : (t.id == row.id) ≡ false =
        let ne =
          absent_of_find (λ u. u.id) (λ u. u.token_hash == g) t.id row ts (rw (miss) at found) k in
        ground arith in
      rw (other) (omega arith)
]
