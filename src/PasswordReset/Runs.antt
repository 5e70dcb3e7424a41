-- ===== src/PasswordReset/Runs.antt =====
-- How often a token of src/auth/password-reset.service.ts is accepted.
use nexa_fx_js.Base.{
  ℕ, ◌+◌, ◌≤◌, ◌≡◌, refl, Bool, true, false, ◌&&◌, not, none, [], ◌∷◌, ◌==◌, find, filter,
  update_where, arith, ltb, Bool-cases, inl, inr,
}
use nexa_fx_js.Base.Action.{Result, ok, err}
use nexa_fx_js.Base.Rows.{has_key-filter, Distinct-filter, Distinct-update, Distinct-append}
use nexa_fx_js.PasswordReset.{
  PasswordResetToken, Tokens, Fresh, delete_where, new_token, create_reset_token, validate_token,
  consume_token, purge_expired_tokens, row_of,
}
use nexa_fx_js.PasswordReset.Outcome.{
  IsValidated, is_missing, was_used, has_expired, was_tried, is_counted, validate_token-IsValidated,
}
use nexa_fx_js.PasswordReset.Budget.{
  left, budget, has_id, IsDistinct, budget-filter, budget-append, count, budget-counted,
}

abbrev pub accepted : (h g : ℕ) → Result ℕ → ℕ
accepted h g (ok a) = count h g
accepted h g (err e) = 0

-- Calls, from the table `s`, none of which draws a token of hash `h` again; the number counts the
-- validations of tokens of that hash that were accepted.
pub data Run (hash : ℕ → ℕ) (h : ℕ) (s : Tokens) : ℕ → Tokens → Type 0 where
  start : Run hash h s 0 s
  creates :
      {n : ℕ} {t : Tokens}
      → Run hash h s n t
      → (now : ℕ) (fresh : Fresh) (user : ℕ) → has_id fresh.id t ≡ false
      → ¬ (hash fresh.raw_token ≡ h)
      → Run hash h s n (create_reset_token hash now fresh user t).1
  validates :
      {n : ℕ} {t : Tokens}
      → Run hash h s n t
      → (now raw_token : ℕ)
      → Run hash h s
          (n + accepted h (hash raw_token) (validate_token hash now raw_token t).0)
          (validate_token hash now raw_token t).1
  consumes :
      {n : ℕ} {t : Tokens}
      → Run hash h s n t
      → (raw_token : ℕ) → Run hash h s n (consume_token hash raw_token t).1
  purges :
      {n : ℕ} {t : Tokens}
      → Run hash h s n t
      → (now : ℕ) → Run hash h s n (purge_expired_tokens now t).1

-- What is spent and what is left, together.
record IsPaid (h n : ℕ) (s t : Tokens) : Type 0 where
  distinct : IsDistinct t
  paid : n + budget h t ≤ budget h s

module _ (h : ℕ) where
  deleted-IsPaid :
      (p : PasswordResetToken → Bool) (t : Tokens) → IsDistinct t → IsPaid h 0 t (delete_where p t)
  deleted-IsPaid p t v = record {
    distinct = Distinct-filter (λ r. r.id) (λ r. not (p r)) t v;
    paid = omega (arith, budget-filter (λ r. not (p r)) h t);
  }

  validated-IsPaid :
      (now g : ℕ) (t : Tokens) (r : Result ℕ × Tokens)
      → IsDistinct t
      → IsValidated now (find (λ x. x.token_hash == g) t) t r
      → IsPaid h (accepted h g r.0) t r.1
  validated-IsPaid now g t _ v (is_missing e) = record { distinct = v; paid = omega arith }
  validated-IsPaid now g t _ v (was_used row e used) = record { distinct = v; paid = omega arith }
  validated-IsPaid now g t _ v (has_expired row e free late) =
      deleted-IsPaid (λ x. x.id == row.id) t v
  validated-IsPaid now g t _ v (was_tried row e free good tried) =
      deleted-IsPaid (λ x. x.id == row.id) t v
  validated-IsPaid now g t _ v (is_counted row e free good low) = record {
    distinct =
        Distinct-update (λ r. r.id) (λ x. x.id == row.id)
          (λ x. record x { attempts = row.attempts + 1 }) (λ x. refl) t v;
    paid = budget-counted h g row t v e free low;
  }

  left_used : (t : PasswordResetToken) → left h (record t { used = true }) ≤ left h t
  left_used t = ground arith

  budget_used :
      (p : PasswordResetToken → Bool) (t : Tokens)
      → budget h (update_where p (λ r. record r { used = true }) t) ≤ budget h t
  budget_used p [] = omega arith
  budget_used p (r ∷ t) = elim (Bool-cases (p r)) [
    | inl hit ↦ rw (hit) (omega (arith, left_used r, budget_used p t))
    | inr miss ↦ rw (miss) (omega (arith, budget_used p t))
  ]

  left_other :
      (hash : ℕ → ℕ) (now : ℕ) (fresh : Fresh) (user : ℕ)
      → ¬ (hash fresh.raw_token ≡ h)
      → left h (new_token hash now fresh user) ≡ 0
  left_other hash now fresh user k = ground arith

  budget_absent : (t : Tokens) → find (λ r. r.token_hash == h) t ≡ none → budget h t ≡ 0
  budget_absent [] e = refl
  budget_absent (r ∷ t) e = ground (arith, budget_absent t)

module _ (hash : ℕ → ℕ) (h : ℕ) where
  created-IsPaid :
      (now : ℕ) (fresh : Fresh) (user : ℕ) (t : Tokens)
      → IsDistinct t
      → has_id fresh.id t ≡ false
      → ¬ (hash fresh.raw_token ≡ h)
      → IsPaid h 0 t (create_reset_token hash now fresh user t).1
  unfolding create_reset_token
  created-IsPaid now fresh user t v new other =
      let p = λ (r : PasswordResetToken). not ((r.user_id == user) && not r.used) in
      let x = new_token hash now fresh user in
      record {
        distinct =
            Distinct-append (λ r. r.id) (filter p t) x (Distinct-filter (λ r. r.id) p t v)
              (has_key-filter (λ r. r.id) p fresh.id t new);
        paid = omega (
          arith,
          budget-append h (filter p t) x,
          budget-filter p h t,
          left_other h hash now fresh user other,
        );
      }

  run-IsPaid : (s : Tokens) (n : ℕ) (t : Tokens) → Run hash h s n t → IsDistinct s → IsPaid h n s t
  unfolding consume_token purge_expired_tokens
  run-IsPaid s _ _ start v = record { distinct = v; paid = omega arith }
  run-IsPaid s n _ (creates {t = t} run now fresh user new other) v =
      let before = run-IsPaid s n t run v in
      let made = created-IsPaid now fresh user t before.distinct new other in
      record { distinct = made.distinct; paid = omega (arith, before.paid, made.paid) }
  run-IsPaid s _ _ (validates {n} {t} run now raw_token) v =
      let before = run-IsPaid s n t run v in
      let made =
        validated-IsPaid h now (hash raw_token) t (validate_token hash now raw_token t)
          before.distinct (validate_token-IsValidated hash now raw_token t) in
      record { distinct = made.distinct; paid = omega (arith, before.paid, made.paid) }
  run-IsPaid s n _ (consumes {t = t} run raw_token) v =
      let before = run-IsPaid s n t run v in
      record {
        distinct =
            Distinct-update (λ r. r.id) (λ r. r.token_hash == hash raw_token)
              (λ r. record r { used = true }) (λ r. refl) t before.distinct;
        paid = omega (arith, before.paid, budget_used h (λ r. r.token_hash == hash raw_token) t);
      }
  run-IsPaid s n _ (purges {t = t} run now) v =
      let before = run-IsPaid s n t run v in
      let made = deleted-IsPaid h (λ r. ltb r.expires_at now) t before.distinct in
      record { distinct = made.distinct; paid = omega (arith, before.paid, made.paid) }

-- A reset token, drawn with a hash that no row has and stored under an id that no row has, is
-- accepted at most three times in whatever calls follow, by whatever times, for whatever users, as
-- long as no call draws a token of that hash, and an id that is there, again.
pub accepted_at_most_three :
    (hash : ℕ → ℕ) (ts : Tokens) (now : ℕ) (fresh : Fresh) (user n : ℕ) (t : Tokens)
    → IsDistinct ts
    → has_id fresh.id ts ≡ false
    → row_of hash fresh.raw_token ts ≡ none
    → Run hash (hash fresh.raw_token) (create_reset_token hash now fresh user ts).1 n t
    → n ≤ 3
unfolding create_reset_token
accepted_at_most_three hash ts now fresh user n t v new unknown run =
    let h = hash fresh.raw_token in
    let p = λ (r : PasswordResetToken). not ((r.user_id == user) && not r.used) in
    let x = new_token hash now fresh user in
    let paid = run-IsPaid hash h _ n t run (
      Distinct-append (λ r. r.id) (filter p ts) x (Distinct-filter (λ r. r.id) p ts v)
        (has_key-filter (λ r. r.id) p fresh.id ts new)) in
    let whole : left h x ≤ 3 = ground arith in
    omega (
      arith,
      paid.paid,
      whole,
      budget-append h (filter p ts) x,
      budget-filter p h ts,
      budget_absent h ts unknown,
    )
