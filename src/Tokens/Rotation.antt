-- ===== src/Tokens/Rotation.antt =====
-- `rotateToken` of src/tokens/refresh-tokens.service.ts, once and again.
use nexa_fx_js.Base.{
  ℕ, ◌≡◌, ◌⊎◌, refl, true, Option, none, some, [], ◌∷◌, ◌++◌, ◌==◌, ltb, ◌≤◌, arith, is_some, find,
  update_where, find-update_where, Option-cases, inl, inr, ◌<◌, Bool-cases,
}
use nexa_fx_js.Base.Action.{Result, ok, err, unauthorized, token_revoked}
use nexa_fx_js.Tokens.{
  RefreshToken, Tokens, Fresh, rotate_token, rotate_row, row_of, expires_in, retired, successor,
}

module _ (hash : ℕ → ℕ) (expiry_seconds : ℕ) where
  -- How a rotation ends, by the row that is stored under the token's hash.
  abbrev pub Rotated : ℕ → Fresh → Tokens → Option RefreshToken → Result (ℕ × ℕ) × Tokens → Type 0
  Rotated now fresh ts none (r, ts') = (r ≡ err (unauthorized token_revoked)) × (ts' ≡ ts)
  Rotated now fresh ts (some row) (ok a, ts') =
      (row.revoked_at ≡ none)
      × (now ≤ row.expires_at)
      × (a ≡ (fresh.token, expires_in now expiry_seconds))
      × (ts'
          ≡ update_where (λ t. t.id == row.id) (λ _. retired hash expiry_seconds now fresh row) ts
            ++ successor hash expiry_seconds now fresh row ∷ [])
  Rotated now fresh ts (some row) (err e, ts') =
      ((is_some row.revoked_at ≡ true) ⊎ (row.expires_at < now)) × (ts' ≡ ts)

  row-Rotated :
      (now : ℕ) (fresh : Fresh) (row : RefreshToken) (ts : Tokens)
      → Rotated now fresh ts (some row) (rotate_row hash expiry_seconds now fresh row ts)
  unfolding rotate_row
  row-Rotated now fresh row ts = elim (Option-cases row.revoked_at) [
    | inr (at, revoked) ↦ simp revoked (inl refl, refl)
    | inl live ↦ elim (Bool-cases (ltb row.expires_at now)) [
      | inl late ↦ simp (live, late) (inr (ground arith), refl)
      | inr good ↦ simp (live, good) (refl, ground arith, refl, refl)
    ]
  ]

  rotate_missing :
      (now : ℕ) (fresh : Fresh) (old : ℕ) (ts : Tokens)
      → row_of hash expiry_seconds now old ts ≡ none
      → rotate_token hash expiry_seconds now fresh old ts ≡ (err (unauthorized token_revoked), ts)
  unfolding rotate_token
  rotate_missing now fresh old ts p = ground arith

  rotate_found :
      (now : ℕ) (fresh : Fresh) (old : ℕ) (ts : Tokens) (row : RefreshToken)
      → row_of hash expiry_seconds now old ts ≡ some row
      → rotate_token hash expiry_seconds now fresh old ts
        ≡ rotate_row hash expiry_seconds now fresh row ts
  unfolding rotate_token
  rotate_found now fresh old ts row p = ground arith

  rotate_revoked :
      (now : ℕ) (fresh : Fresh) (old : ℕ) (ts : Tokens) (row : RefreshToken) (at : ℕ)
      → row_of hash expiry_seconds now old ts ≡ some row
      → row.revoked_at ≡ some at
      → rotate_token hash expiry_seconds now fresh old ts ≡ (err (unauthorized token_revoked), ts)
  unfolding rotate_token rotate_row
  rotate_revoked now fresh old ts row at p q = ground arith

  -- A rotation succeeds for the stored, unrevoked token that has not expired, and for no other: the
  -- row is then revoked and a new row of its family is added; if it throws, nothing is written.
  pub rotate_token-Rotated :
      (now : ℕ) (fresh : Fresh) (old : ℕ) (ts : Tokens)
      → Rotated now fresh ts
          (row_of hash expiry_seconds now old ts)
          (rotate_token hash expiry_seconds now fresh old ts)
  rotate_token-Rotated now fresh old ts =
      elim (Option-cases (row_of hash expiry_seconds now old ts)) [
        | inl missing ↦ rw (missing, rotate_missing now fresh old ts missing) (refl, refl)
        | inr (row, found) ↦
            rw (found, rotate_found now fresh old ts row found) (row-Rotated now fresh row ts)
      ]

  same_hash :
      (row : RefreshToken) (h : ℕ) (ts : Tokens)
      → find (λ t. t.token_hash == h) ts ≡ some row
      → (row.token_hash == h) ≡ true
  same_hash row h [] e = ground arith
  same_hash row h (t ∷ ts) e = ground (arith, same_hash row h ts)

  -- A token that was rotated is refused when it is rotated again, whatever the time.
  pub rotated_once :
      (now later : ℕ) (fresh again : Fresh) (old : ℕ) (ts : Tokens) (a : ℕ × ℕ) (ts' : Tokens)
      → rotate_token hash expiry_seconds now fresh old ts ≡ (ok a, ts')
      → rotate_token hash expiry_seconds later again old ts'
        ≡ (err (unauthorized token_revoked), ts')
  rotated_once now later fresh again old ts a ts' run =
      let done = rotate_token-Rotated now fresh old ts in
      elim (Option-cases (row_of hash expiry_seconds now old ts)) [
        | inl missing ↦
            absurd (let e = rotate_missing now fresh old ts missing in ground (arith, e, run))
        | inr (row, found) ↦
            let (_, _, _, stored) = rw (found, run) at done in
            rotate_revoked later again old ts' (retired hash expiry_seconds now fresh row) now
              (rw stored (
                find-update_where (λ t. t.token_hash == hash old) (λ t. t.id == row.id) row
                  (retired hash expiry_seconds now fresh row) ts
                  (successor hash expiry_seconds now fresh row ∷ []) found (ground arith)
                  (same_hash row (hash old) ts found)))
              refl
      ]
