-- ===== src/Limits/Bounds.antt =====
-- The accumulators before and after `check` of transaction-limit.service.ts.
use nexa_fx_js.Base.{ℕ, ◌≡◌, refl, ◌⊎◌, inl, inr, arith, Bool-cases, Text, ◌==◌, ◌&&◌}
use nexa_fx_js.Base.Int.{ℤ, ◌+ℤ◌, ◌≤ℤ◌, ◌<ℤ◌, ltb_ℤ}
use nexa_fx_js.Base.Action.{Result, ok, err, Error, Result-cases}
use nexa_fx_js.Limits.{LimitConfig, Limits, to_usd, set_total, check}

set_total_self : (t : ℕ → ℕ → ℤ) (user key : ℕ) (z : ℤ) → set_total t user key z user key ≡ z
set_total_self t user key z = ground arith

set_total-ne :
    (t : ℕ → ℕ → ℤ) (user key : ℕ) (z : ℤ) (u k : ℕ)
    → ¬ ((u ≡ user) × (k ≡ key))
    → set_total t user key z u k ≡ t u k
set_total-ne t user key z u k h = ground arith

module _ (config : LimitConfig) where
  -- What an accepted check of `usd` has done.
  pub record IsCounted (day month user : ℕ) (usd : ℤ) (s s' : Limits) : Type 0 where
    pub single : usd ≤ℤ config.single_tx_limit_usd
    pub day_sum : s'.daily_totals user day ≡ s.daily_totals user day +ℤ usd
    pub month_sum : s'.monthly_totals user month ≡ s.monthly_totals user month +ℤ usd
    pub day_bound : s'.daily_totals user day ≤ℤ config.daily_limit_usd
    pub month_bound : s'.monthly_totals user month ≤ℤ config.monthly_limit_usd
    pub other_days :
        (u k : ℕ) → ¬ ((u ≡ user) × (k ≡ day)) → s'.daily_totals u k ≡ s.daily_totals u k
    pub other_months :
        (u k : ℕ) → ¬ ((u ≡ user) × (k ≡ month)) → s'.monthly_totals u k ≡ s.monthly_totals u k

  abbrev pub CheckOutcome : ℕ → ℕ → ℕ → ℤ → Limits → Result (Unit {0}) × Limits → Type 0
  CheckOutcome day month user usd s (ok _, s') = IsCounted day month user usd s s'
  CheckOutcome day month user usd s (err _, s') =
      (s' ≡ s)
      × ((config.single_tx_limit_usd <ℤ usd)
          ⊎ (config.daily_limit_usd <ℤ s.daily_totals user day +ℤ usd)
          ⊎ (config.monthly_limit_usd <ℤ s.monthly_totals user month +ℤ usd))

  -- A check of an amount that converts to `usd` either throws, exactly because the amount or one of
  -- the two new sums is over its limit, and counts nothing; or it adds `usd` to that user's day and
  -- month, which stay within their limits, and to no other day, month or user.
  pub check-CheckOutcome :
      (convert : ℤ → Text → Result ℤ) (day month user : ℕ) (amount : ℤ) (currency : Text)
      (s : Limits) {usd : ℤ}
      → to_usd convert amount currency ≡ ok usd
      → CheckOutcome day month user usd s (check config convert day month user amount currency s)
  unfolding check
  check-CheckOutcome convert day month user amount currency s {usd} e =
      rw e (elim (Bool-cases (ltb_ℤ config.single_tx_limit_usd usd)) [
        | inl over ↦ rw over (refl, inl (ground arith))
        | inr single ↦
            rw single
              (elim (Bool-cases (ltb_ℤ config.daily_limit_usd (s.daily_totals user day +ℤ usd))) [
                | inl over ↦ rw over (refl, inr (inl (ground arith)))
                | inr daily ↦
                    rw daily
                      (elim (Bool-cases
                        (ltb_ℤ config.monthly_limit_usd (s.monthly_totals user month +ℤ usd))) [
                          | inl over ↦ rw over (refl, inr (inr (ground arith)))
                          | inr monthly ↦ rw monthly (record {
                            single = ground arith;
                            day_sum =
                                set_total_self s.daily_totals user day
                                  (s.daily_totals user day +ℤ usd);
                            month_sum =
                                set_total_self s.monthly_totals user month
                                  (s.monthly_totals user month +ℤ usd);
                            day_bound =
                                rw
                                  (set_total_self s.daily_totals user day
                                    (s.daily_totals user day +ℤ usd))
                                  (ground arith);
                            month_bound =
                                rw
                                  (set_total_self s.monthly_totals user month
                                    (s.monthly_totals user month +ℤ usd))
                                  (ground arith);
                            other_days =
                                set_total-ne s.daily_totals user day
                                  (s.daily_totals user day +ℤ usd);
                            other_months =
                                set_total-ne s.monthly_totals user month
                                  (s.monthly_totals user month +ℤ usd);
                          })
                        ])
              ])
      ])

-- Within its limits: no user's total of any day or month is over the limit.
pub record IsWithin (config : LimitConfig) (s : Limits) : Type 0 where
  pub days : (u k : ℕ) → s.daily_totals u k ≤ℤ config.daily_limit_usd
  pub months : (u k : ℕ) → s.monthly_totals u k ≤ℤ config.monthly_limit_usd

module _ (config : LimitConfig) where
  same_key : (u k user key : ℕ) → ((u ≡ user) × (k ≡ key)) ⊎ (¬ ((u ≡ user) × (k ≡ key)))
  same_key u k user key = elim (Bool-cases ((u == user) && (k == key))) [
    | inl same ↦ inl (ground arith)
    | inr other ↦ inr (λ h. ground arith)
  ]

  counted-IsWithin :
      {day month user : ℕ} {usd : ℤ} {s s' : Limits}
      → IsCounted config day month user usd s s'
      → IsWithin config s
      → IsWithin config s'
  counted-IsWithin {day} {month} {user} {s} {s'} c w = record {
    days = λ u k. elim (same_key u k user day) [
      | inl (p, q) ↦ rw (p, q) c.day_bound
      | inr other ↦ rw (c.other_days u k other) (w.days u k)
    ];
    months = λ u k. elim (same_key u k user month) [
      | inl (p, q) ↦ rw (p, q) c.month_bound
      | inr other ↦ rw (c.other_months u k other) (w.months u k)
    ];
  }

  outcome-IsWithin :
      (day month user : ℕ) (usd : ℤ) (s : Limits) (r : Result (Unit {0}) × Limits)
      → CheckOutcome config day month user usd s r
      → IsWithin config s
      → IsWithin config r.1
  outcome-IsWithin day month user usd s (ok _, s') c w = counted-IsWithin c w
  outcome-IsWithin day month user usd s (err _, s') (same, _) w = rw same w

  check_unpriced :
      (convert : ℤ → Text → Result ℤ) (day month user : ℕ) (amount : ℤ) (currency : Text)
      (s : Limits) {e : Error}
      → to_usd convert amount currency ≡ err e
      → check config convert day month user amount currency s ≡ (err e, s)
  unfolding check
  check_unpriced convert day month user amount currency s h = rw h

  -- Whatever is checked, and however the conversion to dollars answers, a table in which no total is
  -- over its limit stays so.
  pub check-IsWithin :
      (convert : ℤ → Text → Result ℤ) (day month user : ℕ) (amount : ℤ) (currency : Text)
      (s : Limits)
      → IsWithin config s
      → IsWithin config (check config convert day month user amount currency s).1
  check-IsWithin convert day month user amount currency s w =
      elim (Result-cases (to_usd convert amount currency)) [
        | inl (usd, e) ↦
            outcome-IsWithin day month user usd s _
              (check-CheckOutcome config convert day month user amount currency s e) w
        | inr (e, h) ↦ rw (check_unpriced convert day month user amount currency s h) w
      ]
