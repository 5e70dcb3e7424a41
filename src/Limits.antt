-- ===== src/Limits.antt =====
-- src/transactions/transaction-limit.service.ts: the accumulators of a user's day and month.
-- The keys `userId:YYYY-MM-DD` and `userId:YYYY-MM` are a user with the number of a day or month.
pub mod Bounds
use nexa_fx_js.Base.{ℕ, Bool, ◌&&◌, List, map, ◌==◌, if◌then◌else◌, Text, codes, same_text}
use nexa_fx_js.Base.Int.{ℤ, pos, ◌+ℤ◌, ltb_ℤ}
use nexa_fx_js.Base.Action.{
  Action, Result, ok, err, bad_request, over_single_limit, over_daily_limit, over_monthly_limit,
  ◌>>=◌, ◌>>◌, get, lift, throw_if, modify, pure,
}
use nexa_fx_js.Currencies.{to_upper}

-- The three limits are read from the environment once, when the module is loaded.
pub record LimitConfig : Type 0 where
  pub daily_limit_usd : ℤ
  pub monthly_limit_usd : ℤ
  pub single_tx_limit_usd : ℤ

-- A missing key reads 0, as `?? 0` does.
pub record Limits : Type 0 where
  pub daily_totals : ℕ → ℕ → ℤ
  pub monthly_totals : ℕ → ℕ → ℤ

abbrev pub set_total : (ℕ → ℕ → ℤ) → ℕ → ℕ → ℤ → ℕ → ℕ → ℤ
set_total totals user key amount u k = if (u == user) && (k == key) then amount else totals u k

abbrev pub reset_accumulators : Limits → Limits
reset_accumulators limits = record { daily_totals = λ u k. pos 0; monthly_totals = λ u k. pos 0 }

-- `convert` is `amount * rate` by the exchange-rate service, which may throw.
abbrev pub to_usd : (ℤ → Text → Result ℤ) → ℤ → Text → Result ℤ
to_usd convert amount currency =
    if same_text (map to_upper currency) (codes "USD") then ok amount else convert amount currency

unfoldable pub check :
    LimitConfig → (ℤ → Text → Result ℤ) → (day month : ℕ) → ℕ → ℤ → Text → Action Limits (Unit {0})
check config convert day month user amount currency = do
  amount_usd ← lift (to_usd convert amount currency)
  throw_if (ltb_ℤ config.single_tx_limit_usd amount_usd) (bad_request over_single_limit)
  day_before ← get (λ s. s.daily_totals user day)
  month_before ← get (λ s. s.monthly_totals user month)
  let day_total = day_before +ℤ amount_usd
  let mon_total = month_before +ℤ amount_usd
  throw_if (ltb_ℤ config.daily_limit_usd day_total) (bad_request over_daily_limit)
  throw_if (ltb_ℤ config.monthly_limit_usd mon_total) (bad_request over_monthly_limit)
  modify (λ s. record s {
    daily_totals = set_total s.daily_totals user day day_total;
    monthly_totals = set_total s.monthly_totals user month mon_total;
  })
