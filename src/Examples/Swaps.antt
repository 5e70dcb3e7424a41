-- ===== src/Examples/Swaps.antt =====
-- A swap of dollars for euros, with and without a save of the completed row.
use nexa_fx_js.Base.{◌≡◌, refl, some, arith}
use nexa_fx_js.Base.Int.{pos, ◌+ℤ◌}
use nexa_fx_js.Base.Action.{ok, err, Error}
use nexa_fx_js.Currencies.{to_upper}
use nexa_fx_js.Fees.{calculate_fee}
use nexa_fx_js.Limits.{Limits, check}
use nexa_fx_js.Wallets.{is_of}
use nexa_fx_js.Wallets.Balance.{balance_at}
use nexa_fx_js.Wallets.Refund.{refunded}
use nexa_fx_js.Transactions.Data.{Transaction, State, failed}
use nexa_fx_js.Transactions.Swap.{SwapDto, create_swap, total_checked, max_retries}
use nexa_fx_js.Transactions.Swap.Credit.{times, credits}
use nexa_fx_js.Transactions.Swap.Success.{IsSwapped, swap-IsSwapped}
use nexa_fx_js.Transactions.Swap.Refund.{IsAdmissible, swap_never_saved, stored_status}
use nexa_fx_js.Examples.{
  usd, eur, usd_supported, eur_supported, two_wallets-IsValid, all_up, no_saves, start,
}

abbrev holiday : SwapDto
holiday = record {
  user_id = 1;
  from_amount = pos 1_000_000_000;
  from_currency = usd;
  to_amount = pos 900_000_000;
  to_currency = eur;
  reference = "holiday";
}

abbrev counted : Limits
counted =
    (check all_up.limit_config all_up.convert all_up.day all_up.month 1 (total_checked holiday) usd
      start.limits).1

holiday-IsAdmissible : IsAdmissible no_saves holiday usd start counted
unfolding is_of check to_upper calculate_fee ◌+ℤ◌
holiday-IsAdmissible = record {
  terms = refl;
  within = refl;
  supported = usd_supported;
  covered = omega arith;
  storable = record { sender = refl; receiver = refl; reference = refl };
}

-- The euros are credited three times, and the dollars come back.
three_credits : times (credits no_saves holiday max_retries 0) (pos 900_000_000) ≡ pos 2_700_000_000
unfolding times credits ◌+ℤ◌
three_credits = refl

swap_never_saved_example :
    (e : Error) × (s' : State) × (create_swap no_saves holiday start ≡ (err e, s'))
    × (balance_at 1 usd s'.wallets
        ≡ refunded (balance_at 1 usd start.wallets) (total_checked holiday))
    × (balance_at 1 eur s'.wallets
        ≡ balance_at 1 eur start.wallets
          +ℤ times (credits no_saves holiday max_retries 0) (pos 900_000_000))
    × (stored_status start s' ≡ some failed)
swap_never_saved_example =
    swap_never_saved no_saves holiday usd eur start counted holiday-IsAdmissible eur_supported
      (λ e. ground arith) (record { debit = refl; credit = refl }) (omega arith) two_wallets-IsValid
      (λ k. refl) (λ k. refl)

holiday_admitted : IsAdmissible all_up holiday usd start counted
unfolding is_of check to_upper calculate_fee ◌+ℤ◌
holiday_admitted = record {
  terms = refl;
  within = refl;
  supported = usd_supported;
  covered = omega arith;
  storable = record { sender = refl; receiver = refl; reference = refl };
}

swap-IsSwapped_example :
    (t : Transaction) × (s' : State) × (create_swap all_up holiday start ≡ (ok t, s'))
    × (s'.limits ≡ counted)
    × IsSwapped all_up holiday usd eur start s' t
swap-IsSwapped_example =
    swap-IsSwapped all_up holiday usd eur start counted holiday_admitted eur_supported
      (λ e. ground arith) (record { debit = refl; credit = refl }) (omega arith) two_wallets-IsValid
      refl refl refl
