-- ===== src/Wallets/Adjust.antt =====
-- `adjust_balance` against the table's invariant: every outcome, on every branch.
use nexa_fx_js.Base.{ℕ, ◌≡◌, refl, sym, ap, ◌∙◌, true, inl, inr, arith, Bool-cases, Text}
use nexa_fx_js.Base.Int.{ℤ, pos, ◌+ℤ◌, int_laws}
use nexa_fx_js.Base.Action.{Result, ok, err, Error, roll_back}
use nexa_fx_js.Currencies.{validate_currency}
use nexa_fx_js.Currencies.Normal.{validate_currency_stable}
use nexa_fx_js.Wallets.{
  Wallet, Wallets, read_wallet, to_fixed_2, is_zero, get_balance, adjust_balance,
}
use nexa_fx_js.Wallets.Money.{to_fixed_2_exact}
use nexa_fx_js.Wallets.Balance.{balance_at, new_balance}
use nexa_fx_js.Wallets.Invariant.{
  IsValid, IsSound, Outcome, read_wallet-IsSound, write_balance-Outcome,
}

Outcome-roll_back :
    (account : ℕ) (currency : Text) (delta : ℤ) (ws : Wallets) (r : Result Wallet × Wallets)
    → Outcome account currency delta ws r
    → Outcome account currency delta ws (roll_back ws r)
Outcome-roll_back account currency delta ws (ok w, ws') h = h
Outcome-roll_back account currency delta ws (err e, ws') (p, q, same) = (p, q, refl)

new_balance_zero :
    (account : ℕ) (currency : Text) (delta : ℤ) (ws : Wallets)
    → is_zero delta ≡ true
    → IsSound (read_wallet account currency ws)
    → balance_at account currency ws ≡ new_balance account currency delta ws
new_balance_zero account currency delta ws h sound =
    let zero_delta : delta ≡ pos 0 = ground arith in
    let same : balance_at account currency ws +ℤ delta ≡ balance_at account currency ws =
      rw zero_delta (omega int_laws) in
    sym (ap to_fixed_2 same ∙ to_fixed_2_exact _ sound.whole)

unchanged-Outcome :
    (account : ℕ) (currency : Text) (delta : ℤ) (ws : Wallets)
    → is_zero delta ≡ true
    → validate_currency currency ≡ ok currency
    → IsValid ws
    → Outcome account currency delta ws (ok (read_wallet account currency ws), ws)
unchanged-Outcome account currency delta ws h supported valid =
    let sound = read_wallet-IsSound account currency ws supported valid in
    (
      record {
        moved = new_balance_zero account currency delta ws h sound;
        covered = sound.covered;
        others = λ a c differ. refl;
        sum = refl;
        other_sums = λ c differ. refl;
      },
      valid,
      refl,
    )

-- On a supported currency, a call of `adjustBalance` on a valid table either throws "Insufficient
-- balance", exactly because the rounded sum is negative, and changes nothing; or it sets that one
-- balance to the rounded sum, which is not negative, returns the stored wallet, leaves every other
-- wallet as it was, and keeps the table valid.
pub adjust_balance-Outcome :
    (account : ℕ) (currency c : Text) (delta : ℤ) (ws : Wallets)
    → validate_currency currency ≡ ok c
    → IsValid ws
    → Outcome account c delta ws (adjust_balance account currency delta ws)
unfolding adjust_balance get_balance
adjust_balance-Outcome account currency c delta ws e valid =
    let stable = validate_currency_stable currency c e in
    rw e (elim (Bool-cases (is_zero delta)) [
      | inl nothing ↦
          rw (nothing, stable) (unchanged-Outcome account c delta ws nothing stable valid)
      | inr something ↦ rw something (
          Outcome-roll_back account c delta ws _
            (write_balance-Outcome account c delta ws stable valid))
    ])

-- An unsupported currency is refused before the table is read.
pub adjust_balance_unsupported :
    (account : ℕ) (currency : Text) (delta : ℤ) (ws : Wallets) {e : Error}
    → validate_currency currency ≡ err e
    → adjust_balance account currency delta ws ≡ (err e, ws)
unfolding adjust_balance
adjust_balance_unsupported account currency delta ws h = rw h
