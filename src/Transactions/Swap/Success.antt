-- ===== src/Transactions/Swap/Success.antt =====
-- A swap whose first attempt gets through.
use nexa_fx_js.Base.{
  ℕ, suc, ◌≡◌, refl, sym, ap, ◌∙◌, true, Option, none, some, arith, Text, [], ◌∷◌, ◌++◌,
}
use nexa_fx_js.Base.Int.{pos, neg, ◌+ℤ◌, ◌≤ℤ◌, +ℤ_neg_nonneg, +ℤ_nonneg}
use nexa_fx_js.Base.Action.{ok, Error}
use nexa_fx_js.Currencies.{validate_currency}
use nexa_fx_js.Currencies.Normal.{validate_currency_stable}
use nexa_fx_js.Fees.{calculate_fee}
use nexa_fx_js.Limits.{Limits}
use nexa_fx_js.Wallets.{Wallet, Wallets, adjust_balance, read_wallet}
use nexa_fx_js.Wallets.Money.{IsCents}
use nexa_fx_js.Wallets.Balance.{balance_at, new_balance}
use nexa_fx_js.Wallets.Invariant.{IsValid, read_wallet-IsSound}
use nexa_fx_js.Wallets.Move.{adjust_balance_covered, new_balance_exact}
use nexa_fx_js.Wallets.Refund.{to_fixed_2_nonneg}
use nexa_fx_js.Transactions.Data.{
  Transaction, State, Env, Event, completed, save_row, find_row, find-save_row,
}
use nexa_fx_js.Transactions.Swap.{
  SwapDto, total_checked, swap_row, swap_attempt, swap_attempts, marked, write_swap, create_swap,
}
use nexa_fx_js.Transactions.Swap.Refund.{IsAdmissible, swap_lem, debited_state}

module _ (env : Env) (dto : SwapDto) where
  attempt_succeeds :
      (tx : Transaction) (s : State) {w : Wallet} {ws : Wallets}
      → env.credit_up 0 ≡ true
      → env.save_up 0 ≡ true
      → env.record_up 0 ≡ true
      → adjust_balance dto.user_id dto.to_currency dto.to_amount s.wallets ≡ (ok w, ws)
      → swap_attempt env dto 0 tx s ≡ (
        ok (marked env 0 tx),
        record s {
          wallets = ws;
          transactions = save_row (marked env 0 tx) s.transactions;
          events =
              (s.events ++ Event.fee_recorded tx.id (calculate_fee dto.from_amount) ∷ [])
              ++ Event.swap_completed tx.id ∷ [];
        },
        marked env 0 tx,
      )
  unfolding swap_attempt write_swap
  attempt_succeeds tx s p q r e = ground arith

  loop_succeeds :
      (left : ℕ) (tx : Transaction) (last : Option Error) (s : State) {t : Transaction} {s' : State}
      {tx' : Transaction}
      → swap_attempt env dto 0 tx s ≡ (ok t, s', tx')
      → swap_attempts env dto (suc left) 0 tx last s ≡ (ok t, s')
  unfolding swap_attempts
  loop_succeeds left tx last s e = ground arith

-- What a swap that went through has done.
pub record IsSwapped (env : Env) (dto : SwapDto) (c d : Text) (s s' : State) (t : Transaction)
    : Type 0 where
  pub debited :
      balance_at dto.user_id c s'.wallets
      ≡ new_balance dto.user_id c (neg (total_checked dto)) s.wallets
  pub credited :
      balance_at dto.user_id d s'.wallets ≡ balance_at dto.user_id d s.wallets +ℤ dto.to_amount
  pub others :
      (a : ℕ) (x : Text)
      → ¬ ((a ≡ dto.user_id) × (x ≡ c))
      → ¬ ((a ≡ dto.user_id) × (x ≡ d))
      → read_wallet a x s'.wallets ≡ read_wallet a x s.wallets
  pub valid : IsValid s'.wallets
  pub status : t.status ≡ completed
  pub stored : find_row s.next_id s'.transactions ≡ some t
  pub announced :
      s'.events
      ≡ (s.events ++ Event.fee_recorded s.next_id (calculate_fee dto.from_amount) ∷ [])
        ++ Event.swap_completed s.next_id ∷ []

-- An admissible swap between two currencies, of whole cents to be credited, whose first attempt gets
-- through, returns the completed transaction and stores it: the balance in the currency of the debit
-- is what it was less the amount with its fee, rounded to cents, and the credited amount has reached
-- the other wallet in full; no further wallet has changed, and the limits are those with the amount
-- counted.
pub swap-IsSwapped :
    (env : Env) (dto : SwapDto) (c d : Text) (s : State) (l : Limits)
    → IsAdmissible env dto c s l
    → validate_currency dto.to_currency ≡ ok d
    → ¬ (c ≡ d)
    → IsCents dto.to_amount
    → pos 0 ≤ℤ dto.to_amount
    → IsValid s.wallets
    → env.credit_up 0 ≡ true
    → env.save_up 0 ≡ true
    → env.record_up 0 ≡ true
    → (t : Transaction) × (s' : State) × (create_swap env dto s ≡ (ok t, s'))
      × (s'.limits ≡ l)
      × IsSwapped env dto c d s s' t
swap-IsSwapped env dto c d s l h supported differ whole positive valid p q r =
    let (w, ws, debited, debit, kept) =
      adjust_balance_covered dto.user_id dto.from_currency c (neg (total_checked dto)) s.wallets
        h.supported valid (to_fixed_2_nonneg _ (+ℤ_neg_nonneg _ (total_checked dto) h.covered)) in
    let stable = validate_currency_stable dto.to_currency d supported in
    let exact = new_balance_exact dto.user_id d dto.to_amount ws stable kept whole in
    let sound = read_wallet-IsSound dto.user_id d ws stable kept in
    let (v, ws', credited, credit, kept') =
      adjust_balance_covered dto.user_id dto.to_currency d dto.to_amount ws supported kept
        (rw exact (+ℤ_nonneg _ dto.to_amount sound.covered positive)) in
    let tx = swap_row dto s.next_id in
    let before = debited_state dto s l ws in
    (
      _,
      _,
      swap_lem env dto c s l h debited
          ∙ loop_succeeds env dto 2 tx none before
              (attempt_succeeds env dto tx before p q r credited),
      refl,
      record {
        debited =
            ap (λ (u : Wallet). u.balance) (credit.others dto.user_id c (λ e. differ e.1))
            ∙ debit.moved;
        credited =
            credit.moved
            ∙ exact
            ∙ ap (λ (u : Wallet). u.balance +ℤ dto.to_amount)
                (debit.others dto.user_id d (λ e. differ (sym e.1)));
        others = λ a x e f. credit.others a x f ∙ debit.others a x e;
        valid = kept';
        status = refl;
        stored = find-save_row (marked env 0 tx) before.transactions;
        announced = refl;
      },
    )
