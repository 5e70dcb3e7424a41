-- ===== src/Transactions/Swap/Credit.antt =====
-- The loop of `createSwap` when the completed row never reaches the database.
use nexa_fx_js.Base.{
  ℕ, zero, suc, ◌+◌, ◌≡◌, refl, sym, ap, ◌∙◌, true, false, Option, some, arith, Text, if◌then◌else◌,
  Bool-cases, inl, inr,
}
use nexa_fx_js.Base.Int.{ℤ, pos, ◌+ℤ◌, ◌≤ℤ◌, int_laws, +ℤ_assoc, +ℤ_nonneg}
use nexa_fx_js.Base.Action.{ok, err, Error, error, database_fault}
use nexa_fx_js.Currencies.{validate_currency}
use nexa_fx_js.Currencies.Normal.{validate_currency_stable}
use nexa_fx_js.Wallets.{Wallet, Wallets, adjust_balance, read_wallet}
use nexa_fx_js.Wallets.Money.{IsCents}
use nexa_fx_js.Wallets.Balance.{balance_at}
use nexa_fx_js.Wallets.Invariant.{IsValid, read_wallet-IsSound}
use nexa_fx_js.Wallets.Move.{adjust_balance_covered, new_balance_exact}
use nexa_fx_js.Transactions.Data.{Transaction, State, Env, save_row}
use nexa_fx_js.Transactions.Swap.{SwapDto, swap_attempt, swap_attempts, give_up, marked, write_swap}

module _ (env : Env) (dto : SwapDto) where
  attempt_credited :
      (attempt : ℕ) (tx : Transaction) (s : State) {w : Wallet} {ws : Wallets}
      → env.credit_up attempt ≡ true
      → env.save_up attempt ≡ false
      → adjust_balance dto.user_id dto.to_currency dto.to_amount s.wallets ≡ (ok w, ws)
      → swap_attempt env dto attempt tx s
        ≡ (err (error database_fault), record s { wallets = ws }, marked env attempt tx)
  unfolding swap_attempt write_swap
  attempt_credited attempt tx s p q e = ground arith

  attempt_down :
      (attempt : ℕ) (tx : Transaction) (s : State)
      → env.credit_up attempt ≡ false
      → swap_attempt env dto attempt tx s ≡ (err (error database_fault), s, tx)
  unfolding swap_attempt
  attempt_down attempt tx s p = ground arith

  -- The loop after an attempt that threw.
  next_attempt :
      (left attempt : ℕ) (tx : Transaction) (last : Option Error) (s : State) {e : Error}
      {s' : State} {tx' : Transaction}
      → env.note_up attempt ≡ true
      → swap_attempt env dto attempt tx s ≡ (err e, s', tx')
      → swap_attempts env dto (suc left) attempt tx last s
        ≡ swap_attempts env dto left
            (attempt + 1)
            (record tx' { retry_count = attempt + 1 })
            (some e)
            (record s' {
              transactions = save_row (record tx' { retry_count = attempt + 1 }) s'.transactions;
            })
  unfolding swap_attempts
  next_attempt left attempt tx last s p e = ground arith

  -- The attempts, of those left, whose credit gets through.
  unfoldable pub credits : ℕ → ℕ → ℕ
  credits zero attempt = 0
  credits (suc left) attempt = (if env.credit_up attempt then 1 else 0) + credits left (attempt + 1)

unfoldable pub times : ℕ → ℤ → ℤ
times zero z = pos 0
times (suc n) z = z +ℤ times n z

-- What the loop has done when it gives up.
pub record IsRetried (user : ℕ) (c d : Text) (z : ℤ) (tx tx' : Transaction) (s s' : State)
    : Type 0 where
  pub target : balance_at user d s'.wallets ≡ balance_at user d s.wallets +ℤ z
  pub source : read_wallet user c s'.wallets ≡ read_wallet user c s.wallets
  pub valid : IsValid s'.wallets
  pub same_id : tx'.id ≡ tx.id
  pub same_limits : s'.limits ≡ s.limits

+ℤ_zero : (a : ℤ) → a +ℤ pos 0 ≡ a
+ℤ_zero a = omega int_laws

zero_+ℤ : (a : ℤ) → pos 0 +ℤ a ≡ a
zero_+ℤ a = omega int_laws

times_add : (m n : ℕ) (z : ℤ) → times m z +ℤ times n z ≡ times (m + n) z
unfolding times
times_add zero n z = let e : n ≡ 0 + n = omega arith in zero_+ℤ (times n z) ∙ ap (λ k. times k z) e
times_add (suc m) n z =
    let e : suc (m + n) ≡ suc m + n = omega arith in
    +ℤ_assoc z (times m z) (times n z) ∙ ap (λ a. z +ℤ a) (times_add m n z) ∙ ap (λ k. times k z) e

module _ (env : Env) (dto : SwapDto) (c d : Text)
    (supported : validate_currency dto.to_currency ≡ ok d) (differ : ¬ (c ≡ d))
    (whole : IsCents dto.to_amount) (positive : pos 0 ≤ℤ dto.to_amount)
    (unsaved : (k : ℕ) → env.save_up k ≡ false) (noted : (k : ℕ) → env.note_up k ≡ true) where
  -- One attempt, up to the save of the object in the `catch`.
  attempt-IsRetried :
      (attempt : ℕ) (tx : Transaction) (s : State)
      → IsValid s.wallets
      → (e : Error) × (s' : State) × (tx' : Transaction) × (swap_attempt env dto attempt tx s
          ≡ (err e, s', tx'))
        × IsRetried dto.user_id c d
            (times (if env.credit_up attempt then 1 else 0) dto.to_amount)
            tx
            tx'
            s
            s'
  unfolding times
  attempt-IsRetried attempt tx s valid = elim (Bool-cases (env.credit_up attempt)) [
    | inl up ↦
        let stable = validate_currency_stable dto.to_currency d supported in
        let exact = new_balance_exact dto.user_id d dto.to_amount s.wallets stable valid whole in
        let sound = read_wallet-IsSound dto.user_id d s.wallets stable valid in
        let (w, ws, run, adjusted, kept) =
          adjust_balance_covered dto.user_id dto.to_currency d dto.to_amount s.wallets supported
            valid (rw exact (+ℤ_nonneg _ dto.to_amount sound.covered positive)) in
        (
          _,
          _,
          _,
          attempt_credited env dto attempt tx s up (unsaved attempt) run,
          rw up (record {
            target =
                adjusted.moved
                ∙ exact
                ∙ ap (λ a. balance_at dto.user_id d s.wallets +ℤ a) (sym (+ℤ_zero dto.to_amount));
            source = adjusted.others dto.user_id c (λ h. differ h.1);
            valid = kept;
            same_id = refl;
            same_limits = refl;
          }),
        )
    | inr down ↦ (
      _,
      _,
      _,
      attempt_down env dto attempt tx s down,
      rw down (record {
        target = sym (+ℤ_zero (balance_at dto.user_id d s.wallets));
        source = refl;
        valid = valid;
        same_id = refl;
        same_limits = refl;
      }),
    )
  ]

  pub attempts-IsRetried :
      (left attempt : ℕ) (tx : Transaction) (last : Option Error) (s : State)
      → IsValid s.wallets
      → (tx' : Transaction) × (e : Option Error) × (s' : State) × (swap_attempts env dto left
            attempt tx last s
          ≡ give_up dto tx' e s')
        × IsRetried dto.user_id c d (times (credits env dto left attempt) dto.to_amount) tx tx' s s'
  unfolding credits times swap_attempts
  attempts-IsRetried zero attempt tx last s valid = (
    tx,
    last,
    s,
    refl,
    record {
      target = sym (+ℤ_zero (balance_at dto.user_id d s.wallets));
      source = refl;
      valid = valid;
      same_id = refl;
      same_limits = refl;
    },
  )
  attempts-IsRetried (suc left) attempt tx last s valid =
      let (e, s₁, tx₁, failed, step) = attempt-IsRetried attempt tx s valid in
      let (tx₂, e₂, s₂, rest, more) =
        attempts-IsRetried left (attempt + 1) (record tx₁ { retry_count = attempt + 1 }) (some e)
          (record s₁ {
            transactions = save_row (record tx₁ { retry_count = attempt + 1 }) s₁.transactions;
          })
          step.valid in
      (
        tx₂,
        e₂,
        s₂,
        next_attempt env dto left attempt tx last s (noted attempt) failed ∙ rest,
        record {
          target =
              more.target
              ∙ ap (λ b. b +ℤ times (credits env dto left (attempt + 1)) dto.to_amount) step.target
              ∙ +ℤ_assoc (balance_at dto.user_id d s.wallets) _ _
              ∙ ap (λ b. balance_at dto.user_id d s.wallets +ℤ b)
                  (times_add (if env.credit_up attempt then 1 else 0) _ dto.to_amount);
          source = more.source ∙ step.source;
          valid = more.valid;
          same_id = more.same_id ∙ step.same_id;
          same_limits = more.same_limits ∙ step.same_limits;
        },
      )
