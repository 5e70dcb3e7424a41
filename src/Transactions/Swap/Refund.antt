-- ===== src/Transactions/Swap/Refund.antt =====
-- A swap from its admission to the loop, the swap whose first attempt gets through, and the one that
-- is given up.
use mathlib.Core.Option
use nexa_fx_js.Base.{
  ℕ, ◌+◌, ◌≡◌, sym, ap, ◌∙◌, true, false, Option, none, some, arith, Text, [], ◌∷◌, ◌++◌, or_else,
}
use nexa_fx_js.Base.Int.{pos, neg, ◌+ℤ◌, ◌≤ℤ◌, +ℤ_neg_nonneg}
use nexa_fx_js.Base.Action.{Action, ◌>>◌, ok, err, Error, error, undefined_variable, bind_ok}
use nexa_fx_js.Currencies.{validate_currency}
use nexa_fx_js.Currencies.Normal.{validate_currency_stable}
use nexa_fx_js.Limits.{Limits, check}
use nexa_fx_js.Wallets.{Wallet, Wallets, adjust_balance, get_balance, to_fixed_2}
use nexa_fx_js.Wallets.Money.{IsCents}
use nexa_fx_js.Wallets.Balance.{balance_at, new_balance}
use nexa_fx_js.Wallets.Invariant.{IsValid, read_wallet-IsSound}
use nexa_fx_js.Wallets.Move.{adjust_balance_covered}
use nexa_fx_js.Wallets.Refund.{refunded, refunded_nonneg, round_trip, to_fixed_2_nonneg}
use nexa_fx_js.Transactions.Data.{
  Transaction, TransactionStatus, State, Env, Event, failed, insert_row, save_row, find_row,
  find-save_row, on_wallets,
}
use nexa_fx_js.Transactions.Data.Storable.{IsStorable, insert_row_lem}
use nexa_fx_js.Transactions.Swap.{
  SwapDto, total_checked, admit_swap, swap_row, swap_attempts, give_up, record_swap, create_swap,
  max_retries,
}
use nexa_fx_js.Transactions.Swap.Credit.{credits, times, attempts-IsRetried}

-- What `createSwap` asks of its input, and the database of the new row; `l` is the limits with the
-- amount counted.
pub record IsAdmissible (env : Env) (dto : SwapDto) (c : Text) (s : State) (l : Limits)
    : Type 0 where
  pub terms : env.terms_accepted dto.user_id ≡ true
  pub within :
      check env.limit_config env.convert env.day env.month dto.user_id
        (total_checked dto)
        dto.from_currency
        s.limits
      ≡ (ok tt, l)
  pub supported : validate_currency dto.from_currency ≡ ok c
  pub covered : total_checked dto ≤ℤ balance_at dto.user_id c s.wallets
  pub storable : IsStorable env (swap_row dto s.next_id) s.transactions

admit_of_IsAdmissible :
    (env : Env) (dto : SwapDto) (c : Text) (s : State) (l : Limits)
    → IsAdmissible env dto c s l
    → admit_swap env dto s ≡ (ok tt, record s { limits = l })
unfolding admit_swap get_balance
admit_of_IsAdmissible env dto c s l h = ground arith

-- The state after the row is inserted and the amount debited.
abbrev pub debited_state : SwapDto → State → Limits → Wallets → State
debited_state dto s l ws = record s {
  limits = l;
  wallets = ws;
  transactions = save_row (swap_row dto s.next_id) s.transactions;
  next_id = s.next_id + 1;
}

-- What follows the saving of the row.
abbrev debit_and_try : Env → SwapDto → Transaction → Action State Transaction
debit_and_try env dto tx = do
  on_wallets (adjust_balance dto.user_id dto.from_currency (neg (total_checked dto)))
  swap_attempts env dto max_retries 0 tx none

pub swap_lem :
    (env : Env) (dto : SwapDto) (c : Text) (s : State) (l : Limits) {w : Wallet} {ws : Wallets}
    → IsAdmissible env dto c s l
    → adjust_balance dto.user_id dto.from_currency (neg (total_checked dto)) s.wallets ≡ (ok w, ws)
    → create_swap env dto s
      ≡ swap_attempts env dto max_retries 0 (swap_row dto s.next_id) none (debited_state dto s l ws)
unfolding create_swap record_swap
swap_lem env dto c s l h e =
    bind_ok (admit_swap env dto) (λ _. record_swap env dto) s
      (admit_of_IsAdmissible env dto c s l h)
    ∙ bind_ok (insert_row env (swap_row dto)) (debit_and_try env dto) (record s { limits = l })
        (insert_row_lem env (swap_row dto) (record s { limits = l })
          (record {
            sender = h.storable.sender;
            receiver = h.storable.receiver;
            reference = h.storable.reference;
          }))
    ∙ ground arith

give_up_lem :
    (dto : SwapDto) (tx : Transaction) (last : Option Error) (s : State) {v : Wallet} {ws : Wallets}
    → adjust_balance dto.user_id dto.from_currency (total_checked dto) s.wallets ≡ (ok v, ws)
    → give_up dto tx last s ≡ (
      err (or_else last (error undefined_variable)),
      record s {
        wallets = ws;
        transactions = save_row (record tx { status = failed }) s.transactions;
        events =
            (s.events ++ Event.refund_audited tx.id (total_checked dto) ∷ [])
            ++ Event.swap_failed tx.id ∷ [];
      },
    )
unfolding give_up
give_up_lem dto tx last s e = ground arith

abbrev pub stored_status : State → State → Option TransactionStatus
stored_status s s' = Option.map (λ (t : Transaction). t.status) (find_row s.next_id s'.transactions)

-- An admissible swap between two currencies, of whole cents to be credited, throws after its attempts
-- where in each of them the save that should complete the row fails, and the save in the `catch`
-- block, which writes the same row with its new retry count, and as completed once an attempt has
-- credited, gets through. The row is stored as failed in the end. The balance in the currency of the debit is what it was, or one cent more where the amount
-- with its fee ends in half a cent; and each attempt whose credit got through has added the credited
-- amount to the wallet in the other currency, where it stays.
pub swap_never_saved :
    (env : Env) (dto : SwapDto) (c d : Text) (s : State) (l : Limits)
    → IsAdmissible env dto c s l
    → validate_currency dto.to_currency ≡ ok d
    → ¬ (c ≡ d)
    → IsCents dto.to_amount
    → pos 0 ≤ℤ dto.to_amount
    → IsValid s.wallets
    → ((k : ℕ) → env.save_up k ≡ false)
    → ((k : ℕ) → env.note_up k ≡ true)
    → (e : Error) × (s' : State) × (create_swap env dto s ≡ (err e, s'))
      × (balance_at dto.user_id c s'.wallets
          ≡ refunded (balance_at dto.user_id c s.wallets) (total_checked dto))
      × (balance_at dto.user_id d s'.wallets
          ≡ balance_at dto.user_id d s.wallets
            +ℤ times (credits env dto max_retries 0) dto.to_amount)
      × (stored_status s s' ≡ some failed)
swap_never_saved env dto c d s l h supported differ whole positive valid unsaved noted =
    let stable = validate_currency_stable dto.from_currency c h.supported in
    let sound = read_wallet-IsSound dto.user_id c s.wallets stable valid in
    let trip =
      round_trip (balance_at dto.user_id c s.wallets) (total_checked dto) sound.whole sound.covered
        h.covered in
    let (w, ws, debited, debit, kept) =
      adjust_balance_covered dto.user_id dto.from_currency c (neg (total_checked dto)) s.wallets
        h.supported valid (to_fixed_2_nonneg _ (+ℤ_neg_nonneg _ (total_checked dto) h.covered)) in
    let (tx, last, s₁, looped, retried) =
      attempts-IsRetried env dto c d supported differ whole positive unsaved noted max_retries 0
        (swap_row dto s.next_id) none (debited_state dto s l ws) kept in
    let back : new_balance dto.user_id c (total_checked dto) s₁.wallets
        ≡ refunded (balance_at dto.user_id c s.wallets) (total_checked dto) =
      ap (λ (v : Wallet). to_fixed_2 (v.balance +ℤ total_checked dto)) retried.source
      ∙ ap (λ b. to_fixed_2 (b +ℤ total_checked dto)) debit.moved
      ∙ trip in
    let (v, ws₂, credited, credit, _) =
      adjust_balance_covered dto.user_id dto.from_currency c (total_checked dto) s₁.wallets
        h.supported retried.valid (rw back (refunded_nonneg _ (total_checked dto) sound.covered)) in
    (
      _,
      _,
      swap_lem env dto c s l h debited ∙ looped ∙ give_up_lem dto tx last s₁ credited,
      credit.moved ∙ back,
      ap (λ (v : Wallet). v.balance) (credit.others dto.user_id d (λ e. differ (sym e.1)))
          ∙ retried.target
          ∙ ap (λ (v : Wallet). v.balance +ℤ times (credits env dto max_retries 0) dto.to_amount)
              (debit.others dto.user_id d (λ e. differ (sym e.1))),
      ap (Option.map (λ (t : Transaction). t.status)) (
          ap (λ id. find_row id (save_row (record tx { status = failed }) s₁.transactions))
            (sym retried.same_id)
          ∙ find-save_row (record tx { status = failed }) s₁.transactions),
    )
