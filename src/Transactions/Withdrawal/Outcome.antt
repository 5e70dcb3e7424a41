-- ===== src/Transactions/Withdrawal/Outcome.antt =====
-- What `createDeposit` and `createWithdrawal` leave behind.
use nexa_fx_js.Base.{
  ℕ, ◌+◌, ◌≡◌, refl, ap, ◌∙◌, true, false, Option, some, [], ◌∷◌, ◌++◌, arith, Text, if◌then◌else◌,
}
use nexa_fx_js.Base.Int.{ℤ, pos, negsuc, neg, ◌+ℤ◌, ◌≤ℤ◌, ◌<ℤ◌, +ℤ_neg_nonneg}
use nexa_fx_js.Base.Action.{ok, err, error, database_fault, bind_ok}
use nexa_fx_js.Currencies.{validate_currency}
use nexa_fx_js.Limits.{Limits, check}
use nexa_fx_js.Fees.{calculate_fee}
use mathlib.Core.Option
use nexa_fx_js.Wallets.Refund.{refunded, debit-refund, to_fixed_2_nonneg}
use nexa_fx_js.Wallets.Move.{adjust_balance_covered}
use nexa_fx_js.Wallets.{Wallet, Wallets, adjust_balance, get_balance, to_fixed_2, read_wallet}
use nexa_fx_js.Wallets.Balance.{balance_at}
use nexa_fx_js.Wallets.Invariant.{IsValid, IsAdjusted, read_wallet-IsSound}
use nexa_fx_js.Currencies.Normal.{validate_currency_stable}
use nexa_fx_js.Transactions.Data.{
  Transaction, State, Env, Event, completed, failed, save_row, next_receipt, find_row,
  find-save_row,
}
use nexa_fx_js.Transactions.Data.Storable.{IsStorable, IsNumberFree, insert_numbered_lem}
use nexa_fx_js.Transactions.Withdrawal.{
  DepositDto, create_deposit, WithdrawalDto, total_checked, admit_withdrawal, withdrawal_row,
  complete_withdrawal, refund_withdrawal, or_refund, debit_withdrawal, record_withdrawal,
  create_withdrawal,
}

-- Whatever the request and the other services answer, `createDeposit` throws: no wallet, no
-- transaction and no event is written.
pub create_deposit_throws :
    (env : Env) (dto : DepositDto) (s : State)
    → (¬ ((t : Transaction) × ((create_deposit env dto s).0 ≡ ok t)))
      × ((create_deposit env dto s).1.wallets ≡ s.wallets)
      × ((create_deposit env dto s).1.transactions ≡ s.transactions)
      × ((create_deposit env dto s).1.events ≡ s.events)
unfolding create_deposit
create_deposit_throws env dto s =
    ((λ (t, h). ground arith), ground arith, ground arith, ground arith)

-- What `createWithdrawal` asks of its input, and the database of the new row; `l` is the limits with
-- the amount counted.
pub record IsAdmissible (env : Env) (dto : WithdrawalDto) (c : Text) (s : State) (l : Limits)
    : Type 0 where
  pub terms : env.terms_accepted dto.user_id ≡ true
  pub destination : env.account_exists dto.destination_address ≡ true
  pub within :
      check env.limit_config env.convert env.day env.month dto.user_id
        (total_checked dto.amount)
        dto.currency
        s.limits
      ≡ (ok tt, l)
  pub supported : validate_currency dto.currency ≡ ok c
  pub covered : total_checked dto.amount ≤ℤ balance_at dto.user_id c s.wallets
  pub storable : IsStorable env (withdrawal_row dto s.next_id) s.transactions
  pub number_free : IsNumberFree env s.next_id s

admit_of_IsAdmissible :
    (env : Env) (dto : WithdrawalDto) (c : Text) (s : State) (l : Limits)
    → IsAdmissible env dto c s l
    → admit_withdrawal env dto s ≡ (ok tt, record s { limits = l })
unfolding admit_withdrawal get_balance
admit_of_IsAdmissible env dto c s l h = ground arith

abbrev numbered : Env → WithdrawalDto → State → Transaction
numbered env dto s = record (withdrawal_row dto s.next_id) {
  receipt_number = some (next_receipt env s);
}

abbrev finished : Env → WithdrawalDto → State → Transaction
finished env dto s = record (numbered env dto s) { status = completed; completed_at = some env.now }

abbrev refused : Env → WithdrawalDto → State → Transaction
refused env dto s = record (numbered env dto s) { status = failed; completed_at = some env.now }

abbrev recorded : Env → WithdrawalDto → State → Limits → State
recorded env dto s l = record s {
  limits = l;
  transactions =
      save_row (numbered env dto s) (save_row (withdrawal_row dto s.next_id) s.transactions);
  next_id = s.next_id + 1;
  receipt_seq = if env.sequence_up then s.receipt_seq + 1 else s.receipt_seq;
}

withdrawal_lem :
    (env : Env) (dto : WithdrawalDto) (c : Text) (s : State) (l : Limits)
    → IsAdmissible env dto c s l
    → create_withdrawal env dto s
      ≡ debit_withdrawal env dto (numbered env dto s) (recorded env dto s l)
unfolding create_withdrawal record_withdrawal
withdrawal_lem env dto c s l h =
    bind_ok (admit_withdrawal env dto) (λ _. record_withdrawal env dto) s
      (admit_of_IsAdmissible env dto c s l h)
    ∙ insert_numbered_lem env (withdrawal_row dto) (debit_withdrawal env dto)
        (record s { limits = l })
        (record {
          sender = h.storable.sender;
          receiver = h.storable.receiver;
          reference = h.storable.reference;
        })
        h.number_free

debited_lem :
    (env : Env) (dto : WithdrawalDto) (tx : Transaction) (s : State) {w : Wallet} {ws : Wallets}
    → adjust_balance dto.user_id dto.currency (neg (total_checked dto.amount)) s.wallets
      ≡ (ok w, ws)
    → debit_withdrawal env dto tx s
      ≡ or_refund env dto tx (complete_withdrawal env dto tx (record s { wallets = ws }))
unfolding debit_withdrawal
debited_lem env dto tx s e = ground arith

-- The row of a call at `s`, as it is stored in the end.
abbrev pub stored_row : State → State → Option Transaction
stored_row s s' = find_row s.next_id s'.transactions

module _ (env : Env) (dto : WithdrawalDto) (c : Text) (s : State) (l : Limits) where
  completed_lem :
      (ws : Wallets)
      → env.save_up 0 ≡ true
      → env.cache_up ≡ true
      → or_refund env dto (numbered env dto s) (
          complete_withdrawal env dto
            (numbered env dto s)
            (record (recorded env dto s l) { wallets = ws }))
        ≡ (
          ok (finished env dto s),
          record (recorded env dto s l) {
            wallets = ws;
            transactions = save_row (finished env dto s) (recorded env dto s l).transactions;
            events =
                (s.events ++ Event.cache_invalidated dto.user_id ∷ [])
                ++ Event.withdrawal_completed s.next_id ∷ [];
          },
        )
  unfolding complete_withdrawal or_refund
  completed_lem ws p q = rw (p, q)

  refund_lem :
      (ws : Wallets) {v : Wallet} {ws' : Wallets}
      → env.save_up 0 ≡ false
      → adjust_balance dto.user_id dto.currency (total_checked dto.amount) ws ≡ (ok v, ws')
      → or_refund env dto (numbered env dto s) (
          complete_withdrawal env dto
            (numbered env dto s)
            (record (recorded env dto s l) { wallets = ws }))
        ≡ (
          err (error database_fault),
          record (recorded env dto s l) {
            wallets = ws';
            transactions = save_row (refused env dto s) (recorded env dto s l).transactions;
            events = s.events ++ Event.refund_audited s.next_id (total_checked dto.amount) ∷ [];
          },
        )
  unfolding complete_withdrawal or_refund refund_withdrawal
  refund_lem ws p e = ground arith

-- What a withdrawal that went through has done.
pub record IsWithdrawn (env : Env) (dto : WithdrawalDto) (c : Text) (s s' : State) : Type 0 where
  pub debited : IsAdjusted dto.user_id c (neg (total_checked dto.amount)) s.wallets s'.wallets
  pub valid : IsValid s'.wallets
  pub row : Transaction
  pub stored : stored_row s s' ≡ some row
  pub row_status : row.status ≡ completed
  pub row_fee : row.fee ≡ calculate_fee dto.amount
  pub announced :
      s'.events
      ≡ (s.events ++ Event.cache_invalidated dto.user_id ∷ [])
        ++ Event.withdrawal_completed s.next_id ∷ []

-- An admissible withdrawal whose writes get through: the user's balance becomes what it was less the
-- amount with the fee, rounded to cents, and no other wallet changes; the row is stored as completed
-- with its fee, the limits are those with the amount counted, and the completion is announced.
pub withdrawal-IsWithdrawn :
    (env : Env) (dto : WithdrawalDto) (c : Text) (s : State) (l : Limits)
    → IsAdmissible env dto c s l
    → IsValid s.wallets
    → env.save_up 0 ≡ true
    → env.cache_up ≡ true
    → (t : Transaction) × (s' : State) × (create_withdrawal env dto s ≡ (ok t, s'))
      × (s'.limits ≡ l)
      × IsWithdrawn env dto c s s'
withdrawal-IsWithdrawn env dto c s l h valid p q =
    let (w, ws, debited, debit, kept) =
      adjust_balance_covered dto.user_id dto.currency c (neg (total_checked dto.amount)) s.wallets
        h.supported valid
        (to_fixed_2_nonneg _ (+ℤ_neg_nonneg _ (total_checked dto.amount) h.covered)) in
    (
      _,
      _,
      withdrawal_lem env dto c s l h
          ∙ debited_lem env dto (numbered env dto s) (recorded env dto s l) debited
          ∙ completed_lem env dto c s l ws p q,
      refl,
      record {
        debited = debit;
        valid = kept;
        row = finished env dto s;
        stored = find-save_row (finished env dto s) (recorded env dto s l).transactions;
        row_status = refl;
        row_fee = refl;
        announced = refl;
      },
    )

-- An admissible withdrawal whose confirmation is not saved throws, stores the row as failed, and
-- refunds: no other wallet has changed, and the user's balance is what it was, or one cent more where
-- the amount with its fee ends in half a cent. The limits keep the amount counted.
pub withdrawal_refunded :
    (env : Env) (dto : WithdrawalDto) (c : Text) (s : State) (l : Limits)
    → IsAdmissible env dto c s l
    → IsValid s.wallets
    → env.save_up 0 ≡ false
    → (s' : State) × (create_withdrawal env dto s ≡ (err (error database_fault), s'))
      × (balance_at dto.user_id c s'.wallets
          ≡ refunded (balance_at dto.user_id c s.wallets) (total_checked dto.amount))
      × ((a : ℕ) (d : Text)
          → ¬ ((a ≡ dto.user_id) × (d ≡ c))
          → read_wallet a d s'.wallets ≡ read_wallet a d s.wallets)
      × (Option.map (λ (t : Transaction). t.status) (stored_row s s') ≡ some failed)
      × (s'.limits ≡ l)
withdrawal_refunded env dto c s l h valid p =
    let (w, ws, v, ws', debited, credited, balance, others, kept) =
      debit-refund dto.user_id dto.currency c (total_checked dto.amount) s.wallets h.supported valid
        h.covered in
    (
      _,
      withdrawal_lem env dto c s l h
          ∙ debited_lem env dto (numbered env dto s) (recorded env dto s l) debited
          ∙ refund_lem env dto c s l ws p credited,
      balance,
      others,
      ap (Option.map (λ (t : Transaction). t.status))
          (find-save_row (refused env dto s) (recorded env dto s l).transactions),
      refl,
    )

negative_total : (amount : ℤ) → amount ≤ℤ negsuc 999_999 → total_checked amount ≤ℤ negsuc 999_999
unfolding ◌+ℤ◌ calculate_fee
negative_total (pos n) h = absurd (omega arith)
negative_total (negsuc n) h = ground arith

negative_debit_grows : (b t : ℤ) → pos 0 ≤ℤ b → t ≤ℤ negsuc 999_999 → b <ℤ to_fixed_2 (b +ℤ neg t)
unfolding ◌+ℤ◌ to_fixed_2
negative_debit_grows (negsuc m) t h le = absurd (omega arith)
negative_debit_grows (pos m) (pos n) h le = absurd (omega arith)
negative_debit_grows (pos m) (negsuc n) h le = ground arith

-- A negative amount is admitted like any other, and pays the user: if it is at least a cent, the
-- balance is larger afterwards.
pub negative_withdrawal_pays :
    (env : Env) (dto : WithdrawalDto) (c : Text) (s : State) (l : Limits)
    → IsAdmissible env dto c s l
    → IsValid s.wallets
    → env.save_up 0 ≡ true
    → env.cache_up ≡ true
    → dto.amount ≤ℤ negsuc 999_999
    → balance_at dto.user_id c s.wallets
      <ℤ balance_at dto.user_id c (create_withdrawal env dto s).1.wallets
negative_withdrawal_pays env dto c s l h valid p q less =
    let (t, s', run, _, done) = withdrawal-IsWithdrawn env dto c s l h valid p q in
    let stable = validate_currency_stable dto.currency c h.supported in
    let sound = read_wallet-IsSound dto.user_id c s.wallets stable valid in
    rw (run, done.debited.moved)
      (negative_debit_grows _ (total_checked dto.amount) sound.covered
        (negative_total dto.amount less))
