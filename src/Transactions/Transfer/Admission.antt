-- ===== src/Transactions/Transfer/Admission.antt =====
-- Which transfers `transfer` lets through, and what a refused one writes.
use nexa_fx_js.Base.{
  ◌≡◌, refl, sym, ◌∙◌, ◌≢◌, ◌⊎◌, inl, inr, ◌↔◌, ap, ◌+◌, if◌then◌else◌, true, false, arith, Text,
  some,
}
use nexa_fx_js.Base.Int.{pos, ◌≤ℤ◌, ◌<ℤ◌}
use nexa_fx_js.Base.Action.{
  Result, ok, err, Error, Result-cases, bind_ok, bind_err, error, database_fault,
}
use nexa_fx_js.Currencies.{validate_currency}
use nexa_fx_js.Wallets.{get_balance}
use nexa_fx_js.Wallets.Balance.{balance_at}
use nexa_fx_js.Transactions.Data.{State, Env, Transaction, completed, next_receipt, save_row}
use nexa_fx_js.Transactions.Data.Storable.{
  IsStorable, IsNumberFree, insert_numbered, insert_numbered_lem, insert_numbered-cases,
}
use nexa_fx_js.Transactions.Transfer.{
  TransferDto, admit_transfer, settle_transfer, move_funds, confirm, transfer, transfer_row,
  after_moving, record_and_settle,
}

-- What `transfer` asks of its input: accepted terms, an active account, a positive amount, another
-- receiver, a supported currency, and a balance that covers the amount; and what the database asks
-- of the new row: two parties that are users, a reference that no stored row has, and the next
-- receipt number free.
pub record IsAdmissible (env : Env) (dto : TransferDto) (c : Text) (s : State) : Type 0 where
  pub terms : env.terms_accepted dto.sender_id ≡ true
  pub active : env.is_deactivated dto.sender_id ≡ false
  pub positive : pos 0 <ℤ dto.amount
  pub parties : dto.sender_id ≢ dto.receiver_id
  pub supported : validate_currency dto.currency ≡ ok c
  pub covered : dto.amount ≤ℤ balance_at dto.sender_id c s.wallets
  pub storable : IsStorable env (transfer_row dto s.next_id) s.transactions
  pub number_free : IsNumberFree env s.next_id s

pub admit_of_IsAdmissible :
    (env : Env) (dto : TransferDto) (c : Text) (s : State)
    → IsAdmissible env dto c s
    → admit_transfer env dto s ≡ (ok tt, s)
unfolding admit_transfer get_balance
admit_of_IsAdmissible env dto c s h = ground arith

-- What the checks before the row is saved have seen.
checked :
    (env : Env) (dto : TransferDto) (c : Text) (s : State)
    → validate_currency dto.currency ≡ ok c
    → (admit_transfer env dto s).0 ≡ ok tt
    → IsStorable env (transfer_row dto s.next_id) s.transactions
    → IsNumberFree env s.next_id s
    → IsAdmissible env dto c s
unfolding admit_transfer get_balance
checked env dto c s e h k n =
    let terms : env.terms_accepted dto.sender_id ≡ true = ground arith in
    let active : env.is_deactivated dto.sender_id ≡ false = ground arith in
    let positive : pos 0 <ℤ dto.amount = ground arith in
    let parties : dto.sender_id ≢ dto.receiver_id = ground arith in
    let covered : dto.amount ≤ℤ balance_at dto.sender_id c s.wallets = ground arith in
    record {
      terms = terms;
      active = active;
      positive = positive;
      parties = parties;
      supported = e;
      covered = covered;
      storable = k;
      number_free = n;
    }

admit_changes_nothing :
    (env : Env) (dto : TransferDto) (s : State) → (admit_transfer env dto s).1 ≡ s
unfolding admit_transfer get_balance
admit_changes_nothing env dto s = ground arith

after_moving_ok :
    (env : Env) (tx : Transaction) (r : Result (Unit {0}) × State)
    → (t : Transaction) × ((after_moving env tx r).0 ≡ ok t)
unfolding after_moving confirm
after_moving_ok env tx (ok u, s) =
    (record tx { status = completed; completed_at = some env.now }, ground arith)
after_moving_ok env tx (err e, s) = (tx, refl)

settle_transfer_ok :
    (env : Env) (dto : TransferDto) (tx : Transaction) (s : State)
    → (t : Transaction) × ((settle_transfer env dto tx s).0 ≡ ok t)
unfolding settle_transfer
settle_transfer_ok env dto tx s = after_moving_ok env tx (move_funds env dto s)

-- The row as it stands when the balances are touched, and the state then.
abbrev pub numbered : Env → TransferDto → State → Transaction
numbered env dto s = record (transfer_row dto s.next_id) {
  receipt_number = some (next_receipt env s);
}

abbrev pub recorded : Env → TransferDto → State → State
recorded env dto s = record s {
  transactions =
      save_row (numbered env dto s) (save_row (transfer_row dto s.next_id) s.transactions);
  next_id = s.next_id + 1;
  receipt_seq = if env.sequence_up then s.receipt_seq + 1 else s.receipt_seq;
}

passed_lem :
    (env : Env) (dto : TransferDto) (s : State)
    → admit_transfer env dto s ≡ (ok tt, s)
    → transfer env dto s ≡ insert_numbered env (transfer_row dto) (settle_transfer env dto) s
unfolding transfer record_and_settle
passed_lem env dto s h = bind_ok (admit_transfer env dto) (λ _. record_and_settle env dto) s h

pub transfer_lem :
    (env : Env) (dto : TransferDto) (c : Text) (s : State)
    → IsAdmissible env dto c s
    → transfer env dto s ≡ settle_transfer env dto (numbered env dto s) (recorded env dto s)
transfer_lem env dto c s h =
    passed_lem env dto s (admit_of_IsAdmissible env dto c s h)
    ∙ insert_numbered_lem env (transfer_row dto) (settle_transfer env dto) s h.storable
        h.number_free

refused_lem :
    (env : Env) (dto : TransferDto) (s : State) {e : Error}
    → admit_transfer env dto s ≡ (err e, s)
    → transfer env dto s ≡ (err e, s)
unfolding transfer
refused_lem env dto s h = bind_err (admit_transfer env dto) (λ _. record_and_settle env dto) s h

admit-cases :
    (env : Env) (dto : TransferDto) (s : State)
    → (admit_transfer env dto s ≡ (ok tt, s))
      ⊎ ((e : Error) × (admit_transfer env dto s ≡ (err e, s)))
admit-cases env dto s =
    let same = admit_changes_nothing env dto s in
    elim (Result-cases (admit_transfer env dto s).0) [
      | inl (u, e) ↦ inl (λ i. (e i, same i))
      | inr (x, e) ↦ inr (x, λ i. (e i, same i))
    ]

IsAdmissible-of_ok :
    (env : Env) (dto : TransferDto) (c : Text) (s : State) (t : Transaction)
    → validate_currency dto.currency ≡ ok c
    → (transfer env dto s).0 ≡ ok t
    → IsAdmissible env dto c s
IsAdmissible-of_ok env dto c s t e h = elim (admit-cases env dto s) [
  | inr (x, refused) ↦
      let bad : err x ≡ ok t = ap (λ r. r.0) (sym (refused_lem env dto s refused)) ∙ h in
      absurd (cc bad)
  | inl passed ↦ elim (insert_numbered-cases env (transfer_row dto) (settle_transfer env dto) s) [
    | inl (k, n) ↦ checked env dto c s e (ap (λ r. r.0) passed) k n
    | inr unsaved ↦
        let bad : err (error database_fault) ≡ ok t =
          sym unsaved ∙ ap (λ r. r.0) (sym (passed_lem env dto s passed)) ∙ h in
        absurd (cc bad)
  ]
]

-- A transfer in a supported currency succeeds exactly when it is admissible: the sender has accepted
-- the terms, is not deactivated, is not the receiver and holds the amount, which is positive; sender
-- and receiver are users; no stored row has the reference, and no other the receipt number that is
-- next. The writes after the row is saved do not matter: what goes wrong there is not reported to
-- the caller.
pub transfer_admitted_iff :
    (env : Env) (dto : TransferDto) (c : Text) (s : State)
    → validate_currency dto.currency ≡ ok c
    → ((t : Transaction) × ((transfer env dto s).0 ≡ ok t)) ↔ IsAdmissible env dto c s
transfer_admitted_iff env dto c s e = (
  (λ (t, h). IsAdmissible-of_ok env dto c s t e h),
  (λ h.
      rw (transfer_lem env dto c s h)
        (settle_transfer_ok env dto (numbered env dto s) (recorded env dto s))),
)
