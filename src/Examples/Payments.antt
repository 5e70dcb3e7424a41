-- ===== src/Examples/Payments.antt =====
-- Transfers, withdrawals, cancellations and reversals between two users.
use mathlib.Core.Option
use nexa_fx_js.Base.{◌≤◌, none, ℕ, ◌≡◌, ◌↔◌, refl, Bool, true, false, some, [], ◌∷◌, Text, arith}
use nexa_fx_js.Base.Int.{ℤ, pos, negsuc, ◌+ℤ◌, ◌≤ℤ◌}
use nexa_fx_js.Base.Action.{ok, err, error, database_fault}
use nexa_fx_js.Currencies.{to_upper}
use nexa_fx_js.Fees.{calculate_fee}
use nexa_fx_js.Limits.{Limits, check}
use nexa_fx_js.Wallets.{is_of, read_wallet}
use nexa_fx_js.Wallets.Balance.{balance_at}
use nexa_fx_js.Wallets.Refund.{refunded}
use nexa_fx_js.Wallets.Move.{IsMoved}
use nexa_fx_js.Transactions.Data.{
  Transaction, State, Metadata, completed, reversed, failed, new_row, find_row,
}
use nexa_fx_js.Transactions.Transfer.{TransferDto, transfer}
use nexa_fx_js.Transactions.Transfer.Admission
use nexa_fx_js.Transactions.Transfer.Conservation.{IsTransferred, transfer-IsTransferred}
use nexa_fx_js.Transactions.Withdrawal.{WithdrawalDto, total_checked, create_withdrawal}
use nexa_fx_js.Transactions.Withdrawal.Outcome.{
  IsWithdrawn, withdrawal-IsWithdrawn, withdrawal_refunded, negative_withdrawal_pays,
  create_deposit_throws, stored_row,
}
use nexa_fx_js.Transactions.Withdrawal.Outcome
use nexa_fx_js.Transactions.Reversal.{reverse_transaction}
use nexa_fx_js.Transactions.Reversal.Laws.{reverse_transaction-IsMoved}
use nexa_fx_js.Transactions.History
use nexa_fx_js.Transactions.History.Pages
use nexa_fx_js.Transactions.History.Order
use nexa_fx_js.Transactions.History.Wanted
use nexa_fx_js.Transactions.Keeps.{IsHealthy}
use nexa_fx_js.Transactions.Service.{Call, run, here, next, Reach-IsHealthy}
use nexa_fx_js.Examples.{
  usd, usd_supported, two_wallets-IsValid, all_up, no_saves, start, limit_config,
}

-- Alice sends Bob 10 dollars.
abbrev gift : TransferDto
gift = record {
  sender_id = 1;
  receiver_id = 2;
  amount = pos 1_000_000_000;
  currency = usd;
  reference = "gift";
  metadata = Metadata.plain;
}

gift-IsAdmissible : Admission.IsAdmissible all_up gift usd start
unfolding is_of
gift-IsAdmissible = record {
  terms = refl;
  active = refl;
  positive = omega arith;
  parties = λ e. omega arith;
  supported = usd_supported;
  covered = omega arith;
  storable = record { sender = refl; receiver = refl; reference = refl };
  number_free = refl;
}

transfer-IsTransferred_example :
    (t : Transaction) × (s' : State) × (transfer all_up gift start ≡ (ok t, s'))
    × IsTransferred all_up gift usd start s' t
transfer-IsTransferred_example =
    transfer-IsTransferred all_up gift usd start gift-IsAdmissible two_wallets-IsValid
      (record { debit = refl; credit = refl }) refl refl

transfer_admitted_iff_example :
    ((t : Transaction) × ((transfer all_up gift start).0 ≡ ok t))
    ↔ Admission.IsAdmissible all_up gift usd start
transfer_admitted_iff_example = Admission.transfer_admitted_iff all_up gift usd start usd_supported

abbrev payout : WithdrawalDto
payout = record {
  user_id = 1;
  amount = pos 1_000_000_000;
  currency = usd;
  reference = "payout";
  destination_address = "GDEST";
}

abbrev counted : WithdrawalDto → Limits
counted dto =
    (check all_up.limit_config all_up.convert all_up.day all_up.month dto.user_id
      (total_checked dto.amount) dto.currency start.limits).1

payout-IsAdmissible :
    (up : ℕ → Bool)
    → Outcome.IsAdmissible (record all_up { save_up = up }) payout usd start (counted payout)
unfolding is_of check to_upper calculate_fee ◌+ℤ◌
payout-IsAdmissible up = record {
  terms = refl;
  destination = refl;
  within = refl;
  supported = usd_supported;
  covered = omega arith;
  storable = record { sender = refl; receiver = refl; reference = refl };
  number_free = refl;
}

withdrawal-IsWithdrawn_example :
    (t : Transaction) × (s' : State) × (create_withdrawal all_up payout start ≡ (ok t, s'))
    × (s'.limits ≡ counted payout)
    × IsWithdrawn all_up payout usd start s'
withdrawal-IsWithdrawn_example =
    withdrawal-IsWithdrawn all_up payout usd start (counted payout)
      (payout-IsAdmissible (λ k. true)) two_wallets-IsValid refl refl

withdrawal_refunded_example :
    (s' : State) × (create_withdrawal no_saves payout start ≡ (err (error database_fault), s'))
    × (balance_at 1 usd s'.wallets
        ≡ refunded (balance_at 1 usd start.wallets) (total_checked payout.amount))
    × ((a : ℕ) (d : Text)
        → ¬ ((a ≡ 1) × (d ≡ usd))
        → read_wallet a d s'.wallets ≡ read_wallet a d start.wallets)
    × (Option.map (λ (t : Transaction). t.status) (stored_row start s') ≡ some failed)
    × (s'.limits ≡ counted payout)
withdrawal_refunded_example =
    withdrawal_refunded no_saves payout usd start (counted payout)
      (payout-IsAdmissible (λ k. false)) two_wallets-IsValid refl

abbrev windfall : WithdrawalDto
windfall = record payout { amount = negsuc 999_999_999 }

windfall-IsAdmissible : Outcome.IsAdmissible all_up windfall usd start (counted windfall)
unfolding is_of check to_upper calculate_fee ◌+ℤ◌
windfall-IsAdmissible = record {
  terms = refl;
  destination = refl;
  within = refl;
  supported = usd_supported;
  covered = omega arith;
  storable = record { sender = refl; receiver = refl; reference = refl };
  number_free = refl;
}

-- A transfer from Alice to Bob that was recorded before, and a state that holds it.
abbrev paid : ℤ → Transaction
paid amount = record (new_row 0 1 2 amount usd (pos 0) "rent" Metadata.plain) { status = completed }

abbrev holding : Transaction → State
holding tx = record start { transactions = tx ∷ [] }

abbrev small : Transaction
small = paid (pos 1_000_000_000)

bob_covers : pos 1_000_000_000 ≤ℤ balance_at 2 usd start.wallets
unfolding is_of
bob_covers = omega arith

reverse_transaction-IsMoved_example :
    (t : Transaction) × (s' : State) × (reverse_transaction all_up 0 9 "error" (holding small)
      ≡ (ok t, s'))
    × IsMoved 2 1 usd (pos 1_000_000_000) (holding small).wallets s'.wallets
    × (find_row 0 s'.transactions ≡ some t)
    × (t.status ≡ reversed)
    × (t.reversed_at ≡ some 1000)
reverse_transaction-IsMoved_example =
    reverse_transaction-IsMoved all_up 0 9 "error" (holding small) small usd refl refl usd_supported
      two_wallets-IsValid (λ e. omega arith) (record { debit = refl; credit = refl }) (omega arith)
      bob_covers (record { sender = refl; receiver = refl; reference = refl })

abbrev large : Transaction
large = paid (pos 5_000_000_000)

Reach-IsHealthy_example : IsHealthy limit_config (run all_up (Call.transfer_call gift) start)
Reach-IsHealthy_example =
    Reach-IsHealthy
      (record {
        wallets = two_wallets-IsValid;
        limits = record { days = λ u k. omega arith; months = λ u k. omega arith };
      })
      (next here all_up refl (Call.transfer_call gift))

abbrev columns : History.Columns
columns = record { created_at = λ tx. tx.id; metadata_type = λ tx. none }

exported : History.export_transactions_csv columns 1 start ≡ (ok [], start)
unfolding History.export_transactions_csv History.find_history History.history_page
exported = refl

abbrev later : Transaction
later = record small { id = 7 }

abbrev two_paid : State
two_paid = record start { transactions = small ∷ later ∷ [] }

abbrev singly : History.Filters
singly = record (History.of_user 1 1) { page = some 1 }

abbrev first_page : History.History
first_page = record { items = later ∷ []; total = 2; page = 1; limit = 1 }

answered : (History.find_history columns singly two_paid).0 ≡ ok first_page
unfolding History.find_history History.history_page History.fits
answered = refl

pages_complete_example :
    (1 ≤ 1)
    × (1 ≤ 100)
    × Order.IsDescending columns (Pages.pages columns singly two_paid 2)
    × ((tx : Transaction)
        → Order.In tx (Pages.pages columns singly two_paid 2)
          ↔ (Order.In tx two_paid.transactions × Wanted.IsWanted columns singly tx))
pages_complete_example =
    Pages.pages_complete columns singly two_paid first_page 2 ((λ e. omega arith, tt), (tt, tt))
      answered (omega arith)
