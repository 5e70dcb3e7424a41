-- ===== src/Examples/Requests.antt =====
-- A closed account, tier requests, a bulk payment and a repeated request.
use nexa_fx_js.Base.{
  ℕ, ◌+◌, ◌/◌, ◌%◌, ◌≡◌, ◌≢◌, refl, true, none, some, List, [], ◌∷◌, ◌==◌, if◌then◌else◌, length,
  codes, arith,
}
use nexa_fx_js.Base.Int.{pos}
use nexa_fx_js.Base.Action.{ok}
use nexa_fx_js.Examples.{usd}
use nexa_fx_js.Wallets.{Wallet}
use nexa_fx_js.Tokens.{RefreshToken}
use nexa_fx_js.Currencies.{is_space, trim_start, trim_end, trim}
use nexa_fx_js.Closure.{
  UserAccount, State, Crypto, Request, address, account_of, close_account, check_and_close,
  close_row, has_funds,
}
use nexa_fx_js.Closure.TwoFactor.{
  generate_two_factor_code, is_two_factor_code_valid, is_six_digits, truncate_code,
}
use nexa_fx_js.Closure.TwoFactor.Window.{generated_code_accepted}
use nexa_fx_js.Closure.Closed.{IsFrom, IsClosed, close_account-IsClosed}
use nexa_fx_js.Tiers
use nexa_fx_js.Tiers.{Call, request_call, approve_call, run_all}
use nexa_fx_js.Tiers.Monotone.{IsRise, run_all-IsRise}
use nexa_fx_js.BulkPayments
use nexa_fx_js.BulkPayments.{BulkPayment, Item, Attempt, all_well, not_saved, process_bulk_payment}
use nexa_fx_js.BulkPayments.Report.{IsReported, process_bulk_payment-IsReported}
use nexa_fx_js.Idempotency
use nexa_fx_js.Idempotency.{Reply, handle, valid_key}
use nexa_fx_js.Idempotency.Replay.{Visit, visit, visited, run, executed_once}

-- Twenty bytes that depend on the secret and the window; the code is of bytes 4 to 7.
abbrev hmac : ℕ → ℕ → List ℕ
hmac secret window =
    0
    ∷ 0
    ∷ 0
    ∷ 0
    ∷ 0
    ∷ 1
    ∷ secret % 256
    ∷ window % 256
    ∷ 0
    ∷ 0
    ∷ 0
    ∷ 0
    ∷ 0
    ∷ 0
    ∷ 0
    ∷ 0
    ∷ 0
    ∷ 0
    ∷ 0
    ∷ 4
    ∷ []

-- The code of 10:00:00 is still good 29 seconds later.
generated_code_accepted_example :
    is_two_factor_code_valid hmac 36_029_000 9
      (generate_two_factor_code hmac 9 (36_000_000 / 30_000))
    ≡ true
generated_code_accepted_example =
    generated_code_accepted hmac 9 36_000_000 36_029_000 (omega arith) (omega arith) (omega arith)

abbrev crypto : Crypto
crypto = record {
  verify = λ token. some token;
  hash_password = λ password salt. length password + salt;
  hmac = hmac;
  add_retention = λ now. now + 220_752_000_000;
}

abbrev carol : UserAccount
carol = record {
  id = 3;
  email = address 30;
  display_name = some 31;
  password_salt = 100;
  password_hash = 103;
  two_factor_secret = 9;
  is_active = true;
  deleted_at = none;
  closed_at = none;
  pii_purge_at = none;
  pii_purged_at = none;
  final_email_sent_at = none;
}

abbrev empty_dollars : Wallet
empty_dollars = record {
  account_id = 3;
  currency = usd;
  balance = pos 0;
  label = none;
  color = none;
}

abbrev session : RefreshToken
session = record {
  id = 70;
  user_id = 3;
  family_id = 1;
  parent_token_id = none;
  token_hash = 5;
  expires_at = 99;
  revoked_at = none;
  replaced_by_token_id = none;
}

abbrev members : State
members = record { accounts = carol ∷ []; wallets = empty_dollars ∷ []; tokens = session ∷ [] }

abbrev leave : Request
leave = record {
  access_token = 3;
  current_password = codes "pwd";
  two_factor_code = codes "068016";
}

abbrev left : State
left = (close_account crypto true 36_029_000 leave members).1

closed :
    close_account crypto true 36_029_000 leave members
    ≡ (ok (record { deleted_at = 36_029_000; pii_purge_at = 220_788_029_000 }), left)
unfolding close_account check_and_close close_row has_funds is_two_factor_code_valid
    generate_two_factor_code truncate_code is_six_digits trim trim_start trim_end is_space
closed = refl

close_account-IsClosed_example :
    (a : UserAccount) × (crypto.verify leave.access_token ≡ some a.id)
    × (account_of a.id members ≡ some a)
    × IsFrom crypto 36_029_000 leave a
    × IsClosed a.id left
close_account-IsClosed_example =
    close_account-IsClosed crypto true 36_029_000 leave members left
      (record { deleted_at = 36_029_000; pii_purge_at = 220_788_029_000 }) closed

-- One user, who asks for a tier and gets it.
abbrev asking : Tiers.State
asking = record { users = record { id = 3; kyc_tier = none } ∷ []; upgrades = []; next_id = 1 }

abbrev steps : List Call
steps = request_call 3 (codes "BASIC") ∷ approve_call 50 1 9 ∷ []

run_all-IsRise_example : IsRise (λ t. t) asking (run_all (λ t. t) steps asking)
run_all-IsRise_example =
    run_all-IsRise (λ t. t) steps asking (λ t. refl) (record { higher = tt; single = tt })

abbrev salaries : BulkPayment
salaries = record {
  id = 1;
  user_id = 3;
  status = BulkPayments.pending;
  total_count = 2;
  success_count = 0;
  fail_count = 0;
  total_amount = 900;
  currency = usd;
  completed_at = none;
}

abbrev salary : ℕ → ℕ → Item
salary id amount = record {
  id = id;
  bulk_payment_id = 1;
  recipient_address = "G...";
  amount = amount;
  status = BulkPayments.item_pending;
  error_message = none;
  transaction_id = none;
}

abbrev payroll : BulkPayments.State
payroll = record {
  bulk_payments = salaries ∷ [];
  items = salary 2 400 ∷ salary 3 500 ∷ [];
  transactions = [];
  next_id = 4;
}

-- The second transaction cannot be saved.
abbrev attempts : Item → Attempt
attempts i = if i.id == 2 then all_well else not_saved "full"

attempts_marked : (i : Item) → attempts i ≢ BulkPayments.no_database
attempts_marked i = ground arith

process_bulk_payment-IsReported_example :
    IsReported attempts 1 77 payroll (process_bulk_payment attempts 77 1 payroll)
process_bulk_payment-IsReported_example =
    process_bulk_payment-IsReported attempts 77 1 salaries payroll attempts_marked refl

-- A handler that counts its calls.
abbrev counting : Visit ℕ
counting = record {
  now = 100;
  ttl_hours = 24;
  store_up = true;
  handler = λ content n. (ok (record { body = content; status_code = 201 }), n + 1);
  request = record { header = some (codes "0123456789abcdef"); content = 7 };
}

abbrev changed : Visit ℕ
changed = record counting { request = record counting.request { content = 8 } }

abbrev nothing_stored : Idempotency.State ℕ
nothing_stored = record { keys = []; inner = 0 }

key_valid : valid_key counting.request.header ≡ ok (codes "0123456789abcdef")
unfolding valid_key
key_valid = refl

executed_once_example :
    (visited (λ c. c) counting nothing_stored
      ≡ (ok (record { body = 7; status_code = 201 }), (visited (λ c. c) counting nothing_stored).1))
    × ((visited (λ c. c) counting nothing_stored).1.inner ≡ 1)
    × (visited
          (λ c. c)
          counting
          (run (λ c. c) (visit changed ∷ []) (visited (λ c. c) counting nothing_stored).1)
        ≡ (
          ok (record { body = 7; status_code = 201 }),
          run (λ c. c) (visit changed ∷ []) (visited (λ c. c) counting nothing_stored).1,
        ))
executed_once_example =
    executed_once (λ c. c) counting (codes "0123456789abcdef")
      (record { body = 7; status_code = 201 }) nothing_stored 1 (visit changed ∷ []) counting
      key_valid refl refl refl (tt, tt) key_valid refl
