-- ===== src/Examples/Guards.antt =====
-- A bulk review, an allow list, a cached rate and a fetch of balances.
use nexa_fx_js.Base.{
  ℕ, ◌+◌, ◌*◌, ◌-◌, ◌≤◌, ◌≡◌, ◌↔◌, refl, true, Option, none, some, [], ◌∷◌, codes, Text, arith,
  if◌then◌else◌,
}
use nexa_fx_js.Base.Action.{ok, err, bad_request, already_rolled_back}
use nexa_fx_js.Base.Int.{pos, ◌+ℤ◌}
use nexa_fx_js.Rollback
use nexa_fx_js.Rollback.Chain
use nexa_fx_js.Rollback.Chain.{rolled_back_once}
use nexa_fx_js.Closure.{UserAccount, address}
use nexa_fx_js.Closure.Deletion
use nexa_fx_js.Closure.Deletion.Deleted
use nexa_fx_js.Closure.Deletion.Deleted.{delete_account-IsDeleted}
use nexa_fx_js.Webhooks.Address.{to_uint_32}
use nexa_fx_js.Kyc
use nexa_fx_js.Kyc.Bulk.{BulkReviewDto, BulkReviewResult, bulk_review, unique}
use nexa_fx_js.Kyc.Bulk.Verdicts
use nexa_fx_js.Kyc.Bulk.Verdicts.{bulk_review-IsReviewed}
use nexa_fx_js.Allowlist.{cidr_contains_ip, ipv4_to_number, normalize_ip}
use nexa_fx_js.Allowlist.Prefix.{without_last, cidr_contains_ip_iff}
use nexa_fx_js.Currencies.{to_upper}
use nexa_fx_js.Rates
use nexa_fx_js.Rates.Fresh
use nexa_fx_js.Rates.Fresh.{served_again}
use nexa_fx_js.Users.BalanceCache
use nexa_fx_js.Users.BalanceCache.Flights
use nexa_fx_js.Users.BalanceCache.Flights.{single_flight}

abbrev passport : ℕ → Kyc.KycDocumentStatus → Kyc.KycDocument
passport id status = record {
  id = id;
  user_id = id;
  document_type = "passport";
  document_number = "X";
  document_url = "https://files/x";
  status = status;
  reviewed_by = none;
  reviewed_at = none;
  appeal_reason = none;
}

abbrev desk : Kyc.State
desk = record {
  documents =
      passport 1 Kyc.KycDocumentStatus.pending
      ∷ passport 2 Kyc.KycDocumentStatus.rejected
      ∷ passport 3 Kyc.KycDocumentStatus.pending
      ∷ [];
  reviewed = [];
  next_id = 4;
}

-- An id twice, one whose document is closed, and one without a document.
abbrev batch : BulkReviewDto
batch = record { kyc_ids = 1 ∷ 2 ∷ 1 ∷ 9 ∷ []; approve = true; reviewer_id = 7 }

bulk_review-IsReviewed_example :
    (report : BulkReviewResult) × (t : Kyc.State) × (bulk_review 500 batch desk ≡ (ok report, t))
    × Verdicts.IsReviewed 500 batch desk t report
unfolding unique
bulk_review-IsReviewed_example = bulk_review-IsReviewed 500 batch desk (omega arith) (omega arith)

-- The numbers that the texts below spell.
abbrev digits : ℕ → Text → Option ℕ
digits n [] = some n
digits n (c ∷ cs) = digits (n * 10 + (c - b'0')) cs

cidr_contains_ip_iff_example :
    (cidr_contains_ip (digits 0) (codes "10.0.3.7") (codes "10.0.0.0/22") ≡ true)
    ↔ (without_last (32 - 22) 167772160 ≡ without_last (32 - 22) 167772935)
unfolding cidr_contains_ip ipv4_to_number normalize_ip to_uint_32 ◌+ℤ◌
cidr_contains_ip_iff_example =
    cidr_contains_ip_iff (digits 0) (codes "10.0.3.7") (codes "10.0.0.0/22") (codes "10.0.0.0") b'2'
      (codes "2") [] 167772935 167772160 22 refl refl refl refl (omega arith)

abbrev feed : Rates.Net
feed = record {
  open_exchange_rates = λ base target. none;
  exchange_rate_host = λ base target. some 1550;
  dated = 1000;
}

abbrev silence : Rates.Net
silence = record {
  open_exchange_rates = λ base target. none;
  exchange_rate_host = λ base target. none;
  dated = 2000;
}

abbrev naira : Rates.CacheEntry
naira = record { rate = 1550; provider = Rates.exchangeratehost; fetched_at = 1000 }

abbrev usd_ngn : Rates.Cache
usd_ngn = (Rates.key_of (codes "usd") (codes "NGN"), naira) ∷ []

quoted :
    Rates.get_rate 60_000 1000 feed (codes "usd") (codes "NGN") []
    ≡ (ok (Rates.to_result (codes "usd") (codes "NGN") naira 0), usd_ngn)
unfolding Rates.get_rate Rates.fetch_and_set Rates.fetch_with_fallback
quoted = refl

-- Half a minute later, with both providers down, and after the rate of another pair was stored.
abbrev to_euro : Fresh.Call
to_euro = record { at = 5000; net = feed; base = codes "USD"; target = codes "EUR" }

abbrev in_capitals : Fresh.Call
in_capitals = record { at = 31_000; net = silence; base = codes "USD"; target = codes "ngn" }

served_again_example :
    (q : Rates.RateResult) × (Rates.get_rate 60_000 31_000 silence
        (codes "USD")
        (codes "ngn")
        (Fresh.run 60_000 usd_ngn (to_euro ∷ []))
      ≡ (ok q, Fresh.run 60_000 usd_ngn (to_euro ∷ [])))
    × (q.rate ≡ 1550)
    × (q.provider ≡ Rates.exchangeratehost)
    × (q.fetched_at ≡ 1000)
unfolding to_upper
served_again_example =
    served_again 60_000 1000 feed (codes "usd") (codes "NGN") []
      (Rates.to_result (codes "usd") (codes "NGN") naira 0) usd_ngn (to_euro ∷ []) in_capitals
      quoted (omega arith, tt) refl (omega arith)

abbrev loading_5 : BalanceCache.Cache ℕ
loading_5 = record { cached = []; pending_fetches = 5 ∷ []; loading = 5 ∷ [] }

two_asks : Flights.Reach ℕ loading_5
unfolding BalanceCache.get_wallet_balances BalanceCache.after_miss
two_asks = Flights.asks (Flights.resumes Flights.here 5) 5

single_flight_example :
    (Flights.count 5 loading_5.loading ≤ 1)
    × (Flights.count 5 loading_5.loading
        ≡ (if BalanceCache.has 5 loading_5.pending_fetches then 1 else 0))
single_flight_example = single_flight loading_5 5 two_asks

abbrev purchase : Rollback.Transaction
purchase = record {
  id = 1;
  amount = pos 500;
  currency = codes "USD";
  status = Rollback.Status.success;
  wallet_id = none;
  to_address = some 20;
  from_address = some 10;
  rollback_of = none;
}

abbrev shop : Rollback.State
shop = record { transactions = purchase ∷ []; rollbacks = [] }

abbrev first_draw : Rollback.Fresh
first_draw = record { transaction_id = 2; rollback_id = 1 }

abbrev second_draw : Rollback.Fresh
second_draw = record { transaction_id = 3; rollback_id = 2 }

abbrev after_rollback : Rollback.State
after_rollback = Chain.rolled_back first_draw 1 (some "error") 9 purchase shop

rolled_back_once_example :
    (Rollback.rollback first_draw 1 (some "error") 9 shop ≡ (
      ok (
        purchase,
        Rollback.rollback_row 2 purchase,
        Rollback.rollback_note first_draw 1 (some "error") 9,
      ),
      after_rollback,
    ))
    × (pos 500 +ℤ (Rollback.rollback_row 2 purchase).amount ≡ pos 0)
    × ((Rollback.rollback_row 2 purchase).from_address ≡ some 20)
    × ((Rollback.rollback_row 2 purchase).to_address ≡ some 10)
    × (Rollback.rollback second_draw 1 none 8 after_rollback
        ≡ (err (bad_request already_rolled_back), after_rollback))
rolled_back_once_example =
    rolled_back_once first_draw second_draw 1 (some "error") none 9 8 shop purchase refl refl refl

abbrev leaver : UserAccount
leaver = record {
  id = 5;
  email = address 1;
  display_name = some 2;
  password_salt = 3;
  password_hash = 4;
  two_factor_secret = 6;
  is_active = true;
  deleted_at = none;
  closed_at = none;
  pii_purge_at = none;
  pii_purged_at = none;
  final_email_sent_at = none;
}

abbrev audited : (id user : ℕ) → Deletion.AuditRow
audited id user = record {
  id = id;
  user_id = some user;
  action = codes "user.registered";
  entity_type = codes "User";
  entity_id = some (codes "5");
  before = none;
  after = some (codes "ann@x");
  reason = none;
  ip_address = none;
  user_agent = none;
  created_at = 100;
}

abbrev leaving : Deletion.State
leaving = record {
  accounts = leaver ∷ [];
  tokens =
      record {
        id = 1;
        user_id = 5;
        family_id = 1;
        parent_token_id = none;
        token_hash = 77;
        expires_at = 9000;
        revoked_at = none;
        replaced_by_token_id = none;
      }
      ∷ [];
  referrals = [];
  audit = audited 1 5 ∷ audited 2 6 ∷ [];
  rate_alerts = 5 ∷ 7 ∷ [];
}

delete_account-IsDeleted_example :
    (t : Deletion.State) × (Deletion.delete_account 800 5 leaving
      ≡ (ok (record { deleted_at = 800 }), t))
    × Deleted.IsDeleted 800 5 leaver leaving t
delete_account-IsDeleted_example = delete_account-IsDeleted 800 5 leaver leaving refl
