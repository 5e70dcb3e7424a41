-- ===== src/BulkPayments/Report.antt =====
-- The report of a payment that src/bulk-payments/bulk-payments.service.ts has processed.
use nexa_fx_js.Base.{
  ℕ, ◌+◌, ◌≡◌, ◌≢◌, refl, ap, sym, ◌∙◌, subst, Bool, true, false, not, none, some, List, [], ◌∷◌,
  ◌==◌, if◌then◌else◌, find, filter, length, length-append, find_key-update_same, holds_of_find,
  Text, arith,
}
use nexa_fx_js.Base.Action.{Result, ok, modify, after_ok}
use nexa_fx_js.BulkPayments.{
  BulkPayment, BulkPaymentStatus, processing, completed, partial, Item, State, Attempt, all_well,
  not_saved, not_marked, no_database, Counts, add_transaction, process_item, process_items,
  update_payment, finish, process_found, process_bulk_payment,
}

abbrev pub is_well : Attempt → Bool
is_well all_well = true
is_well _ = false

abbrev pub is_unmarked : Attempt → Bool
is_unmarked (not_marked message) = true
is_unmarked _ = false

-- The items of a payment.
abbrev pub items_of : ℕ → State → List Item
items_of id s = filter (λ (i : Item). i.bulk_payment_id == id) s.items

-- What one item gives and leaves.
record IsItem (a : Attempt) (c : Counts) (s : State) (r : Result Counts × State) : Type 0 where
  counts : Counts
  returned : r.0 ≡ ok counts
  succeeded : counts.success_count ≡ c.success_count + (if is_well a then 1 else 0)
  failed : counts.fail_count ≡ c.fail_count + (if is_well a then 0 else 1)
  transactions :
      length r.1.transactions
      ≡ length s.transactions + (if is_well a then 1 else 0) + (if is_unmarked a then 1 else 0)
  payments : r.1.bulk_payments ≡ s.bulk_payments

added_transaction :
    (currency : Text) (i : Item) (s : State)
    → length (add_transaction currency i s).transactions ≡ length s.transactions + 1
added_transaction currency i s = length-append s.transactions _

process_item-IsItem :
    (currency : Text) (a : Attempt) (i : Item) (c : Counts) (s : State)
    → a ≢ no_database
    → IsItem a c s (process_item currency a i c s)
unfolding process_item
process_item-IsItem currency all_well i c s up = record {
  counts = record c { success_count = c.success_count + 1 };
  returned = refl;
  succeeded = refl;
  failed = omega arith;
  transactions = let added = added_transaction currency i s in omega arith;
  payments = refl;
}
process_item-IsItem currency (not_saved message) i c s up = record {
  counts = record c { fail_count = c.fail_count + 1 };
  returned = refl;
  succeeded = omega arith;
  failed = refl;
  transactions = omega arith;
  payments = refl;
}
process_item-IsItem currency (not_marked message) i c s up = record {
  counts = record c { fail_count = c.fail_count + 1 };
  returned = refl;
  succeeded = omega arith;
  failed = refl;
  transactions = let added = added_transaction currency i s in omega arith;
  payments = refl;
}
process_item-IsItem currency no_database i c s up = let k = up refl in elim k [ ]

module _ (attempt : Item → Attempt) where
  abbrev pub well : List Item → ℕ
  well is = length (filter (λ i. is_well (attempt i)) is)

  abbrev pub unwell : List Item → ℕ
  unwell is = length (filter (λ i. not (is_well (attempt i))) is)

  abbrev pub unmarked : List Item → ℕ
  unmarked is = length (filter (λ i. is_unmarked (attempt i)) is)

  pub well_or_unwell : (is : List Item) → well is + unwell is ≡ length is
  well_or_unwell [] = refl
  well_or_unwell (i ∷ is) = ground (arith, well_or_unwell is)

  -- What the loop gives and leaves.
  record IsCounted (is : List Item) (c : Counts) (s : State) (r : Result Counts × State)
      : Type 0 where
    counts : Counts
    returned : r.0 ≡ ok counts
    succeeded : counts.success_count ≡ c.success_count + well is
    failed : counts.fail_count ≡ c.fail_count + unwell is
    transactions : length r.1.transactions ≡ length s.transactions + well is + unmarked is
    payments : r.1.bulk_payments ≡ s.bulk_payments

  process_items-IsCounted :
      (currency : Text) (is : List Item) (c : Counts) (s : State)
      → ((i : Item) → attempt i ≢ no_database)
      → IsCounted is c s (process_items currency attempt is c s)
  unfolding process_items
  process_items-IsCounted currency [] c s up = record {
    counts = c;
    returned = refl;
    succeeded = omega arith;
    failed = omega arith;
    transactions = omega arith;
    payments = refl;
  }
  process_items-IsCounted currency (i ∷ is) c s up =
      let one = process_item-IsItem currency (attempt i) i c s (up i) in
      let r = process_item currency (attempt i) i c s in
      let more = process_items-IsCounted currency is one.counts r.1 up in
      let a = one.succeeded in
      let b = one.failed in
      let t = one.transactions in
      let a' = more.succeeded in
      let b' = more.failed in
      let t' = more.transactions in
      subst (IsCounted (i ∷ is) c s)
        (sym (after_ok (process_items currency attempt is) r one.counts one.returned))
        (record {
          counts = more.counts;
          returned = more.returned;
          succeeded = ground arith;
          failed = ground arith;
          transactions = ground arith;
          payments = more.payments ∙ one.payments;
        })

  -- The row of a payment that was processed.
  pub record IsReported (id now : ℕ) (s : State) (r : Result (Unit {0}) × State) : Type 0 where
    pub returned : r.0 ≡ ok tt
    pub row : BulkPayment
    pub found : find (λ (b : BulkPayment). b.id == id) r.1.bulk_payments ≡ some row
    pub success_count : row.success_count ≡ well (items_of id s)
    pub fail_count : row.fail_count ≡ unwell (items_of id s)
    pub all_counted : row.success_count + row.fail_count ≡ length (items_of id s)
    pub status : row.status ≡ (
        if unwell (items_of id s) == 0
        then completed
        else if well (items_of id s) == 0
        then BulkPaymentStatus.failed
        else partial)
    pub finished : row.completed_at ≡ some now
    pub transactions :
        length r.1.transactions
        ≡ length s.transactions + well (items_of id s) + unmarked (items_of id s)

  process_found-IsReported :
      (now : ℕ) (b : BulkPayment) (s : State)
      → ((i : Item) → attempt i ≢ no_database)
      → find (λ (r : BulkPayment). r.id == b.id) s.bulk_payments ≡ some b
      → IsReported b.id now s (process_found attempt now b s)
  unfolding process_found
  process_found-IsReported now b s up found =
      let mark : BulkPayment → BulkPayment = λ r. record r { status = processing } in
      let s₁ = update_payment b.id mark s in
      let loop =
        process_items-IsCounted b.currency (items_of b.id s)
          (record { success_count = 0; fail_count = 0 }) s₁ up in
      let r =
        process_items b.currency attempt (items_of b.id s)
          (record { success_count = 0; fail_count = 0 }) s₁ in
      let a = loop.succeeded in
      let c = loop.failed in
      let marked =
        find_key-update_same (λ (x : BulkPayment). x.id) mark (λ x. refl) b.id s.bulk_payments
        ∙ ap (λ o. elim o [ none ↦ none | some x ↦ some (mark x) ]) found in
      let after_loop =
        ap (λ rows. find (λ (x : BulkPayment). x.id == b.id) rows) loop.payments ∙ marked in
      let ended =
        find_key-update_same (λ (x : BulkPayment). x.id) (finish now loop.counts) (λ x. refl) b.id
          r.1.bulk_payments
        ∙ ap (λ o. elim o [ none ↦ none | some x ↦ some (finish now loop.counts x) ]) after_loop in
      let good : loop.counts.success_count ≡ well (items_of b.id s) = omega arith in
      let bad : loop.counts.fail_count ≡ unwell (items_of b.id s) = omega arith in
      let all = well_or_unwell (items_of b.id s) in
      subst (IsReported b.id now s)
        (sym (
          after_ok (λ counts. modify (update_payment b.id (finish now counts))) r loop.counts
            loop.returned))
        (record {
          returned = refl;
          row = finish now loop.counts (mark b);
          found = ended;
          success_count = good;
          fail_count = bad;
          all_counted = omega arith;
          status = rw (good, bad) refl;
          finished = refl;
          transactions = loop.transactions;
        })

  -- When a payment is processed, and the database can at least mark each item, the run ends without
  -- an exception. The payment's row then has the numbers of the items that went well and of those
  -- that did not, which together are all its items, and the status that follows from them; as many
  -- transactions were added as items went well or failed only when they were marked.
  pub process_bulk_payment-IsReported :
      (now id : ℕ) (b : BulkPayment) (s : State)
      → ((i : Item) → attempt i ≢ no_database)
      → find (λ (r : BulkPayment). r.id == id) s.bulk_payments ≡ some b
      → IsReported id now s (process_bulk_payment attempt now id s)
  unfolding process_bulk_payment
  process_bulk_payment-IsReported now id b s up found =
      let hit = holds_of_find (λ (r : BulkPayment). r.id == id) s.bulk_payments b found in
      let e : b.id ≡ id = ground arith in
      rw (found) (
        subst (λ i. IsReported i now s (process_found attempt now b s)) e
          (process_found-IsReported now b s up (
            subst (λ i. find (λ (r : BulkPayment). r.id == i) s.bulk_payments ≡ some b) (sym e)
              found)))
