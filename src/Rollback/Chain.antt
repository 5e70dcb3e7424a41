-- ===== src/Rollback/Chain.antt =====
-- Rollbacks of src/modules/transactions, once and again.
use Prim.Native.String.{String}
use nexa_fx_js.Base.{
  ℕ, ◌≡◌, refl, Bool, true, Option, none, some, List, [], ◌∷◌, ◌++◌, ◌==◌, find, find-append, arith,
}
use nexa_fx_js.Base.Int.{ℤ, pos, neg, ◌+ℤ◌}
use nexa_fx_js.Base.Action.{ok, err, bad_request, already_rolled_back}
use nexa_fx_js.Rollback.{
  Transaction, TransactionRollback, State, Fresh, is_success, find_transaction, rollback_of_id,
  rollback_row, rollback_note, rollback,
}

abbrev pub rolled_back : Fresh → ℕ → Option String → ℕ → Transaction → State → State
rolled_back fresh id reason admin original s = record s {
  transactions = s.transactions ++ rollback_row fresh.transaction_id original ∷ [];
  rollbacks = s.rollbacks ++ rollback_note fresh id reason admin ∷ [];
}

module _ (fresh : Fresh) (id : ℕ) (reason : Option String) (admin : ℕ) (s : State)
    (t : Transaction) where
  rollback_lem :
      find_transaction id s ≡ some t
      → is_success t.status ≡ true
      → rollback_of_id id s ≡ none
      → rollback fresh id reason admin s ≡ (
        ok (t, rollback_row fresh.transaction_id t, rollback_note fresh id reason admin),
        rolled_back fresh id reason admin t s,
      )
  unfolding rollback
  rollback_lem found good new = rw (found, good, new) refl

  rollback_again :
      (r : TransactionRollback)
      → find_transaction id s ≡ some t
      → is_success t.status ≡ true
      → rollback_of_id id s ≡ some r
      → rollback fresh id reason admin s ≡ (err (bad_request already_rolled_back), s)
  unfolding rollback
  rollback_again r found good old = rw (found, good, old) refl

found_before :
    {A : Type 0} (p : A → Bool) (xs : List A) (x y : A)
    → find p xs ≡ some x
    → find p (xs ++ y ∷ []) ≡ some x
found_before p [] x y h = cc
found_before p (z ∷ zs) x y h = ground (arith, found_before p zs x y)

neg_sum : (z : ℤ) → z +ℤ neg z ≡ pos 0
unfolding ◌+ℤ◌
neg_sum z = ground arith

double_neg : (z : ℤ) → neg (neg z) ≡ z
double_neg z = ground arith

-- A successful transaction without a rollback is rolled back: a row of the opposite amount is added,
-- with the addresses swapped, so that the two amounts add up to nothing; a second rollback of the
-- same transaction, by whomever and for whatever reason, throws and changes nothing.
pub rolled_back_once :
    (fresh again : Fresh) (id : ℕ) (reason reason' : Option String) (admin admin' : ℕ) (s : State)
    (t : Transaction)
    → find_transaction id s ≡ some t
    → is_success t.status ≡ true
    → rollback_of_id id s ≡ none
    → let s' = rolled_back fresh id reason admin t s in
      let row = rollback_row fresh.transaction_id t in
      (rollback fresh id reason admin s ≡ (ok (t, row, rollback_note fresh id reason admin), s'))
      × (t.amount +ℤ row.amount ≡ pos 0)
      × (row.from_address ≡ t.to_address)
      × (row.to_address ≡ t.from_address)
      × (rollback again id reason' admin' s' ≡ (err (bad_request already_rolled_back), s'))
rolled_back_once fresh again id reason reason' admin admin' s t found good new = (
  rollback_lem fresh id reason admin s t found good new,
  neg_sum t.amount,
  refl,
  refl,
  rollback_again again id reason' admin' (rolled_back fresh id reason admin t s) t
      (rollback_note fresh id reason admin)
      (found_before (λ r. r.id == id) s.transactions t (rollback_row fresh.transaction_id t) found)
      good
      (find-append (λ r. r.original_transaction_id == id) s.rollbacks
        (rollback_note fresh id reason admin) new (ground arith)),
)

none_other :
    (id : ℕ) (xs : List TransactionRollback) (y : TransactionRollback)
    → find (λ r. r.original_transaction_id == id) xs ≡ none
    → ¬ (y.original_transaction_id ≡ id)
    → find (λ r. r.original_transaction_id == id) (xs ++ y ∷ []) ≡ none
none_other id [] y h ne = ground arith
none_other id (z ∷ zs) y h ne = ground (arith, none_other id zs y)

-- The row that a rollback adds can itself be rolled back, if its id is new to both tables: that adds
-- a row with the amount and the addresses of the original, whose own rollback stays on record.
pub rollback_of_rollback :
    (fresh again : Fresh) (id : ℕ) (reason reason' : Option String) (admin admin' : ℕ) (s : State)
    (t : Transaction)
    → find_transaction id s ≡ some t
    → find_transaction fresh.transaction_id s ≡ none
    → rollback_of_id fresh.transaction_id s ≡ none
    → ¬ (id ≡ fresh.transaction_id)
    → let s' = rolled_back fresh id reason admin t s in
      let row = rollback_row fresh.transaction_id t in
      let redone = rollback_row again.transaction_id row in
      (rollback again fresh.transaction_id reason' admin' s' ≡ (
        ok (row, redone, rollback_note again fresh.transaction_id reason' admin'),
        rolled_back again fresh.transaction_id reason' admin' row s',
      ))
      × (redone.amount ≡ t.amount)
      × (redone.from_address ≡ t.from_address)
      × (redone.to_address ≡ t.to_address)
rollback_of_rollback fresh again id reason reason' admin admin' s t found new unnoted ne = (
  rollback_lem again fresh.transaction_id reason' admin' (rolled_back fresh id reason admin t s)
      (rollback_row fresh.transaction_id t)
      (find-append (λ r. r.id == fresh.transaction_id) s.transactions
        (rollback_row fresh.transaction_id t) new (ground arith))
      refl
      (none_other fresh.transaction_id s.rollbacks (rollback_note fresh id reason admin) unnoted
        ne),
  double_neg t.amount,
  refl,
  refl,
)
