-- ===== src/Admin/Replay.antt =====
-- The audit entries of src/admin/admin.service.ts, redone on the rows they are about.
use nexa_fx_js.Base.{
  ℕ, ◌≡◌, refl, sym, ap, ◌∙◌, some, List, [], ◌∷◌, ◌++◌, ◌==◌, if◌then◌else◌, find, holds_of_find,
  ==_iff, Text, arith, inl, inr, Bool-cases,
}
use nexa_fx_js.Base.Int.{ℤ}
use nexa_fx_js.Transactions.Data.{Transaction}
use nexa_fx_js.Admin.{
  User, State, TransactionView, UserView, AuditEntry, status_override, activated, suspended,
  role_changed, spread_updated, impersonated, save, set_spread,
}

-- What the administrators change, save the approvals.
pub record Books : Type 0 where
  pub transactions : List Transaction
  pub users : List User
  pub spreads : List (Text × ℤ)

abbrev pub books : State → Books
books s = record { transactions = s.transactions; users = s.users; spreads = s.spreads }

module _ {A : Type 0} (key : A → ℕ) where
  -- The first row of that id is changed.
  abbrev pub change_first : ℕ → (A → A) → List A → List A
  change_first id f [] = []
  change_first id f (x ∷ xs) = if key x == id then f x ∷ xs else x ∷ change_first id f xs

  pub save-change_first :
      (id : ℕ) (f : A → A) (x : A) (xs : List A)
      → find (λ r. key r == id) xs ≡ some x
      → key (f x) ≡ id
      → save key (f x) xs ≡ change_first id f xs
  save-change_first id f x [] h k = cc
  save-change_first id f x (y ∷ ys) h k =
      let rest = save-change_first id f x ys in
      elim (Bool-cases (key y == id)) [
        | inl hit ↦ let e : y ≡ x = ground arith in rw (k, hit) (ap (λ r. f r ∷ ys) (sym e))
        | inr miss ↦ rw (k, miss) (ap (λ r. y ∷ r) (rest (rw (miss) at h) k))
      ]

abbrev pub restore_transaction : TransactionView → Transaction → Transaction
restore_transaction v t = record t {
  status = v.status;
  amount = v.amount;
  currency = v.currency;
  sender_id = v.sender_id;
  receiver_id = v.receiver_id;
  reference = v.reference;
}

abbrev pub restore_user : UserView → User → User
restore_user v u = record u {
  is_active = v.is_active;
  role = v.role;
  kyc_status = v.kyc_status;
  email = v.email;
}

-- The `after` of an entry, written over the row that it names.
unfoldable pub redo : AuditEntry → Books → Books
redo (status_override by id before later reason) b = record b {
  transactions = change_first (λ t. t.id) id (restore_transaction later) b.transactions;
}
redo (activated by id before later reason) b = record b {
  users = change_first (λ u. u.id) id (restore_user later) b.users;
}
redo (suspended by id before later reason) b = record b {
  users = change_first (λ u. u.id) id (restore_user later) b.users;
}
redo (role_changed by id before later reason) b = record b {
  users = change_first (λ u. u.id) id (restore_user later) b.users;
}
redo (spread_updated by pair spread) b = record b { spreads = set_spread pair spread b.spreads }
redo (impersonated by id email) b = b

unfoldable pub replay : List AuditEntry → Books → Books
replay [] b = b
replay (e ∷ es) b = replay es (redo e b)

pub record IsTraced (s t : State) : Type 0 where
  pub added : List AuditEntry
  pub log : t.audit ≡ s.audit ++ added
  pub result : books t ≡ replay added (books s)

append_nil : (es : List AuditEntry) → es ≡ es ++ []
append_nil [] = refl
append_nil (e ∷ es) = ap (λ r. e ∷ r) (append_nil es)

append_assoc : (xs ys zs : List AuditEntry) → (xs ++ ys) ++ zs ≡ xs ++ (ys ++ zs)
append_assoc [] ys zs = refl
append_assoc (x ∷ xs) ys zs = ap (λ r. x ∷ r) (append_assoc xs ys zs)

replay-append :
    (xs ys : List AuditEntry) (b : Books) → replay (xs ++ ys) b ≡ replay ys (replay xs b)
unfolding replay
replay-append [] ys b = refl
replay-append (x ∷ xs) ys b = replay-append xs ys (redo x b)

pub IsTraced-same : (s t : State) → t.audit ≡ s.audit → books t ≡ books s → IsTraced s t
unfolding replay
IsTraced-same s t h k = record { added = []; log = h ∙ append_nil s.audit; result = k }

pub IsTraced-trans : (s t u : State) → IsTraced s t → IsTraced t u → IsTraced s u
IsTraced-trans s t u h k = record {
  added = h.added ++ k.added;
  log = k.log ∙ ap (λ r. r ++ k.added) h.log ∙ append_assoc s.audit h.added k.added;
  result = k.result ∙ ap (replay k.added) h.result ∙ sym (replay-append h.added k.added (books s));
}

pub same_id :
    {A : Type 0} (key : A → ℕ) (id : ℕ) (xs : List A) (x : A)
    → find (λ r. key r == id) xs ≡ some x
    → key x ≡ id
same_id key id xs x h = (==_iff (key x) id).0 (holds_of_find (λ r. key r == id) xs x h)
