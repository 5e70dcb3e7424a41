-- ===== src/Transactions/History/Wanted.antt =====
-- Which rows `findHistory` of src/transactions/transactions.service.ts lists.
use nexa_fx_js.Base.{
  ◌≤◌, ◌≡◌, ◌↔◌, ◌⊎◌, refl, ap, subst, Bool, true, false, ◌&&◌, ◌||◌, Option, none, some, ◌==◌, leb,
  Text, same_text, same_text_refl, eq_of_same_text, arith,
}
use nexa_fx_js.Transactions.Data.{
  Transaction, TransactionStatus, pending, completed, failed, reversed, cancelled, Receipt,
  same_receipt,
}
use nexa_fx_js.Transactions.History.{Columns, Filters, same_status, where_set, has_value, fits}

-- What a filter asks, if it is set.
abbrev pub Wants : {A : Type 0} → Option A → (A → Type 0) → Type 0
Wants none P = Unit
Wants (some a) P = P a

-- A row that meets every filter that is set.
pub record IsWanted (cols : Columns) (f : Filters) (tx : Transaction) : Type 0 where
  pub user : Wants f.user_id (λ u. (tx.sender_id ≡ u) ⊎ (tx.receiver_id ≡ u))
  pub status : Wants f.status (λ st. tx.status ≡ st)
  pub currency : Wants f.currency (λ c. tx.currency ≡ c)
  pub receipt :
      Wants f.receipt_number
        (λ r. (q : Receipt) × (tx.receipt_number ≡ some q) × (same_receipt q r ≡ true))
  pub from : Wants f.start_date (λ from. from ≤ cols.created_at tx)
  pub to : Wants f.end_date (λ to. cols.created_at tx ≤ to)
  pub kind : Wants f.type_name (λ name. cols.metadata_type tx ≡ some name)

where_set_iff :
    {A : Type 0} (test : A → Bool) (P : A → Type 0) (o : Option A)
    → ((a : A) → (test a ≡ true) ↔ P a)
    → (where_set test o ≡ true) ↔ Wants o P
where_set_iff test P none h = (λ _. tt, λ _. refl)
where_set_iff test P (some a) h = h a

and_both : (a b : Bool) → a && b ≡ true → (a ≡ true) × (b ≡ true)
and_both true b h = (refl, h)
and_both false b h = cc

same_status_eq : (a b : TransactionStatus) → same_status a b ≡ true → a ≡ b
same_status_eq pending pending h = refl
same_status_eq completed completed h = refl
same_status_eq failed failed h = refl
same_status_eq reversed reversed h = refl
same_status_eq cancelled cancelled h = refl
same_status_eq _ _ h = cc

same_status_refl : (a : TransactionStatus) → same_status a a ≡ true
same_status_refl pending = refl
same_status_refl completed = refl
same_status_refl failed = refl
same_status_refl reversed = refl
same_status_refl cancelled = refl

status_iff : (a b : TransactionStatus) → (same_status a b ≡ true) ↔ (a ≡ b)
status_iff a b =
    (same_status_eq a b, λ e. subst (λ c. same_status a c ≡ true) e (same_status_refl a))

text_iff : (a b : Text) → (same_text a b ≡ true) ↔ (a ≡ b)
text_iff a b = (eq_of_same_text a b, λ e. subst (λ c. same_text a c ≡ true) e (same_text_refl a))

receipt_iff :
    (o : Option Receipt) (r : Receipt)
    → (has_value same_receipt o r ≡ true)
      ↔ ((q : Receipt) × (o ≡ some q) × (same_receipt q r ≡ true))
receipt_iff none r = (λ h. cc, λ (q, e, _). cc)
receipt_iff (some p) r =
    ((λ h. (p, refl, h)), (λ (q, e, h). let same : p ≡ q = ground arith in rw (same) h))

name_iff : (o : Option Text) (t : Text) → (has_value same_text o t ≡ true) ↔ (o ≡ some t)
name_iff none t = (λ h. cc, λ e. cc)
name_iff (some p) t = (
  (λ h. ap some (eq_of_same_text p t h)),
  (λ e. let same : p ≡ t = ground arith in rw (same) (same_text_refl t)),
)

module _ (cols : Columns) (f : Filters) (tx : Transaction) where
  user_iff :
      (where_set (λ u. (tx.sender_id == u) || tx.receiver_id == u) f.user_id ≡ true)
      ↔ Wants f.user_id (λ u. (tx.sender_id ≡ u) ⊎ (tx.receiver_id ≡ u))
  user_iff = where_set_iff _ _ f.user_id λ u. (λ h. ground arith, λ h. ground arith)

  from_iff :
      (where_set (λ from. leb from (cols.created_at tx)) f.start_date ≡ true)
      ↔ Wants f.start_date (λ from. from ≤ cols.created_at tx)
  from_iff = where_set_iff _ _ f.start_date λ from. (λ h. ground arith, λ h. ground arith)

  to_iff :
      (where_set (λ to. leb (cols.created_at tx) to) f.end_date ≡ true)
      ↔ Wants f.end_date (λ to. cols.created_at tx ≤ to)
  to_iff = where_set_iff _ _ f.end_date λ to. (λ h. ground arith, λ h. ground arith)

  status_wanted :
      (where_set (same_status tx.status) f.status ≡ true) ↔ Wants f.status (λ st. tx.status ≡ st)
  status_wanted = where_set_iff _ _ f.status (status_iff tx.status)

  currency_wanted :
      (where_set (same_text tx.currency) f.currency ≡ true)
      ↔ Wants f.currency (λ c. tx.currency ≡ c)
  currency_wanted = where_set_iff _ _ f.currency (text_iff tx.currency)

  receipt_wanted :
      (where_set (has_value same_receipt tx.receipt_number) f.receipt_number ≡ true)
      ↔ Wants f.receipt_number
          (λ r. (q : Receipt) × (tx.receipt_number ≡ some q) × (same_receipt q r ≡ true))
  receipt_wanted = where_set_iff _ _ f.receipt_number (receipt_iff tx.receipt_number)

  kind_wanted :
      (where_set (has_value same_text (cols.metadata_type tx)) f.type_name ≡ true)
      ↔ Wants f.type_name (λ name. cols.metadata_type tx ≡ some name)
  kind_wanted = where_set_iff _ _ f.type_name (name_iff (cols.metadata_type tx))

  -- The condition of the query is the description.
  pub fits_iff : (fits cols f tx ≡ true) ↔ IsWanted cols f tx
  unfolding fits
  fits_iff = (
    (λ h.
        let (h₆, k) = and_both _ _ h in
        let (h₅, g) = and_both _ _ h₆ in
        let (h₄, e) = and_both _ _ h₅ in
        let (h₃, d) = and_both _ _ h₄ in
        let (h₂, c) = and_both _ _ h₃ in
        let (a, b) = and_both _ _ h₂ in
        record {
          user = user_iff.0 a;
          status = status_wanted.0 b;
          currency = currency_wanted.0 c;
          receipt = receipt_wanted.0 d;
          from = from_iff.0 e;
          to = to_iff.0 g;
          kind = kind_wanted.0 k;
        }),
    (λ w.
        rw
          (
            user_iff.1 w.user,
            status_wanted.1 w.status,
            currency_wanted.1 w.currency,
            receipt_wanted.1 w.receipt,
            from_iff.1 w.from,
            to_iff.1 w.to,
            kind_wanted.1 w.kind,
          )
          refl),
  )
