-- ===== src/Transactions/Data/Storable.antt =====
-- Which new rows of src/transactions/transaction.entity.ts the database takes.
use nexa_fx_js.Base.{
  ℕ, ◌+◌, ◌≡◌, refl, ap, ◌∙◌, ◌⊎◌, inl, inr, true, false, some, not, ◌||◌, Bool, Bool-cases, List,
  [], ◌∷◌, ◌==◌, if◌then◌else◌, arith,
}
use nexa_fx_js.Base.Action.{Action, ok, err, error, database_fault, ◌>>=◌, bind_ok, bind_err}
use nexa_fx_js.Transactions.Data.{
  Transaction, State, Env, Receipt, is_referenced, is_numbered, has_receipt, save_row, insert_row,
  next_receipt, generate_receipt_number,
}

-- Both parties are users, and no stored row has the reference.
pub record IsStorable (env : Env) (tx : Transaction) (ts : List Transaction) : Type 0 where
  pub sender : env.user_exists tx.sender_id ≡ true
  pub receiver : env.user_exists tx.receiver_id ≡ true
  pub reference : is_referenced tx.reference ts ≡ false

-- The state with the new row.
abbrev pub inserted : (ℕ → Transaction) → State → State
inserted row s = record s {
  transactions = save_row (row s.next_id) s.transactions;
  next_id = s.next_id + 1;
}

pub insert_row_lem :
    (env : Env) (row : ℕ → Transaction) (s : State)
    → IsStorable env (row s.next_id) s.transactions
    → insert_row env row s ≡ (ok (row s.next_id), inserted row s)
unfolding insert_row
insert_row_lem env row s h = rw (h.sender, h.receiver, h.reference) refl

refused_sum :
    (a b c : Bool) → ((a ≡ true) × (b ≡ true) × (c ≡ false)) ⊎ ((not a || not b || c) ≡ true)
refused_sum true true false = inl (refl, refl, refl)
refused_sum true true true = inr refl
refused_sum true false c = inr refl
refused_sum false b c = inr refl

-- A row that is not stored throws, and changes nothing.
pub insert_row-cases :
    (env : Env) (row : ℕ → Transaction) (s : State)
    → IsStorable env (row s.next_id) s.transactions
      ⊎ (insert_row env row s ≡ (err (error database_fault), s))
unfolding insert_row
insert_row-cases env row s =
    let tx = row s.next_id in
    elim (refused_sum (env.user_exists tx.sender_id) (env.user_exists tx.receiver_id)
      (is_referenced tx.reference s.transactions)) [
        | inl (a, b, c) ↦ inl (record { sender = a; receiver = b; reference = c })
        | inr refused ↦ inr (rw (refused) refl)
      ]

-- A row does not count among the others.
pub is_numbered-save :
    (tx : Transaction) (number : Receipt) (ts : List Transaction)
    → is_numbered tx.id number (save_row tx ts) ≡ is_numbered tx.id number ts
is_numbered-save tx number [] = ground arith
is_numbered-save tx number (t ∷ ts) = elim (Bool-cases (t.id == tx.id)) [
  | inl same ↦ let own : (tx.id == tx.id) ≡ true = ground arith in rw (same, own) refl
  | inr other ↦
      rw (other) (rw (other) (ap (λ b. has_receipt number t || b) (is_numbered-save tx number ts)))
]

abbrev pub numbered : Env → State → Transaction → Transaction
numbered env s tx = record tx { receipt_number = some (next_receipt env s) }

abbrev pub with_number : Env → Transaction → State → State
with_number env tx s = record s {
  transactions = save_row (numbered env s tx) s.transactions;
  receipt_seq = if env.sequence_up then s.receipt_seq + 1 else s.receipt_seq;
}

-- The row is free to take the number that is next.
abbrev pub IsNumberFree : Env → ℕ → State → Type 0
IsNumberFree env id s = is_numbered id (next_receipt env s) s.transactions ≡ false

generate_receipt_number_lem :
    (env : Env) (tx : Transaction) (s : State)
    → IsNumberFree env tx.id s
    → generate_receipt_number env tx s ≡ (ok (numbered env s tx), with_number env tx s)
unfolding generate_receipt_number
generate_receipt_number_lem env tx s h = rw (h) refl

generate_receipt_number_refused :
    (env : Env) (tx : Transaction) (s : State)
    → is_numbered tx.id (next_receipt env s) s.transactions ≡ true
    → generate_receipt_number env tx s ≡ (
      err (error database_fault),
      record s { receipt_seq = if env.sequence_up then s.receipt_seq + 1 else s.receipt_seq },
    )
unfolding generate_receipt_number
generate_receipt_number_refused env tx s h = rw (h) refl

-- A row is inserted, numbered, and handed on.
abbrev pub insert_numbered :
    Env → (ℕ → Transaction) → (Transaction → Action State Transaction) → Action State Transaction
insert_numbered env row k = insert_row env row >>= λ tx. generate_receipt_number env tx >>= k

module _ (env : Env) (row : ℕ → Transaction) (k : Transaction → Action State Transaction)
    (s : State) where
  pub insert_numbered_lem :
      IsStorable env (row s.next_id) s.transactions
      → IsNumberFree env (row s.next_id).id s
      → insert_numbered env row k s
        ≡ k (numbered env s (row s.next_id)) (with_number env (row s.next_id) (inserted row s))
  insert_numbered_lem h free =
      let free' : IsNumberFree env (row s.next_id).id (inserted row s) =
        is_numbered-save (row s.next_id) (next_receipt env s) s.transactions ∙ free in
      bind_ok (insert_row env row) (λ tx. generate_receipt_number env tx >>= k) s
        (insert_row_lem env row s h)
      ∙ bind_ok (generate_receipt_number env (row s.next_id)) k (inserted row s)
          (generate_receipt_number_lem env (row s.next_id) (inserted row s) free')

  pub insert_numbered-cases :
      (IsStorable env (row s.next_id) s.transactions × IsNumberFree env (row s.next_id).id s)
      ⊎ ((insert_numbered env row k s).0 ≡ err (error database_fault))
  insert_numbered-cases = elim (insert_row-cases env row s) [
    | inr refused ↦ inr (
        ap (λ r. r.0)
          (bind_err (insert_row env row) (λ tx. generate_receipt_number env tx >>= k) s refused))
    | inl h ↦
        elim (Bool-cases (is_numbered (row s.next_id).id (next_receipt env s) s.transactions)) [
          | inr free ↦ inl (h, free)
          | inl taken ↦
              let taken' : is_numbered (row s.next_id).id (next_receipt env s)
                    (save_row (row s.next_id) s.transactions)
                  ≡ true =
                is_numbered-save (row s.next_id) (next_receipt env s) s.transactions ∙ taken in
              inr (
                ap (λ r. r.0)
                  (bind_ok (insert_row env row) (λ tx. generate_receipt_number env tx >>= k) s
                      (insert_row_lem env row s h)
                    ∙ bind_err (generate_receipt_number env (row s.next_id)) k (inserted row s) (
                        generate_receipt_number_refused env (row s.next_id) (inserted row s)
                          taken')))
        ]
  ]
