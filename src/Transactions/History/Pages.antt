-- ===== src/Transactions/History/Pages.antt =====
-- The pages of `findHistory` in src/transactions/transactions.service.ts, and the export that reads
-- one of them.
use nexa_fx_js.Base.{
  ℕ, zero, suc, ◌+◌, ◌-◌, ◌*◌, ◌≤◌, ◌≡◌, ◌↔◌, refl, ap, sym, subst, ◌∙◌, List, [], ◌∷◌, ◌++◌,
  length, ◌==◌, Bool-cases, inl, inr, false, Option, some, or_else, arith,
}
use nexa_fx_js.Base.Action.{Result, ok, err}
use nexa_fx_js.Transactions.Data.{Transaction, State}
use nexa_fx_js.Transactions.History.{
  Columns, Filters, History, fits, effective_limit, skip, take, history_page, matching, of_user,
  find_history, export_transactions_csv, max_limit,
}
use nexa_fx_js.Transactions.History.Wanted.{IsWanted}
use nexa_fx_js.Transactions.History.Order.{
  In, AreApart, IsDescending, In-matching, IsDescending-matching,
}

take_nil : (n : ℕ) → take n [] ≡ []
take_nil zero = refl
take_nil (suc n) = refl

take-append :
    (n l : ℕ) (rows : List Transaction) → take (n + l) rows ≡ take n rows ++ take l (skip n rows)
take-append zero l rows = let e : 0 + l ≡ l = omega arith in ap (λ k. take k rows) e
take-append (suc n) l [] = take_nil (suc n + l) ∙ sym (take_nil l)
take-append (suc n) l (tx ∷ txs) =
    let e : suc n + l ≡ suc (n + l) = omega arith in
    ap (λ k. take k (tx ∷ txs)) e ∙ ap (λ r. tx ∷ r) (take-append n l txs)

take_all : (n : ℕ) (rows : List Transaction) → length rows ≤ n → take n rows ≡ rows
take_all zero [] h = refl
take_all zero (tx ∷ txs) h = let k : ⊥ = omega arith in elim k [ ]
take_all (suc n) [] h = refl
take_all (suc n) (tx ∷ txs) h = ap (λ l. tx ∷ l) (take_all n txs (omega arith))

length-take : (n : ℕ) (rows : List Transaction) → length (take n rows) ≤ n
length-take zero rows = omega arith
length-take (suc n) [] = omega arith
length-take (suc n) (tx ∷ txs) = let k = length-take n txs in omega arith

mul_suc : (n l : ℕ) → n * l + l ≡ suc n * l
mul_suc n l = ground arith

-- The items of a page of a history, if the call answers.
abbrev items_in : Result History → List Transaction
items_in (ok h) = h.items
items_in (err e) = []

abbrev pub items_of : Columns → Filters → State → ℕ → List Transaction
items_of cols f s k = items_in (find_history cols (record f { page = some k }) s).0

-- Pages 1 to n, one after the other.
abbrev pub pages : Columns → Filters → State → (n : ℕ) → List Transaction
pages cols f s zero = []
pages cols f s (suc n) = pages cols f s n ++ items_of cols f s (suc n)

module _ (cols : Columns) (f : Filters) (s : State) where
  page_lem :
      (k : ℕ)
      → (find_history cols (record f { page = some (suc k) }) s).0
        ≡ ok (history_page (suc k) (effective_limit f.limit) (matching cols f s.transactions))
  unfolding find_history fits
  page_lem k = let there : (suc k == 0) ≡ false = ground arith in rw (there) refl

  items_lem :
      (k : ℕ)
      → items_of cols f s (suc k)
        ≡ take
            (effective_limit f.limit)
            (skip (k * effective_limit f.limit) (matching cols f s.transactions))
  unfolding history_page
  items_lem k =
      let e : suc k - 1 ≡ k = omega arith in
      ap items_in (page_lem k)
      ∙ ap
          (λ m.
            take (effective_limit f.limit)
              (skip (m * effective_limit f.limit) (matching cols f s.transactions)))
          e

  pages-take :
      (n : ℕ)
      → pages cols f s n ≡ take (n * effective_limit f.limit) (matching cols f s.transactions)
  pages-take zero =
      let e : 0 ≡ 0 * effective_limit f.limit = omega arith in
      ap (λ k. take k (matching cols f s.transactions)) e
  pages-take (suc n) =
      let limit = effective_limit f.limit in
      let rows = matching cols f s.transactions in
      ap (λ r. r ++ items_of cols f s (suc n)) (pages-take n)
      ∙ ap (λ r. take (n * limit) rows ++ r) (items_lem n)
      ∙ sym (take-append (n * limit) limit rows)
      ∙ ap (λ k. take k rows) (mul_suc n limit)

  answer_lem :
      (h : History)
      → (find_history cols f s).0 ≡ ok h
      → (h.total ≡ length (matching cols f s.transactions)) × (h.limit ≡ effective_limit f.limit)
  unfolding find_history history_page
  answer_lem h e = elim (Bool-cases (or_else f.page 1 == 0)) [
    | inl zeroth ↦ let bad = rw (zeroth) at e in absurd (cc bad)
    | inr fine ↦
        let e' = rw (fine) at e in
        let same : history_page (or_else f.page 1) (effective_limit f.limit)
              (matching cols f s.transactions)
            ≡ h =
          ground arith in
        (sym (ap (λ g. g.total) same), sym (ap (λ g. g.limit) same))
  ]

effective_limit_bounds :
    (limit : Option ℕ) → (1 ≤ effective_limit limit) × (effective_limit limit ≤ max_limit)
effective_limit_bounds limit = (ground arith, ground arith)

-- Where no two transactions have the same `createdAt`: if a call of `findHistory` has answered, with
-- a total and a limit, then its limit is from 1 to 100, and as many pages of that limit as hold the
-- total, one after the other, are the transactions that meet all the filters that are set, and no
-- others, each later than all that follow.
pub pages_complete :
    (cols : Columns) (f : Filters) (s : State) (h : History) (n : ℕ)
    → AreApart cols s.transactions
    → (find_history cols f s).0 ≡ ok h
    → h.total ≤ n * h.limit
    → (1 ≤ h.limit)
      × (h.limit ≤ 100)
      × IsDescending cols (pages cols f s n)
      × ((tx : Transaction)
          → In tx (pages cols f s n) ↔ (In tx s.transactions × IsWanted cols f tx))
pages_complete cols f s h n apart answered enough =
    let (total, limit) = answer_lem cols f s h answered in
    let rows = matching cols f s.transactions in
    let hold : length rows ≤ n * effective_limit f.limit = rw (← total, ← limit) enough in
    let all : pages cols f s n ≡ rows =
      pages-take cols f s n ∙ take_all (n * effective_limit f.limit) rows hold in
    let (low, high) = effective_limit_bounds f.limit in
    rw (all, limit)
      (
        low,
        high,
        IsDescending-matching cols f s.transactions apart,
        λ tx. In-matching cols f tx s.transactions,
      )

-- An export has at most 100 transactions, however many the user has, although it asks for 1000.
pub length-export :
    (cols : Columns) (user : ℕ) (s t : State) (rows : List Transaction)
    → export_transactions_csv cols user s ≡ (ok rows, t)
    → length rows ≤ max_limit
unfolding export_transactions_csv find_history history_page
length-export cols user s t rows h =
    let k = length-take 100 (matching cols (of_user user 1000) s.transactions) in
    let e : take 100 (matching cols (of_user user 1000) s.transactions) ≡ rows = ground arith in
    subst (λ r. length r ≤ 100) e k
