-- ===== src/Webhooks/Retry/Bounded.antt =====
-- How often src/webhooks/webhook-retry.job.ts tries a delivery again.
use nexa_fx_js.Base.{
  ℕ, ◌+◌, ◌≤◌, ◌<◌, ◌≡◌, ◌≢◌, refl, sym, subst, ◌∙◌, inl, inr, Option, none, some, List, [], ◌∷◌,
  ◌==◌, leb, find, update_where, find_key-update_other, find_key-update_same, if_both, All, arith,
  Bool-cases,
}
use nexa_fx_js.Webhooks.{Endpoint, Delivery, State, find_endpoint, find_delivery}
use nexa_fx_js.Webhooks.Processor.{Answer, response, failure}
use nexa_fx_js.Webhooks.Retry.{
  Round, update_delivery, exhaust, after_post, retry_at, retry_one, retry_all,
}

-- The rows that a query read: each is the row of its id, and no id is there twice.
abbrev pub IsRead : List Delivery → State → Type 0
IsRead [] s = Unit
IsRead (d ∷ ds) s =
    (find_delivery d.id s ≡ some d) × All (λ (r : Delivery). r.id ≢ d.id) ds × IsRead ds s

-- What the retries may do to a row: its retries are counted, and do not pass the limit.
pub record IsCounted (d r : Delivery) : Type 0 where
  pub same_id : r.id ≡ d.id
  pub same_limit : r.max_retries ≡ d.max_retries
  pub counted : r.attempts + d.retry_count ≡ d.attempts + r.retry_count
  pub grows : d.retry_count ≤ r.retry_count
  pub bounded : d.retry_count ≤ d.max_retries → r.retry_count ≤ r.max_retries

find-update_same :
    (id : ℕ) (f : Delivery → Delivery) (ds : List Delivery) (d : Delivery)
    → ((r : Delivery) → (f r).id ≡ r.id)
    → find (λ (r : Delivery). r.id == id) ds ≡ some d
    → find (λ (r : Delivery). r.id == id) (update_where (λ (r : Delivery). r.id == id) f ds)
      ≡ some (f d)
find-update_same id f ds d keeps h =
    rw (find_key-update_same (λ (r : Delivery). r.id) f keeps id ds, h) refl

updated_lem :
    (id other : ℕ) (f : Delivery → Delivery) (s : State)
    → ((r : Delivery) → (f r).id ≡ r.id)
    → id ≢ other
    → find_delivery id (update_delivery other f s) ≡ find_delivery id s
updated_lem id other f s keeps ne =
    find_key-update_other (λ (r : Delivery). r.id) f keeps id other s.deliveries ne

after_post-IsCounted :
    (now : ℕ) (answer : Answer) (d : Delivery)
    → d.retry_count < d.max_retries
    → IsCounted d (after_post now d answer d)
after_post-IsCounted now (response status) d h = record {
  same_id = refl;
  same_limit = refl;
  counted = omega arith;
  grows = omega arith;
  bounded = λ _. omega arith;
}
after_post-IsCounted now (failure status message) d h = record {
  same_id = refl;
  same_limit = refl;
  counted = omega arith;
  grows = omega arith;
  bounded = λ _. omega arith;
}

after_post-id : (now : ℕ) (answer : Answer) (d r : Delivery) → (after_post now d answer r).id ≡ r.id
after_post-id now (response status) d r = refl
after_post-id now (failure status message) d r = refl

IsCounted-refl : (d : Delivery) → IsCounted d d
IsCounted-refl d = record {
  same_id = refl;
  same_limit = refl;
  counted = refl;
  grows = omega arith;
  bounded = λ h. h;
}

-- The row of `id` is one that the retries may make of `d`.
abbrev pub IsRowAfter : ℕ → Delivery → State → Type 0
IsRowAfter id d s = (r : Delivery) × (find_delivery id s ≡ some r) × IsCounted d r

retry_at-IsRowAfter :
    (round : Round) (d : Delivery) (o : Option Endpoint) (s : State)
    → find_delivery d.id s ≡ some d
    → d.retry_count < d.max_retries
    → IsRowAfter d.id d (retry_at round d o s)
unfolding retry_at
retry_at-IsRowAfter round d none s h low = (d, h, IsCounted-refl d)
retry_at-IsRowAfter round d (some e) s h low =
    let f = after_post round.now d (round.post e d) in
    if_both (IsRowAfter d.id d) e.is_active (update_delivery d.id f s) s
      (
        f d,
        find-update_same d.id f s.deliveries d (after_post-id round.now (round.post e d) d) h,
        after_post-IsCounted round.now (round.post e d) d low,
      )
      (d, h, IsCounted-refl d)

retry_one-IsRowAfter :
    (round : Round) (d : Delivery) (s : State)
    → find_delivery d.id s ≡ some d
    → IsRowAfter d.id d (retry_one round d s)
unfolding retry_one
retry_one-IsRowAfter round d s h = elim (Bool-cases (leb d.max_retries d.retry_count)) [
  | inl spent ↦ rw (spent) (
    exhaust d,
    find-update_same d.id exhaust s.deliveries d (λ r. refl) h,
    record {
      same_id = refl;
      same_limit = refl;
      counted = refl;
      grows = omega arith;
      bounded = λ k. k;
    },
  )
  | inr left ↦
      rw (left) (retry_at-IsRowAfter round d (find_endpoint d.endpoint_id s) s h (ground arith))
]

retry_at_other :
    (round : Round) (d : Delivery) (o : Option Endpoint) (s : State) (id : ℕ)
    → id ≢ d.id
    → find_delivery id (retry_at round d o s) ≡ find_delivery id s
unfolding retry_at
retry_at_other round d none s id ne = refl
retry_at_other round d (some e) s id ne =
    let f = after_post round.now d (round.post e d) in
    if_both (λ t. find_delivery id t ≡ find_delivery id s) e.is_active (update_delivery d.id f s) s
      (updated_lem id d.id f s (after_post-id round.now (round.post e d) d) ne) refl

retry_one_other :
    (round : Round) (d : Delivery) (s : State) (id : ℕ)
    → id ≢ d.id
    → find_delivery id (retry_one round d s) ≡ find_delivery id s
unfolding retry_one
retry_one_other round d s id ne =
    if_both (λ t. find_delivery id t ≡ find_delivery id s) (leb d.max_retries d.retry_count)
      (update_delivery d.id exhaust s) (retry_at round d (find_endpoint d.endpoint_id s) s)
      (updated_lem id d.id exhaust s (λ r. refl) ne)
      (retry_at_other round d (find_endpoint d.endpoint_id s) s id ne)

IsRead-retry_one :
    (round : Round) (d : Delivery) (ds : List Delivery) (s : State)
    → All (λ (r : Delivery). r.id ≢ d.id) ds
    → IsRead ds s
    → IsRead ds (retry_one round d s)
IsRead-retry_one round d [] s apart h = tt
IsRead-retry_one round d (e ∷ es) s (ne, apart) (found, others, h) =
    (retry_one_other round d s e.id ne ∙ found, others, IsRead-retry_one round d es s apart h)

not_read :
    (round : Round) (ds : List Delivery) (s : State) (id : ℕ)
    → All (λ (r : Delivery). r.id ≢ id) ds
    → find_delivery id (retry_all round ds s) ≡ find_delivery id s
unfolding retry_all
not_read round [] s id apart = refl
not_read round (d ∷ ds) s id (ne, apart) =
    not_read round ds (retry_one round d s) id apart
    ∙ retry_one_other round d s id (λ e. ne (sym e))

first_read :
    (round : Round) (x : Delivery) (xs : List Delivery) (s : State)
    → IsRead (x ∷ xs) s
    → IsRowAfter x.id x (retry_all round (x ∷ xs) s)
unfolding retry_all
first_read round x xs s (found, apart, read) =
    let (r, after, counted) = retry_one-IsRowAfter round x s found in
    (r, not_read round xs (retry_one round x s) x.id apart ∙ after, counted)

same_row :
    (x d : Delivery) (s : State)
    → x.id ≡ d.id
    → find_delivery x.id s ≡ some x
    → find_delivery d.id s ≡ some d
    → x ≡ d
same_row x d s e h k =
    let p : find_delivery d.id s ≡ some x = rw (← e) h in
    let q : some x ≡ some d = sym p ∙ k in ground arith

-- In one round of the job the attempts and the retries of a delivery grow together and are never
-- set back, its limit stays, and its retries do not pass the limit, if they were within it before.
-- The rows that the round read are those of the table, each once.
pub retry_all-IsRowAfter :
    (round : Round) (due : List Delivery) (s : State) (d : Delivery)
    → IsRead due s
    → find_delivery d.id s ≡ some d
    → IsRowAfter d.id d (retry_all round due s)
unfolding retry_all
retry_all-IsRowAfter round [] s d read h = (d, h, IsCounted-refl d)
retry_all-IsRowAfter round (x ∷ xs) s d (found, apart, read) h = elim (Bool-cases (x.id == d.id)) [
  | inl same ↦
      let e : x ≡ d = same_row x d s (ground arith) found h in
      subst (λ y. IsRowAfter y.id y (retry_all round (x ∷ xs) s)) e
        (first_read round x xs s (found, apart, read))
  | inr other ↦
      let ne : d.id ≢ x.id = ground arith in
      retry_all-IsRowAfter round xs (retry_one round x s) d
        (IsRead-retry_one round x xs s apart read) (retry_one_other round x s d.id ne ∙ h)
]
