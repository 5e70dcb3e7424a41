-- ===== src/Webhooks/Processor/Settled.antt =====
-- How a job of src/webhooks/webhooks.processor.ts ends.
use nexa_fx_js.Base.{
  ℕ, suc, ◌+◌, ◌*◌, ◌≤◌, ◌<◌, ◌≡◌, refl, ◌⊎◌, inl, inr, false, Option, none, some, List, [], ◌∷◌,
  ◌==◌, ltb, length, find, find-update, holds_of_find, or_else, arith, Bool-cases,
}
use nexa_fx_js.Base.Action.{Action, Result, ok, err, error, delivery_failed, modify}
use nexa_fx_js.Webhooks.{
  Endpoint, Delivery, State, DeliveryStatus, pending, delivered, failed, expired, find_endpoint,
  find_delivery,
}
use nexa_fx_js.Webhooks.Processor.{
  Job, Answer, response, failure, Run, save_delivery, conclude, deliver_to, deliver_row,
  deliver_found, deliver, next_run, or_again, process_job, without_endpoint, attempted, out_of_time,
  posted, not_posted, is_last,
}

find_delivery-id :
    (id : ℕ) (ds : List Delivery) (d : Delivery)
    → find (λ (r : Delivery). r.id == id) ds ≡ some d
    → d.id ≡ id
find_delivery-id id ds d h =
    let k = holds_of_find (λ (r : Delivery). r.id == id) ds d h in ground arith

-- A row that is saved under its id is found again.
find_delivery-save_delivery :
    (s : State) (id : ℕ) (d y : Delivery)
    → find_delivery id s ≡ some d
    → y.id ≡ d.id
    → find_delivery id (save_delivery y s) ≡ some y
unfolding save_delivery
find_delivery-save_delivery s id d y h k =
    let e : d.id ≡ id = find_delivery-id id s.deliveries d h in
    find-update (λ (r : Delivery). r.id == id) (λ (r : Delivery). r.id == y.id) d y s.deliveries h
      (rw (k) (ground arith)) (rw (k) (ground arith))

abbrev pub IsSettled : DeliveryStatus → Type 0
IsSettled pending = ⊥
IsSettled delivered = Unit
IsSettled failed = Unit
IsSettled expired = Unit

-- How one run on the row `d` ends: a settled row, or an exception that is not of the last run.
record IsRun (job : Job) (d : Delivery) (r : Result (Unit {0}) × State) : Type 0 where
  row : Delivery
  found : find_delivery job.delivery_id r.1 ≡ some row
  count : row.attempt_count ≤ d.attempt_count + 1
  ended :
      ((r.0 ≡ ok tt) × IsSettled row.status)
      ⊎ ((r.0 ≡ err (error delivery_failed)) × (is_last job ≡ false))

module _ (job : Job) (d : Delivery) (s : State) (h : find_delivery job.delivery_id s ≡ some d) where
  saved-IsRun :
      (y : Delivery)
      → y.id ≡ d.id
      → y.attempt_count ≤ d.attempt_count + 1
      → IsSettled y.status
      → IsRun job d (modify (save_delivery y) s)
  saved-IsRun y same low settled = record {
    row = y;
    found = find_delivery-save_delivery s job.delivery_id d y h same;
    count = low;
    ended = inl (refl, settled);
  }

  conclude-IsRun :
      (d₀ : Delivery) (now : ℕ) (answer : Answer)
      → d.attempt_count ≤ d₀.attempt_count + 1
      → IsRun job d₀ (conclude now job d answer s)
  unfolding conclude
  conclude-IsRun d₀ now (response status) low = record {
    row = posted now status d;
    found = find_delivery-save_delivery s job.delivery_id d (posted now status d) h refl;
    count = low;
    ended = inl (refl, tt);
  }
  conclude-IsRun d₀ now (failure status message) low = elim (Bool-cases (is_last job)) [
    | inl last ↦
        let y = record (not_posted status message d) { status = failed } in
        rw (last) (record {
          row = y;
          found = find_delivery-save_delivery s job.delivery_id d y h refl;
          count = low;
          ended = inl (refl, tt);
        })
    | inr more ↦
        let y = not_posted status message d in
        rw (more) (record {
          row = y;
          found = find_delivery-save_delivery s job.delivery_id d y h refl;
          count = low;
          ended = inr (refl, more);
        })
  ]

module _ (run : Run) (job : Job) (d : Delivery) (s : State)
    (h : find_delivery job.delivery_id s ≡ some d) where
  deliver_to-IsRun : (e : Endpoint) → IsRun job d (deliver_to run job d e s)
  unfolding deliver_to
  deliver_to-IsRun e =
      elim (Bool-cases (ltb (job.timestamp + run.window_hours * 3_600_000) run.now)) [
        | inl late ↦ rw (late) (saved-IsRun job d s h (out_of_time run.now d) refl (omega arith) tt)
        | inr early ↦
            let y = attempted run.now d in
            let saved = save_delivery y s in
            rw (early) (
              conclude-IsRun job y saved (find_delivery-save_delivery s job.delivery_id d y h refl)
                d run.now (run.post e y) (omega arith))
      ]

  deliver_row-IsRun : (o : Option Endpoint) → IsRun job d (deliver_row run job d o s)
  unfolding deliver_row
  deliver_row-IsRun none = saved-IsRun job d s h (without_endpoint d) refl (omega arith) tt
  deliver_row-IsRun (some e) = deliver_to-IsRun e

  deliver-IsRun : IsRun job d (deliver run job s)
  unfolding deliver deliver_found
  deliver-IsRun = rw (h) (deliver_row-IsRun (find_endpoint d.endpoint_id s))

-- A job that is over after at most `n` counted attempts, with its delivery no longer pending.
pub record IsOver (id n : ℕ) (d : Delivery) (r : Result (Unit {0}) × State) : Type 0 where
  pub returned : r.0 ≡ ok tt
  pub row : Delivery
  pub found : find_delivery id r.1 ≡ some row
  pub settled : IsSettled row.status
  pub count : row.attempt_count ≤ d.attempt_count + n

or_again-IsOver :
    (n : ℕ) (job : Job) (d : Delivery) (more : Action State (Unit {0}))
    (r : Result (Unit {0}) × State)
    → IsRun job d r
    → ((row : Delivery) (s : State)
        → find_delivery job.delivery_id s ≡ some row
        → is_last job ≡ false
        → IsOver job.delivery_id n row (more s))
    → IsOver job.delivery_id (suc n) d (or_again more r)
unfolding or_again
or_again-IsOver n job d more (ok tt, s) h rest = elim h.ended [
  | inl (_, settled) ↦ record {
    returned = refl;
    row = h.row;
    found = h.found;
    settled = settled;
    count = let low = h.count in omega arith;
  }
  | inr (e, _) ↦ cc
]
or_again-IsOver n job d more (err e, s) h rest = elim h.ended [
  | inl (k, _) ↦ cc
  | inr (_, early) ↦
      let over = rest h.row s h.found early in
      record {
        returned = over.returned;
        row = over.row;
        found = over.found;
        settled = over.settled;
        count = let low = h.count in let high = over.count in omega arith;
      }
]

-- A job of the queue that is run again while it throws ends, without an exception, within the runs
-- that its setting `attempts` leaves, however the endpoint answers: its delivery is then no longer
-- pending, and its count of attempts has risen by at most the number of runs.
pub process_job-IsOver :
    (runs : List Run) (job : Job) (d : Delivery) (s : State)
    → find_delivery job.delivery_id s ≡ some d
    → 0 < length runs
    → or_else job.attempts 5 ≤ job.attempts_made + length runs
    → IsOver job.delivery_id (length runs) d (process_job runs job s)
unfolding process_job
process_job-IsOver [] job d s h some_run enough = let k : ⊥ = omega arith in elim k [ ]
process_job-IsOver (run ∷ runs) job d s h some_run enough =
    or_again-IsOver (length runs) job d (process_job runs (next_run job)) (deliver run job s)
      (deliver-IsRun run job d s h)
      (λ row s' found early.
        let left : job.attempts_made + 1 < or_else job.attempts 5 = ground arith in
        process_job-IsOver runs (next_run job) row s' found (omega arith) (omega arith))
