-- ===== src/Webhooks/Retry.antt =====
-- src/webhooks/webhook-retry.job.ts. TypeORM's `update` leaves a column alone whose new value is
-- `undefined`. The order and the limit of the query, `updatedAt` and 50, are the database's: the loop
-- takes the rows that it read.
pub mod Bounded
use Prim.Native.String.{String}
use nexa_fx_js.Base.{
  ℕ, suc, ◌+◌, ◌-◌, Bool, true, false, ◌&&◌, Option, none, some, List, [], ◌∷◌, ◌==◌, leb, ltb,
  if◌then◌else◌, update_where, filter, zero,
}
use nexa_fx_js.Base.Action.{
  Action, Result, error, ◌>>=◌, ◌>>◌, get, pure, or_throw, modify, delivery_not_found,
}
use nexa_fx_js.Webhooks.{
  Endpoint, Delivery, State, DeliveryStatus, pending, delivered, failed, expired, find_endpoint,
  find_delivery,
}
use nexa_fx_js.Webhooks.Processor.{Answer, response, failure}

abbrev is_failed : DeliveryStatus → Bool
is_failed failed = true
is_failed _ = false

-- A comparison with `NULL` is no match.
abbrev pub is_due : ℕ → Delivery → Bool
is_due now d = is_failed d.status && elim d.next_retry_at [ none ↦ false | some at ↦ leb at now ]

abbrev pub update_delivery : ℕ → (Delivery → Delivery) → State → State
update_delivery id f s = record s {
  deliveries = update_where (λ (r : Delivery). r.id == id) f s.deliveries;
}

-- `EXPONENTIAL_BACKOFF_MS[Math.min(retryCount, 2)]`
abbrev pub backoff_ms : ℕ → ℕ
backoff_ms zero = 60_000
backoff_ms (suc zero) = 300_000
backoff_ms (suc (suc n)) = 1_800_000

abbrev pub exhaust : Delivery → Delivery
exhaust r = record r { status = failed }

-- The two updates take the counts from the row that was read, `d`.
abbrev pub succeed : (now status : ℕ) (d r : Delivery) → Delivery
succeed now status d r = record r {
  status = delivered;
  attempts = d.attempts + 1;
  retry_count = d.retry_count + 1;
  response_code = some status;
  delivered_at = some now;
}

abbrev pub next_retry : (now : ℕ) (d r : Delivery) → Option ℕ
next_retry now d r =
    if ltb (d.retry_count + 1) d.max_retries
    then some (now + backoff_ms (d.retry_count + 1))
    else r.next_retry_at

abbrev pub fail : (now : ℕ) → Option ℕ → String → (d r : Delivery) → Delivery
fail now status message d r = record r {
  status = failed;
  attempts = d.attempts + 1;
  retry_count = d.retry_count + 1;
  response_code = status;
  error_message = some message;
  next_retry_at = next_retry now d r;
}

abbrev pub after_post : ℕ → Delivery → Answer → Delivery → Delivery
after_post now d (response status) = succeed now status d
after_post now d (failure status message) = fail now status message d

-- The environment of one round: the time and the answers to the POSTs.
pub record Round : Type 0 where
  pub now : ℕ
  pub post : Endpoint → Delivery → Answer

unfoldable pub retry_at : Round → Delivery → Option Endpoint → State → State
retry_at round d none s = s
retry_at round d (some e) s =
    if e.is_active then update_delivery d.id (after_post round.now d (round.post e d)) s else s

-- The body of the loop.
unfoldable pub retry_one : Round → Delivery → State → State
retry_one round d s =
    if leb d.max_retries d.retry_count
    then update_delivery d.id exhaust s
    else retry_at round d (find_endpoint d.endpoint_id s) s

unfoldable pub retry_all : Round → List Delivery → State → State
retry_all round [] s = s
retry_all round (d ∷ ds) s = retry_all round ds (retry_one round d s)

-- `read` is the order and the limit of the query.
unfoldable pub retry_failed_deliveries :
    (read : List Delivery → List Delivery) → Round → State → State
retry_failed_deliveries read round s =
    retry_all round (read (filter (is_due round.now) s.deliveries)) s

unfoldable pub manual_retry : (now id : ℕ) → Action State (Unit {0})
manual_retry now id = do
  row ← get (find_delivery id)
  d ← or_throw row (error delivery_not_found)
  modify (
      update_delivery d.id (λ (r : Delivery). record r {
        retry_count = if leb d.max_retries d.retry_count then 0 else r.retry_count;
        next_retry_at = some now;
      }))
