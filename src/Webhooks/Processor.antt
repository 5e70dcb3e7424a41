-- ===== src/Webhooks/Processor.antt =====
-- src/webhooks/webhooks.processor.ts. What the environment gives to one run of a job is a record: the
-- time, the setting WEBHOOK_REPLAY_WINDOW_HOURS and the answer to the POST. A database error is not
-- modelled.
pub mod Settled
use Prim.Native.String.{String}
use nexa_fx_js.Base.{
  ℕ, suc, ◌+◌, ◌*◌, Bool, true, false, Option, none, some, List, [], ◌∷◌, ◌==◌, leb, ltb,
  if◌then◌else◌, update_where, or_else,
}
use nexa_fx_js.Base.Action.{
  Action, Result, ok, err, error, ◌>>=◌, ◌>>◌, get, pure, throw, modify, delivery_failed,
}
use nexa_fx_js.Webhooks.{
  Endpoint, Delivery, State, delivered, failed, expired, find_endpoint, find_delivery,
}

pub record Job : Type 0 where
  pub delivery_id : ℕ
  pub timestamp : ℕ
  -- `opts.attempts`
  pub attempts : Option ℕ
  pub attempts_made : ℕ

-- The answer to a POST: a status, or an error with the status of a response if there was one.
pub data Answer : Type 0 where
  response : (status : ℕ) → Answer
  failure : (status : Option ℕ) → (message : String) → Answer

pub record Run : Type 0 where
  pub now : ℕ
  pub window_hours : ℕ
  pub post : Endpoint → Delivery → Answer

unfoldable pub save_delivery : Delivery → State → State
save_delivery d s = record s {
  deliveries = update_where (λ (r : Delivery). r.id == d.id) (λ _. d) s.deliveries;
}

abbrev pub without_endpoint : Delivery → Delivery
without_endpoint d = record d { status = failed; error_message = some "Webhook endpoint not found" }

abbrev pub attempted : ℕ → Delivery → Delivery
attempted now d = record d { attempt_count = d.attempt_count + 1; last_attempt_at = some now }

abbrev pub out_of_time : ℕ → Delivery → Delivery
out_of_time now d = record (attempted now d) {
  status = expired;
  error_message = some "Delivery window expired";
}

abbrev pub posted : (now status : ℕ) → Delivery → Delivery
posted now status d = record d {
  status = delivered;
  response_code = some status;
  delivered_at = some now;
  error_message = none;
}

abbrev pub not_posted : Option ℕ → String → Delivery → Delivery
not_posted status message d = record d { response_code = status; error_message = some message }

abbrev pub is_last : Job → Bool
is_last job = leb (or_else job.attempts 5) (job.attempts_made + 1)

-- The end of the `try` and the `catch`.
unfoldable pub conclude : ℕ → Job → Delivery → Answer → Action State (Unit {0})
conclude now job d (response status) = modify (save_delivery (posted now status d))
conclude now job d (failure status message) =
    if is_last job
    then modify (save_delivery (record (not_posted status message d) { status = failed }))
    else do modify (save_delivery (not_posted status message d)); throw (error delivery_failed)

unfoldable pub deliver_to : Run → Job → Delivery → Endpoint → Action State (Unit {0})
deliver_to run job d e =
    if ltb (job.timestamp + run.window_hours * 3_600_000) run.now
    then modify (save_delivery (out_of_time run.now d))
    else do
      modify (save_delivery (attempted run.now d))
      conclude run.now job (attempted run.now d) (run.post e (attempted run.now d))

unfoldable pub deliver_row : Run → Job → Delivery → Option Endpoint → Action State (Unit {0})
deliver_row run job d none = modify (save_delivery (without_endpoint d))
deliver_row run job d (some e) = deliver_to run job d e

unfoldable pub deliver_found : Run → Job → Option Delivery → Action State (Unit {0})
deliver_found run job none = pure tt
deliver_found run job (some d) = do e ← get (find_endpoint d.endpoint_id); deliver_row run job d e

unfoldable pub deliver : Run → Job → Action State (Unit {0})
deliver run job = do row ← get (find_delivery job.delivery_id); deliver_found run job row

abbrev pub next_run : Job → Job
next_run job = record job { attempts_made = job.attempts_made + 1 }

unfoldable pub or_again :
    Action State (Unit {0}) → Result (Unit {0}) × State → Result (Unit {0}) × State
or_again more (ok a, s) = (ok a, s)
or_again more (err e, s) = more s

-- A job in the queue: a run that throws is followed by another one with `attemptsMade` one higher,
-- as long as there are runs.
unfoldable pub process_job : List Run → Job → Action State (Unit {0})
process_job [] job s = (err (error delivery_failed), s)
process_job (run ∷ runs) job s = or_again (process_job runs (next_run job)) (deliver run job s)
