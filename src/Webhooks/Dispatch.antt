-- ===== src/Webhooks/Dispatch.antt =====
-- What dispatchEvent of src/webhooks/webhooks.service.ts adds to the table and to the queue.
use nexa_fx_js.Base.{ℕ, ◌≡◌, refl, sym, ap, ◌∙◌, List, [], ◌∷◌, ◌++◌, map, filter, All, Text}
use nexa_fx_js.Webhooks.{
  Endpoint, Delivery, State, pending, is_target, new_delivery, enqueue, enqueue_all, dispatch_event,
}

-- A delivery that no one has tried yet.
abbrev pub IsFresh : Text → ℕ → Delivery → Type 0
IsFresh event body d =
    (d.event_name ≡ event) × (d.request_body ≡ body) × (d.status ≡ pending) × (d.attempt_count ≡ 0)

-- The rows and the jobs that stand for the endpoints `es`.
pub record IsDispatched (event : Text) (body : ℕ) (es : List Endpoint) (s t : State) : Type 0 where
  pub added : List Delivery
  pub rows : t.deliveries ≡ s.deliveries ++ added
  pub jobs : t.queue ≡ s.queue ++ map (λ (d : Delivery). d.id) added
  pub receivers : map (λ (d : Delivery). d.endpoint_id) added ≡ map (λ (e : Endpoint). e.id) es
  pub fresh : All (IsFresh event body) added
  pub same_endpoints : t.endpoints ≡ s.endpoints

append_one : {A : Type 0} (xs ys : List A) (x : A) → (xs ++ x ∷ []) ++ ys ≡ xs ++ x ∷ ys
append_one [] ys x = refl
append_one (z ∷ zs) ys x = ap (λ l. z ∷ l) (append_one zs ys x)

append_nil : {A : Type 0} (xs : List A) → xs ++ [] ≡ xs
append_nil [] = refl
append_nil (x ∷ xs) = ap (λ l. x ∷ l) (append_nil xs)

enqueue_all-IsDispatched :
    (event : Text) (body : ℕ) (es : List Endpoint) (s : State)
    → IsDispatched event body es s (enqueue_all event body es s)
unfolding enqueue_all
enqueue_all-IsDispatched event body [] s = record {
  added = [];
  rows = sym (append_nil s.deliveries);
  jobs = sym (append_nil s.queue);
  receivers = refl;
  fresh = tt;
  same_endpoints = refl;
}
enqueue_all-IsDispatched event body (e ∷ es) s =
    let more = enqueue_all-IsDispatched event body es (enqueue event body e s) in
    record {
      added = new_delivery s.next_id e.id event body ∷ more.added;
      rows =
          more.rows ∙ append_one s.deliveries more.added (new_delivery s.next_id e.id event body);
      jobs = more.jobs ∙ append_one s.queue (map (λ (d : Delivery). d.id) more.added) s.next_id;
      receivers = ap (λ l. e.id ∷ l) more.receivers;
      fresh = ((refl, refl, refl, refl), more.fresh);
      same_endpoints = more.same_endpoints;
    }

-- `dispatchEvent` adds one fresh pending delivery, with a job of its id, for each active endpoint
-- that listens to the event, in the order of the endpoints, and no other row or job.
pub dispatch_event-IsDispatched :
    (event : Text) (body : ℕ) (s : State)
    → IsDispatched event body (filter (is_target event) s.endpoints) s (dispatch_event event body s)
unfolding dispatch_event
dispatch_event-IsDispatched event body s =
    enqueue_all-IsDispatched event body (filter (is_target event) s.endpoints) s
