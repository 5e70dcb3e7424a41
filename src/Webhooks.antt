-- ===== src/Webhooks.antt =====
-- src/webhooks: webhooks.service.ts over the rows of webhook-endpoint.entity.ts and
-- webhook-delivery.entity.ts. Address and Url have the check of a URL, Processor the processor of the
-- queue, Retry the job that tries failed deliveries again.
pub mod Address
pub mod Url
pub mod Processor
pub mod Retry
pub mod Dispatch
use Prim.Native.String.{String}
use nexa_fx_js.Base.{
  ℕ, ◌+◌, Bool, true, false, ◌&&◌, Option, none, some, List, [], ◌∷◌, ◌++◌, ◌==◌, leb,
  if◌then◌else◌, find, any, filter, length, Text, same_text,
}

pub data DeliveryStatus : Type 0 where
  pending delivered failed expired : DeliveryStatus

pub record Endpoint : Type 0 where
  pub id : ℕ
  pub owner_id : ℕ
  pub url : String
  pub events : List Text
  pub is_active : Bool

pub record Delivery : Type 0 where
  pub id : ℕ
  pub endpoint_id : ℕ
  pub event_name : Text
  pub request_body : ℕ
  pub attempt_count : ℕ
  pub response_code : Option ℕ
  pub retry_count : ℕ
  pub max_retries : ℕ
  pub error_message : Option String
  pub status : DeliveryStatus
  pub delivered_at : Option ℕ
  pub last_attempt_at : Option ℕ
  pub next_retry_at : Option ℕ
  pub attempts : ℕ

pub record State : Type 0 where
  pub endpoints : List Endpoint
  pub deliveries : List Delivery
  -- the ids of the jobs, as they were added
  pub queue : List ℕ
  pub next_id : ℕ

abbrev pub find_endpoint : ℕ → State → Option Endpoint
find_endpoint id s = find (λ (e : Endpoint). e.id == id) s.endpoints

abbrev pub find_delivery : ℕ → State → Option Delivery
find_delivery id s = find (λ (d : Delivery). d.id == id) s.deliveries

abbrev pub is_target : Text → Endpoint → Bool
is_target event e = e.is_active && any (same_text event) e.events

abbrev pub new_delivery : (id endpoint : ℕ) → Text → (body : ℕ) → Delivery
new_delivery id endpoint event body = record {
  id = id;
  endpoint_id = endpoint;
  event_name = event;
  request_body = body;
  attempt_count = 0;
  response_code = none;
  retry_count = 0;
  max_retries = 3;
  error_message = none;
  status = pending;
  delivered_at = none;
  last_attempt_at = none;
  next_retry_at = none;
  attempts = 0;
}

-- One round of the loop of `dispatchEvent`.
abbrev pub enqueue : Text → ℕ → Endpoint → State → State
enqueue event body e s = record s {
  deliveries = s.deliveries ++ new_delivery s.next_id e.id event body ∷ [];
  queue = s.queue ++ s.next_id ∷ [];
  next_id = s.next_id + 1;
}

unfoldable pub enqueue_all : Text → ℕ → List Endpoint → State → State
enqueue_all event body [] s = s
enqueue_all event body (e ∷ es) s = enqueue_all event body es (enqueue event body e s)

unfoldable pub dispatch_event : Text → ℕ → State → State
dispatch_event event body s = enqueue_all event body (filter (is_target event) s.endpoints) s

abbrev pub count_active_endpoints : ℕ → State → ℕ
count_active_endpoints owner s =
    length (filter (λ (e : Endpoint). (e.owner_id == owner) && e.is_active) s.endpoints)

-- `where: { id, ownerId }`
abbrev pub is_endpoint_of : (owner id : ℕ) → Endpoint → Bool
is_endpoint_of owner id e = (e.id == id) && (e.owner_id == owner)

-- `allowedIds.has(…)`
abbrev pub owns : ℕ → State → ℕ → Bool
owns owner s id = any (is_endpoint_of owner id) s.endpoints

-- The join of `findDeliveryForOwner`.
abbrev pub delivery_of_owner : ℕ → State → ℕ → Delivery → Bool
delivery_of_owner owner s id d = (d.id == id) && owns owner s d.endpoint_id

abbrev pub list_deliveries : ℕ → Option ℕ → State → List Delivery
list_deliveries owner endpoint s =
    filter
      (λ (d : Delivery).
        owns owner s d.endpoint_id && elim endpoint [ none ↦ true | some id ↦ d.endpoint_id == id ])
      s.deliveries
