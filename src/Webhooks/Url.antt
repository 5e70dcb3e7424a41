-- ===== src/Webhooks/Url.antt =====
-- The check of a webhook's URL and the routes that use it: `validateWebhookUrl`,
-- `resolveAndRejectPrivate`, `createEndpoint` and the two `find…ForOwner` of
-- src/webhooks/webhooks.service.ts.
pub mod Safe
use Prim.Native.String.{String}
use nexa_fx_js.Base.{
  ℕ, suc, ◌+◌, Bool, true, false, ◌&&◌, ◌||◌, Option, none, some, List, [], ◌∷◌, ◌++◌, ◌==◌, leb,
  if◌then◌else◌, find, any, Text, codes, same_text,
}
use nexa_fx_js.Base.Action.{
  Action, Result, ok, err, Error, bad_request, conflict, not_found, error, ◌>>=◌, ◌>>◌, get, pure,
  lift, throw_if, or_throw, modify, too_many_endpoints, bad_url, local_url, private_address,
  dns_failed, endpoint_not_found, delivery_not_found,
}
use nexa_fx_js.Webhooks.{
  Endpoint, Delivery, State, count_active_endpoints, is_endpoint_of, delivery_of_owner,
}
use nexa_fx_js.Webhooks.Address.{is_private_ip}

-- The code that is not the service's: the host of `new URL(…)`, if it parses, `net.isIP`,
-- `net.isIPv4` and `dns.resolve4`.
pub record Net : Type 0 where
  pub hostname : String → Option Text
  pub is_ip : Text → Bool
  pub is_ipv4 : Text → Bool
  pub resolve_4 : Text → Option (List Text)

-- `text.endsWith(suffix)`
abbrev pub ends_with : Text → Text → Bool
ends_with suffix [] = same_text [] suffix
ends_with suffix (c ∷ cs) = let rest = ends_with suffix cs in same_text (c ∷ cs) suffix || rest

abbrev pub is_local : Text → Bool
is_local host =
    same_text host (codes "localhost")
    || same_text host (codes "0.0.0.0")
    || ends_with (codes ".local") host

unfoldable pub reject_private : Net → List Text → Result (Unit {0})
reject_private net addresses =
    if any (is_private_ip net.is_ipv4) addresses then err (bad_request private_address) else ok tt

unfoldable pub resolve_and_reject_private : Net → Text → Result (Unit {0})
resolve_and_reject_private net host = elim (net.resolve_4 host) [
  | none ↦ err (error dns_failed)
  | some addresses ↦ reject_private net addresses
]

unfoldable pub check_host : Net → Text → Result (Unit {0})
check_host net host =
    if is_local host
    then err (bad_request local_url)
    else if net.is_ip host
    then (if is_private_ip net.is_ipv4 host then err (bad_request private_address) else ok tt)
    else resolve_and_reject_private net host

unfoldable pub validate_webhook_url : Net → String → Result (Unit {0})
validate_webhook_url net url = elim (net.hostname url) [
  | none ↦ err (bad_request bad_url)
  | some host ↦ check_host net host
]

pub record CreateEndpoint : Type 0 where
  pub owner_id : ℕ
  pub url : String
  pub events : List Text

abbrev pub new_endpoint : CreateEndpoint → ℕ → Endpoint
new_endpoint dto id = record {
  id = id;
  owner_id = dto.owner_id;
  url = dto.url;
  events = dto.events;
  is_active = true;
}

abbrev pub add_endpoint : CreateEndpoint → State → State
add_endpoint dto s = record s {
  endpoints = s.endpoints ++ new_endpoint dto s.next_id ∷ [];
  next_id = s.next_id + 1;
}

-- `max_endpoints` is the setting WEBHOOK_MAX_ENDPOINTS_PER_USER, 10 unless it is set.
unfoldable pub create_endpoint : (max_endpoints : ℕ) → Net → CreateEndpoint → Action State Endpoint
create_endpoint max_endpoints net dto = do
  active ← get (count_active_endpoints dto.owner_id)
  throw_if (leb max_endpoints active) (conflict too_many_endpoints)
  lift (validate_webhook_url net dto.url)
  saved ← get (λ (s : State). new_endpoint dto s.next_id)
  modify (add_endpoint dto)
  pure saved

unfoldable pub find_endpoint_for_owner : (id owner : ℕ) → Action State Endpoint
find_endpoint_for_owner id owner = do
  row ← get (λ (s : State). find (is_endpoint_of owner id) s.endpoints)
  or_throw row (not_found endpoint_not_found)

unfoldable pub find_delivery_for_owner : (id owner : ℕ) → Action State Delivery
find_delivery_for_owner id owner = do
  row ← get (λ (s : State). find (delivery_of_owner owner s id) s.deliveries)
  or_throw row (not_found delivery_not_found)
