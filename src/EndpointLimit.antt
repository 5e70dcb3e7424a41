-- ===== src/EndpointLimit.antt =====
-- src/modules/endpoint-rate-limit/services/endpoint-rate-limit.service.ts over the rows of
-- endpoint-rate-limit-config.entity.ts, and its windows in memory. JavaScript's `toUpperCase`,
-- `upper`, is a parameter. `ts > now - windowMs` is written as a sum, since the difference of the
-- program may be negative.
pub mod Sliding
use nexa_fx_js.Base.{
  ℕ, suc, ◌+◌, ◌-◌, Bool, true, false, ◌&&◌, Option, none, some, List, [], ◌∷◌, ◌++◌, ◌==◌, leb,
  ltb, if◌then◌else◌, find, filter, length, update_where, or_else, Text, codes, same_text,
}
use nexa_fx_js.Base.Action.{
  Action, Result, ok, not_found, limit_not_found, ◌>>=◌, ◌>>◌, get, pure, or_throw, modify,
}

pub record Config : Type 0 where
  pub id : ℕ
  pub endpoint : Text
  pub method : Text
  pub max_requests : ℕ
  pub window_ms : ℕ
  pub is_active : Bool

pub record State : Type 0 where
  pub configs : List Config
  -- the map `slidingWindows`
  pub windows : List (Text × List ℕ)
  pub next_id : ℕ

-- `remaining` and `retryAfterMs` have no number where the program has Infinity and NaN.
pub record Verdict : Type 0 where
  pub allowed : Bool
  pub remaining : Option ℕ
  pub retry_after_ms : Option ℕ

abbrev pub get_window : Text → List (Text × List ℕ) → List ℕ
get_window key [] = []
get_window key ((k, ts) ∷ rest) = if same_text k key then ts else get_window key rest

unfoldable pub set_window : Text → List ℕ → List (Text × List ℕ) → List (Text × List ℕ)
set_window key ts [] = (key, ts) ∷ []
set_window key ts ((k, us) ∷ rest) =
    let more = set_window key ts rest in if same_text k key then (k, ts) ∷ rest else (k, us) ∷ more

abbrev pub is_config_of : (endpoint method : Text) → Config → Bool
is_config_of endpoint method c =
    same_text c.endpoint endpoint && same_text c.method method && c.is_active

-- `timestamps.filter((ts) => ts > windowStart)`
abbrev pub recent : (now window_ms : ℕ) → List ℕ → List ℕ
recent now window_ms ts = filter (λ t. ltb now (t + window_ms)) ts

-- `Math.max(oldestInWindow + windowMs - now, 1)`
abbrev pub retry_after : (now window_ms : ℕ) → List ℕ → Option ℕ
retry_after now window_ms [] = none
retry_after now window_ms (oldest ∷ ts) =
    some (if ltb now (oldest + window_ms) then oldest + window_ms - now else 1)

-- The window of a key, and the answer.
unfoldable pub check_window : Config → (now : ℕ) → List ℕ → Verdict × List ℕ
check_window c now ts =
    let kept = recent now c.window_ms ts in
    if leb c.max_requests (length kept)
    then (
      record {
        allowed = false;
        remaining = some 0;
        retry_after_ms = retry_after now c.window_ms kept;
      },
      kept,
    )
    else (
      record {
        allowed = true;
        remaining = some (c.max_requests - (length kept + 1));
        retry_after_ms = some 0;
      },
      kept ++ now ∷ [],
    )

unfoldable pub check_config : Config → (key : Text) → (now : ℕ) → Action State Verdict
check_config c key now s =
    let (verdict, ts) = check_window c now (get_window key s.windows) in
    (ok verdict, record s { windows = set_window key ts s.windows })

unfoldable pub check_rate_limit :
    (upper : Text → Text) → (endpoint method : Text) → (now : ℕ) → Action State Verdict
check_rate_limit upper endpoint method now = do
  row ← get (λ (s : State). find (is_config_of endpoint (upper method)) s.configs)
  elim row [
    | none ↦ pure (record { allowed = true; remaining = none; retry_after_ms = some 0 })
    | some c ↦ check_config c (upper method ++ codes ":" ++ endpoint) now
  ]

pub record CreateDto : Type 0 where
  pub endpoint : Text
  pub method : Text
  pub max_requests : ℕ
  pub window_ms : ℕ
  pub is_active : Option Bool

unfoldable pub create_config : (upper : Text → Text) → CreateDto → Action State Config
create_config upper dto = do
  id ← get (λ (s : State). s.next_id)
  let config : Config = record {
    id = id;
    endpoint = dto.endpoint;
    method = upper dto.method;
    max_requests = dto.max_requests;
    window_ms = dto.window_ms;
    is_active = or_else dto.is_active true;
  }
  modify (λ (s : State). record s { configs = s.configs ++ config ∷ []; next_id = s.next_id + 1 })
  pure config

-- A field that is `undefined` stays.
pub record UpdateDto : Type 0 where
  pub endpoint : Option Text
  pub method : Option Text
  pub max_requests : Option ℕ
  pub window_ms : Option ℕ
  pub is_active : Option Bool

abbrev pub updated : (upper : Text → Text) → UpdateDto → Config → Config
updated upper dto c = record c {
  endpoint = or_else dto.endpoint c.endpoint;
  method = elim dto.method [ none ↦ c.method | some method ↦ upper method ];
  max_requests = or_else dto.max_requests c.max_requests;
  window_ms = or_else dto.window_ms c.window_ms;
  is_active = or_else dto.is_active c.is_active;
}

unfoldable pub update_config : (upper : Text → Text) → (id : ℕ) → UpdateDto → Action State Config
update_config upper id dto = do
  row ← get (λ (s : State). find (λ (c : Config). c.id == id) s.configs)
  config ← or_throw row (not_found limit_not_found)
  modify (λ (s : State). record s {
    configs =
        update_where (λ (c : Config). c.id == config.id) (λ _. updated upper dto config) s.configs;
  })
  pure (updated upper dto config)
