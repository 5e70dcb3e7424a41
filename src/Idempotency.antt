-- ===== src/Idempotency.antt =====
-- src/idempotency: the guard, the interceptor, the service and the clean-up job, around a handler.
-- A request is a number that stands for its method, URL and body; the hash of node's crypto is a
-- parameter. The key is measured in UTF-16 units, as `length` does. Times are in milliseconds.
pub mod Replay
use nexa_fx_js.Base.{
  ℕ, ◌+◌, ◌-◌, ◌*◌, Bool, true, false, not, Option, none, some, List, [], ◌∷◌, ◌++◌, ◌==◌, ltb,
  if◌then◌else◌, find, filter, length, Text, same_text,
}
use nexa_fx_js.Base.Action.{
  Action, Result, ok, err, Error, bad_request, unprocessable, key_required, key_too_short,
  key_too_long, key_reused,
}

pub record IdempotencyKey : Type 0 where
  pub key : Text
  pub request_hash : ℕ
  pub response : ℕ
  pub status_code : ℕ
  pub expires_at : ℕ

abbrev pub min_key_length : ℕ
min_key_length = 16

abbrev pub max_key_length : ℕ
max_key_length = 255

-- The rows, and the state that the handler works on.
pub record State (S : Type 0) : Type 0 where
  pub keys : List IdempotencyKey
  pub inner : S

pub record Request : Type 0 where
  -- the header `idempotency-key`; an empty one counts as missing
  pub header : Option Text
  pub content : ℕ

-- What the client gets: a body with a status code.
pub record Reply : Type 0 where
  pub body : ℕ
  pub status_code : ℕ

abbrev pub find_by_key : Text → List IdempotencyKey → Option IdempotencyKey
find_by_key key rows = find (λ r. same_text r.key key) rows

-- `save` by the primary key.
unfoldable pub store_row : IdempotencyKey → List IdempotencyKey → List IdempotencyKey
store_row row [] = row ∷ []
store_row row (r ∷ rs) =
    let rest = store_row row rs in if same_text r.key row.key then row ∷ rs else r ∷ rest

unfoldable pub store :
    (now ttl_hours : ℕ) → Text → ℕ → Reply → List IdempotencyKey → List IdempotencyKey
store now ttl_hours key request_hash reply rows =
    store_row
      (record {
        key = key;
        request_hash = request_hash;
        response = reply.body;
        status_code = reply.status_code;
        expires_at = now + ttl_hours * 3_600_000;
      })
      rows

unfoldable pub cleanup : (now : ℕ) → List IdempotencyKey → List IdempotencyKey
cleanup now rows = filter (λ r. not (ltb r.expires_at now)) rows

-- The checks of the header.
unfoldable pub valid_key : Option Text → Result Text
valid_key none = err (bad_request key_required)
valid_key (some []) = err (bad_request key_required)
valid_key (some (c ∷ cs)) =
    if ltb (length (c ∷ cs)) min_key_length
    then err (bad_request key_too_short)
    else if ltb max_key_length (length (c ∷ cs))
    then err (bad_request key_too_long)
    else ok (c ∷ cs)

-- What the guard leaves on the request: the key, and the stored answer if there is one.
unfoldable pub can_activate :
    (hash : ℕ → ℕ) → Request → List IdempotencyKey → Result (Text × Option Reply)
can_activate hash request rows = elim (valid_key request.header) [
  | err e ↦ err e
  | ok key ↦ elim (find_by_key key rows) [
    | none ↦ ok (key, none)
    | some existing ↦
        if existing.request_hash == hash request.content
        then ok
            (key, some (record { body = existing.response; status_code = existing.status_code }))
        else err (unprocessable key_reused)
  ]
]

module _ {S : Type 0} where
  -- The handler has run: its answer is stored if the table can be written, and returned anyway.
  unfoldable pub after_handler :
      (hash : ℕ → ℕ) (now ttl_hours : ℕ) (store_up : Bool)
      → Text
      → ℕ
      → List IdempotencyKey
      → Result Reply × S
      → Result Reply × State S
  after_handler hash now ttl_hours store_up key content rows (err e, s) =
      (err e, record { keys = rows; inner = s })
  after_handler hash now ttl_hours store_up key content rows (ok reply, s) = (
    ok reply,
    record {
      keys = if store_up then store now ttl_hours key (hash content) reply rows else rows;
      inner = s;
    },
  )

  -- The interceptor, behind the guard.
  unfoldable pub intercept :
      (hash : ℕ → ℕ) (now ttl_hours : ℕ) (store_up : Bool)
      → (ℕ → Action S Reply)
      → ℕ
      → Result (Text × Option Reply)
      → Action (State S) Reply
  intercept hash now ttl_hours store_up handler content (err e) s = (err e, s)
  intercept hash now ttl_hours store_up handler content (ok (key, some reply)) s = (ok reply, s)
  intercept hash now ttl_hours store_up handler content (ok (key, none)) s =
      after_handler hash now ttl_hours store_up key content s.keys (handler content s.inner)

  -- A request to a route with `@Idempotent()`.
  unfoldable pub handle :
      (hash : ℕ → ℕ) (now ttl_hours : ℕ) (store_up : Bool)
      → (ℕ → Action S Reply)
      → Request
      → Action (State S) Reply
  handle hash now ttl_hours store_up handler request s =
      intercept hash now ttl_hours store_up handler request.content
        (can_activate hash request s.keys) s
