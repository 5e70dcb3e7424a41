-- ===== src/RateLimit.antt =====
-- src/modules/rate-limit/services/per-user-rate-limit.service.ts: a fixed window of a minute for each
-- user and endpoint. The calls are taken one after the other; times are in milliseconds.
pub mod Window
use nexa_fx_js.Base.{
  ℕ, ◌+◌, ◌-◌, Bool, true, false, ◌&&◌, ◌||◌, Option, none, some, List, [], ◌∷◌, ◌++◌, ◌==◌, ltb,
  if◌then◌else◌, find, map, update_where, Text, same_text, codes,
}
use nexa_fx_js.Currencies.{to_upper}

pub data Category : Type 0 where
  read write : Category

pub record Entry : Type 0 where
  pub id : ℕ
  pub user_id : ℕ
  pub endpoint : Text
  pub request_count : ℕ
  pub window_start : ℕ

pub record Verdict : Type 0 where
  pub allowed : Bool
  pub remaining : ℕ
  pub reset_at : ℕ
  pub limit : ℕ

abbrev pub window_ms : ℕ
window_ms = 60_000

abbrev pub default_limit : Category → ℕ
default_limit Category.read = 100
default_limit Category.write = 20

abbrev pub categorize_method : Text → Category
categorize_method method =
    if same_text (map to_upper method) (codes "GET")
      || same_text (map to_upper method) (codes "HEAD")
      || same_text (map to_upper method) (codes "OPTIONS")
    then Category.read
    else Category.write

abbrev pub is_of : ℕ → Text → Entry → Bool
is_of user endpoint e = (e.user_id == user) && same_text e.endpoint endpoint

-- `record.windowStart < now - windowMs`, without the subtraction.
abbrev pub is_expired : ℕ → Entry → Bool
is_expired now e = ltb (e.window_start + window_ms) now

-- What a call does to the record it finds.
unfoldable pub check_entry : (limit now : ℕ) → Entry → Verdict × Entry
check_entry limit now e =
    if is_expired now e
    then (
      record { allowed = true; remaining = limit - 1; reset_at = now + window_ms; limit = limit },
      record e { request_count = 1; window_start = now },
    )
    else if ltb e.request_count limit
    then (
      record {
        allowed = true;
        remaining = limit - e.request_count - 1;
        reset_at = e.window_start + window_ms;
        limit = limit;
      },
      record e { request_count = e.request_count + 1 },
    )
    else (
      record {
        allowed = false;
        remaining = limit - e.request_count - 0;
        reset_at = e.window_start + window_ms;
        limit = limit;
      },
      e,
    )

unfoldable pub check :
    (fresh_id now user : ℕ) (endpoint method : Text) → List Entry → Verdict × List Entry
check fresh_id now user endpoint method es =
    let limit = default_limit (categorize_method method) in
    elim (find (is_of user endpoint) es) [
      | none ↦ (
        record { allowed = true; remaining = limit - 1; reset_at = now + window_ms; limit = limit },
        es
            ++ record {
              id = fresh_id;
              user_id = user;
              endpoint = endpoint;
              request_count = 1;
              window_start = now;
            }
              ∷ [],
      )
      | some e ↦
          let (v, e') = check_entry limit now e in
          (v, update_where (λ r. r.id == e.id) (λ _. e') es)
    ]

pub record Usage : Type 0 where
  pub request_count : ℕ
  pub limit : ℕ
  pub reset_at : ℕ

abbrev pub get_usage : (now user : ℕ) → Text → List Entry → Usage
get_usage now user endpoint es = elim (find (is_of user endpoint) es) [
  | none ↦ record {
    request_count = 0;
    limit = default_limit Category.read;
    reset_at = now + window_ms;
  }
  | some e ↦ record {
    request_count = if is_expired now e then 0 else e.request_count;
    limit = default_limit Category.read;
    reset_at = e.window_start + window_ms;
  }
]
