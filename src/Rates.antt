-- ===== src/Rates.antt =====
-- src/fx/exchange-rate.service.ts. What the two providers answer for a base and a target, or that they
-- fail, is a parameter, and so is the moment at which the answer is dated; a rate is counted in any
-- fixed unit, of which 0 is JavaScript's falsy number. A fetch happens in one step.
pub mod Fresh
use nexa_fx_js.Base.{
  ℕ, ◌-◌, Bool, true, false, ◌&&◌, Option, none, some, List, [], ◌∷◌, ◌++◌, ◌==◌, ltb,
  if◌then◌else◌, find, filter, not, map, Text, same_text, codes,
}
use nexa_fx_js.Base.Action.{
  Action, Result, ok, err, Error, service_unavailable, providers_down, ◌>>=◌, ◌>>◌, get, pure,
  or_throw, modify,
}
use nexa_fx_js.Currencies.{to_upper}

pub data Provider : Type 0 where
  openexchangerates exchangeratehost : Provider

pub record CacheEntry : Type 0 where
  pub rate : ℕ
  pub provider : Provider
  pub fetched_at : ℕ

pub record RateResult : Type 0 where
  pub base : Text
  pub target : Text
  pub rate : ℕ
  pub provider : Provider
  pub fetched_at : ℕ
  pub age_ms : ℕ

-- `${base.toUpperCase()}:${target.toUpperCase()}`
abbrev pub key_of : Text → Text → Text
key_of base target = map to_upper base ++ codes ":" ++ map to_upper target

abbrev pub Cache : Type 0
Cache = List (Text × CacheEntry)

-- What the `get` of a provider gives: the rate of the answer, if there is an answer with it.
pub record Net : Type 0 where
  pub open_exchange_rates : Text → Text → Option ℕ
  pub exchange_rate_host : Text → Text → Option ℕ
  pub dated : ℕ

-- `if (!rate) throw …`
abbrev pub entry_of : Provider → ℕ → Option ℕ → Option CacheEntry
entry_of provider at none = none
entry_of provider at (some rate) =
    if rate == 0 then none else some (record { rate = rate; provider = provider; fetched_at = at })

abbrev pub first_of : Option CacheEntry → Option CacheEntry → Option CacheEntry
first_of (some e) other = some e
first_of none other = other

unfoldable pub fetch_with_fallback : Net → Text → Text → Option CacheEntry
fetch_with_fallback net base target =
    first_of (entry_of openexchangerates net.dated (net.open_exchange_rates base target))
      (entry_of exchangeratehost net.dated (net.exchange_rate_host base target))

abbrev pub cached_of : Text → Cache → Option (Text × CacheEntry)
cached_of key cache = find (λ e. same_text e.0 key) cache

-- `cache.set`
abbrev pub set : Text → CacheEntry → Cache → Cache
set key e cache = (key, e) ∷ filter (λ x. not (same_text x.0 key)) cache

abbrev pub to_result : Text → Text → CacheEntry → ℕ → RateResult
to_result base target e age = record {
  base = base;
  target = target;
  rate = e.rate;
  provider = e.provider;
  fetched_at = e.fetched_at;
  age_ms = age;
}

unfoldable pub fetch_and_set : Net → Text → Text → Action Cache RateResult
fetch_and_set net base target = do
  result ← or_throw (fetch_with_fallback net base target) (service_unavailable providers_down)
  modify (set (key_of base target) result)
  pure (to_result base target result 0)

-- `cached && Date.now() - fetchedAt < ttlMs`, for a clock that does not run backwards.
abbrev pub is_fresh : (ttl_ms now : ℕ) → CacheEntry → Bool
is_fresh ttl_ms now e = ltb (now - e.fetched_at) ttl_ms

abbrev pub answer :
    (ttl_ms now : ℕ) → Net → Text → Text → Option (Text × CacheEntry) → Action Cache RateResult
answer ttl_ms now net base target none = fetch_and_set net base target
answer ttl_ms now net base target (some e) =
    if is_fresh ttl_ms now e.1
    then pure (to_result base target e.1 (now - e.1.fetched_at))
    else fetch_and_set net base target

unfoldable pub get_rate : (ttl_ms now : ℕ) → Net → Text → Text → Action Cache RateResult
get_rate ttl_ms now net base target cache =
    answer ttl_ms now net base target (cached_of (key_of base target) cache) cache
