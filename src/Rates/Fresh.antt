-- ===== src/Rates/Fresh.antt =====
-- How old a rate of src/fx/exchange-rate.service.ts can be, and which provider it is from.
use nexa_fx_js.Base.{
  ℕ, ◌-◌, ◌<◌, ◌≡◌, refl, sym, subst, ap, ◌∙◌, true, false, not, Option, none, some, List, [], ◌∷◌,
  All, filter, Text, same_text, same_text_refl, eq_of_same_text, arith, Bool-cases, Option-cases,
  inl, inr,
}
use nexa_fx_js.Base.Action.{Result, ok, err, service_unavailable, providers_down}
use nexa_fx_js.Rates.{
  CacheEntry, RateResult, Cache, Net, key_of, fetch_with_fallback, cached_of, set, to_result,
  fetch_and_set, is_fresh, answer, get_rate,
}

-- How a call ends.
pub data IsQuoted (ttl_ms now : ℕ) (net : Net) (base target : Text) (cache : Cache)
    : Result RateResult × Cache → Type 0 where
  from_cache :
      (k : Text) (e : CacheEntry)
      → cached_of (key_of base target) cache ≡ some (k, e)
      → now - e.fetched_at < ttl_ms
      → IsQuoted ttl_ms now net base target cache
          (ok (to_result base target e (now - e.fetched_at)), cache)
  from_provider :
      (e : CacheEntry)
      → fetch_with_fallback net base target ≡ some e
      → IsQuoted ttl_ms now net base target cache
          (ok (to_result base target e 0), set (key_of base target) e cache)
  from_nobody :
      fetch_with_fallback net base target ≡ none
      → IsQuoted ttl_ms now net base target cache (err (service_unavailable providers_down), cache)

module _ (ttl_ms now : ℕ) (net : Net) (base target : Text) (cache : Cache) where
  fetched-IsQuoted : IsQuoted ttl_ms now net base target cache (fetch_and_set net base target cache)
  unfolding fetch_and_set
  fetched-IsQuoted = elim (Option-cases (fetch_with_fallback net base target)) [
    | inl down ↦ rw (down) (from_nobody down)
    | inr (e, up) ↦ rw (up) (from_provider e up)
  ]

  answer-IsQuoted :
      (o : Option (Text × CacheEntry))
      → cached_of (key_of base target) cache ≡ o
      → IsQuoted ttl_ms now net base target cache (answer ttl_ms now net base target o cache)
  answer-IsQuoted none h = fetched-IsQuoted
  answer-IsQuoted (some (k, e)) h = elim (Bool-cases (is_fresh ttl_ms now e)) [
    | inl fresh ↦ rw (fresh) (from_cache k e h (ground arith))
    | inr stale ↦ rw (stale) fetched-IsQuoted
  ]

  pub get_rate-IsQuoted :
      IsQuoted ttl_ms now net base target cache (get_rate ttl_ms now net base target cache)
  unfolding get_rate
  get_rate-IsQuoted = answer-IsQuoted (cached_of (key_of base target) cache) refl

-- After a call that gave a rate, the rate is stored under the key.
abbrev IsStored : Text → Result RateResult × Cache → Type 0
IsStored key (ok r, cache) =
    (k : Text) × (e : CacheEntry) × (cached_of key cache ≡ some (k, e))
    × (e.rate ≡ r.rate)
    × (e.provider ≡ r.provider)
    × (e.fetched_at ≡ r.fetched_at)
IsStored key (err e, cache) = Unit

stored :
    (ttl_ms now : ℕ) (net : Net) (base target : Text) (cache : Cache)
    (x : Result RateResult × Cache)
    → IsQuoted ttl_ms now net base target cache x
    → IsStored (key_of base target) x
stored ttl_ms now net base target cache _ (from_cache k e found fresh) =
    (k, e, found, refl, refl, refl)
stored ttl_ms now net base target cache _ (from_provider e up) =
    let key = key_of base target in
    let here : cached_of key (set key e cache) ≡ some (key, e) = rw (same_text_refl key) refl in
    (key, e, here, refl, refl, refl)
stored ttl_ms now net base target cache _ (from_nobody down) = tt

served :
    (ttl_ms later : ℕ) (net : Net) (base target : Text) (cache : Cache) (k : Text) (e : CacheEntry)
    → cached_of (key_of base target) cache ≡ some (k, e)
    → later - e.fetched_at < ttl_ms
    → get_rate ttl_ms later net base target cache
      ≡ (ok (to_result base target e (later - e.fetched_at)), cache)
unfolding get_rate
served ttl_ms later net base target cache k e found young =
    let fresh : is_fresh ttl_ms later e ≡ true = ground arith in rw (found, fresh) refl

-- A later call, at its time and with what the providers answer to it.
pub record Call : Type 0 where
  pub at : ℕ
  pub net : Net
  pub base : Text
  pub target : Text

-- The cache after some calls.
unfoldable pub run : (ttl_ms : ℕ) → Cache → List Call → Cache
run ttl_ms cache [] = cache
run ttl_ms cache (c ∷ cs) = run ttl_ms (get_rate ttl_ms c.at c.net c.base c.target cache).1 cs

-- The entry of a key, which the cache holds.
abbrev Holds : Text → CacheEntry → Cache → Type 0
Holds key e cache = (k : Text) × (cached_of key cache ≡ some (k, e))

find-others :
    (key other : Text) (cache : Cache)
    → same_text other key ≡ false
    → cached_of key (filter (λ x. not (same_text x.0 other)) cache) ≡ cached_of key cache
find-others key other [] h = refl
find-others key other (x ∷ xs) h = elim (Bool-cases (same_text x.0 other)) [
  | inl hit ↦
      let e : x.0 ≡ other = eq_of_same_text x.0 other hit in
      let miss : same_text x.0 key ≡ false = rw (e) h in rw (hit, miss) (find-others key other xs h)
  | inr stays ↦ elim (Bool-cases (same_text x.0 key)) [
    | inl here ↦ rw (stays, here) refl
    | inr there ↦ rw (stays, there) (find-others key other xs h)
  ]
]

Holds-other :
    (ttl_ms now : ℕ) (net : Net) (base target key : Text) (e : CacheEntry) (cache : Cache)
    (x : Result RateResult × Cache)
    → IsQuoted ttl_ms now net base target cache x
    → same_text (key_of base target) key ≡ false
    → Holds key e cache
    → Holds key e x.1
Holds-other ttl_ms now net base target key e cache _ (from_cache _ _ _ _) h v = v
Holds-other ttl_ms now net base target key e cache _ (from_provider e' up) h (k, found) =
    (k, rw (h) (find-others key (key_of base target) cache h ∙ found))
Holds-other ttl_ms now net base target key e cache _ (from_nobody down) h v = v

Holds-get_rate :
    (ttl_ms : ℕ) (c : Call) (key : Text) (e : CacheEntry) (cache : Cache)
    → c.at - e.fetched_at < ttl_ms
    → Holds key e cache
    → Holds key e (get_rate ttl_ms c.at c.net c.base c.target cache).1
Holds-get_rate ttl_ms c key e cache young (k, found) =
    elim (Bool-cases (same_text (key_of c.base c.target) key)) [
      | inl same ↦
          let key_eq : key_of c.base c.target ≡ key =
            eq_of_same_text (key_of c.base c.target) key same in
          let here =
            served ttl_ms c.at c.net c.base c.target cache k e
              (ap (λ t. cached_of t cache) key_eq ∙ found) young in
          (k, ap (λ (x : Result RateResult × Cache). cached_of key x.1) here ∙ found)
      | inr other ↦
          Holds-other ttl_ms c.at c.net c.base c.target key e cache _
            (get_rate-IsQuoted ttl_ms c.at c.net c.base c.target cache) other (k, found)
    ]

Holds-run :
    (ttl_ms : ℕ) (key : Text) (e : CacheEntry) (cache : Cache) (cs : List Call)
    → All (λ (c : Call). c.at - e.fetched_at < ttl_ms) cs
    → Holds key e cache
    → Holds key e (run ttl_ms cache cs)
unfolding run
Holds-run ttl_ms key e cache [] young v = v
Holds-run ttl_ms key e cache (c ∷ cs) (young, rest) v =
    Holds-run ttl_ms key e (get_rate ttl_ms c.at c.net c.base c.target cache).1 cs rest
      (Holds-get_rate ttl_ms c key e cache young v)

-- The rate that a call gives is served again, without a provider, to a call for the same pair, in
-- whatever case, that comes before the rate is `ttl_ms` old, whatever calls for this pair and for
-- others come in between and whatever the providers answer to them.
pub served_again :
    (ttl_ms now : ℕ) (net : Net) (base target : Text) (cache : Cache) (r : RateResult)
    (cache' : Cache) (cs : List Call) (c : Call)
    → get_rate ttl_ms now net base target cache ≡ (ok r, cache')
    → All (λ (b : Call). b.at - r.fetched_at < ttl_ms) cs
    → key_of c.base c.target ≡ key_of base target
    → c.at - r.fetched_at < ttl_ms
    → (q : RateResult) × (get_rate ttl_ms c.at c.net c.base c.target (run ttl_ms cache' cs)
        ≡ (ok q, run ttl_ms cache' cs))
      × (q.rate ≡ r.rate)
      × (q.provider ≡ r.provider)
      × (q.fetched_at ≡ r.fetched_at)
served_again ttl_ms now net base target cache r cache' cs c done between same young =
    let kept : IsStored (key_of base target) (ok r, cache') =
      subst (IsStored (key_of base target)) done (
        stored ttl_ms now net base target cache _
          (get_rate-IsQuoted ttl_ms now net base target cache)) in
    let (k, e, found, rate, provider, at) = kept in
    let all_young : All (λ (b : Call). b.at - e.fetched_at < ttl_ms) cs =
      subst (λ t. All (λ (b : Call). b.at - t < ttl_ms) cs) (sym at) between in
    let (k', found') = Holds-run ttl_ms (key_of base target) e cache' cs all_young (k, found) in
    (
      to_result c.base c.target e (c.at - e.fetched_at),
      served ttl_ms c.at c.net c.base c.target (run ttl_ms cache' cs) k' e
          (ap (λ key. cached_of key (run ttl_ms cache' cs)) same ∙ found') (ground arith),
      rate,
      provider,
      at,
    )
