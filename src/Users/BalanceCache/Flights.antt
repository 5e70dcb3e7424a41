-- ===== src/Users/BalanceCache/Flights.antt =====
-- How many loaders of src/users/users.service.ts run for a user at a time.
use nexa_fx_js.Base.{
  ℕ, ◌+◌, ◌≤◌, ◌≡◌, refl, sym, ap, subst, ◌∙◌, Bool, true, false, none, some, List, [], ◌∷◌, ◌==◌,
  if◌then◌else◌, arith, Bool-cases, Option-cases, inl, inr,
}
use nexa_fx_js.Users.BalanceCache.{
  Cache, has, without, drop_one, cached_of, answer, after_miss, get_wallet_balances, store,
  end_fetch, invalidate_wallet_balance_cache, no_cache,
}

-- Steps from no entries and no fetches. A fetch stores and ends only while its loader runs; an entry
-- is dropped by an invalidation or by its age.
pub data Reach (B : Type 0) : Cache B → Type 0 where
  here : Reach B no_cache
  asks : {c : Cache B} → Reach B c → (user : ℕ) → Reach B (get_wallet_balances user c).1
  resumes : {c : Cache B} → Reach B c → (user : ℕ) → Reach B (after_miss user c).1
  stores :
      {c : Cache B}
      → Reach B c
      → (user : ℕ) (b : B) → has user c.loading ≡ true
      → Reach B (store user b c)
  ends :
      {c : Cache B}
      → Reach B c
      → (user : ℕ) → has user c.loading ≡ true
      → Reach B (end_fetch user c)
  drops : {c : Cache B} → Reach B c → (user : ℕ) → Reach B (invalidate_wallet_balance_cache user c)

abbrev pub count : ℕ → List ℕ → ℕ
count user [] = 0
count user (u ∷ us) = (if u == user then 1 else 0) + count user us

-- The loaders of a user that run, by whether a fetch is noted.
abbrev pub IsSingle : {B : Type 0} → Cache B → Type 0
IsSingle c = (user : ℕ) → count user c.loading ≡ (if has user c.pending_fetches then 1 else 0)

count_self : (user : ℕ) (us : List ℕ) → count user us ≤ 1 → count user (drop_one user us) ≡ 0
count_self user [] h = refl
count_self user (u ∷ us) h = ground (arith, count_self user us)

count_other :
    (user other : ℕ) (us : List ℕ)
    → ¬ (user ≡ other)
    → count other (drop_one user us) ≡ count other us
count_other user other [] ne = refl
count_other user other (u ∷ us) ne = ground (arith, count_other user other us)

has-without :
    (user other : ℕ) (us : List ℕ)
    → has other (without user us) ≡ (if user == other then false else has other us)
has-without user other [] = ground arith
has-without user other (u ∷ us) = ground (arith, has-without user other us)

at_most_one : (b : Bool) (n : ℕ) → n ≡ (if b then 1 else 0) → n ≤ 1
at_most_one b n e = ground arith

module _ {B : Type 0} where
  after_miss-IsSingle : (user : ℕ) (c : Cache B) → IsSingle c → IsSingle (after_miss user c).1
  unfolding after_miss
  after_miss-IsSingle user c v = elim (Bool-cases (has user c.pending_fetches)) [
    | inl noted ↦ rw (noted) v
    | inr fresh ↦ rw (fresh) (λ other. elim (Bool-cases (user == other)) [
      | inl mine ↦
          let same : user ≡ other = ground arith in
          let none_noted = subst (λ u. has u c.pending_fetches ≡ false) same fresh in
          let idle = rw (none_noted) at (v other) in rw (mine, idle) refl
      | inr miss ↦ rw (miss) (omega (arith, v other))
    ])
  ]

  ask_miss :
      (user : ℕ) (c : Cache B)
      → cached_of user c ≡ none
      → get_wallet_balances user c ≡ after_miss user c
  unfolding get_wallet_balances
  ask_miss user c missing = ap (answer user c) missing

  ask_hit :
      (user : ℕ) (c : Cache B) (e : ℕ × B)
      → cached_of user c ≡ some e
      → (get_wallet_balances user c).1 ≡ c
  unfolding get_wallet_balances
  ask_hit user c e found = ap (λ o. (answer user c o).1) found

  ask-IsSingle : (user : ℕ) (c : Cache B) → IsSingle c → IsSingle (get_wallet_balances user c).1
  ask-IsSingle user c v = elim (Option-cases (cached_of user c)) [
    | inl missing ↦
        subst IsSingle (ap (λ r. r.1) (sym (ask_miss user c missing)))
          (after_miss-IsSingle user c v)
    | inr (e, found) ↦ subst IsSingle (sym (ask_hit user c e found)) v
  ]

  end-IsSingle : (user : ℕ) (c : Cache B) → IsSingle c → IsSingle (end_fetch user c)
  unfolding end_fetch
  end-IsSingle user c v other = elim (Bool-cases (user == other)) [
    | inl mine ↦
        let same : user ≡ other = ground arith in
        let gone =
          count_self user c.loading
            (at_most_one (has user c.pending_fetches) (count user c.loading) (v user)) in
        rw (has-without user other c.pending_fetches, mine)
          (subst (λ o. count o (drop_one user c.loading) ≡ 0) same gone)
    | inr miss ↦
        rw (has-without user other c.pending_fetches, miss)
          (count_other user other c.loading (ground arith) ∙ v other)
  ]

  single : (c : Cache B) → Reach B c → IsSingle c
  unfolding store invalidate_wallet_balance_cache
  single _ here = λ user. refl
  single _ (asks {c} r user) = ask-IsSingle user c (single c r)
  single _ (resumes {c} r user) = after_miss-IsSingle user c (single c r)
  single _ (stores {c} r user b running) = single c r
  single _ (ends {c} r user running) = end-IsSingle user c (single c r)
  single _ (drops {c} r user) = single c r

-- However the requests, the loaders, the invalidations and the expiry of entries interleave, at most
-- one loader runs for a user at a time, and it runs exactly while the map has a fetch of that user.
pub single_flight :
    {B : Type 0} (c : Cache B) (user : ℕ)
    → Reach B c
    → (count user c.loading ≤ 1)
      × (count user c.loading ≡ (if has user c.pending_fetches then 1 else 0))
single_flight c user r = (
  at_most_one (has user c.pending_fetches) (count user c.loading) (single c r user),
  single c r user,
)
