-- ===== src/Users/BalanceCache.antt =====
-- `getWalletBalances` and `invalidateWalletBalanceCache` of src/users/users.service.ts, in the steps
-- between which other requests run: the look into the cache, what follows a miss, the write of what
-- the loader gave, and the `finally`. The loader and the cache's own expiry may act at any time.
pub mod Flights
use nexa_fx_js.Base.{
  ℕ, Bool, true, false, not, Option, none, some, List, [], ◌∷◌, ◌==◌, if◌then◌else◌, find, any,
  filter,
}

-- `pending_fetches` are the keys of the map; `loading` are the loaders that run.
pub record Cache (B : Type 0) : Type 0 where
  pub cached : List (ℕ × B)
  pub pending_fetches : List ℕ
  pub loading : List ℕ

-- What a request gets: balances, the promise of a request before it, or its own.
pub data Answer (B : Type 0) : Type 0 where
  hit : B → Answer B
  joined started : Answer B

abbrev pub has : ℕ → List ℕ → Bool
has user users = any (λ u. u == user) users

abbrev pub without : ℕ → List ℕ → List ℕ
without user users = filter (λ u. not (u == user)) users

-- One of the loaders of that user ends.
abbrev pub drop_one : ℕ → List ℕ → List ℕ
drop_one user [] = []
drop_one user (u ∷ us) = if u == user then us else u ∷ drop_one user us

module _ {B : Type 0} where
  abbrev pub cached_of : ℕ → Cache B → Option (ℕ × B)
  cached_of user c = find (λ e. e.0 == user) c.cached

  -- What follows a miss, however old it is by now.
  unfoldable pub after_miss : ℕ → Cache B → Answer B × Cache B
  after_miss user c = if has user c.pending_fetches then (joined, c) else (
    started,
    record c { pending_fetches = user ∷ c.pending_fetches; loading = user ∷ c.loading },
  )

  abbrev pub answer : ℕ → Cache B → Option (ℕ × B) → Answer B × Cache B
  answer user c none = after_miss user c
  answer user c (some e) = (hit e.1, c)

  unfoldable pub get_wallet_balances : ℕ → Cache B → Answer B × Cache B
  get_wallet_balances user c = answer user c (cached_of user c)

  abbrev pub delete : ℕ → List (ℕ × B) → List (ℕ × B)
  delete user es = filter (λ e. not (e.0 == user)) es

  -- `cacheManager.set` in the fetch
  unfoldable pub store : ℕ → B → Cache B → Cache B
  store user b c = record c { cached = (user, b) ∷ delete user c.cached }

  -- The `finally` of the fetch, after a loader that answered or threw.
  unfoldable pub end_fetch : ℕ → Cache B → Cache B
  end_fetch user c = record c {
    pending_fetches = without user c.pending_fetches;
    loading = drop_one user c.loading;
  }

  unfoldable pub invalidate_wallet_balance_cache : ℕ → Cache B → Cache B
  invalidate_wallet_balance_cache user c = record c { cached = delete user c.cached }

abbrev pub no_cache : {B : Type 0} → Cache B
no_cache = record { cached = []; pending_fetches = []; loading = [] }
