-- ===== src/Tiers.antt =====
-- src/modules/kyc-tiers/services/kyc-tiers.service.ts over the rows of kyc-tier-upgrade.entity.ts. Of a
-- user the service reads and writes `metadata.kycTier`. JavaScript's `toUpperCase`, `upper`, is a
-- parameter. The documents of a request are left out, but for the reason of a rejection.
pub mod Invariant
pub mod Monotone
use Prim.Native.String.{String}
use nexa_fx_js.Base.{
  ℕ, ◌+◌, Bool, true, false, not, ◌&&◌, Option, none, some, List, [], ◌∷◌, ◌++◌, ◌==◌, leb,
  if◌then◌else◌, find, update_where, is_some, or_else, Text, codes, same_text,
}
use nexa_fx_js.Base.Action.{
  Action, Result, ok, err, Error, bad_request, not_found, user_not_found, upgrade_not_found,
  upgrade_not_pending, invalid_tier, tier_not_higher, upgrade_exists, ◌>>=◌, ◌>>◌, get, pure,
  throw_if, or_throw, modify,
}

pub data KycTierUpgradeStatus : Type 0 where
  pending approved rejected : KycTierUpgradeStatus

pub record KycTierUpgrade : Type 0 where
  pub id : ℕ
  pub user_id : ℕ
  pub current_tier : Text
  pub requested_tier : Text
  pub rejection_reason : Option String
  pub status : KycTierUpgradeStatus
  pub reviewed_by : Option ℕ
  pub reviewed_at : Option ℕ

pub record User : Type 0 where
  pub id : ℕ
  pub kyc_tier : Option Text

pub record State : Type 0 where
  pub users : List User
  pub upgrades : List KycTierUpgrade
  pub next_id : ℕ

-- `TIER_LEVELS[…]`
abbrev pub tier_level : Text → Option ℕ
tier_level tier =
    if same_text tier (codes "NONE")
    then some 0
    else if same_text tier (codes "BASIC")
    then some 1
    else if same_text tier (codes "ADVANCED")
    then some 2
    else if same_text tier (codes "VERIFIED")
    then some 3
    else none

abbrev pub is_pending : KycTierUpgradeStatus → Bool
is_pending pending = true
is_pending approved = false
is_pending rejected = false

abbrev pub find_user : ℕ → State → Option User
find_user id s = find (λ (u : User). u.id == id) s.users

abbrev pub find_upgrade : ℕ → State → Option KycTierUpgrade
find_upgrade id s = find (λ (g : KycTierUpgrade). g.id == id) s.upgrades

abbrev pub is_pending_of : ℕ → KycTierUpgrade → Bool
is_pending_of user g = (g.user_id == user) && is_pending g.status

abbrev pub current_tier_of : User → Text
current_tier_of u = or_else u.kyc_tier (codes "NONE")

unfoldable pub save_upgrade : KycTierUpgrade → State → State
save_upgrade g s = record s {
  upgrades = update_where (λ (r : KycTierUpgrade). r.id == g.id) (λ _. g) s.upgrades;
}

-- `if (user) { user.metadata.kycTier = …; save }`
unfoldable pub set_tier : ℕ → Text → State → State
set_tier user tier s = record s {
  users =
      update_where (λ (u : User). u.id == user) (λ u. record u { kyc_tier = some tier }) s.users;
}

module _ (upper : Text → Text) where
  -- `TIER_LEVELS[tier.toUpperCase()] ?? 0`
  unfoldable pub level_of : Text → ℕ
  level_of tier = or_else (tier_level (upper tier)) 0

  abbrev pub new_upgrade : (id user : ℕ) → (current requested : Text) → KycTierUpgrade
  new_upgrade id user current requested = record {
    id = id;
    user_id = user;
    current_tier = current;
    requested_tier = upper requested;
    rejection_reason = none;
    status = pending;
    reviewed_by = none;
    reviewed_at = none;
  }

  unfoldable pub add_upgrade : ℕ → (current requested : Text) → State → State
  add_upgrade user current requested s = record s {
    upgrades = s.upgrades ++ new_upgrade s.next_id user current requested ∷ [];
    next_id = s.next_id + 1;
  }

  unfoldable pub request_upgrade : ℕ → Text → Action State (Unit {0})
  request_upgrade user requested = do
    row ← get (find_user user)
    u ← or_throw row (not_found user_not_found)
    level ← or_throw (tier_level (upper requested)) (bad_request invalid_tier)
    throw_if (leb level (level_of (current_tier_of u))) (bad_request tier_not_higher)
    other ← get (λ (s : State). find (is_pending_of user) s.upgrades)
    throw_if (is_some other) (bad_request upgrade_exists)
    modify (add_upgrade user (current_tier_of u) requested)

abbrev pub approval : (now admin : ℕ) → KycTierUpgrade → KycTierUpgrade
approval now admin g = record g {
  status = approved;
  reviewed_by = some admin;
  reviewed_at = some now;
}

abbrev pub rejection : (now admin : ℕ) → Option String → KycTierUpgrade → KycTierUpgrade
rejection now admin reason g = record g {
  status = rejected;
  reviewed_by = some admin;
  reviewed_at = some now;
  rejection_reason = reason;
}

unfoldable pub approve : (now id admin : ℕ) → Action State (Unit {0})
approve now id admin = do
  row ← get (find_upgrade id)
  g ← or_throw row (not_found upgrade_not_found)
  throw_if (not (is_pending g.status)) (bad_request upgrade_not_pending)
  modify (save_upgrade (approval now admin g))
  modify (set_tier g.user_id g.requested_tier)

unfoldable pub reject : (now id admin : ℕ) → Option String → Action State (Unit {0})
reject now id admin reason = do
  row ← get (find_upgrade id)
  g ← or_throw row (not_found upgrade_not_found)
  throw_if (not (is_pending g.status)) (bad_request upgrade_not_pending)
  modify (save_upgrade (rejection now admin reason g))

-- A call of the service.
pub data Call : Type 0 where
  request_call : (user : ℕ) → (requested : Text) → Call
  approve_call : (now id admin : ℕ) → Call
  reject_call : (now id admin : ℕ) → (reason : Option String) → Call

unfoldable pub run : (upper : Text → Text) → Call → Action State (Unit {0})
run upper (request_call user requested) = request_upgrade upper user requested
run upper (approve_call now id admin) = approve now id admin
run upper (reject_call now id admin reason) = reject now id admin reason

unfoldable pub run_all : (upper : Text → Text) → List Call → State → State
run_all upper [] s = s
run_all upper (c ∷ cs) s = run_all upper cs (run upper c s).1
