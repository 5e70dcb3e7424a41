-- ===== src/Referral.antt =====
-- src/referral/referral.service.ts over the rows of `referral.entity.ts` and
-- `referral-reward.entity.ts`. Codes are numbers, drawn by the caller; the users exist.
-- The database transaction of a reward rolls back the rows of the two tables and not the balance,
-- which `adjustBalance` writes on a connection of its own.
pub mod Rewards
use Prim.Native.String.{String}
use nexa_fx_js.Base.{
  ℕ, ◌+◌, Bool, true, false, ◌&&◌, not, Option, none, some, List, [], ◌∷◌, ◌++◌, ◌==◌, ltb, leb,
  if◌then◌else◌, find, filter, length, update_where, is_some, codes,
}
use nexa_fx_js.Base.Int.{ℤ, pos, ◌+ℤ◌}
use nexa_fx_js.Base.Action.{
  Action, Result, ok, err, Error, bad_request, not_found, program_inactive, already_referred,
  code_not_found, max_referrals, referral_not_found, not_pending_referral, not_qualified, ◌>>=◌,
  ◌>>◌, get, pure, throw_if, or_throw, modify,
}
use nexa_fx_js.Wallets.{Wallets, adjust_balance}

pub data ReferralStatus : Type 0 where
  pending qualified rewarded : ReferralStatus

pub record Referral : Type 0 where
  pub id : ℕ
  pub referrer_id : ℕ
  pub referred_id : ℕ
  pub referral_code : ℕ
  pub status : ReferralStatus
  pub qualified_at : Option ℕ
  pub rewarded_at : Option ℕ

pub record ReferralReward : Type 0 where
  pub referral_id : ℕ
  pub amount : ℤ
  pub paid : Bool
  pub paid_at : ℕ

pub record Config : Type 0 where
  pub program_active : Bool
  pub max_referrals : ℕ
  pub reward_amount : ℤ

pub record State : Type 0 where
  pub wallets : Wallets
  pub referrals : List Referral
  pub rewards : List ReferralReward
  pub next_id : ℕ

abbrev pub is_pending : ReferralStatus → Bool
is_pending ReferralStatus.pending = true
is_pending _ = false

abbrev pub is_qualified : ReferralStatus → Bool
is_qualified ReferralStatus.qualified = true
is_qualified _ = false

abbrev pub is_rewarded : ReferralStatus → Bool
is_rewarded ReferralStatus.rewarded = true
is_rewarded _ = false

abbrev pub save : Referral → Action State (Unit {0})
save r =
    modify (λ s. record s { referrals = update_where (λ q. q.id == r.id) (λ _. r) s.referrals })

-- The row of a new code names the referrer as the one referred, until the code is used.
unfoldable pub generate_code : (code referrer : ℕ) → Action State Referral
generate_code code referrer = do
  id ← get (λ s. s.next_id)
  let referral : Referral = record {
    id = id;
    referrer_id = referrer;
    referred_id = referrer;
    referral_code = code;
    status = ReferralStatus.pending;
    qualified_at = none;
    rewarded_at = none;
  }
  modify (λ s. record s { referrals = s.referrals ++ referral ∷ []; next_id = s.next_id + 1 })
  pure referral

abbrev pub referred : ℕ → State → Option Referral
referred user s = find (λ r. r.referred_id == user) s.referrals

abbrev pub by_code : ℕ → State → Option Referral
by_code code s = find (λ r. r.referral_code == code) s.referrals

abbrev pub by_id : ℕ → State → Option Referral
by_id id s = find (λ r. r.id == id) s.referrals

abbrev pub count_of : ℕ → State → ℕ
count_of referrer s = length (filter (λ r. r.referrer_id == referrer) s.referrals)

unfoldable pub apply_code : Config → (code referee : ℕ) → Action State Referral
apply_code config code referee = do
  throw_if (not config.program_active) (bad_request program_inactive)
  existing ← get (referred referee)
  throw_if (is_some existing) (bad_request already_referred)
  found ← get (by_code code)
  referral ← or_throw found (not_found code_not_found)
  referrer_count ← get (count_of referral.referrer_id)
  throw_if (leb config.max_referrals referrer_count) (bad_request max_referrals)
  let saved : Referral = record referral { referred_id = referee; status = ReferralStatus.pending }
  save saved
  pure saved

unfoldable pub qualify_referral : (now id : ℕ) → Action State Referral
qualify_referral now id = do
  found ← get (by_id id)
  referral ← or_throw found (not_found referral_not_found)
  throw_if (not (is_pending referral.status)) (bad_request not_pending_referral)
  let saved : Referral = record referral {
    status = ReferralStatus.qualified;
    qualified_at = some now;
  }
  save saved
  pure saved

abbrev pub pay : (user : ℕ) → ℤ → Action State (Unit {0})
pay user amount s =
    let (r, ws) = adjust_balance user (codes "USD") amount s.wallets in
    (elim r [ ok _ ↦ ok tt | err e ↦ err e ], record s { wallets = ws })

unfoldable pub reward_referral : Config → (now id : ℕ) → Action State Referral
reward_referral config now id = do
  found ← get (by_id id)
  referral ← or_throw found (not_found referral_not_found)
  throw_if (not (is_qualified referral.status)) (bad_request not_qualified)
  pay referral.referrer_id config.reward_amount
  let reward : ReferralReward = record {
    referral_id = referral.id;
    amount = config.reward_amount;
    paid = true;
    paid_at = now;
  }
  modify (λ s. record s { rewards = s.rewards ++ reward ∷ [] })
  let saved : Referral = record referral {
    status = ReferralStatus.rewarded;
    rewarded_at = some now;
  }
  save saved
  pure saved

pub record ReferralStats : Type 0 where
  pub total_referrals : ℕ
  pub pending : ℕ
  pub qualified : ℕ
  pub rewarded : ℕ

-- The counts of `getStats`.
abbrev pub get_stats : ℕ → State → ReferralStats
get_stats referrer s =
    let all = filter (λ r. r.referrer_id == referrer) s.referrals in
    record {
      total_referrals = length all;
      pending = length (filter (λ r. is_pending r.status) all);
      qualified = length (filter (λ r. is_qualified r.status) all);
      rewarded = length (filter (λ r. is_rewarded r.status) all);
    }
