-- ===== src/Referral/Rewards.antt =====
-- Rewards, and codes that are used again, in src/referral/referral.service.ts.
use nexa_fx_js.Base.{
  ℕ, ◌≡◌, refl, true, false, none, some, List, [], ◌∷◌, ◌++◌, ◌==◌, arith, leb, codes, find,
  update_where, find-update,
}
use nexa_fx_js.Base.Action.{ok, err, bad_request, not_qualified}
use nexa_fx_js.Wallets.{Wallet, Wallets, adjust_balance}
use nexa_fx_js.Referral.{
  Referral, ReferralStatus, State, Config, by_id, by_code, referred, count_of, apply_code,
  qualify_referral, reward_referral, is_qualified, is_pending,
}

abbrev rewarded_row : ℕ → Referral → Referral
rewarded_row now r = record r { status = ReferralStatus.rewarded; rewarded_at = some now }

same_id :
    (id : ℕ) (r : Referral) (rs : List Referral)
    → find (λ q. q.id == id) rs ≡ some r
    → (r.id == id) ≡ true
same_id id r [] e = ground arith
same_id id r (q ∷ qs) e = ground (arith, same_id id r qs)

module _ (config : Config) (now id : ℕ) (s : State) (r : Referral) where
  reward_lem :
      {w : Wallet} {ws : Wallets}
      → by_id id s ≡ some r
      → is_qualified r.status ≡ true
      → adjust_balance r.referrer_id (codes "USD") config.reward_amount s.wallets ≡ (ok w, ws)
      → reward_referral config now id s ≡ (
        ok (rewarded_row now r),
        record s {
          wallets = ws;
          referrals = update_where (λ q. q.id == r.id) (λ _. rewarded_row now r) s.referrals;
          rewards =
              s.rewards
              ++ record {
                referral_id = r.id;
                amount = config.reward_amount;
                paid = true;
                paid_at = now;
              }
                ∷ [];
        },
      )
  unfolding reward_referral
  reward_lem p q e = ground arith

  reward_refused :
      by_id id s ≡ some r
      → is_qualified r.status ≡ false
      → reward_referral config now id s ≡ (err (bad_request not_qualified), s)
  unfolding reward_referral
  reward_refused p q = ground arith

-- A qualified referral whose credit goes through is rewarded, and asking for the reward again is
-- refused and pays nothing.
pub rewarded_once :
    (config : Config) (now later id : ℕ) (s : State) (r : Referral) (w : Wallet) (ws : Wallets)
    → by_id id s ≡ some r
    → is_qualified r.status ≡ true
    → adjust_balance r.referrer_id (codes "USD") config.reward_amount s.wallets ≡ (ok w, ws)
    → (saved : Referral) × (s' : State) × (reward_referral config now id s ≡ (ok saved, s'))
      × (s'.wallets ≡ ws)
      × (by_id id s' ≡ some saved)
      × (saved.status ≡ ReferralStatus.rewarded)
      × (reward_referral config later id s' ≡ (err (bad_request not_qualified), s'))
rewarded_once config now later id s r w ws found ready paid =
    let saved = rewarded_row now r in
    let stored =
      find-update (λ q. q.id == id) (λ q. q.id == r.id) r saved s.referrals found (ground arith)
        (same_id id r s.referrals found) in
    (
      saved,
      _,
      reward_lem config now id s r found ready paid,
      refl,
      stored,
      refl,
      reward_refused config later id _ saved stored refl,
    )

abbrev reused : ℕ → Referral → Referral
reused referee r = record r { referred_id = referee; status = ReferralStatus.pending }

apply_lem :
    (config : Config) (code referee : ℕ) (s : State) (r : Referral)
    → config.program_active ≡ true
    → referred referee s ≡ none
    → by_code code s ≡ some r
    → leb config.max_referrals (count_of r.referrer_id s) ≡ false
    → apply_code config code referee s ≡ (
      ok (reused referee r),
      record s { referrals = update_where (λ q. q.id == r.id) (λ _. reused referee r) s.referrals },
    )
unfolding apply_code
apply_lem config code referee s r p q e f = ground arith

abbrev qualified_row : ℕ → Referral → Referral
qualified_row now r = record r { status = ReferralStatus.qualified; qualified_at = some now }

qualify_lem :
    (now id : ℕ) (s : State) (r : Referral)
    → by_id id s ≡ some r
    → is_pending r.status ≡ true
    → qualify_referral now id s ≡ (
      ok (qualified_row now r),
      record s {
        referrals = update_where (λ q. q.id == r.id) (λ _. qualified_row now r) s.referrals;
      },
    )
unfolding qualify_referral
qualify_lem now id s r p q = ground arith

-- The code of any referral, one that has been rewarded too, can be used by a user who has not been
-- referred: the row of the one referred before is overwritten, and the referral qualifies for a
-- reward again.
pub code_reused :
    (config : Config) (now code referee id : ℕ) (s : State) (r : Referral)
    → config.program_active ≡ true
    → referred referee s ≡ none
    → by_code code s ≡ some r
    → by_id id s ≡ some r
    → leb config.max_referrals (count_of r.referrer_id s) ≡ false
    → (r₁ r₂ : Referral) × (s₁ s₂ : State) × (apply_code config code referee s ≡ (ok r₁, s₁))
      × (r₁.referred_id ≡ referee)
      × (qualify_referral now id s₁ ≡ (ok r₂, s₂))
      × (by_id id s₂ ≡ some r₂)
      × (r₂.referrer_id ≡ r.referrer_id)
      × (r₂.status ≡ ReferralStatus.qualified)
code_reused config now code referee id s r active free found stored room =
    let first =
      find-update (λ q. q.id == id) (λ q. q.id == r.id) r (reused referee r) s.referrals stored
        (ground arith) (same_id id r s.referrals stored) in
    let rows = update_where (λ q. q.id == r.id) (λ _. reused referee r) s.referrals in
    let second =
      find-update (λ q. q.id == id) (λ q. q.id == r.id) (reused referee r)
        (qualified_row now (reused referee r)) rows first (ground arith)
        (same_id id r s.referrals stored) in
    (
      reused referee r,
      qualified_row now (reused referee r),
      _,
      _,
      apply_lem config code referee s r active free found room,
      refl,
      qualify_lem now id (record s { referrals = rows }) (reused referee r) first refl,
      second,
      refl,
      refl,
    )
