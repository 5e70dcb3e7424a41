-- ===== src/Tiers/Invariant.antt =====
-- The open requests of src/modules/kyc-tiers/services/kyc-tiers.service.ts.
use nexa_fx_js.Base.{
  ℕ, ◌<◌, ◌≡◌, ◌≢◌, refl, ap, sym, subst, inl, inr, true, false, none, some, List, [], ◌∷◌, ◌++◌,
  ◌==◌, find, update_where, All, Text, codes, arith, Bool-cases, find_key-update_other, all_find,
  all_append,
}
use nexa_fx_js.Tiers.{
  KycTierUpgrade, User, State, is_pending, is_pending_of, current_tier_of, level_of,
}

-- The tier of a user, 'NONE' for one that is not in the table.
abbrev pub tier_of : ℕ → List User → Text
tier_of id users = elim (find (λ (u : User). u.id == id) users) [
  | none ↦ codes "NONE"
  | some u ↦ current_tier_of u
]

-- An open request is above its user's tier.
abbrev pub IsHigher : (Text → Text) → List User → KycTierUpgrade → Type 0
IsHigher upper users g =
    is_pending g.status ≡ true
    → level_of upper (tier_of g.user_id users) < level_of upper g.requested_tier

-- No two open requests are of the same user.
abbrev pub IsApart : KycTierUpgrade → KycTierUpgrade → Type 0
IsApart g h = is_pending g.status ≡ true → is_pending h.status ≡ true → g.user_id ≢ h.user_id

abbrev pub IsSingle : List KycTierUpgrade → Type 0
IsSingle [] = Unit
IsSingle (g ∷ gs) = All (IsApart g) gs × IsSingle gs

pub record IsSound (upper : Text → Text) (s : State) : Type 0 where
  pub higher : All (IsHigher upper s.users) s.upgrades
  pub single : IsSingle s.upgrades

-- A request that has been closed.
abbrev pub IsShut : KycTierUpgrade → Type 0
IsShut g = is_pending g.status ≡ false

abbrev saved : KycTierUpgrade → List KycTierUpgrade → List KycTierUpgrade
saved g gs = update_where (λ (r : KycTierUpgrade). r.id == g.id) (λ _. g) gs

IsApart-shut :
    (g h : KycTierUpgrade) (gs : List KycTierUpgrade)
    → IsShut g
    → All (IsApart h) gs
    → All (IsApart h) (saved g gs)
IsApart-shut g h [] shut k = tt
IsApart-shut g h (x ∷ xs) shut (k, ks) = elim (Bool-cases (x.id == g.id)) [
  | inl hit ↦ rw (hit) (λ p q. cc, IsApart-shut g h xs shut ks)
  | inr miss ↦ rw (miss) (k, IsApart-shut g h xs shut ks)
]

shut-IsApart : (g : KycTierUpgrade) (gs : List KycTierUpgrade) → IsShut g → All (IsApart g) gs
shut-IsApart g [] shut = tt
shut-IsApart g (x ∷ xs) shut = (λ p q. cc, shut-IsApart g xs shut)

pub IsSingle-saved :
    (g : KycTierUpgrade) (gs : List KycTierUpgrade) → IsShut g → IsSingle gs → IsSingle (saved g gs)
IsSingle-saved g [] shut k = tt
IsSingle-saved g (x ∷ xs) shut (k, ks) = elim (Bool-cases (x.id == g.id)) [
  | inl hit ↦ rw (hit) (shut-IsApart g (saved g xs) shut, IsSingle-saved g xs shut ks)
  | inr miss ↦ rw (miss) (IsApart-shut g x xs shut k, IsSingle-saved g xs shut ks)
]

module _ (id : ℕ) (users : List User) where
  pub tier_of_found :
      (u : User)
      → find (λ (r : User). r.id == id) users ≡ some u
      → tier_of id users ≡ current_tier_of u
  tier_of_found u h = ap (λ o. elim o [ none ↦ codes "NONE" | some u ↦ current_tier_of u ]) h

  pub tier_of_missing :
      find (λ (r : User). r.id == id) users ≡ none → tier_of id users ≡ codes "NONE"
  tier_of_missing h = ap (λ o. elim o [ none ↦ codes "NONE" | some u ↦ current_tier_of u ]) h

pub tier_of-set_other :
    (user id : ℕ) (tier : Text) (users : List User)
    → id ≢ user
    → tier_of id
        (update_where (λ (u : User). u.id == user) (λ u. record u { kyc_tier = some tier }) users)
      ≡ tier_of id users
tier_of-set_other user id tier users ne =
    ap (λ o. elim o [ none ↦ codes "NONE" | some u ↦ current_tier_of u ])
      (find_key-update_other (λ (u : User). u.id) (λ u. record u { kyc_tier = some tier })
        (λ u. refl) id user users ne)

-- The open requests besides the open request `g` are of other users.
pub others_apart :
    (id : ℕ) (g : KycTierUpgrade) (gs : List KycTierUpgrade)
    → find (λ (r : KycTierUpgrade). r.id == id) gs ≡ some g
    → is_pending g.status ≡ true
    → IsSingle gs
    → All
        (λ (h : KycTierUpgrade).
          (h.id == id) ≡ false → is_pending h.status ≡ true → h.user_id ≢ g.user_id)
        gs
others_apart id g [] found open_g k = tt
others_apart id g (x ∷ xs) found open_g (k, ks) = elim (Bool-cases (x.id == id)) [
  | inl hit ↦
      let e : some x ≡ some g = rw (hit) at found in
      let same : x ≡ g = ground arith in
      (λ miss p. cc, first_apart id g xs (subst (λ y. All (IsApart y) xs) same k) open_g)
  | inr miss ↦
      let found' : find (λ (r : KycTierUpgrade). r.id == id) xs ≡ some g = rw (miss) at found in
      (
        λ _ p. all_find (IsApart x) (λ (r : KycTierUpgrade). r.id == id) xs g k found' p open_g,
        others_apart id g xs found' open_g ks,
      )
]
  where
    first_apart :
        (id : ℕ) (g : KycTierUpgrade) (gs : List KycTierUpgrade)
        → All (IsApart g) gs
        → is_pending g.status ≡ true
        → All
            (λ (h : KycTierUpgrade).
              (h.id == id) ≡ false → is_pending h.status ≡ true → h.user_id ≢ g.user_id)
            gs
    first_apart id g [] k open_g = tt
    first_apart id g (x ∷ xs) (k, ks) open_g =
        (λ _ p e. k open_g p (sym e), first_apart id g xs ks open_g)

module _ (upper : Text → Text) where
  -- A request is shut, and its user may get another tier: the open requests stay above.
  pub IsHigher-saved :
      (g : KycTierUpgrade) (users users' : List User) (gs : List KycTierUpgrade)
      → IsShut g
      → ((id : ℕ) → id ≢ g.user_id → tier_of id users' ≡ tier_of id users)
      → All
          (λ (h : KycTierUpgrade).
            (h.id == g.id) ≡ false → is_pending h.status ≡ true → h.user_id ≢ g.user_id)
          gs
      → All (IsHigher upper users) gs
      → All (IsHigher upper users') (saved g gs)
  IsHigher-saved g users users' [] shut same others k = tt
  IsHigher-saved g users users' (x ∷ xs) shut same (other, others) (k, ks) =
      let rest = IsHigher-saved g users users' xs shut same others ks in
      elim (Bool-cases (x.id == g.id)) [
        | inl hit ↦ rw (hit) (λ p. cc, rest)
        | inr miss ↦ rw (miss) (
          λ p.
              subst (λ t. level_of upper t < level_of upper x.requested_tier)
                (sym (same x.user_id (other miss p))) (k p),
          rest,
        )
      ]

-- A new request, when its user has no open one.
fresh-IsApart :
    (g : KycTierUpgrade) (h : KycTierUpgrade) → is_pending_of g.user_id h ≡ false → IsApart h g
fresh-IsApart g h k p q e = ground arith

pub IsSingle-append :
    (g : KycTierUpgrade) (gs : List KycTierUpgrade)
    → find (is_pending_of g.user_id) gs ≡ none
    → IsSingle gs
    → IsSingle (gs ++ g ∷ [])
IsSingle-append g [] h k = (tt, tt)
IsSingle-append g (x ∷ xs) h (k, ks) = elim (Bool-cases (is_pending_of g.user_id x)) [
  | inl hit ↦ let e : some x ≡ none = rw (hit) at h in cc
  | inr miss ↦ (
    all_append (IsApart x) xs g k (fresh-IsApart g x miss),
    IsSingle-append g xs (rw (miss) at h) ks,
  )
]
