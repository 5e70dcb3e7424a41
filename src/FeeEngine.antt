-- ===== src/FeeEngine.antt =====
-- src/modules/fee/services/fee-engine.service.ts and src/fee-tiers/fee-tiers.service.ts. An amount is
-- counted in units of 10^-8 and a percentage in units of 10^-4, as their columns are, and the sums are
-- exact; amounts and fees are not negative. `Math.round` takes a half up. The fields of a rule are the
-- ones that the service reads: the file of its entity is not in the repository.
pub mod Choice
pub mod Rounding
use nexa_fx_js.Base.{
  ℕ, ◌+◌, ◌*◌, ◌/◌, Bool, true, false, ◌&&◌, Option, none, some, List, [], ◌∷◌, ◌==◌, ltb, leb,
  if◌then◌else◌, find, filter, or_else, Text, same_text,
}

pub data KycFeeLevel : Type 0 where
  basic intermediate advanced : KycFeeLevel

pub record FeeTier : Type 0 where
  pub id : ℕ
  pub kyc_level : KycFeeLevel
  pub currency : Text
  pub tier_min : ℕ
  pub tier_max : ℕ
  pub percentage_fee : ℕ
  pub flat_fee : ℕ
  pub is_active : Bool

pub data RuleType : Type 0 where
  promotional kyc_tier : RuleType
  other_type : ℕ → RuleType

pub record FeeRule : Type 0 where
  pub id : ℕ
  pub rule_type : RuleType
  pub promo_code : Option Text
  pub currency : Text
  pub is_active : Bool
  pub expires_at : Option ℕ
  pub min_amount : Option ℕ
  pub max_amount : Option ℕ
  pub priority : ℕ
  pub percentage : Option ℕ
  pub flat_fee : Option ℕ

pub record AppliedFee : Type 0 where
  pub rule_id : ℕ
  pub rule_type : RuleType
  pub fee_amount : ℕ
  pub currency : Text

abbrev pub same_level : KycFeeLevel → KycFeeLevel → Bool
same_level KycFeeLevel.basic KycFeeLevel.basic = true
same_level KycFeeLevel.intermediate KycFeeLevel.intermediate = true
same_level KycFeeLevel.advanced KycFeeLevel.advanced = true
same_level _ _ = false

-- A hundredth of a percentage of an amount, in units of 10^-6 of the amount's, to the nearest unit.
abbrev pub round_fee : ℕ → ℕ
round_fee parts = (2 * parts + 1000000) / 2000000

-- The fee before it is rounded.
abbrev pub raw_fee : (amount percentage flat : ℕ) → ℕ
raw_fee amount percentage flat = amount * percentage + flat * 1000000

abbrev pub tier_fits : KycFeeLevel → Text → ℕ → FeeTier → Bool
tier_fits level currency amount t =
    same_level t.kyc_level level
    && same_text t.currency currency
    && t.is_active
    && leb t.tier_min amount
    && leb amount t.tier_max

-- The tier, the fee and the total.
unfoldable pub calculate_tier_fee : List FeeTier → KycFeeLevel → Text → ℕ → Option FeeTier × ℕ × ℕ
calculate_tier_fee tiers level currency amount =
    total (find (tier_fits level currency amount) tiers)
  where
    total : Option FeeTier → Option FeeTier × ℕ × ℕ
    total none = (none, 0, amount)
    total (some t) =
        let fee = round_fee (raw_fee amount t.percentage_fee t.flat_fee) in
        (some t, fee, amount + fee)

abbrev pub not_expired : (now : ℕ) → Option ℕ → Bool
not_expired now none = true
not_expired now (some t) = ltb now t

abbrev pub from_min : ℕ → Option ℕ → Bool
from_min amount none = true
from_min amount (some low) = leb low amount

abbrev pub to_max : ℕ → Option ℕ → Bool
to_max amount none = true
to_max amount (some high) = leb amount high

abbrev pub is_applicable : (now : ℕ) → ℕ → Text → FeeRule → Bool
is_applicable now amount currency r =
    r.is_active
    && same_text r.currency currency
    && not_expired now r.expires_at
    && from_min amount r.min_amount
    && to_max amount r.max_amount

-- `orderBy('r.priority', 'ASC')`
abbrev pub insert : FeeRule → List FeeRule → List FeeRule
insert r [] = r ∷ []
insert r (x ∷ xs) = if leb r.priority x.priority then r ∷ x ∷ xs else x ∷ insert r xs

abbrev pub by_priority : List FeeRule → List FeeRule
by_priority [] = []
by_priority (r ∷ rs) = insert r (by_priority rs)

unfoldable pub applicable_rules : (now : ℕ) → List FeeRule → ℕ → Text → List FeeRule
applicable_rules now rules amount currency =
    by_priority (filter (is_applicable now amount currency) rules)

abbrev pub is_promo : Text → FeeRule → Bool
is_promo code r = elim r.rule_type [
  | promotional ↦ elim r.promo_code [ none ↦ false | some c ↦ same_text c code ]
  | _ ↦ false
]

abbrev pub head : List FeeRule → Option FeeRule
head [] = none
head (r ∷ rs) = some r

abbrev pub first_of : {A : Type 0} → Option A → Option A → Option A
first_of (some a) other = some a
first_of none other = other

-- `promoRule ?? rules[0]`; an empty code is no code.
abbrev pub choose : Option Text → List FeeRule → Option FeeRule
choose none rules = head rules
choose (some []) rules = head rules
choose (some (c ∷ cs)) rules = first_of (find (is_promo (c ∷ cs)) rules) (head rules)

unfoldable pub calculate_fee : ℕ → FeeRule → ℕ
calculate_fee amount r = round_fee (raw_fee amount (or_else r.percentage 0) (or_else r.flat_fee 0))

abbrev pub tier_result : Text → Option FeeTier × ℕ × ℕ → Option AppliedFee
tier_result currency (none, fee, total) = none
tier_result currency (some t, fee, total) =
    some (record { rule_id = t.id; rule_type = kyc_tier; fee_amount = fee; currency = currency })

abbrev pub rule_result : ℕ → Text → Option FeeRule → Option AppliedFee
rule_result amount currency none = none
rule_result amount currency (some r) = some (record {
  rule_id = r.id;
  rule_type = r.rule_type;
  fee_amount = calculate_fee amount r;
  currency = currency;
})

abbrev pub of_tier : List FeeTier → ℕ → Text → Option KycFeeLevel → Option AppliedFee
of_tier tiers amount currency none = none
of_tier tiers amount currency (some level) =
    tier_result currency (calculate_tier_fee tiers level currency amount)

unfoldable pub evaluate :
    (now : ℕ)
    → List FeeTier
    → List FeeRule
    → ℕ
    → Text
    → Option Text
    → Option KycFeeLevel
    → Option AppliedFee
evaluate now tiers rules amount currency promo_code kyc_level =
    first_of (of_tier tiers amount currency kyc_level)
      (rule_result amount currency (choose promo_code (applicable_rules now rules amount currency)))

-- The total that a simulation shows.
unfoldable pub simulate : (now : ℕ) → List FeeRule → ℕ → Text → Option Text → Option AppliedFee × ℕ
simulate now rules amount currency promo_code =
    let fee = evaluate now [] rules amount currency promo_code none in
    (fee, amount + elim fee [ none ↦ 0 | some f ↦ f.fee_amount ])
