-- ===== src/FeeEngine/Choice.antt =====
-- Which rule src/modules/fee/services/fee-engine.service.ts applies.
use mathlib.Core.List.{Mem}
use nexa_fx_js.Base.{
  ℕ, ◌≤◌, ◌≡◌, Bool, true, false, Option, none, some, List, [], ◌∷◌, filter, All, ◌⊎◌, Text,
}
use nexa_fx_js.FeeEngine.{FeeRule, is_applicable, is_promo}

abbrev Above : FeeRule → List FeeRule → Type 0
Above r rs = All (λ x. r.priority ≤ x.priority) rs

abbrev Ascending : List FeeRule → Type 0
Ascending [] = Unit
Ascending (r ∷ rs) = Above r rs × Ascending rs

-- Is the rule one that the promotion code names?
abbrev pub named_by : Option Text → FeeRule → Bool
named_by none r = false
named_by (some code) r = is_promo code r

-- Why a rule is the one that is applied.
pub record IsChosen (now : ℕ) (rules : List FeeRule) (amount : ℕ) (currency : Text)
    (promo_code : Option Text) (r : FeeRule) : Type 0 where
  pub member : Mem r rules
  pub applicable : is_applicable now amount currency r ≡ true
  pub best :
      (named_by promo_code r ≡ true)
      ⊎ All (λ x. r.priority ≤ x.priority) (filter (is_applicable now amount currency) rules)
