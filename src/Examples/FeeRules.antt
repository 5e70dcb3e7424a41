-- ===== src/Examples/FeeRules.antt =====
-- Three fee rules, one of them a promotion and one that has expired.
use nexa_fx_js.Base.{true, none, some, codes}
use nexa_fx_js.FeeEngine.{FeeRule, AppliedFee, other_type}

-- One percent of a dollar amount.
abbrev standard : FeeRule
standard = record {
  id = 1;
  rule_type = other_type 0;
  promo_code = none;
  currency = codes "USD";
  is_active = true;
  expires_at = none;
  min_amount = none;
  max_amount = none;
  priority = 5;
  percentage = some 10_000;
  flat_fee = none;
}

abbrev cheap : FeeRule
cheap = record standard { id = 2; priority = 3; percentage = some 5_000 }

abbrev old : FeeRule
old = record standard { id = 3; priority = 1; expires_at = some 90 }

abbrev charged : AppliedFee
charged = record {
  rule_id = 2;
  rule_type = other_type 0;
  fee_amount = 5_000_000;
  currency = codes "USD";
}
