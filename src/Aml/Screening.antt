-- ===== src/Aml/Screening.antt =====
-- The risk levels that src/aml/aml-screening.service.ts gives.
use nexa_fx_js.Base.{
  ℕ, ◌≡◌, Bool, true, false, Option, [], leb, if◌then◌else◌, Text, arith, Bool-cases, inl, inr,
}
use nexa_fx_js.Aml.{
  AmlRiskLevel, low, medium, high, critical, sanctions_match, high_value, calculate_risk_level,
  flag_if, matches, mock_sanctions, units, transaction_findings,
}

-- The levels of a transaction: by a match with the sanctions, and the amount.
abbrev pub expected_level : Bool → ℕ → AmlRiskLevel
expected_level match_found amount =
    if match_found
    then (if leb (units 10_000) amount then critical else high)
    else if leb (units 50_000) amount
    then high
    else if leb (units 10_000) amount
    then medium
    else low

-- A transaction with a party on the sanctions list is critical from 10,000 on and high below; one
-- without is high from 50,000, medium from 10,000 and low below.
transaction_findings-expected_level :
    (lower : Text → Text) (amount : ℕ) (counterparty : Option Text)
    → calculate_risk_level (transaction_findings lower amount counterparty).score
      ≡ expected_level (matches lower mock_sanctions counterparty) amount
unfolding calculate_risk_level transaction_findings
transaction_findings-expected_level lower amount counterparty =
    elim (Bool-cases (matches lower mock_sanctions counterparty)) [
      | inl listed ↦ rw (listed) (by_amount true)
      | inr clear ↦ rw (clear) (by_amount false)
    ]
  where
    by_amount :
        (b : Bool)
        → calculate_risk_level
            (flag_if b sanctions_match 50 (
              if leb (units 50_000) amount
              then flag_if true high_value 60 (record { flags = []; score = 0 })
              else flag_if
                  (leb (units 10_000) amount)
                  high_value
                  30
                  (record { flags = []; score = 0 }))).score
          ≡ expected_level b amount
    by_amount true = ground arith
    by_amount false = ground arith
