-- ===== src/Aml/Structuring.antt =====
-- What hides a structuring from src/aml/aml.service.ts: nothing that is added.
use nexa_fx_js.Base.{ℕ, ◌≤◌, ◌≡◌, true, List, [], ◌∷◌, ◌++◌, filter, length, is_some, All, arith}
use nexa_fx_js.Aml.{TransactionRecord, Settings, sum, is_below, check_structuring}

module _ (c : Settings) (now user : ℕ) where
  -- A part of an amount: of the user, in the window, below the threshold.
  abbrev pub IsPart : TransactionRecord → Type 0
  IsPart t = is_below c now user t ≡ true

  window_grows :
      (xs ys : List TransactionRecord)
      → (length (filter (is_below c now user) ys)
          ≤ length (filter (is_below c now user) (xs ++ ys)))
        × (sum (filter (is_below c now user) ys) ≤ sum (filter (is_below c now user) (xs ++ ys)))
  window_grows [] ys = (omega arith, omega arith)
  window_grows (x ∷ xs) ys = let (a, b) = window_grows xs ys in ground arith

  parts_counted :
      (parts ys : List TransactionRecord)
      → All IsPart parts
      → (length parts ≤ length (filter (is_below c now user) (parts ++ ys)))
        × (sum parts ≤ sum (filter (is_below c now user) (parts ++ ys)))
  parts_counted [] ys h = (omega arith, omega arith)
  parts_counted (p ∷ ps) ys (h, hs) =
      let (a, b) = parts_counted ps ys hs in rw (h) (omega arith, omega arith)

  -- An amount of at least the threshold that is split into parts, at least `min_count` of them, each
  -- below the threshold and in the window, raises an alert, whatever transactions come before and
  -- after them.
  pub split_amount_found :
      (risk_weight : ℕ) (before parts behind : List TransactionRecord)
      → All IsPart parts
      → c.min_count ≤ length parts
      → c.threshold ≤ sum parts
      → is_some (check_structuring c risk_weight now user (before ++ (parts ++ behind))) ≡ true
  unfolding check_structuring
  split_amount_found risk_weight before parts behind h many much =
      let (a, b) = window_grows before (parts ++ behind) in
      let (k, l) = parts_counted parts behind h in ground arith
