-- ===== src/Aml.antt =====
-- src/aml: aml-screening.service.ts and the checks of aml.service.ts. Amounts are in units of 10^-8,
-- times in milliseconds. JavaScript's `toLowerCase`, `lower`, is a parameter. The check for smurfing
-- compares a quotient of doubles, and is left out.
pub mod Screening
pub mod Structuring
use Prim.Native.String.{String}
use nexa_fx_js.Base.{
  ℕ, ◌+◌, ◌-◌, ◌*◌, Bool, true, false, ◌&&◌, ◌||◌, Option, none, some, List, [], ◌∷◌, ◌++◌, ◌==◌,
  leb, ltb, if◌then◌else◌, find, any, filter, update_where, length, Text, codes, same_text,
}
use nexa_fx_js.Base.Int.{ℤ}
use nexa_fx_js.Base.Action.{
  Action, Result, not_found, screening_not_found, ◌>>=◌, ◌>>◌, get, pure, or_throw, modify,
}

pub data AmlRiskLevel : Type 0 where
  low medium high critical : AmlRiskLevel

pub data Flag : Type 0 where
  sanctions_match pep high_value : Flag

pub record AmlScreening : Type 0 where
  pub id : ℕ
  pub user_id : ℕ
  pub transaction_id : Option ℕ
  pub risk_score : ℕ
  pub risk_level : AmlRiskLevel
  pub flags : List Flag
  pub reviewed_by : Option ℕ
  pub reviewed_at : Option ℕ
  pub notes : Option String

abbrev pub units : ℕ → ℕ
units amount = amount * 100_000_000

abbrev pub mock_sanctions : List Text
mock_sanctions = codes "test sanctioned" ∷ codes "sdn test" ∷ codes "pep test" ∷ []

abbrev pub mock_pep : List Text
mock_pep = codes "minister" ∷ codes "president" ∷ codes "senator" ∷ codes "governor" ∷ []

abbrev pub starts_with : Text → Text → Bool
starts_with [] text = true
starts_with (c ∷ cs) [] = false
starts_with (c ∷ cs) (d ∷ ds) = (c == d) && starts_with cs ds

-- `text.includes(part)`
abbrev pub includes : Text → Text → Bool
includes part [] = starts_with part []
includes part (c ∷ cs) = starts_with part (c ∷ cs) || includes part cs

unfoldable pub calculate_risk_level : ℕ → AmlRiskLevel
calculate_risk_level score =
    if leb 80 score
    then critical
    else if leb 50 score
    then high
    else if leb 20 score
    then medium
    else low

-- A flag with what it adds to the score.
pub record Finding : Type 0 where
  pub flags : List Flag
  pub score : ℕ

abbrev nothing : Finding
nothing = record { flags = []; score = 0 }

abbrev pub flag_if : Bool → Flag → ℕ → Finding → Finding
flag_if b flag points f =
    if b then record { flags = f.flags ++ flag ∷ []; score = f.score + points } else f

-- An empty name counts as none.
abbrev pub matches : (lower : Text → Text) → List Text → Option Text → Bool
matches lower names none = false
matches lower names (some []) = false
matches lower names (some (c ∷ cs)) = any (λ part. includes part (lower (c ∷ cs))) names

unfoldable pub user_findings : (lower : Text → Text) → Option Text → Finding
user_findings lower name =
    flag_if (matches lower mock_pep name) pep 30
      (flag_if (matches lower mock_sanctions name) sanctions_match 50 nothing)

unfoldable pub transaction_findings : (lower : Text → Text) → ℕ → Option Text → Finding
transaction_findings lower amount counterparty =
    flag_if (matches lower mock_sanctions counterparty) sanctions_match 50 (
      if leb (units 50_000) amount
      then flag_if true high_value 60 nothing
      else flag_if (leb (units 10_000) amount) high_value 30 nothing)

pub record State : Type 0 where
  pub screenings : List AmlScreening
  pub next_id : ℕ

abbrev pub new_screening : (id user : ℕ) → Option ℕ → Finding → AmlScreening
new_screening id user transaction f = record {
  id = id;
  user_id = user;
  transaction_id = transaction;
  risk_score = f.score;
  risk_level = calculate_risk_level f.score;
  flags = f.flags;
  reviewed_by = none;
  reviewed_at = none;
  notes = none;
}

unfoldable pub save_screening : ℕ → Option ℕ → Finding → Action State AmlScreening
save_screening user transaction f = do
  id ← get (λ (s : State). s.next_id)
  modify (λ (s : State). record s {
    screenings = s.screenings ++ new_screening id user transaction f ∷ [];
    next_id = s.next_id + 1;
  })
  pure (new_screening id user transaction f)

unfoldable pub screen_user : (lower : Text → Text) → ℕ → Option Text → Action State AmlScreening
screen_user lower user name = save_screening user none (user_findings lower name)

unfoldable pub screen_transaction :
    (lower : Text → Text) → (user transaction amount : ℕ) → Option Text → Action State AmlScreening
screen_transaction lower user transaction amount counterparty =
    save_screening user (some transaction) (transaction_findings lower amount counterparty)

unfoldable pub find_by_id : ℕ → Action State AmlScreening
find_by_id id = do
  row ← get (λ (s : State). find (λ (r : AmlScreening). r.id == id) s.screenings)
  or_throw row (not_found screening_not_found)

unfoldable pub review : (now id reviewer : ℕ) → String → Action State AmlScreening
review now id reviewer notes = do
  row ← find_by_id id
  let done : AmlScreening = record row {
    reviewed_by = some reviewer;
    reviewed_at = some now;
    notes = some notes;
  }
  modify (λ (s : State). record s {
    screenings = update_where (λ (r : AmlScreening). r.id == row.id) (λ _. done) s.screenings;
  })
  pure done

-- aml.service.ts
pub record TransactionRecord : Type 0 where
  pub user_id : ℕ
  pub amount : ℕ
  pub executed_at : ℕ

-- The settings 'aml.structuring…', which have the defaults 10000, 24 and 3.
pub record Settings : Type 0 where
  pub threshold : ℕ
  pub window_hours : ℕ
  pub min_count : ℕ

pub data Rule : Type 0 where
  structuring velocity_burst : Rule

-- The row that `createAlert` saves, with the numbers of its metadata.
pub record Alert : Type 0 where
  pub user_id : ℕ
  pub rule_triggered : Rule
  pub risk_score : ℕ
  pub count : ℕ
  pub total : Option ℕ

abbrev pub sum : List TransactionRecord → ℕ
sum [] = 0
sum (t ∷ ts) = t.amount + sum ts

-- `executedAt >= cutoff`, the cutoff being `window_hours` ago.
abbrev pub is_recent : (now window_hours : ℕ) → TransactionRecord → Bool
is_recent now window_hours t = leb now (t.executed_at + window_hours * 3_600_000)

abbrev pub is_below : Settings → (now user : ℕ) → TransactionRecord → Bool
is_below c now user t =
    (t.user_id == user) && is_recent now c.window_hours t && ltb t.amount c.threshold

unfoldable pub check_structuring :
    Settings → (risk_weight now user : ℕ) → List TransactionRecord → Option Alert
check_structuring c risk_weight now user txs =
    let window = filter (is_below c now user) txs in
    if leb c.min_count (length window) && leb c.threshold (sum window)
    then some (record {
      user_id = user;
      rule_triggered = structuring;
      risk_score = risk_weight;
      count = length window;
      total = some (sum window);
    })
    else none

unfoldable pub check_velocity_burst :
    (window_hours max_count risk_weight now user : ℕ) → List TransactionRecord → Option Alert
check_velocity_burst window_hours max_count risk_weight now user txs =
    let window =
      filter (λ (t : TransactionRecord). (t.user_id == user) && is_recent now window_hours t) txs in
    if ltb max_count (length window)
    then some (record {
      user_id = user;
      rule_triggered = velocity_burst;
      risk_score = risk_weight;
      count = length window;
      total = none;
    })
    else none
