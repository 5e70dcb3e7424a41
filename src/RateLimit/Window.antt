-- ===== src/RateLimit/Window.antt =====
-- How many calls a window lets through.
use nexa_fx_js.Base.{
  ℕ, ◌+◌, ◌-◌, ◌≤◌, ◌<◌, ◌≡◌, List, [], ◌∷◌, ltb, if◌then◌else◌, arith, length, All,
}
use nexa_fx_js.RateLimit.{Entry, window_ms, check_entry}

-- The number of calls that are let through, of calls at these times on a record.
abbrev pub admitted : (limit : ℕ) → List ℕ → Entry → ℕ
admitted limit [] e = 0
admitted limit (now ∷ times) e =
    let (v, e') = check_entry limit now e in (if v.allowed then 1 else 0) + admitted limit times e'

abbrev min : ℕ → ℕ → ℕ
min a b = if ltb a b then a else b

-- Of any calls that come before the window of a record has run out, exactly as many are let through
-- as there is room under the limit; none is lost while there is.
pub admitted_lem :
    (limit : ℕ) (times : List ℕ) (e : Entry)
    → All (λ now. now ≤ e.window_start + window_ms) times
    → admitted limit times e ≡ min (length times) (limit - e.request_count)
unfolding check_entry
admitted_lem limit [] e h = ground arith
admitted_lem limit (now ∷ times) e (h, hs) = ground (
  arith,
  admitted_lem limit times (record e { request_count = e.request_count + 1 }) hs,
  admitted_lem limit times e hs,
)

-- What a call says is left is the room under the limit after it, and the time it names is the end of
-- the window it counts in, which has not passed.
pub check_entry_lem :
    (limit now : ℕ) (e : Entry)
    → 0 < limit
    → e.window_start ≤ now
    → let (v, e') = check_entry limit now e in
      (v.remaining ≡ limit - e'.request_count)
      × (v.reset_at ≡ e'.window_start + window_ms)
      × (now ≤ v.reset_at)
unfolding check_entry
check_entry_lem limit now e h k = ground arith
