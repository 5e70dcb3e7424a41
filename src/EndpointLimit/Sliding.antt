-- ===== src/EndpointLimit/Sliding.antt =====
-- The sliding window of src/modules/endpoint-rate-limit/services/endpoint-rate-limit.service.ts.
use nexa_fx_js.Base.{
  ℕ, ◌+◌, ◌≤◌, ◌<◌, ◌≡◌, refl, inl, inr, Bool, ◌&&◌, List, [], ◌∷◌, ◌++◌, leb, ltb, if◌then◌else◌,
  filter, length, All, arith, Bool-cases,
}
use nexa_fx_js.EndpointLimit.{Config, recent, check_window}

abbrev pub count : (ℕ → Bool) → List ℕ → ℕ
count p ts = length (filter p ts)

-- The times of the requests that are let in, newest first, and the window at the end.
unfoldable pub admitted : Config → List ℕ → List ℕ → List ℕ → List ℕ × List ℕ
admitted c [] log ts = (log, ts)
admitted c (now ∷ later) log ts =
    let (verdict, next) = check_window c now ts in
    admitted c later (if verdict.allowed then now ∷ log else log) next

-- The clock does not go back.
abbrev pub IsClock : ℕ → List ℕ → Type 0
IsClock from [] = Unit
IsClock from (now ∷ later) = (from ≤ now) × IsClock now later

module _ (c : Config) where
  -- A request at `t` counts in the window that ends at `x`.
  abbrev pub in_window : ℕ → ℕ → Bool
  in_window x t = ltb x (t + c.window_ms) && leb t x

  abbrev is_recent : ℕ → ℕ → Bool
  is_recent x t = ltb x (t + c.window_ms)

  record IsTracked (now : ℕ) (log ts : List ℕ) : Type 0 where
    late : All (λ t. t ≤ now) log
    kept : (y : ℕ) → now ≤ y → count (is_recent y) log ≤ count (is_recent y) ts
    bounded : (x : ℕ) → count (in_window x) log ≤ c.max_requests

  -- What the filter drops is in no later window.
  count-recent :
      (now y : ℕ) (ts : List ℕ)
      → now ≤ y
      → count (is_recent y) (recent now c.window_ms ts) ≡ count (is_recent y) ts
  count-recent now y [] h = refl
  count-recent now y (t ∷ ts) h = ground (arith, count-recent now y ts h)

  count-append :
      (p : ℕ → Bool) (ts : List ℕ) (t : ℕ)
      → count p (ts ++ t ∷ []) ≡ count p ts + (if p t then 1 else 0)
  count-append p [] t = ground arith
  count-append p (x ∷ xs) t = ground (arith, count-append p xs t)

  count_le : (p : ℕ → Bool) (ts : List ℕ) → count p ts ≤ length ts
  count_le p [] = omega arith
  count_le p (t ∷ ts) = ground (arith, count_le p ts)

  -- A window that ends later has no more of the earlier requests.
  count_shift :
      (now x : ℕ) (log : List ℕ) → now ≤ x → count (in_window x) log ≤ count (is_recent now) log
  count_shift now x [] h = omega arith
  count_shift now x (t ∷ ts) h = ground (arith, count_shift now x ts h)

  all_later :
      (now then_now : ℕ) (log : List ℕ)
      → now ≤ then_now
      → All (λ t. t ≤ now) log
      → All (λ t. t ≤ then_now) log
  all_later now then_now [] h k = tt
  all_later now then_now (t ∷ ts) h (k, ks) = (omega arith, all_later now then_now ts h ks)

  step-IsTracked :
      (before now : ℕ) (log ts : List ℕ)
      → before ≤ now
      → IsTracked before log ts
      → IsTracked now
          (if (check_window c now ts).0.allowed then now ∷ log else log)
          (check_window c now ts).1
  unfolding check_window
  step-IsTracked before now log ts h inv =
      elim (Bool-cases (leb c.max_requests (length (recent now c.window_ms ts)))) [
        | inl full ↦ rw (full) (record {
          late = all_later before now log h inv.late;
          kept = λ y k. rw (count-recent now y ts k) (inv.kept y (omega arith));
          bounded = inv.bounded;
        })
        | inr room ↦ rw (room) (record {
          late = (omega arith, all_later before now log h inv.late);
          kept = λ y k.
              let old = inv.kept y (omega arith) in
              let same = count-recent now y ts k in
              let sum = count-append (is_recent y) (recent now c.window_ms ts) now in ground arith;
          bounded = λ x.
              let old = inv.bounded x in
              let low = inv.kept now h in
              elim (Bool-cases (leb now x)) [
                | inl later ↦
                    let shift = count_shift now x log (ground arith) in
                    let space : length (recent now c.window_ms ts) < c.max_requests =
                      ground arith in
                    ground arith
                | inr early ↦ ground arith
              ];
        })
      ]

  admitted-IsTracked :
      (times : List ℕ) (before : ℕ) (log ts : List ℕ)
      → IsClock before times
      → IsTracked before log ts
      → (x : ℕ) → count (in_window x) (admitted c times log ts).0 ≤ c.max_requests
  unfolding admitted
  admitted-IsTracked [] before log ts clock inv x = inv.bounded x
  admitted-IsTracked (now ∷ later) before log ts (h, clock) inv x =
      admitted-IsTracked later now _ _ clock (step-IsTracked before now log ts h inv) x

  -- However many requests come, at whatever times of a clock that does not go back, in no stretch of
  -- `window_ms` milliseconds are more than `max_requests` of them let in, wherever the stretch ends.
  pub admitted_bounded :
      (times : List ℕ) (x : ℕ)
      → IsClock 0 times
      → count (in_window x) (admitted c times [] []).0 ≤ c.max_requests
  admitted_bounded times x clock =
      admitted-IsTracked times 0 [] [] clock
        (record { late = tt; kept = λ y h. omega arith; bounded = λ y. omega arith }) x
