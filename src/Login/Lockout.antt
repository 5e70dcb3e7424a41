-- ===== src/Login/Lockout.antt =====
-- What a login writes of the counter of failures and of the lock.
use nexa_fx_js.Base.{
  ℕ, ◌+◌, ◌≤◌, ◌≡◌, refl, Bool, false, not, ◌&&◌, ◌||◌, none, some, List, [], ◌∷◌, ◌==◌, arith,
  is_some, ltb, leb, find, update_where, same_text, All, Option-cases, Bool-cases, inl, inr,
}
use nexa_fx_js.Base.Action.{Action, Result, ok, err, forbidden, token_revoked, after}
use nexa_fx_js.Login.{
  User, State, LoginDto, Env, update, fail, clear, check_password, finish_login, login_user, login,
  is_locked, max_failed_attempts, rotate_refresh_token,
}

-- No lock is stored, and at most four failures are counted.
abbrev pub IsUnlocked : User → Type 0
IsUnlocked u = (u.locked_until ≡ none) × (u.failed_login_attempts ≤ 4)

abbrev pub AllUnlocked : State → Type 0
AllUnlocked s = All IsUnlocked s.users

found-IsUnlocked :
    (p : User → Bool) (us : List User) (u : User)
    → All IsUnlocked us
    → find p us ≡ some u
    → IsUnlocked u
found-IsUnlocked p [] u h e = ground arith
found-IsUnlocked p (v ∷ vs) u (h, hs) e = elim (Bool-cases (p v)) [
  | inl fits ↦ let same = rw fits at e in (ground arith, ground arith)
  | inr other ↦ found-IsUnlocked p vs u hs (rw other at e)
]

update-IsUnlocked :
    (p : User → Bool) (y : User) (us : List User)
    → All IsUnlocked us
    → IsUnlocked y
    → All IsUnlocked (update_where p (λ _. y) us)
update-IsUnlocked p y [] h k = tt
update-IsUnlocked p y (v ∷ vs) (h, hs) k = (
  elim (Bool-cases (p v)) [ inl fits ↦ rw fits k | inr other ↦ rw other h ],
  update-IsUnlocked p y vs hs k,
)

update_kept :
    (id : ℕ) (change : User → User) (s : State)
    → ((u : User) → IsUnlocked u → IsUnlocked (change u))
    → AllUnlocked s
    → AllUnlocked (update id change s).1
unfolding update
update_kept id change s keeps h = elim (Option-cases (find (λ u. u.id == id) s.users)) [
  | inl missing ↦ rw missing h
  | inr (u, found) ↦ rw found (
      update-IsUnlocked (λ v. v.id == u.id) (change u) s.users h
        (keeps u (found-IsUnlocked (λ u. u.id == id) s.users u h found)))
]

-- A step that keeps a property after one that kept it.
after_kept :
    {A B : Type 0} (f : A → Action State B) (r : Result A × State)
    → AllUnlocked r.1
    → ((a : A) (s : State) → AllUnlocked s → AllUnlocked (f a s).1)
    → AllUnlocked (after f r).1
after_kept f (ok a, s) h k = k a s h
after_kept f (err e, s) h k = h

counted : (n : ℕ) → leb max_failed_attempts (n + 1) ≡ false → n + 1 ≤ 4
counted n h = ground arith

fail_kept : (user : User) (s : State) → AllUnlocked s → AllUnlocked (fail user s).1
unfolding fail
fail_kept user s h = elim (Bool-cases (leb max_failed_attempts (user.failed_login_attempts + 1))) [
  | inl fifth ↦ rw fifth h
  | inr below ↦ rw below (
      after_kept _ (update user.id _ s)
        (update_kept user.id _ s (λ u (free, _). (free, counted user.failed_login_attempts below))
          h)
        (λ _ s' h'. h'))
]

clear_kept : (user : User) (s : State) → AllUnlocked s → AllUnlocked (clear user s).1
unfolding clear
clear_kept user s h =
    elim (Bool-cases (ltb 0 user.failed_login_attempts || is_some user.locked_until)) [
      | inl marked ↦ rw marked (update_kept user.id _ s (λ u _. (refl, omega arith)) h)
      | inr clean ↦ rw clean h
    ]

check_kept :
    (env : Env) (password : ℕ) (user : User) (s : State)
    → AllUnlocked s
    → AllUnlocked (check_password env password user s).1
unfolding check_password
check_kept env password user s h =
    elim (Bool-cases (env.hash_password password == user.password_hash)) [
      | inl right ↦ rw right (clear_kept user s h)
      | inr wrong ↦ rw wrong (fail_kept user s h)
    ]

finish_lem : (env : Env) (user : User) (s : State) → (finish_login env user s).1 ≡ s
unfolding finish_login
finish_lem env user s = ground arith

login_user_kept :
    (env : Env) (now : ℕ) (dto : LoginDto) (user : User) (s : State)
    → AllUnlocked s
    → AllUnlocked (login_user env now dto user s).1
unfolding login_user
login_user_kept env now dto user s h =
    elim (Bool-cases (user.is_admin && user.require_2fa && not dto.totp_code)) [
      | inl asked ↦ rw asked h
      | inr passed ↦ elim (Bool-cases (is_locked now user)) [
        | inl locked ↦ rw (passed, locked) h
        | inr free ↦
            rw (passed, free)
              (after_kept (λ _. finish_login env user) (check_password env dto.password user s)
                (check_kept env dto.password user s h) (λ _ s' h'. rw (finish_lem env user s') h'))
      ]
    ]

login_kept :
    (env : Env) (now : ℕ) (dto : LoginDto) (s : State)
    → AllUnlocked s
    → AllUnlocked (login env now dto s).1
unfolding login
login_kept env now dto s h = elim (Option-cases (find (λ u. same_text u.email dto.email) s.users)) [
  | inl missing ↦ rw missing h
  | inr (user, found) ↦ rw found (login_user_kept env now dto user s h)
]

-- The state after logins, one after the other, each with its time.
abbrev pub logins : Env → List (ℕ × LoginDto) → State → State
logins env [] s = s
logins env ((now, dto) ∷ ls) s = logins env ls (login env now dto s).1

-- Where no lock is stored and no counter is above four, that stays so for ever, whoever logs in
-- however often with whatever password: the lockout is never stored.
pub logins-AllUnlocked :
    (env : Env) (ls : List (ℕ × LoginDto)) (s : State)
    → AllUnlocked s
    → AllUnlocked (logins env ls s)
logins-AllUnlocked env [] s h = h
logins-AllUnlocked env ((now, dto) ∷ ls) s h =
    logins-AllUnlocked env ls (login env now dto s).1 (login_kept env now dto s h)

-- A refresh token that was accepted is refused the second time.
pub refreshed_once :
    (env : Env) (token : ℕ) (s : State) (t : ℕ) (s' : State)
    → rotate_refresh_token env (some token) s ≡ (ok t, s')
    → rotate_refresh_token env (some token) s' ≡ (err (forbidden token_revoked), s')
unfolding rotate_refresh_token
refreshed_once env token s t s' h = ground arith
