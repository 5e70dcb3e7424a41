-- ===== src/Tiers/Monotone.antt =====
-- What the operations of src/modules/kyc-tiers/services/kyc-tiers.service.ts do to the tiers.
use Prim.Native.String.{String}
use nexa_fx_js.Base.{
  ℕ, ◌≤◌, ◌<◌, ◌≡◌, ◌≢◌, refl, ap, subst, ◌∙◌, inl, inr, true, Option, none, some, List, [], ◌∷◌,
  ◌==◌, leb, find, update_where, or_else, Text, arith, holds_of_find, Bool-cases, Option-cases,
  find_key-update_same, all_find, all_append,
}
use nexa_fx_js.Tiers.{
  KycTierUpgrade, User, State, tier_level, is_pending, find_user, find_upgrade, is_pending_of,
  current_tier_of, save_upgrade, set_tier, level_of, new_upgrade, add_upgrade, approval, rejection,
  request_upgrade, approve, reject, Call, request_call, approve_call, reject_call, run, run_all,
}
use nexa_fx_js.Tiers.Invariant.{
  tier_of, IsHigher, IsSound, IsShut, IsSingle-saved, others_apart, IsHigher-saved,
  tier_of-set_other, tier_of_found, tier_of_missing, IsSingle-append,
}

-- The requests are still sound, and no user has a lower tier than before.
pub record IsRise (upper : Text → Text) (s t : State) : Type 0 where
  pub sound : IsSound upper t
  pub rises :
      (user : ℕ) → level_of upper (tier_of user s.users) ≤ level_of upper (tier_of user t.users)

module _ (upper : Text → Text) where
  stays : (s : State) → IsSound upper s → IsRise upper s s
  stays s h = record { sound = h; rises = λ user. omega arith }

  -- The tier of the user of an approved request.
  approved_tier :
      (g : KycTierUpgrade) (users : List User)
      → level_of upper (tier_of g.user_id users) < level_of upper g.requested_tier
      → level_of upper (tier_of g.user_id users)
        ≤ level_of upper (
            tier_of g.user_id (
              update_where
                (λ (u : User). u.id == g.user_id)
                (λ u. record u { kyc_tier = some g.requested_tier })
                users))
  approved_tier g users h =
      let f : User → User = λ u. record u { kyc_tier = some g.requested_tier } in
      let e = find_key-update_same (λ (u : User). u.id) f (λ u. refl) g.user_id users in
      let next = update_where (λ (u : User). u.id == g.user_id) f users in
      elim (Option-cases (find (λ (u : User). u.id == g.user_id) users)) [
        | inl nobody ↦
            let p = tier_of_missing g.user_id users nobody in
            let q =
              tier_of_missing g.user_id next
                (e ∙ ap (λ o. elim o [ none ↦ none | some r ↦ some (f r) ]) nobody) in
            rw (p, q) (omega arith)
        | inr (u, there) ↦
            let q =
              tier_of_found g.user_id next (f u)
                (e ∙ ap (λ o. elim o [ none ↦ none | some r ↦ some (f r) ]) there) in
            rw (q) (omega arith)
      ]

  shut-IsSound :
      (g g' : KycTierUpgrade) (s : State) (users : List User)
      → g'.id ≡ g.id
      → g'.user_id ≡ g.user_id
      → IsShut g'
      → find_upgrade g.id s ≡ some g
      → is_pending g.status ≡ true
      → ((id : ℕ) → id ≢ g.user_id → tier_of id users ≡ tier_of id s.users)
      → IsSound upper s
      → IsSound upper (save_upgrade g' (record s { users = users }))
  unfolding save_upgrade
  shut-IsSound g g' s users same_id same_user shut found open_g same h = record {
    higher =
        IsHigher-saved upper g' s.users users s.upgrades shut (rw (same_user) same)
          (rw (same_id, same_user) (others_apart g.id g s.upgrades found open_g h.single)) h.higher;
    single = IsSingle-saved g' s.upgrades shut h.single;
  }

  rises_all :
      (g : KycTierUpgrade) (s : State) (user : ℕ)
      → level_of upper (tier_of g.user_id s.users) < level_of upper g.requested_tier
      → level_of upper (tier_of user s.users)
        ≤ level_of upper (tier_of user (set_tier g.user_id g.requested_tier s).users)
  unfolding set_tier
  rises_all g s user h = elim (Bool-cases (user == g.user_id)) [
    | inl own ↦ let e : user ≡ g.user_id = ground arith in rw (e) (approved_tier g s.users h)
    | inr other ↦
        let ne : user ≢ g.user_id = ground arith in
        let e = tier_of-set_other g.user_id user g.requested_tier s.users ne in rw (e) (omega arith)
  ]

  approved-IsRise :
      (now id admin : ℕ) (g : KycTierUpgrade) (s : State)
      → IsSound upper s
      → find_upgrade id s ≡ some g
      → is_pending g.status ≡ true
      → IsRise upper s (set_tier g.user_id g.requested_tier (save_upgrade (approval now admin g) s))
  unfolding set_tier save_upgrade
  approved-IsRise now id admin g s h found open_g =
      let hit = holds_of_find (λ (r : KycTierUpgrade). r.id == id) s.upgrades g found in
      let e : id ≡ g.id = ground arith in
      let found' : find_upgrade g.id s ≡ some g = subst (λ i. find_upgrade i s ≡ some g) e found in
      record {
        sound =
            shut-IsSound g (approval now admin g) s (set_tier g.user_id g.requested_tier s).users
              refl refl refl found' open_g
              (λ i ne. tier_of-set_other g.user_id i g.requested_tier s.users ne) h;
        rises = λ user. rises_all g s user (
            all_find (IsHigher upper s.users) (λ (r : KycTierUpgrade). r.id == id) s.upgrades g
              h.higher found open_g);
      }

  rejected-IsRise :
      (now id admin : ℕ) (reason : Option String) (g : KycTierUpgrade) (s : State)
      → IsSound upper s
      → find_upgrade id s ≡ some g
      → is_pending g.status ≡ true
      → IsRise upper s (save_upgrade (rejection now admin reason g) s)
  unfolding save_upgrade
  rejected-IsRise now id admin reason g s h found open_g =
      let hit = holds_of_find (λ (r : KycTierUpgrade). r.id == id) s.upgrades g found in
      let e : id ≡ g.id = ground arith in
      let found' : find_upgrade g.id s ≡ some g = subst (λ i. find_upgrade i s ≡ some g) e found in
      record {
        sound =
            shut-IsSound g (rejection now admin reason g) s s.users refl refl refl found' open_g
              (λ i ne. refl) h;
        rises = λ user. omega arith;
      }

  approve-IsRise :
      (now id admin : ℕ) (s : State) → IsSound upper s → IsRise upper s (approve now id admin s).1
  unfolding approve
  approve-IsRise now id admin s h = elim (Option-cases (find_upgrade id s)) [
    | inl missing ↦ rw (missing) (stays s h)
    | inr (g, found) ↦ elim (Bool-cases (is_pending g.status)) [
      | inl open_g ↦ rw (found, open_g) (approved-IsRise now id admin g s h found open_g)
      | inr shut ↦ rw (found, shut) (stays s h)
    ]
  ]

  reject-IsRise :
      (now id admin : ℕ) (reason : Option String) (s : State)
      → IsSound upper s
      → IsRise upper s (reject now id admin reason s).1
  unfolding reject
  reject-IsRise now id admin reason s h = elim (Option-cases (find_upgrade id s)) [
    | inl missing ↦ rw (missing) (stays s h)
    | inr (g, found) ↦ elim (Bool-cases (is_pending g.status)) [
      | inl open_g ↦ rw (found, open_g) (rejected-IsRise now id admin reason g s h found open_g)
      | inr shut ↦ rw (found, shut) (stays s h)
    ]
  ]

  -- A request that passed the checks.
  added-IsRise :
      (user level : ℕ) (requested : Text) (u : User) (s : State)
      → ((t : Text) → upper (upper t) ≡ upper t)
      → IsSound upper s
      → find_user user s ≡ some u
      → tier_level (upper requested) ≡ some level
      → level_of upper (current_tier_of u) < level
      → find (is_pending_of user) s.upgrades ≡ none
      → IsRise upper s (add_upgrade upper user (current_tier_of u) requested s)
  unfolding add_upgrade level_of
  added-IsRise user level requested u s again h there known higher single =
      let g = new_upgrade upper s.next_id user (current_tier_of u) requested in
      let now_at : tier_of user s.users ≡ current_tier_of u = tier_of_found user s.users u there in
      let asked : level_of upper (upper requested) ≡ level =
        ap (λ t. or_else (tier_level t) 0) (again requested) ∙ ap (λ o. or_else o 0) known in
      let above : IsHigher upper s.users g = λ p. rw (now_at, asked) higher in
      record {
        sound = record {
          higher = all_append (IsHigher upper s.users) s.upgrades g h.higher above;
          single = IsSingle-append g s.upgrades single h.single;
        };
        rises = λ i. omega arith;
      }

  request_upgrade-IsRise :
      (user : ℕ) (requested : Text) (s : State)
      → ((t : Text) → upper (upper t) ≡ upper t)
      → IsSound upper s
      → IsRise upper s (request_upgrade upper user requested s).1
  unfolding request_upgrade
  request_upgrade-IsRise user requested s again h = elim (Option-cases (find_user user s)) [
    | inl nobody ↦ rw (nobody) (stays s h)
    | inr (u, there) ↦ elim (Option-cases (tier_level (upper requested))) [
      | inl unknown ↦ rw (there, unknown) (stays s h)
      | inr (level, known) ↦ elim (Bool-cases (leb level (level_of upper (current_tier_of u)))) [
        | inl low ↦ rw (there, known, low) (stays s h)
        | inr high ↦ elim (Option-cases (find (is_pending_of user) s.upgrades)) [
          | inr (g, other) ↦ rw (there, known, high, other) (stays s h)
          | inl single ↦
              rw (there, known, high, single)
                (added-IsRise user level requested u s again h there known (ground arith) single)
        ]
      ]
    ]
  ]

  run-IsRise :
      (call : Call) (s : State)
      → ((t : Text) → upper (upper t) ≡ upper t)
      → IsSound upper s
      → IsRise upper s (run upper call s).1
  unfolding run
  run-IsRise (request_call user requested) s again h =
      request_upgrade-IsRise user requested s again h
  run-IsRise (approve_call now id admin) s again h = approve-IsRise now id admin s h
  run-IsRise (reject_call now id admin reason) s again h = reject-IsRise now id admin reason s h

  -- Whatever calls of the service follow each other, each user still has at most one open request,
  -- every open request is for a higher tier than its user has, and no user's tier has become lower,
  -- if the requests were so at the start. `toUpperCase` leaves its own results alone.
  pub run_all-IsRise :
      (calls : List Call) (s : State)
      → ((t : Text) → upper (upper t) ≡ upper t)
      → IsSound upper s
      → IsRise upper s (run_all upper calls s)
  unfolding run_all
  run_all-IsRise [] s again h = stays s h
  run_all-IsRise (c ∷ cs) s again h =
      let first = run-IsRise c s again h in
      let rest = run_all-IsRise cs (run upper c s).1 again first.sound in
      record {
        sound = rest.sound;
        rises = λ user. let a = first.rises user in let b = rest.rises user in omega arith;
      }
