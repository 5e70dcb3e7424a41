-- ===== src/Disputes/Laws.antt =====
-- Decisions on the disputes of completed transactions, and the nightly job of disputes.service.ts.
use Prim.Native.String.{String}
use nexa_fx_js.Base.{
  ℕ, ◌≡◌, ◌⊎◌, refl, Bool, true, false, Option, some, List, [], ◌∷◌, ◌++◌, ◌==◌, arith, find,
  update_where, find-update, Bool-cases, inl, inr,
}
use nexa_fx_js.Base.Action.{ok, err, bad_request, dispute_closed}
use nexa_fx_js.Disputes.{
  State, Dispute, resolve_dispute, find_dispute_by_id, verdict, is_over, is_stale, auto_close,
  auto_close_stale_disputes, Event,
}

abbrev pub stored : ℕ → State → Option Dispute
stored id s = find (λ d. d.id == id) s.disputes

abbrev decided : ℕ → Bool → String → Dispute → Dispute
decided now in_favour resolution d = record d {
  status = verdict in_favour;
  resolution = some resolution;
  resolved_at = some now;
}

same_id :
    (id : ℕ) (d : Dispute) (ds : List Dispute)
    → find (λ e. e.id == id) ds ≡ some d
    → (d.id == id) ≡ true
same_id id d [] e = ground arith
same_id id d (f ∷ fs) e = ground (arith, same_id id d fs)

module _ (now id : ℕ) (in_favour : Bool) (resolution : String) (s : State) (d : Dispute) where
  decided_lem :
      stored id s ≡ some d
      → is_over d.status ≡ false
      → resolve_dispute now id in_favour resolution s ≡ (
        ok (decided now in_favour resolution d),
        record s {
          disputes =
              update_where (λ e. e.id == d.id) (λ _. decided now in_favour resolution d) s.disputes;
          events = s.events ++ Event.updated d.id ∷ [];
        },
      )
  unfolding resolve_dispute find_dispute_by_id
  decided_lem p q = ground arith

  over_refused :
      stored id s ≡ some d
      → is_over d.status ≡ true
      → resolve_dispute now id in_favour resolution s ≡ (err (bad_request dispute_closed), s)
  unfolding resolve_dispute find_dispute_by_id
  over_refused p q = ground arith

verdict-over : (in_favour : Bool) → is_over (verdict in_favour) ≡ true
verdict-over true = refl
verdict-over false = refl

-- A dispute that is not over is decided with the verdict, the text and the date given, and stored so;
-- a second decision is refused and changes nothing.
pub resolved_once :
    (now later id : ℕ) (v v' : Bool) (text text' : String) (s : State) (d : Dispute)
    → stored id s ≡ some d
    → is_over d.status ≡ false
    → (saved : Dispute) × (s' : State) × (resolve_dispute now id v text s ≡ (ok saved, s'))
      × (stored id s' ≡ some saved)
      × (saved.status ≡ verdict v)
      × (saved.resolution ≡ some text)
      × (resolve_dispute later id v' text' s' ≡ (err (bad_request dispute_closed), s'))
resolved_once now later id v v' text text' s d found live =
    let saved = decided now v text d in
    let kept =
      find-update (λ e. e.id == id) (λ e. e.id == d.id) d saved s.disputes found (ground arith)
        (same_id id d s.disputes found) in
    (
      saved,
      _,
      decided_lem now id v text s d found live,
      kept,
      refl,
      refl,
      over_refused later id v' text' _ saved kept (verdict-over v),
    )

-- The rows after the nightly job: each is what it was if it was not stale, and else closed.
abbrev pub Swept : ℕ → List Dispute → List Dispute → Type 0
Swept now [] [] = Unit
Swept now (d ∷ ds) (e ∷ es) =
    ((is_stale now d ≡ false) × (e ≡ d) ⊎ (is_stale now d ≡ true) × (e ≡ auto_close now d))
    × (is_stale now e ≡ false)
    × Swept now ds es
Swept now _ _ = ⊥

swept :
    (now : ℕ) (ds : List Dispute) → Swept now ds (update_where (is_stale now) (auto_close now) ds)
swept now [] = tt
swept now (d ∷ ds) = elim (Bool-cases (is_stale now d)) [
  | inl stale ↦ rw stale (inr (refl, refl), refl, swept now ds)
  | inr fresh ↦ rw fresh (inl (refl, refl), fresh, swept now ds)
]

-- The nightly job closes exactly the disputes that are open or under review for more than 30 days,
-- keeps every other as it was, in the same order, and leaves none that is stale.
pub auto_close-Swept :
    (now : ℕ) (s : State) → Swept now s.disputes (auto_close_stale_disputes now s).disputes
unfolding auto_close_stale_disputes
auto_close-Swept now s = swept now s.disputes
