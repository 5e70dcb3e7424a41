-- ===== src/Idempotency/Replay.antt =====
-- What a route with `@Idempotent()` of src/idempotency answers to a request that comes again.
use nexa_fx_js.Base.{
  ℕ, ◌+◌, ◌*◌, ◌≤◌, ◌≡◌, ◌≢◌, ◌⊎◌, refl, sym, ap, ◌∙◌, Bool, true, false, none, some, List, [], ◌∷◌,
  filter, All, Text, same_text, same_text_refl, eq_of_same_text, arith, Bool-cases, Option-cases,
  inl, inr,
}
use nexa_fx_js.Base.Action.{Action, Result, ok, err, unprocessable, key_reused, Result-cases}
use nexa_fx_js.Idempotency.{
  IdempotencyKey, State, Request, Reply, find_by_key, store_row, store, cleanup, valid_key,
  can_activate, after_handler, intercept, handle,
}

find-store_row :
    (row : IdempotencyKey) (rows : List IdempotencyKey)
    → find_by_key row.key (store_row row rows) ≡ some row
unfolding store_row
find-store_row row [] = ground (arith, same_text_refl row.key)
find-store_row row (r ∷ rs) = ground (arith, find-store_row row rs, same_text_refl row.key)

find-store_row_ne :
    (key : Text) (row : IdempotencyKey) (rows : List IdempotencyKey)
    → same_text row.key key ≡ false
    → find_by_key key (store_row row rows) ≡ find_by_key key rows
unfolding store_row
find-store_row_ne key row [] h = ground arith
find-store_row_ne key row (r ∷ rs) h = elim (Bool-cases (same_text r.key row.key)) [
  | inl same ↦ let e = eq_of_same_text r.key row.key same in ground arith
  | inr other ↦ ground (arith, find-store_row_ne key row rs h)
]

find-filter :
    (key : Text) (keep : IdempotencyKey → Bool) (row : IdempotencyKey) (rows : List IdempotencyKey)
    → find_by_key key rows ≡ some row
    → keep row ≡ true
    → find_by_key key (filter keep rows) ≡ some row
find-filter key keep row [] h k = ground arith
find-filter key keep row (r ∷ rs) h k = ground (arith, find-filter key keep row rs)

kept_by_store :
    (key : Text) (row new : IdempotencyKey) (rows : List IdempotencyKey)
    → find_by_key key rows ≡ some row
    → find_by_key new.key rows ≡ none
    → find_by_key key (store_row new rows) ≡ some row
kept_by_store key row new rows h fresh = elim (Bool-cases (same_text new.key key)) [
  | inl same ↦ let e = eq_of_same_text new.key key same in absurd (ground (arith, rw e at fresh))
  | inr other ↦ find-store_row_ne key new rows other ∙ h
]

-- A visit of some client, or a run of the clean-up job.
pub record Visit (S : Type 0) : Type 0 where
  pub now : ℕ
  pub ttl_hours : ℕ
  pub store_up : Bool
  pub handler : ℕ → Action S Reply
  pub request : Request

pub data Op (S : Type 0) : Type 0 where
  visit : Visit S → Op S
  clean : ℕ → Op S

-- The clean-up does not run after that time.
abbrev pub IsBefore : {S : Type 0} → ℕ → Op S → Type 0
IsBefore t (visit v) = Unit
IsBefore t (clean now) = now ≤ t

module _ {S : Type 0} (hash : ℕ → ℕ) where
  abbrev pub visited : Visit S → State S → Result Reply × State S
  visited v s = handle hash v.now v.ttl_hours v.store_up v.handler v.request s

  abbrev pub run : List (Op S) → State S → State S
  run [] s = s
  run (visit v ∷ ops) s = run ops (visited v s).1
  run (clean now ∷ ops) s = run ops (record s { keys = cleanup now s.keys })

  stored_answer :
      (v : Visit S) (key : Text) (row : IdempotencyKey) (s : State S)
      → valid_key v.request.header ≡ ok key
      → find_by_key key s.keys ≡ some row
      → row.request_hash ≡ hash v.request.content
      → visited v s ≡ (ok (record { body = row.response; status_code = row.status_code }), s)
  unfolding handle can_activate intercept
  stored_answer v key row s p q e = ground arith

  other_content :
      (v : Visit S) (key : Text) (row : IdempotencyKey) (s : State S)
      → valid_key v.request.header ≡ ok key
      → find_by_key key s.keys ≡ some row
      → row.request_hash ≢ hash v.request.content
      → visited v s ≡ (err (unprocessable key_reused), s)
  unfolding handle can_activate intercept
  other_content v key row s p q e = ground arith

  abbrev written : Visit S → Text → Reply → IdempotencyKey
  written v key reply = record {
    key = key;
    request_hash = hash v.request.content;
    response = reply.body;
    status_code = reply.status_code;
    expires_at = v.now + v.ttl_hours * 3_600_000;
  }

  first_answer :
      (v : Visit S) (key : Text) (reply : Reply) (s : State S) {i : S}
      → valid_key v.request.header ≡ ok key
      → find_by_key key s.keys ≡ none
      → v.handler v.request.content s.inner ≡ (ok reply, i)
      → v.store_up ≡ true
      → visited v s
        ≡ (ok reply, record { keys = store_row (written v key reply) s.keys; inner = i })
  unfolding handle can_activate intercept after_handler store
  first_answer v key reply s p q e up = ground arith

  -- A visit leaves the table alone, or stores a row under a key that had none.
  visit-cases :
      (v : Visit S) (s : State S)
      → ((visited v s).1.keys ≡ s.keys)
        ⊎ ((new : IdempotencyKey) × (find_by_key new.key s.keys ≡ none)
            × ((visited v s).1.keys ≡ store_row new s.keys))
  unfolding handle can_activate intercept after_handler store
  visit-cases v s = elim (Result-cases (valid_key v.request.header)) [
    | inr (e, p) ↦ inl (ground arith)
    | inl (key, p) ↦ elim (Option-cases (find_by_key key s.keys)) [
      | inr (row, q) ↦ inl (ground arith)
      | inl q ↦ elim (Result-cases (v.handler v.request.content s.inner).0) [
        | inr (e, r) ↦ inl (ground arith)
        | inl (reply, r) ↦ elim (Bool-cases v.store_up) [
          | inl up ↦ inr (written v key reply, q, ground arith)
          | inr down ↦ inl (ground arith)
        ]
      ]
    ]
  ]

  visit_keeps :
      (v : Visit S) (key : Text) (row : IdempotencyKey) (s : State S)
      → find_by_key key s.keys ≡ some row
      → find_by_key key (visited v s).1.keys ≡ some row
  visit_keeps v key row s h = elim (visit-cases v s) [
    | inl same ↦ rw same h
    | inr (new, fresh, stored) ↦ rw stored (kept_by_store key row new s.keys h fresh)
  ]

  run_keeps :
      (ops : List (Op S)) (key : Text) (row : IdempotencyKey) (s : State S)
      → All (IsBefore row.expires_at) ops
      → find_by_key key s.keys ≡ some row
      → find_by_key key (run ops s).keys ≡ some row
  run_keeps [] key row s b h = h
  run_keeps (visit v ∷ ops) key row s (_, b) h =
      run_keeps ops key row (visited v s).1 b (visit_keeps v key row s h)
  run_keeps (clean now ∷ ops) key row s (early, b) h =
      run_keeps ops key row (record s { keys = cleanup now s.keys }) b
        (unfold cleanup in find-filter key _ row s.keys h (ground arith))

  module _ (first : Visit S) (key : Text) (reply : Reply) (s : State S) (i : S) (ops : List (Op S))
      (again : Visit S) (valid : valid_key first.request.header ≡ ok key)
      (new : find_by_key key s.keys ≡ none)
      (answered : first.handler first.request.content s.inner ≡ (ok reply, i))
      (up : first.store_up ≡ true)
      (early : All (IsBefore (first.now + first.ttl_hours * 3_600_000)) ops)
      (repeated : valid_key again.request.header ≡ ok key) where
    row_kept : find_by_key key (run ops (visited first s).1).keys ≡ some (written first key reply)
    row_kept = run_keeps ops key (written first key reply) (visited first s).1 early (
        rw (first_answer first key reply s valid new answered up)
          (find-store_row (written first key reply) s.keys))

    -- A request under a new key that its handler answers, and whose answer is stored, is executed
    -- once: until the clean-up runs after the time of expiry, whatever other requests come in
    -- between, the same content under the same key gets the same answer and changes nothing, neither
    -- the rows nor what the handler works on.
    pub executed_once :
        again.request.content ≡ first.request.content
        → (visited first s ≡ (ok reply, (visited first s).1))
          × ((visited first s).1.inner ≡ i)
          × (visited again (run ops (visited first s).1) ≡ (ok reply, run ops (visited first s).1))
    executed_once same =
        let ran = first_answer first key reply s valid new answered up in
        (
          rw ran refl,
          rw ran refl,
          stored_answer again key (written first key reply) _ repeated row_kept
              (ap hash (sym same)),
        )

    -- A request under that key whose content hashes differently is refused in all that time, and
    -- changes nothing.
    pub other_content_refused :
        hash first.request.content ≢ hash again.request.content
        → visited again (run ops (visited first s).1)
          ≡ (err (unprocessable key_reused), run ops (visited first s).1)
    other_content_refused other =
        other_content again key (written first key reply) _ repeated row_kept other
