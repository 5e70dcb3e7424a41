-- ===== src/Kyc/Bulk/Verdicts.antt =====
-- What a bulk review of src/kyc/kyc-bulk-review.service.ts does to each document.
use nexa_fx_js.Base.{
  ℕ, ◌+◌, ◌-◌, ◌≤◌, ◌≡◌, refl, ap, subst, ◌∙◌, Bool, true, false, not, Option, none, some, List, [],
  ◌∷◌, ◌==◌, ltb, if◌then◌else◌, length, filter, length-filter-le, find, find-update, update_where,
  map, arith, Bool-cases, Option-cases, inl, inr,
}
use nexa_fx_js.Base.Action.{Result, ok, err, Error, not_found, document_not_found}
use nexa_fx_js.Kyc.{State, KycDocument, document, is_open, review}
use nexa_fx_js.Kyc.Review.{reviewed_doc, review_lem, review_refused, same_id}
use nexa_fx_js.Kyc.Bulk.{
  BulkReviewDto, BulkReviewResult, max_bulk_review_ids, unique, note, review_each, bulk_review,
}
use nexa_fx_js.Kyc.Bulk.Once.{has, Once, Once-unique, has-unique}

abbrev pub opens : Option KycDocument → Bool
opens none = false
opens (some d) = is_open d.status

abbrev pub ids_of : List (ℕ × Error) → List ℕ
ids_of failed = map (λ f. f.0) failed

-- The ids whose documents are not open, or not there.
abbrev pub shut : State → List ℕ → List ℕ
shut s ids = filter (λ id. not (opens (document id s))) ids

module _ (now reviewer : ℕ) (approve : Bool) where
  -- A document that is open gets the decision, and any other stays.
  abbrev pub verdict : Option KycDocument → Option KycDocument
  verdict none = none
  verdict (some d) = some (if is_open d.status then reviewed_doc now reviewer approve d else d)

  record IsOne (id : ℕ) (s : State) (r : Result KycDocument × State) : Type 0 where
    others : (other : ℕ) → ¬ (other ≡ id) → document other r.1 ≡ document other s
    itself : document id r.1 ≡ verdict (document id s)
    noted :
        (failed : List (ℕ × Error))
        → ids_of (note id r.0 failed)
          ≡ (if opens (document id s) then ids_of failed else id ∷ ids_of failed)

  find_other :
      (other : ℕ) (doc : KycDocument) (ds : List KycDocument)
      → ¬ (other ≡ doc.id)
      → find (λ d. d.id == other) (update_where (λ d. d.id == doc.id) (λ _. doc) ds)
        ≡ find (λ d. d.id == other) ds
  find_other other doc [] ne = refl
  find_other other doc (d ∷ ds) ne = ground (arith, find_other other doc ds)

  missing_lem :
      (id : ℕ) (s : State)
      → document id s ≡ none
      → review now id reviewer approve s ≡ (err (not_found document_not_found), s)
  unfolding review
  missing_lem id s e = rw (e) refl

  review-IsOne : (id : ℕ) (s : State) → IsOne id s (review now id reviewer approve s)
  review-IsOne id s = elim (Option-cases (document id s)) [
    | inl missing ↦ rw (missing_lem id s missing) (record {
      others = λ other ne. refl;
      itself = rw (missing) refl;
      noted = λ failed. rw (missing) refl;
    })
    | inr (d, found) ↦ elim (Bool-cases (is_open d.status)) [
      | inr closed ↦ rw (review_refused now id reviewer approve s d found closed) (record {
        others = λ other ne. refl;
        itself = rw (found, closed) refl;
        noted = λ failed. rw (found, closed) refl;
      })
      | inl waits ↦ rw (review_lem now id reviewer approve s d found waits) (record {
        others = λ other ne.
            let same = same_id id d s.documents found in
            find_other other (reviewed_doc now reviewer approve d) s.documents (ground arith);
        itself =
            rw (found, waits)
              (find-update (λ x. x.id == id) (λ x. x.id == d.id) d
                (reviewed_doc now reviewer approve d) s.documents found (ground arith)
                (same_id id d s.documents found));
        noted = λ failed. rw (found, waits) refl;
      })
    ]
  ]

module _ (now reviewer : ℕ) (approve : Bool) where
  record IsEach (ids : List ℕ) (s : State) (r : List (ℕ × Error) × State) : Type 0 where
    docs :
        (id : ℕ)
        → document id r.1
          ≡ (if has id ids then verdict now reviewer approve (document id s) else document id s)
    failures : ids_of r.0 ≡ shut s ids

  shut_same :
      (id : ℕ) (s t : State) (ids : List ℕ)
      → has id ids ≡ false
      → ((other : ℕ) → ¬ (other ≡ id) → document other t ≡ document other s)
      → shut t ids ≡ shut s ids
  shut_same id s t [] h same = refl
  shut_same id s t (x ∷ xs) h same =
      let rest = shut_same id s t xs (ground arith) same in
      let here = same x (ground arith) in rw (here, rest) refl

  noted_first :
      (b : Bool) (id : ℕ) {xs ys : List ℕ}
      → xs ≡ ys
      → (if b then xs else id ∷ xs) ≡ (if not b then id ∷ ys else ys)
  noted_first true id e = e
  noted_first false id e = ap (λ zs. id ∷ zs) e

  review_each-IsEach :
      (ids : List ℕ) (s : State) → Once ids → IsEach ids s (review_each now reviewer approve ids s)
  unfolding review_each
  review_each-IsEach [] s v = record { docs = λ id. refl; failures = refl }
  review_each-IsEach (id ∷ ids) s (new, v) =
      let one = review-IsOne now reviewer approve id s in
      let r = review now id reviewer approve s in
      let rest = review_each-IsEach ids r.1 v in
      record {
        docs = λ other. elim (Bool-cases (id == other)) [
          | inl hit ↦
              let same : id ≡ other = ground arith in
              let new' : has other ids ≡ false = subst (λ x. has x ids ≡ false) same new in
              let kept : document other (review_each now reviewer approve ids r.1).1
                  ≡ document other r.1 =
                rest.docs other
                ∙ ap
                    (λ b.
                      if b
                      then verdict now reviewer approve (document other r.1)
                      else document other r.1)
                    new' in
              rw (hit) (
                kept
                ∙ subst (λ x. document x r.1 ≡ verdict now reviewer approve (document x s)) same
                    one.itself)
          | inr miss ↦ rw (miss) (
              rest.docs other
              ∙ ap (λ d. if has other ids then verdict now reviewer approve d else d)
                  (one.others other (ground arith)))
        ];
        failures =
            one.noted (review_each now reviewer approve ids r.1).0
            ∙ noted_first (opens (document id s)) id
                (rest.failures ∙ shut_same id s r.1 ids new one.others);
      }

length-ids_of : (failed : List (ℕ × Error)) → length (ids_of failed) ≡ length failed
length-ids_of [] = refl
length-ids_of (f ∷ fs) = omega (arith, length-ids_of fs)

-- The report and the documents after a bulk review that was let through.
pub record IsReviewed (now : ℕ) (dto : BulkReviewDto) (s t : State) (report : BulkReviewResult)
    : Type 0 where
  pub processed : report.processed ≡ length (unique dto.kyc_ids)
  pub counted : report.succeeded + length report.failed ≡ report.processed
  pub failures : ids_of report.failed ≡ shut s (unique dto.kyc_ids)
  pub documents :
      (id : ℕ)
      → document id t ≡ (
          if has id dto.kyc_ids
          then verdict now dto.reviewer_id dto.approve (document id s)
          else document id s)

-- For one to fifty different ids a bulk review succeeds. Every listed document that was open has the
-- decision, every other document is as it was; the failures are, in order and once each, the listed
-- ids whose document was not open or not there, and the successes and failures add up.
pub bulk_review-IsReviewed :
    (now : ℕ) (dto : BulkReviewDto) (s : State)
    → 1 ≤ length (unique dto.kyc_ids)
    → length (unique dto.kyc_ids) ≤ 50
    → (report : BulkReviewResult) × (t : State) × (bulk_review now dto s ≡ (ok report, t))
      × IsReviewed now dto s t report
unfolding bulk_review
bulk_review-IsReviewed now dto s some_ids few =
    let ids = unique dto.kyc_ids in
    let run = review_each now dto.reviewer_id dto.approve ids s in
    let each = review_each-IsEach now dto.reviewer_id dto.approve ids s (Once-unique dto.kyc_ids) in
    let not_none : (length ids == 0) ≡ false = ground arith in
    let not_many : ltb max_bulk_review_ids (length ids) ≡ false = ground arith in
    (
      record { processed = length ids; succeeded = length ids - length run.0; failed = run.0 },
      run.1,
      rw (not_none, not_many) refl,
      record {
        processed = refl;
        counted = omega (
          arith,
          length-ids_of run.0,
          ap length each.failures,
          length-filter-le (λ id. not (opens (document id s))) ids,
        );
        failures = each.failures;
        documents = λ id.
            each.docs id
            ∙ ap
                (λ b.
                  if b
                  then verdict now dto.reviewer_id dto.approve (document id s)
                  else document id s)
                (has-unique id dto.kyc_ids);
      },
    )
