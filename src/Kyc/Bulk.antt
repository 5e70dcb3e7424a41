-- ===== src/Kyc/Bulk.antt =====
-- src/kyc/kyc-bulk-review.service.ts over `review` of src/kyc/kyc.service.ts.
pub mod Once
pub mod Verdicts
use nexa_fx_js.Base.{
  ℕ, ◌-◌, Bool, true, false, not, List, [], ◌∷◌, ◌==◌, ltb, if◌then◌else◌, length, filter,
}
use nexa_fx_js.Base.Action.{
  Action, Result, ok, err, Error, bad_request, no_review_ids, too_many_review_ids, ◌>>=◌, ◌>>◌,
  pure, throw_if,
}
use nexa_fx_js.Kyc.{State, KycDocument, review}

abbrev pub max_bulk_review_ids : ℕ
max_bulk_review_ids = 50

-- The decision, and the ids it is for.
pub record BulkReviewDto : Type 0 where
  pub kyc_ids : List ℕ
  pub approve : Bool
  pub reviewer_id : ℕ

pub record BulkReviewResult : Type 0 where
  pub processed : ℕ
  pub succeeded : ℕ
  pub failed : List (ℕ × Error)

-- `Array.from(new Set(ids))`
unfoldable pub unique : List ℕ → List ℕ
unique [] = []
unique (id ∷ ids) = id ∷ filter (λ x. not (x == id)) (unique ids)

-- The `catch` of one review.
abbrev pub note : ℕ → Result KycDocument → List (ℕ × Error) → List (ℕ × Error)
note id (ok doc) failed = failed
note id (err e) failed = (id, e) ∷ failed

module _ (now reviewer : ℕ) (approve : Bool) where
  -- The loop, with the failures in the order of the ids.
  unfoldable pub review_each : List ℕ → State → List (ℕ × Error) × State
  review_each [] s = ([], s)
  review_each (id ∷ ids) s =
      let (r, s') = review now id reviewer approve s in
      let (failed, t) = review_each ids s' in (note id r failed, t)

unfoldable pub bulk_review : (now : ℕ) → BulkReviewDto → Action State BulkReviewResult
bulk_review now dto = do
  throw_if (length (unique dto.kyc_ids) == 0) (bad_request no_review_ids)
  throw_if (ltb max_bulk_review_ids (length (unique dto.kyc_ids))) (bad_request too_many_review_ids)
  failed ← λ s.
      let (failed, t) = review_each now dto.reviewer_id dto.approve (unique dto.kyc_ids) s in
      (ok failed, t)
  pure (record {
    processed = length (unique dto.kyc_ids);
    succeeded = length (unique dto.kyc_ids) - length failed;
    failed = failed;
  })
