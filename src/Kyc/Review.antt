-- ===== src/Kyc/Review.antt =====
-- The status of a KYC document: pending or appealed, reviewed, and appealed again if it was rejected.
use nexa_fx_js.Base.{
  ℕ, ◌≡◌, refl, Bool, true, false, some, List, [], ◌∷◌, ◌++◌, ◌==◌, arith, find, update_where,
  find-update,
}
use nexa_fx_js.Base.Action.{ok, err, forbidden, already_reviewed}
use nexa_fx_js.Kyc.{
  KycDocument, State, document, review, review_status, is_open, is_approved, check_expiry,
}

-- `isApproved` and `checkExpiry` agree on whether a user is approved, whatever the documents and the
-- clock.
pub is_approved-check_expiry :
    (now user days : ℕ) (s : State)
    → is_approved now user days s ≡ (check_expiry now user days s).is_approved
unfolding is_approved check_expiry
is_approved-check_expiry now user days s = ground arith

abbrev pub reviewed_doc : (now reviewer : ℕ) → Bool → KycDocument → KycDocument
reviewed_doc now reviewer approve doc = record doc {
  status = review_status approve;
  reviewed_by = some reviewer;
  reviewed_at = some now;
}

pub same_id :
    (id : ℕ) (doc : KycDocument) (ds : List KycDocument)
    → find (λ d. d.id == id) ds ≡ some doc
    → (doc.id == id) ≡ true
same_id id doc [] e = ground arith
same_id id doc (d ∷ ds) e = ground (arith, same_id id doc ds)

module _ (now id reviewer : ℕ) (approve : Bool) (s : State) (doc : KycDocument) where
  pub review_lem :
      document id s ≡ some doc
      → is_open doc.status ≡ true
      → review now id reviewer approve s ≡ (
        ok (reviewed_doc now reviewer approve doc),
        record s {
          documents =
              update_where
                (λ d. d.id == doc.id)
                (λ _. reviewed_doc now reviewer approve doc)
                s.documents;
          reviewed = s.reviewed ++ doc.id ∷ [];
        },
      )
  unfolding review
  review_lem p q = ground arith

  pub review_refused :
      document id s ≡ some doc
      → is_open doc.status ≡ false
      → review now id reviewer approve s ≡ (err (forbidden already_reviewed), s)
  unfolding review
  review_refused p q = ground arith

not_open : (approve : Bool) → is_open (review_status approve) ≡ false
not_open true = refl
not_open false = refl

-- A document that waits for a review is reviewed once: the first review gives it the verdict, the
-- reviewer and the date, and a second review, by whomever and with whatever verdict, is refused and
-- leaves everything as it was.
pub reviewed_once :
    (now later id by again : ℕ) (approve approve' : Bool) (s : State) (doc : KycDocument)
    → document id s ≡ some doc
    → is_open doc.status ≡ true
    → (saved : KycDocument) × (s' : State) × (review now id by approve s ≡ (ok saved, s'))
      × (document id s' ≡ some saved)
      × (saved.status ≡ review_status approve)
      × (saved.reviewed_by ≡ some by)
      × (saved.reviewed_at ≡ some now)
      × (review later id again approve' s' ≡ (err (forbidden already_reviewed), s'))
reviewed_once now later id by again approve approve' s doc found waits =
    let saved = reviewed_doc now by approve doc in
    let stored =
      find-update (λ d. d.id == id) (λ d. d.id == doc.id) doc saved s.documents found (ground arith)
        (same_id id doc s.documents found) in
    (
      saved,
      _,
      review_lem now id by approve s doc found waits,
      stored,
      refl,
      refl,
      refl,
      review_refused later id again approve' _ saved stored (not_open approve),
    )
