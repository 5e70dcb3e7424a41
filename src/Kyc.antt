-- ===== src/Kyc.antt =====
-- src/kyc/kyc.service.ts over the rows of `kyc-document.entity.ts`. The URL parser is a parameter.
-- `submit` is one step: its `catch` answers a submission that another has overtaken with the exception
-- that the check inside throws.
pub mod Review
pub mod Bulk
use Prim.Native.String.{String}
use nexa_fx_js.Base.{
  ℕ, ◌+◌, ◌*◌, Bool, true, false, ◌&&◌, ◌||◌, not, Option, none, some, List, [], ◌∷◌, ◌++◌, ◌==◌,
  ltb, leb, if◌then◌else◌, find, update_where, is_some, Text, same_text,
}
use nexa_fx_js.Base.Action.{
  Action, Result, ok, err, Error, bad_request, conflict, not_found, forbidden, bad_document_url,
  submission_exists, document_not_found, already_reviewed, not_rejected, ◌>>=◌, ◌>>◌, get, pure,
  throw_if, or_throw, modify, lift,
}
use nexa_fx_js.Wallets.{with_transaction}

pub data KycDocumentStatus : Type 0 where
  pending approved rejected appealed : KycDocumentStatus

pub record KycDocument : Type 0 where
  pub id : ℕ
  pub user_id : ℕ
  pub document_type : String
  pub document_number : String
  pub document_url : String
  pub status : KycDocumentStatus
  pub reviewed_by : Option ℕ
  pub reviewed_at : Option ℕ
  pub appeal_reason : Option String

pub record SubmitKycDto : Type 0 where
  pub user_id : ℕ
  pub document_type : String
  pub document_number : String
  pub document_url : String

pub record State : Type 0 where
  pub documents : List KycDocument
  pub reviewed : List ℕ
  pub next_id : ℕ

abbrev pub is_pending : KycDocumentStatus → Bool
is_pending KycDocumentStatus.pending = true
is_pending _ = false

abbrev pub is_approved_status : KycDocumentStatus → Bool
is_approved_status KycDocumentStatus.approved = true
is_approved_status _ = false

abbrev pub is_rejected : KycDocumentStatus → Bool
is_rejected KycDocumentStatus.rejected = true
is_rejected _ = false

-- May a document of that status be reviewed?
abbrev pub is_open : KycDocumentStatus → Bool
is_open KycDocumentStatus.pending = true
is_open KycDocumentStatus.appealed = true
is_open _ = false

unfoldable pub validate_document_url :
    (hostname : String → Option Text) → String → Text → Result (Unit {0})
validate_document_url hostname url allowed_host = elim (hostname url) [
  | none ↦ err (bad_request bad_document_url)
  | some host ↦ if same_text host allowed_host then ok tt else err (bad_request bad_document_url)
]

abbrev pub check_url : (String → Option Text) → Text → String → Result (Unit {0})
check_url hostname [] url = ok tt
check_url hostname (c ∷ storage_host) url = validate_document_url hostname url (c ∷ storage_host)

abbrev pub pending_of : ℕ → State → Option KycDocument
pending_of user s = find (λ d. (d.user_id == user) && is_pending d.status) s.documents

unfoldable pub add_submission : SubmitKycDto → Action State KycDocument
add_submission dto = do
  existing ← get (pending_of dto.user_id)
  throw_if (is_some existing) (conflict submission_exists)
  id ← get (λ s. s.next_id)
  let doc : KycDocument = record {
    id = id;
    user_id = dto.user_id;
    document_type = dto.document_type;
    document_number = dto.document_number;
    document_url = dto.document_url;
    status = KycDocumentStatus.pending;
    reviewed_by = none;
    reviewed_at = none;
    appeal_reason = none;
  }
  modify (λ s. record s { documents = s.documents ++ doc ∷ []; next_id = s.next_id + 1 })
  pure doc

unfoldable pub submit :
    (hostname : String → Option Text)
    → (storage_host : Text) → SubmitKycDto
    → Action State KycDocument
submit hostname storage_host dto = do
  lift (check_url hostname storage_host dto.document_url)
  with_transaction (add_submission dto)

abbrev pub document : ℕ → State → Option KycDocument
document id s = find (λ d. d.id == id) s.documents

abbrev pub save : KycDocument → Action State (Unit {0})
save doc =
    modify (λ s. record s { documents = update_where (λ d. d.id == doc.id) (λ _. doc) s.documents })

abbrev pub review_status : (approve : Bool) → KycDocumentStatus
review_status true = KycDocumentStatus.approved
review_status false = KycDocumentStatus.rejected

unfoldable pub review : (now id reviewer : ℕ) → (approve : Bool) → Action State KycDocument
review now id reviewer approve = do
  found ← get (document id)
  doc ← or_throw found (not_found document_not_found)
  throw_if (not (is_open doc.status)) (forbidden already_reviewed)
  let saved : KycDocument = record doc {
    status = review_status approve;
    reviewed_by = some reviewer;
    reviewed_at = some now;
  }
  save saved
  modify (λ s. record s { reviewed = s.reviewed ++ saved.id ∷ [] })
  pure saved

unfoldable pub appeal : ℕ → String → Action State KycDocument
appeal id reason = do
  found ← get (document id)
  doc ← or_throw found (not_found document_not_found)
  throw_if (not (is_rejected doc.status)) (forbidden not_rejected)
  let saved : KycDocument = record doc {
    status = KycDocumentStatus.appealed;
    appeal_reason = some reason;
  }
  save saved
  pure saved

abbrev pub ms_per_day : ℕ
ms_per_day = 86_400_000

abbrev pub approved_of : ℕ → State → Option KycDocument
approved_of user s = find (λ d. (d.user_id == user) && is_approved_status d.status) s.documents

abbrev pub within : (now validity_days : ℕ) → Option KycDocument → Bool
within now validity_days none = false
within now validity_days (some doc) = elim doc.reviewed_at [
  | none ↦ false
  | some at ↦ ltb now (at + validity_days * ms_per_day)
]

unfoldable pub is_approved : (now user validity_days : ℕ) → State → Bool
is_approved now user validity_days s = within now validity_days (approved_of user s)

pub record Expiry : Type 0 where
  pub is_approved : Bool
  pub is_expired : Bool
  pub expires_at : Option ℕ

abbrev pub expiry_of : (now validity_days : ℕ) → Option KycDocument → Expiry
expiry_of now validity_days none = record {
  is_approved = false;
  is_expired = false;
  expires_at = none;
}
expiry_of now validity_days (some doc) = elim doc.reviewed_at [
  | none ↦ record { is_approved = false; is_expired = false; expires_at = none }
  | some at ↦ record {
    is_approved = not (leb (at + validity_days * ms_per_day) now);
    is_expired = leb (at + validity_days * ms_per_day) now;
    expires_at = some (at + validity_days * ms_per_day);
  }
]

unfoldable pub check_expiry : (now user validity_days : ℕ) → State → Expiry
check_expiry now user validity_days s = expiry_of now validity_days (approved_of user s)
