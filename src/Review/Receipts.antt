-- ===== src/Review/Receipts.antt =====
-- The receipts of internal/review/store.go: its MemoryStore, with `Issue`, `Receipt`, `Authority` and
-- `Invalidate`. crypto/sha256 and encoding/json are the fields of `Encoders`.
use skilar.Prelude.{
  ℕ, suc, ◌++◌, Bool, true, false, not, ◌&&◌, ◌||◌, List, [], ◌∷◌, Option, none, some, Text, ◌==◌,
  is_empty, if◌then◌else◌, Map, lookup, insert, erase, contains, Result, ok, err, Action, pure,
  gets, modify, fail_if, or_fail, ◌>>=◌, ◌>>◌, nat_eq, nat_beq, text_eq, codes,
}
use skilar.Review.{
  ReviewRisk, low, medium, high, unknown, max_risk, Depth, deterministic, one_lens, four_lenses,
  depth_for, Lens, risk, readability, reliability, resilience, no_lens, unknown_lens, ReviewError,
  semantic_lowering, candidate_mismatch, policy_mismatch, evidence_mismatch, lens_required,
  receipt_exists, no_authority, invalid_audit, RiskFloor, text_leb,
}
use skilar.Review.Candidate.{
  CandidateRecord, EvidenceKind, acceptance, check, review, Evidence, validate_evidence,
  validate_candidate_record,
}
use skilar.Review.Semantic.{SemanticAssessment, valid_lens, is_one_lens}

pub record Receipt : Type 0 where
  pub id : Text
  pub workflow_id : Text
  pub candidate_record_id : Text
  pub candidate_tree_oid : Text
  pub policy_hash : Text
  pub engine_version : Text
  pub effective_risk : ReviewRisk
  pub depth : Depth
  pub lens : Lens
  pub evidence_ids : List Text
  pub evidence_set_digest : Text
  pub assessment_digest : Text
  pub issued_at : ℕ

pub record IssueRequest : Type 0 where
  pub candidate : CandidateRecord
  pub floor : RiskFloor
  pub assessment : SemanticAssessment
  pub evidence : List Evidence
  pub issued_at : ℕ

pub record Invalidation : Type 0 where
  pub workflow_id : Text
  pub candidate_record_id : Text
  pub reason : Text
  pub occurred_at : ℕ

pub record ReceiptStore : Type 0 where
  pub receipts : Map Text Receipt
  pub by_candidate : Map Text Text
  pub authority : Map Text Text
  pub invalidations : List Invalidation

pub record Encoders : Type 0 where
  pub digest : Text → Text
  pub candidate_json : CandidateRecord → Text
  pub evidence_json : List Evidence → Text
  pub assessment_json : SemanticAssessment → Text
  pub receipt_json : Receipt → Text

abbrev pub Office : Type 0 → Type 0
Office A = Action ReceiptStore ReviewError A

-- The comparisons of the string types and of Depth.
unfoldable pub risk_beq : ReviewRisk → ReviewRisk → Bool
risk_beq low low = true
risk_beq medium medium = true
risk_beq high high = true
risk_beq (unknown s) (unknown t) = s == t
risk_beq _ _ = false

unfoldable pub depth_number : Depth → ℕ
depth_number deterministic = 0
depth_number one_lens = 1
depth_number four_lenses = 4

unfoldable pub lens_beq : Lens → Lens → Bool
lens_beq risk risk = true
lens_beq readability readability = true
lens_beq reliability reliability = true
lens_beq resilience resilience = true
lens_beq no_lens no_lens = true
lens_beq (unknown_lens s) (unknown_lens t) = s == t
lens_beq _ _ = false

-- `sort.Slice` by name.
unfoldable pub insert_evidence : Evidence → List Evidence → List Evidence
insert_evidence e [] = e ∷ []
insert_evidence e (f ∷ fs) =
    let rest = insert_evidence e fs in if text_leb e.id f.id then e ∷ f ∷ fs else f ∷ rest

unfoldable pub sort_evidence : List Evidence → List Evidence
sort_evidence [] = []
sort_evidence (e ∷ es) = insert_evidence e (sort_evidence es)

-- What the loop over the evidence has seen: its names, how many items accept or check, and the lenses
-- of its reviews.
pub record Seen : Type 0 where
  pub ids : List Text
  pub acceptances : ℕ
  pub checks : ℕ
  pub lenses : List Lens

abbrev pub has_lens : Lens → List Lens → Bool
has_lens l [] = false
has_lens l (k ∷ ks) = lens_beq k l || has_lens l ks

abbrev pub is_acceptance : EvidenceKind → Bool
is_acceptance acceptance = true
is_acceptance _ = false

abbrev pub is_check : EvidenceKind → Bool
is_check check = true
is_check _ = false

abbrev pub is_review : EvidenceKind → Bool
is_review review = true
is_review _ = false

unfoldable pub see : Evidence → Seen → Seen
see e s = record {
  ids = s.ids ++ e.id ∷ [];
  acceptances = if is_acceptance e.kind then suc s.acceptances else s.acceptances;
  checks = if is_check e.kind then suc s.checks else s.checks;
  lenses = if is_review e.kind && valid_lens e.lens then e.lens ∷ s.lenses else s.lenses;
}

unfoldable pub see_all : List Evidence → Seen → Result ReviewError Seen
see_all [] s = ok s
see_all (e ∷ es) s =
    let rest = see_all es (see e s) in if contains e.id s.ids then err evidence_mismatch else rest

abbrev pub nothing_seen : Seen
nothing_seen = record { ids = []; acceptances = 0; checks = 0; lenses = [] }

abbrev pub all_known : List Text → List Text → Bool
all_known known [] = true
all_known known (id ∷ ids) = contains id known && all_known known ids

-- Whether the reviews leave out a lens that the depth asks for.
unfoldable pub lacks_lens : Depth → Lens → List Lens → Bool
lacks_lens one_lens lens lenses = not (has_lens lens lenses)
lacks_lens four_lenses lens lenses = not (
    has_lens risk lenses
    && has_lens readability lenses
    && has_lens reliability lenses
    && has_lens resilience lenses)
lacks_lens deterministic lens lenses = false

-- The tests after the loop.
unfoldable pub is_insufficient : SemanticAssessment → Seen → Bool
is_insufficient a seen =
    nat_beq seen.acceptances 0
    || nat_beq seen.checks 0
    || lacks_lens a.selected_depth a.selected_lens seen.lenses
    || not (all_known seen.ids a.evidence_ids)

-- The tests on the assessment, in their order.
unfoldable pub check_assessment :
    (Text → Text) → CandidateRecord → RiskFloor → SemanticAssessment → Result ReviewError (Unit {0})
check_assessment digest c floor a =
    if not (floor.policy_hash == c.policy_hash)
      || not (risk_beq a.minimum_risk floor.floor_risk)
      || not (depth_number floor.depth == depth_number (depth_for floor.floor_risk))
    then err policy_mismatch
    else if not (a.candidate_record_id == c.id) || not (a.candidate_tree_oid == c.tree_oid)
    then err candidate_mismatch
    else if not (a.policy_hash == c.policy_hash)
    then err policy_mismatch
    else if not (a.prompt_hash == digest a.rendered_redacted_prompt)
        || is_empty a.model_provider
        || is_empty a.model_id
        || is_empty a.prompt_template_id
        || is_empty a.justification
    then err invalid_audit
    else if not (risk_beq a.effective_risk (max_risk a.minimum_risk a.requested_risk))
        || not (depth_number a.selected_depth == depth_number (depth_for a.effective_risk))
    then err semantic_lowering
    else if is_one_lens a.selected_depth && not (valid_lens a.selected_lens)
    then err lens_required
    else ok tt

abbrev pub lift : {A : Type 0} → Result ReviewError A → Office A
lift r s = (r, s)

-- Filing a receipt: a candidate has one receipt, and asking for it again returns it.
abbrev pub zero_receipt : Receipt
zero_receipt = record {
  id = [];
  workflow_id = [];
  candidate_record_id = [];
  candidate_tree_oid = [];
  policy_hash = [];
  engine_version = [];
  effective_risk = unknown [];
  depth = deterministic;
  lens = no_lens;
  evidence_ids = [];
  evidence_set_digest = [];
  assessment_digest = [];
  issued_at = 0;
}

-- `s.receipts[id]`, which is the zero receipt for an unknown name.
unfoldable pub receipt_at : Text → ReceiptStore → Receipt
receipt_at id s = elim (lookup id s.receipts) [ none ↦ zero_receipt | some r ↦ r ]

unfoldable pub file_receipt : Receipt → Option Text → Office Receipt
file_receipt receipt (some known) = do
  existing ← gets (receipt_at known)
  fail_if (not (existing.id == receipt.id)) receipt_exists
  pure existing
file_receipt receipt none =
    modify (λ s. record s {
      receipts = insert receipt.id receipt s.receipts;
      by_candidate = insert receipt.candidate_record_id receipt.id s.by_candidate;
      authority = insert receipt.workflow_id receipt.id s.authority;
    })
    >> pure receipt

module _ (encoders : Encoders) where
  -- The receipt of a request whose evidence, sorted, has the names `ids`.
  unfoldable pub new_receipt : IssueRequest → List Evidence → List Text → Receipt
  new_receipt req sorted ids =
      let c = req.candidate in
      let a = req.assessment in
      let unnamed : Receipt = record {
        id = [];
        workflow_id = c.workflow_id;
        candidate_record_id = c.id;
        candidate_tree_oid = c.tree_oid;
        policy_hash = c.policy_hash;
        engine_version = c.engine_version;
        effective_risk = a.effective_risk;
        depth = a.selected_depth;
        lens = a.selected_lens;
        evidence_ids = ids;
        evidence_set_digest = encoders.digest (encoders.evidence_json sorted);
        assessment_digest =
            encoders.digest (encoders.assessment_json (record a { assessed_at = 0 }));
        issued_at = req.issued_at;
      } in
      record unnamed {
        id =
            codes "rcpt_"
            ++ encoders.digest (
                encoders.receipt_json
                  (record unnamed { workflow_id = []; evidence_ids = []; issued_at = 0 }));
      }

  unfoldable pub issue_receipt : IssueRequest → Office Receipt
  issue_receipt req = do
    lift (validate_candidate_record encoders.digest encoders.candidate_json req.candidate)
    lift (check_assessment encoders.digest req.candidate req.floor req.assessment)
    lift (validate_evidence req.candidate req.evidence)
    seen ← lift (see_all (sort_evidence req.evidence) nothing_seen)
    fail_if (is_insufficient req.assessment seen) evidence_mismatch
    let receipt = new_receipt req (sort_evidence req.evidence) seen.ids
    filed ← gets (λ s. lookup req.candidate.id s.by_candidate)
    file_receipt receipt filed

unfoldable pub get_receipt : Text → Office Receipt
get_receipt id = do or_fail (← gets (λ s. lookup id s.receipts)) no_authority

unfoldable pub get_authority : Text → Office Receipt
get_authority workflow_id = do
  id ← or_fail (← gets (λ s. lookup workflow_id s.authority)) no_authority
  gets (receipt_at id)

unfoldable pub invalidate : Invalidation → Office (Unit {0})
invalidate i = do
  id ← or_fail (← gets (λ s. lookup i.workflow_id s.authority)) no_authority
  r ← gets (receipt_at id)
  fail_if (not (r.candidate_record_id == i.candidate_record_id)) candidate_mismatch
  modify (λ s. record s {
    authority = erase i.workflow_id s.authority;
    invalidations = s.invalidations ++ i ∷ [];
  })
