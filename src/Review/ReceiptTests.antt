-- ===== src/Review/ReceiptTests.antt =====
-- Receipts of internal/review/store.go, and the theorems at them. The digest is the text itself.
use skilar.Prelude.{
  ◌≡◌, refl, true, false, List, [], ◌∷◌, Text, ok, codes, text_beq, lookup, insert, Every,
}
use skilar.Review.{
  low, medium, rank, max_risk, depth_for, one_lens, readability, RiskFloor, text_leb,
}
use skilar.Review.Candidate.{
  CandidateRecord, ContextSeal, Evidence, EvidenceKind, validate_evidence, insert_entry,
  sort_manifest, candidate_record_id, validate_candidate_record,
}
use skilar.Review.Semantic.{SemanticAssessment, valid_lens, is_one_lens}
use skilar.Review.Assessment.{IsBound}
use skilar.Review.Receipts.{
  Receipt, IssueRequest, ReceiptStore, Encoders, risk_beq, depth_number, lens_beq, insert_evidence,
  sort_evidence, is_acceptance, is_check, see, see_all, lacks_lens, is_insufficient,
  check_assessment, receipt_at, file_receipt, new_receipt, issue_receipt,
}
use skilar.Review.Authority.{reviewed_through, covers, some_kind, receipt_is_earned}
use skilar.Review.Finality.{receipt_is_final}

-- What a run computes with.
computing : Unit {0}
unfolding rank max_risk depth_for text_leb text_beq lookup insert validate_evidence insert_entry
    sort_manifest candidate_record_id validate_candidate_record valid_lens is_one_lens risk_beq
    depth_number lens_beq insert_evidence sort_evidence see see_all lacks_lens is_insufficient
    check_assessment receipt_at file_receipt new_receipt issue_receipt reviewed_through covers
    some_kind
computing = tt

abbrev encoders : Encoders
encoders = record {
  digest = λ t. t;
  candidate_json = λ c. c.tree_oid;
  evidence_json = λ es. [];
  assessment_json = λ a. a.justification;
  receipt_json = λ r. r.assessment_digest;
}

abbrev seal : ContextSeal
seal = record {
  repository_root = codes "/r";
  git_common_dir = codes "/r/.git";
  worktree_id = codes "w";
  symbolic_head = codes "refs/heads/main";
  detached = false;
  base_ref = codes "refs/heads/main";
  base_commit_oid = codes "c";
  base_tree_oid = codes "b";
  object_format = codes "sha1";
}

abbrev candidate : CandidateRecord
candidate = record {
  id = codes "cand_t";
  workflow_id = codes "wf";
  tree_oid = codes "t";
  manifest = [];
  seal = seal;
  policy_hash = codes "p";
  candidate_policy_hash = codes "q";
  engine_version = codes "1";
  frozen_at = 5;
}

abbrev item : Text → EvidenceKind → Evidence
item id kind = record {
  id = id;
  kind = kind;
  candidate_record_id = codes "cand_t";
  candidate_tree_oid = codes "t";
  policy_hash = codes "p";
  digest = codes "d";
  lens = readability;
}

abbrev assessment : Text → SemanticAssessment
assessment justification = record {
  candidate_record_id = codes "cand_t";
  candidate_tree_oid = codes "t";
  policy_hash = codes "p";
  minimum_risk = low;
  requested_risk = medium;
  effective_risk = medium;
  selected_depth = one_lens;
  selected_lens = readability;
  justification = justification;
  evidence_ids = codes "e2" ∷ [];
  model_provider = codes "m";
  model_id = codes "i";
  model_version = [];
  prompt_template_id = codes "x";
  rendered_redacted_prompt = codes "y";
  prompt_hash = codes "y";
  assessed_at = 9;
}

abbrev floor : RiskFloor
floor = record { floor_risk = low; depth = depth_for low; policy_hash = codes "p"; reasons = [] }

abbrev evidence : List Evidence
evidence =
    item (codes "e3") EvidenceKind.review
    ∷ item (codes "e1") EvidenceKind.acceptance
    ∷ item (codes "e2") EvidenceKind.check
    ∷ []

abbrev request : IssueRequest
request = record {
  candidate = candidate;
  floor = floor;
  assessment = assessment (codes "j");
  evidence = evidence;
  issued_at = 12;
}

abbrev later : IssueRequest
later = record request { issued_at = 40 }

abbrev no_receipts : ReceiptStore
no_receipts = record { receipts = []; by_candidate = []; authority = []; invalidations = [] }

abbrev receipt : Receipt
receipt =
    new_receipt encoders request (sort_evidence evidence)
      (codes "e1" ∷ codes "e2" ∷ codes "e3" ∷ [])

issued_first : (issue_receipt encoders request no_receipts).0 ≡ ok receipt
unfolding computing
issued_first = refl

receipt_is_earned_example :
    let a = assessment (codes "j") in
    (a.effective_risk ≡ max_risk low a.requested_risk)
    × (a.selected_depth ≡ depth_for a.effective_risk)
    × Every (IsBound candidate) evidence
    × (some_kind is_acceptance evidence ≡ true)
    × (some_kind is_check evidence ≡ true)
    × (covers a.selected_depth a.selected_lens evidence ≡ true)
receipt_is_earned_example = receipt_is_earned encoders request no_receipts receipt issued_first

receipt_is_final_example :
    let s' = (issue_receipt encoders request no_receipts).1 in
    (receipt ≡ receipt) × ((issue_receipt encoders later s').1 ≡ s')
unfolding computing
receipt_is_final_example =
    receipt_is_final encoders request later no_receipts receipt receipt refl issued_first refl
