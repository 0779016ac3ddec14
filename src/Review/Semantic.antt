-- ===== src/Review/Semantic.antt =====
-- `AssessSemantic` of internal/review/review.go. `digest` is crypto/sha256.
use skilar.Prelude.{
  ℕ, Bool, true, false, not, ◌&&◌, ◌||◌, List, Text, is_empty, if◌then◌else◌, ◌==◌, Result, ok, err,
  ltb, text_eq,
}
use skilar.Review.{
  ReviewRisk, rank, max_risk, Depth, one_lens, depth_for, Lens, risk, readability, reliability,
  resilience, no_lens, ReviewError, semantic_lowering, policy_mismatch, incomplete_audit,
  lens_required, lens_forbidden, RiskFloor,
}
use skilar.Review.Candidate.{CandidateRecord}

pub record SemanticAssessment : Type 0 where
  pub candidate_record_id : Text
  pub candidate_tree_oid : Text
  pub policy_hash : Text
  pub minimum_risk : ReviewRisk
  pub requested_risk : ReviewRisk
  pub effective_risk : ReviewRisk
  pub selected_depth : Depth
  pub selected_lens : Lens
  pub justification : Text
  pub evidence_ids : List Text
  pub model_provider : Text
  pub model_id : Text
  pub model_version : Text
  pub prompt_template_id : Text
  pub rendered_redacted_prompt : Text
  pub prompt_hash : Text
  pub assessed_at : ℕ

pub record SemanticInput : Type 0 where
  pub requested_risk : ReviewRisk
  pub selected_lens : Lens
  pub justification : Text
  pub evidence_ids : List Text
  pub model_provider : Text
  pub model_id : Text
  pub model_version : Text
  pub prompt_template_id : Text
  pub rendered_redacted_prompt : Text

unfoldable pub valid_lens : Lens → Bool
valid_lens risk = true
valid_lens readability = true
valid_lens reliability = true
valid_lens resilience = true
valid_lens _ = false

unfoldable pub is_one_lens : Depth → Bool
is_one_lens one_lens = true
is_one_lens _ = false

unfoldable pub is_unset_lens : Lens → Bool
is_unset_lens no_lens = true
is_unset_lens _ = false

unfoldable pub lacks_audit : SemanticInput → Bool
lacks_audit input =
    is_empty input.justification
    || is_empty input.model_provider
    || is_empty input.model_id
    || is_empty input.prompt_template_id
    || is_empty input.rendered_redacted_prompt

unfoldable pub assess_semantic :
    (Text → Text)
    → CandidateRecord
    → RiskFloor
    → SemanticInput
    → ℕ
    → Result ReviewError SemanticAssessment
assess_semantic digest candidate floor input now =
    let effective = max_risk floor.floor_risk input.requested_risk in
    let depth = depth_for effective in
    if not (floor.policy_hash == candidate.policy_hash)
    then err policy_mismatch
    else if ltb (rank input.requested_risk) (rank floor.floor_risk)
    then err semantic_lowering
    else if lacks_audit input
    then err incomplete_audit
    else if is_one_lens depth && not (valid_lens input.selected_lens)
    then err lens_required
    else if not (is_one_lens depth) && not (is_unset_lens input.selected_lens)
    then err lens_forbidden
    else ok (record {
      candidate_record_id = candidate.id;
      candidate_tree_oid = candidate.tree_oid;
      policy_hash = candidate.policy_hash;
      minimum_risk = floor.floor_risk;
      requested_risk = input.requested_risk;
      effective_risk = effective;
      selected_depth = depth;
      selected_lens = input.selected_lens;
      justification = input.justification;
      evidence_ids = input.evidence_ids;
      model_provider = input.model_provider;
      model_id = input.model_id;
      model_version = input.model_version;
      prompt_template_id = input.prompt_template_id;
      rendered_redacted_prompt = input.rendered_redacted_prompt;
      prompt_hash = digest input.rendered_redacted_prompt;
      assessed_at = now;
    })
