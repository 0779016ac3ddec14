-- ===== src/Review/Tests.antt =====
-- Assessments of internal/review/review.go, and the theorems at them. The digest is the text itself.
use skilar.Prelude.{◌≤◌, ◌≡◌, refl, true, false, List, [], ◌∷◌, Text, codes, text_beq, ok}
use skilar.Workflow.Types.{Route}
use skilar.Review.{
  ReviewRisk, low, medium, rank, max_risk, or_default, depth_for, one_lens, readability, Change,
  ChangeKind, RiskPolicy, RiskFloor, default_risk_policy, has_prefix, rate, rate_kind,
  rate_high_paths, rate_medium_paths, rate_change, rate_changes, rate_route, rate_count,
  dedupe_from, text_leb, insert_sorted, sort_strings, hash, deterministic_floor,
}
use skilar.Review.Candidate.{CandidateRecord, ContextSeal}
use skilar.Review.Semantic.{
  SemanticAssessment, SemanticInput, valid_lens, is_one_lens, is_unset_lens, lacks_audit,
  assess_semantic,
}
use skilar.Review.Floor.{
  is_high, dangerous_kind, under_any, any_dangerous, route_is_high, is_high-deterministic_floor,
}
use skilar.Review.Monotone.{more_changes_never_lower}

-- What a run computes with.
computing : Unit {0}
unfolding default_risk_policy has_prefix rate rate_kind rate_high_paths rate_medium_paths
    rate_change rate_changes rate_route rate_count rank max_risk or_default depth_for dedupe_from
    text_leb insert_sorted sort_strings hash deterministic_floor text_beq valid_lens is_one_lens
    is_unset_lens lacks_audit assess_semantic dangerous_kind under_any any_dangerous route_is_high
computing = tt

abbrev plain : Text → Text
plain t = t

abbrev version_of : RiskPolicy → Text
version_of policy = policy.version

abbrev login : Change
login = record { path = codes "auth/login.go"; kind = ChangeKind.text }

abbrev readme : Change
readme = record { path = codes "README.md"; kind = ChangeKind.generated }

abbrev floor_of : List Change → ReviewRisk
floor_of changes =
    (deterministic_floor plain version_of Route.simple changes default_risk_policy).floor_risk

is_high-deterministic_floor_example : is_high (floor_of (readme ∷ login ∷ [])) ≡ true
unfolding computing
is_high-deterministic_floor_example =
    is_high-deterministic_floor default_risk_policy plain version_of Route.simple
      (readme ∷ login ∷ [])

more_changes_never_lower_example :
    rank (floor_of (readme ∷ [])) ≤ rank (floor_of (readme ∷ login ∷ []))
more_changes_never_lower_example =
    more_changes_never_lower default_risk_policy plain version_of Route.simple (readme ∷ [])
      (login ∷ [])

abbrev seal : ContextSeal
seal = record {
  repository_root = codes "/r";
  git_common_dir = codes "/r/.git";
  worktree_id = codes "w";
  symbolic_head = codes "refs/heads/main";
  detached = false;
  base_ref = codes "refs/heads/main";
  base_commit_oid = codes "c";
  base_tree_oid = codes "b";
  object_format = codes "sha1";
}

abbrev candidate : CandidateRecord
candidate = record {
  id = codes "cand_1";
  workflow_id = codes "wf";
  tree_oid = codes "t";
  manifest = [];
  seal = seal;
  policy_hash = codes "p";
  candidate_policy_hash = codes "q";
  engine_version = codes "1";
  frozen_at = 5;
}

abbrev floor : RiskFloor
floor = record { floor_risk = low; depth = depth_for low; policy_hash = codes "p"; reasons = [] }

abbrev input : SemanticInput
input = record {
  requested_risk = medium;
  selected_lens = readability;
  justification = codes "j";
  evidence_ids = [];
  model_provider = codes "m";
  model_id = codes "i";
  model_version = [];
  prompt_template_id = codes "x";
  rendered_redacted_prompt = codes "y";
}

abbrev assessment : SemanticAssessment
assessment = record {
  candidate_record_id = codes "cand_1";
  candidate_tree_oid = codes "t";
  policy_hash = codes "p";
  minimum_risk = low;
  requested_risk = medium;
  effective_risk = medium;
  selected_depth = one_lens;
  selected_lens = readability;
  justification = codes "j";
  evidence_ids = [];
  model_provider = codes "m";
  model_id = codes "i";
  model_version = [];
  prompt_template_id = codes "x";
  rendered_redacted_prompt = codes "y";
  prompt_hash = codes "y";
  assessed_at = 9;
}

assess_semantic_run : assess_semantic plain candidate floor input 9 ≡ ok assessment
unfolding computing
assess_semantic_run = refl
