-- ===== src/Review/Assessment.antt =====
-- What an assessment of internal/review/review.go that is accepted guarantees.
use skilar.Prelude.{
  ℕ, ◌≤◌, ◌≡◌, refl, ◌↔◌, Bool, true, false, List, [], ◌∷◌, Text, arith, is_empty, if◌then◌else◌,
  ok, text_eq, text_beq_iff, Every,
}
use skilar.Review.{rank, max_risk, Depth, depth_for, Lens, RiskFloor}
use skilar.Review.Candidate.{CandidateRecord, Evidence, validate_evidence}
use skilar.Review.Semantic.{
  SemanticAssessment, SemanticInput, valid_lens, is_one_lens, is_unset_lens, assess_semantic,
}

-- The lens that a depth asks for: a valid one at depth one, none at the other depths.
unfoldable pub fits_depth : Depth → Lens → Bool
fits_depth depth lens = if is_one_lens depth then valid_lens lens else is_unset_lens lens

-- An accepted assessment keeps the requested risk, which is at least the floor's, takes its depth from
-- that risk and a lens that fits the depth, and names the candidate and the floor's policy.
pub assessment_keeps_floor :
    (digest : Text → Text) (candidate : CandidateRecord) (floor : RiskFloor) (input : SemanticInput)
    (now : ℕ) (a : SemanticAssessment)
    → assess_semantic digest candidate floor input now ≡ ok a
    → (rank floor.floor_risk ≤ rank a.effective_risk)
      × (rank a.effective_risk ≡ rank input.requested_risk)
      × (a.selected_depth ≡ depth_for a.effective_risk)
      × (fits_depth a.selected_depth a.selected_lens ≡ true)
      × (a.candidate_record_id ≡ candidate.id)
      × (a.policy_hash ≡ floor.policy_hash)
unfolding assess_semantic fits_depth max_risk
assessment_keeps_floor digest candidate floor input now a h =
    ground (arith, text_beq_iff floor.policy_hash candidate.policy_hash)

-- Evidence that speaks of the candidate, of its tree and of its policy, and has a name and a digest.
abbrev pub IsBound : CandidateRecord → Evidence → Type 0
IsBound c item =
    (is_empty item.id ≡ false)
    × (is_empty item.digest ≡ false)
    × (item.candidate_record_id ≡ c.id)
    × (item.candidate_tree_oid ≡ c.tree_oid)
    × (item.policy_hash ≡ c.policy_hash)

-- `ValidateEvidence` accepts a list exactly when each item is bound to the candidate.
pub validate_evidence-iff-Every :
    (c : CandidateRecord) (items : List Evidence)
    → (validate_evidence c items ≡ ok tt) ↔ Every (IsBound c) items
unfolding validate_evidence
validate_evidence-iff-Every c [] = (λ h. tt, λ h. refl)
validate_evidence-iff-Every c (item ∷ items) =
    let rest = validate_evidence-iff-Every c items in
    (
      λ h. (
        ground (
          arith,
          text_beq_iff item.candidate_record_id c.id,
          text_beq_iff item.candidate_tree_oid c.tree_oid,
          text_beq_iff item.policy_hash c.policy_hash,
        ),
        rest.0 (ground arith),
      ),
      λ every.
          let (bound, others) = every in
          let tail = rest.1 others in
          ground (
            arith,
            bound,
            text_beq_iff item.candidate_record_id c.id,
            text_beq_iff item.candidate_tree_oid c.tree_oid,
            text_beq_iff item.policy_hash c.policy_hash,
          ),
    )
