-- ===== src/Review/Authority.antt =====
-- What a receipt of internal/review/store.go has earned.
use skilar.Prelude.{
  ◌≡◌, refl, Bool, true, false, not, ◌&&◌, ◌||◌, List, [], ◌∷◌, Text, arith, lookup, ok,
  Result-cases, inl, inr, nat_eq, nat_beq, text_eq, text_beq_iff, nat_beq_iff, Every,
}
use skilar.Review.{
  ReviewRisk, max_risk, Depth, deterministic, one_lens, four_lenses, depth_for, Lens, risk,
  readability, reliability, resilience, RiskFloor,
}
use skilar.Review.Candidate.{CandidateRecord, EvidenceKind, Evidence, validate_evidence}
use skilar.Review.Semantic.{SemanticAssessment, valid_lens}
use skilar.Review.Assessment.{IsBound, validate_evidence-iff-Every}
use skilar.Review.Receipts.{
  Receipt, IssueRequest, ReceiptStore, Encoders, risk_beq, depth_number, lens_beq, insert_evidence,
  sort_evidence, Seen, has_lens, is_acceptance, is_check, is_review, see, see_all, nothing_seen,
  lacks_lens, is_insufficient, check_assessment, file_receipt, new_receipt, issue_receipt,
}

-- Whether some item is a review through the lens.
unfoldable pub reviewed_through : Lens → List Evidence → Bool
reviewed_through lens [] = false
reviewed_through lens (e ∷ es) =
    (is_review e.kind && valid_lens e.lens && lens_beq e.lens lens) || reviewed_through lens es

-- Whether the reviews go through every lens that the depth asks for.
unfoldable pub covers : Depth → Lens → List Evidence → Bool
covers deterministic lens es = true
covers one_lens lens es = reviewed_through lens es
covers four_lenses lens es =
    reviewed_through risk es
    && reviewed_through readability es
    && reviewed_through reliability es
    && reviewed_through resilience es

unfoldable pub some_kind : (EvidenceKind → Bool) → List Evidence → Bool
some_kind test [] = false
some_kind test (e ∷ es) = test e.kind || some_kind test es

module _ (lens : Lens) where
  reviewed_through-insert_evidence :
      (e : Evidence) (es : List Evidence)
      → reviewed_through lens (insert_evidence e es) ≡ reviewed_through lens (e ∷ es)
  unfolding insert_evidence reviewed_through
  reviewed_through-insert_evidence e [] = refl
  reviewed_through-insert_evidence e (f ∷ fs) =
      ground (arith, reviewed_through-insert_evidence e fs)

  reviewed_through-sort_evidence :
      (es : List Evidence) → reviewed_through lens (sort_evidence es) ≡ reviewed_through lens es
  unfolding sort_evidence reviewed_through
  reviewed_through-sort_evidence [] = refl
  reviewed_through-sort_evidence (e ∷ es) = ground (
    arith,
    reviewed_through-insert_evidence e (sort_evidence es),
    reviewed_through-sort_evidence es,
  )

  -- The lenses that the loop has seen are those of the reviews.
  has_lens-see_all :
      (es : List Evidence) (s s' : Seen)
      → see_all es s ≡ ok s'
      → has_lens lens s'.lenses ≡ (has_lens lens s.lenses || reviewed_through lens es)
  unfolding see_all see reviewed_through
  has_lens-see_all [] s s' h = ground arith
  has_lens-see_all (e ∷ es) s s' h = ground (arith, has_lens-see_all es (see e s) s')

module _ (test : EvidenceKind → Bool) where
  some_kind-insert_evidence :
      (e : Evidence) (es : List Evidence)
      → some_kind test (insert_evidence e es) ≡ some_kind test (e ∷ es)
  unfolding insert_evidence some_kind
  some_kind-insert_evidence e [] = refl
  some_kind-insert_evidence e (f ∷ fs) = ground (arith, some_kind-insert_evidence e fs)

  some_kind-sort_evidence :
      (es : List Evidence) → some_kind test (sort_evidence es) ≡ some_kind test es
  unfolding sort_evidence some_kind
  some_kind-sort_evidence [] = refl
  some_kind-sort_evidence (e ∷ es) =
      ground (arith, some_kind-insert_evidence e (sort_evidence es), some_kind-sort_evidence es)

acceptances-see_all :
    (es : List Evidence) (s s' : Seen)
    → see_all es s ≡ ok s'
    → nat_beq s'.acceptances 0 ≡ (nat_beq s.acceptances 0 && not (some_kind is_acceptance es))
unfolding see_all see some_kind
acceptances-see_all [] s s' h = ground arith
acceptances-see_all (e ∷ es) s s' h = ground (arith, acceptances-see_all es (see e s) s')

checks-see_all :
    (es : List Evidence) (s s' : Seen)
    → see_all es s ≡ ok s'
    → nat_beq s'.checks 0 ≡ (nat_beq s.checks 0 && not (some_kind is_check es))
unfolding see_all see some_kind
checks-see_all [] s s' h = ground arith
checks-see_all (e ∷ es) s s' h = ground (arith, checks-see_all es (see e s) s')

risk_beq_equal : (a b : ReviewRisk) → risk_beq a b ≡ true → a ≡ b
unfolding risk_beq
risk_beq_equal a b h = grind (arith, text_beq_iff)

depth_number_injective : (a b : Depth) → depth_number a ≡ depth_number b → a ≡ b
unfolding depth_number
depth_number_injective a b h = ground arith

-- What the request of a receipt has passed.
pub record Passed (encoders : Encoders) (req : IssueRequest) (s : ReceiptStore) (r : Receipt)
    : Type 0 where
  pub seen : Seen
  pub assessed : check_assessment encoders.digest req.candidate req.floor req.assessment ≡ ok tt
  pub bound : validate_evidence req.candidate req.evidence ≡ ok tt
  pub scanned : see_all (sort_evidence req.evidence) nothing_seen ≡ ok seen
  pub sufficient : is_insufficient req.assessment seen ≡ false
  pub filed :
      issue_receipt encoders req s
      ≡ file_receipt
          (new_receipt encoders req (sort_evidence req.evidence) seen.ids)
          (lookup req.candidate.id s.by_candidate)
          s

pub issue_receipt-Passed :
    (encoders : Encoders) (req : IssueRequest) (s : ReceiptStore) (r : Receipt)
    → (issue_receipt encoders req s).0 ≡ ok r
    → Passed encoders req s r
unfolding issue_receipt
issue_receipt-Passed encoders req s r h =
    elim (Result-cases (see_all (sort_evidence req.evidence) nothing_seen)) [
      | inl (seen, e) ↦ record {
        seen = seen;
        assessed = ground arith;
        bound = ground arith;
        scanned = e;
        sufficient = ground arith;
        filed = ground arith;
      }
      | inr (e, p) ↦ ground arith
    ]

-- The depth and the risk that an accepted assessment has.
check_assessment-depth :
    (digest : Text → Text) (c : CandidateRecord) (floor : RiskFloor) (a : SemanticAssessment)
    → check_assessment digest c floor a ≡ ok tt
    → (a.effective_risk ≡ max_risk floor.floor_risk a.requested_risk)
      × (a.selected_depth ≡ depth_for a.effective_risk)
unfolding check_assessment
check_assessment-depth digest c floor a h = ground (
  arith,
  risk_beq_equal a.minimum_risk floor.floor_risk,
  risk_beq_equal a.effective_risk (max_risk a.minimum_risk a.requested_risk),
  depth_number_injective a.selected_depth (depth_for a.effective_risk),
  nat_beq_iff (depth_number a.selected_depth) (depth_number (depth_for a.effective_risk)),
)

-- The kinds of evidence, and reviews through every lens of the depth.
covers-sufficient :
    (a : SemanticAssessment) (es : List Evidence) (seen : Seen)
    → see_all (sort_evidence es) nothing_seen ≡ ok seen
    → is_insufficient a seen ≡ false
    → (some_kind is_acceptance es ≡ true)
      × (some_kind is_check es ≡ true)
      × (covers a.selected_depth a.selected_lens es ≡ true)
unfolding is_insufficient lacks_lens covers
covers-sufficient a es seen scanned enough =
    let sorted = sort_evidence es in
    (
      ground (
        arith,
        acceptances-see_all sorted nothing_seen seen scanned,
        some_kind-sort_evidence is_acceptance es,
      ),
      ground (
        arith,
        checks-see_all sorted nothing_seen seen scanned,
        some_kind-sort_evidence is_check es,
      ),
      ground (
        arith,
        has_lens-see_all a.selected_lens sorted nothing_seen seen scanned,
        has_lens-see_all risk sorted nothing_seen seen scanned,
        has_lens-see_all readability sorted nothing_seen seen scanned,
        has_lens-see_all reliability sorted nothing_seen seen scanned,
        has_lens-see_all resilience sorted nothing_seen seen scanned,
        reviewed_through-sort_evidence a.selected_lens es,
        reviewed_through-sort_evidence risk es,
        reviewed_through-sort_evidence readability es,
        reviewed_through-sort_evidence reliability es,
        reviewed_through-sort_evidence resilience es,
      ),
    )

-- `Issue` returns a receipt only for a request whose effective risk is the larger of the floor and the
-- requested risk, whose depth is that of the effective risk, whose evidence is bound to the candidate
-- and has an acceptance and a check, and whose reviews go through every lens that the depth asks for.
pub receipt_is_earned :
    (encoders : Encoders) (req : IssueRequest) (s : ReceiptStore) (r : Receipt)
    → (issue_receipt encoders req s).0 ≡ ok r
    → let a = req.assessment in
      (a.effective_risk ≡ max_risk req.floor.floor_risk a.requested_risk)
      × (a.selected_depth ≡ depth_for a.effective_risk)
      × Every (IsBound req.candidate) req.evidence
      × (some_kind is_acceptance req.evidence ≡ true)
      × (some_kind is_check req.evidence ≡ true)
      × (covers a.selected_depth a.selected_lens req.evidence ≡ true)
receipt_is_earned encoders req s r h =
    let p = issue_receipt-Passed encoders req s r h in
    let (same_risk, same_depth) =
      check_assessment-depth encoders.digest req.candidate req.floor req.assessment p.assessed in
    let (accepted, checked, covered) =
      covers-sufficient req.assessment req.evidence p.seen p.scanned p.sufficient in
    (
      same_risk,
      same_depth,
      (validate_evidence-iff-Every req.candidate req.evidence).0 p.bound,
      accepted,
      checked,
      covered,
    )
