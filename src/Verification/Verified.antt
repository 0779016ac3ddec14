-- ===== src/Verification/Verified.antt =====
-- What `Run` of internal/verification/verification.go has seen when it passes.
use mathlib.Core.Path.{subst}
use skilar.Prelude.{
  ℕ, ◌≡◌, refl, sym, ap, ◌∙◌, Bool, true, not, ◌&&◌, List, Option, none, some, Text, ◌==◌, lookup,
  Result, ok, pure, ◌>>=◌, ◌>>◌, text_eq, codes, arith, ok-injective, bind_ok, Bool-cases, if_ind,
  or_fail_ok, inl, inr, text_beq_iff,
}
use skilar.Workflow.Types.{Workflow, verifying, replan_required, state_eq, state_beq_iff}
use skilar.Review.{RiskPolicy, deterministic_floor, hash}
use skilar.Review.Candidate.{ContextSeal, Candidate, CandidateRecord, new_candidate_record}
use skilar.Verification.{
  Plan, CheckEvidence, VerificationResult, Host, VerificationState, VerificationError,
  incomplete_record, Runner, evidence_artifact_ids, changes_of,
}
use skilar.Verification.Run.{
  Verify, run_plan, freeze_candidate, changed_names, make_record, store_result, verify_tree,
  verify_candidate, verify_new, run_from, run_on, run, persist, update_recovery_basis,
  with_candidate, conclude, move, run_hook, check_drift, freeze_workflow, or_error,
}
use skilar.Verification.Covering.{CoversPlan, answered, run_plan-CoversPlan}

module _ {W : Type 0} (host : Host W) (digest : Text → Text) (marshal : RiskPolicy → Text)
    (marshal_basis : CandidateRecord → Text) where
  -- What comes after the first of two actions, when both succeed.
  next_ok :
      {A B : Type 0} (m : Verify host digest marshal marshal_basis A)
      (f : A → Verify host digest marshal marshal_basis B) (s : VerificationState W) (b : B)
      → ((m >>= f) s).0 ≡ ok b
      → (a : A) × ((m s).0 ≡ ok a) × ((f a (m s).1).0 ≡ ok b)
  next_ok {B = B} m f s b h =
      let (a, fine, after) = bind_ok m f s h in
      (a, fine, sym (ap (λ (r : Result VerificationError B × VerificationState W). r.0) after) ∙ h)

  conclude_same :
      (now : ℕ) (runner : Runner) (w : Workflow) (result r : VerificationResult)
      (s : VerificationState W)
      → (conclude host digest marshal marshal_basis now runner w result s).0 ≡ ok r
      → result ≡ r
  unfolding conclude
  conclude_same now runner w result r s h =
      if_ind
        (λ (m : Verify host digest marshal marshal_basis VerificationResult).
          (m s).0 ≡ ok r → result ≡ r)
        (not result.passed) failing passing
        (λ _ g. (answered host digest marshal marshal_basis replanning (λ _. result) s r g).2)
        (λ _ g.
          let (_, _, g1) = next_ok hook (λ _. drift >> (freezing >> pure result)) s r g in
          let (_, _, g2) = next_ok drift (λ _. freezing >> pure result) (hook s).1 r g1 in
          (answered host digest marshal marshal_basis freezing (λ _. result) (drift (hook s).1).1 r
            g2).2)
        h
    where
      hook : Verify host digest marshal marshal_basis (Unit {0})
      hook = run_hook host digest marshal marshal_basis

      drift : Verify host digest marshal marshal_basis (Unit {0})
      drift = check_drift host digest marshal marshal_basis now runner w result.candidate

      freezing : Verify host digest marshal marshal_basis (Unit {0})
      freezing = freeze_workflow host digest marshal marshal_basis now w

      replanning : Verify host digest marshal marshal_basis (Unit {0})
      replanning =
          move host digest marshal marshal_basis now w replan_required (codes "failed")
            (evidence_artifact_ids result.evidence)

      failing : Verify host digest marshal marshal_basis VerificationResult
      failing = replanning >> pure result

      passing : Verify host digest marshal marshal_basis VerificationResult
      passing = hook >> (drift >> (freezing >> pure result))

  store_result_same :
      (now : ℕ) (runner : Runner) (w : Workflow) (seal : ContextSeal)
      (result r : VerificationResult) (s : VerificationState W)
      → (store_result host digest marshal marshal_basis now runner w seal result s).0 ≡ ok r
      → result ≡ r
  unfolding store_result
  store_result_same now runner w seal result r s h =
      let saving = persist host digest marshal marshal_basis w.id result in
      let basing = update_recovery_basis host digest marshal marshal_basis w.id (
        with_candidate host digest marshal marshal_basis seal runner.policy
          result.candidate_record) in
      let concluding = conclude host digest marshal marshal_basis now runner w result in
      let (_, _, g1) = next_ok saving (λ _. basing >> concluding) s r h in
      let (_, _, g2) = next_ok basing (λ _. concluding) (saving s).1 r g1 in
      conclude_same now runner w result r (basing (saving s).1).1 g2

  -- The machine when the commands of a plan have run on a tree.
  abbrev pub after_commands : Workflow → ContextSeal → Plan → Text → VerificationState W → W
  after_commands w seal plan tree s =
      (run_plan host digest marshal marshal_basis w.id seal.repository_root tree plan s).1.host

  -- What a result that passed has seen: the first freeze at the start, and the second, `after`, on the
  -- machine that the commands have left.
  abbrev pub IsVerified :
      Workflow → Runner → ContextSeal → Plan → ℕ → VerificationState W → VerificationResult → Type 0
  IsVerified w runner seal plan now s r =
      CoversPlan host digest marshal marshal_basis r.candidate.tree_oid plan r.evidence
      × (new_candidate_record digest marshal_basis w.id r.candidate
            (hash digest marshal runner.risk_policy) runner.engine_version now
          ≡ some r.candidate_record)
      × (host.freeze seal runner.policy s.host ≡ some r.candidate)
      × (after : Candidate) × (host.freeze seal runner.policy
            (after_commands w seal plan r.candidate.tree_oid s)
          ≡ some after)
      × (after.tree_oid ≡ r.candidate.tree_oid)

  or_error_ok :
      {A : Type 0} (o : Option A) (a : A)
      → or_error host digest marshal marshal_basis o ≡ ok a
      → o ≡ some a
  or_error_ok none a h = cc
  or_error_ok (some b) a h = ap some (ok-injective b a h)

  verify_tree_ok :
      (now : ℕ) (runner : Runner) (w : Workflow) (seal : ContextSeal) (plan : Plan)
      (candidate : Candidate) (checked : List CheckEvidence × Bool) (after : Candidate)
      (start s : VerificationState W) (r : VerificationResult)
      → (verify_tree host digest marshal marshal_basis now runner w seal candidate checked after
          s).0
        ≡ ok r
      → r.passed ≡ true
      → (checked.1 ≡ true
          → CoversPlan host digest marshal marshal_basis candidate.tree_oid plan checked.0)
      → host.freeze seal runner.policy start.host ≡ some candidate
      → host.freeze seal runner.policy (after_commands w seal plan candidate.tree_oid start)
        ≡ some after
      → IsVerified w runner seal plan now start r
  unfolding verify_tree make_record
  verify_tree_ok now runner w seal plan candidate checked after start s r h p covered first frozen =
      let naming = changed_names host digest marshal marshal_basis seal w candidate in
      let making = make_record host digest marshal marshal_basis now runner w candidate in
      let result : List Text → CandidateRecord → VerificationResult = λ names made. record {
        candidate = candidate;
        candidate_record = made;
        floor = deterministic_floor digest marshal w.route (changes_of names) runner.risk_policy;
        evidence = checked.0;
        passed = checked.1 && after.tree_oid == candidate.tree_oid;
      } in
      let storing = store_result host digest marshal marshal_basis now runner w seal in
      let (names, _, g1) =
        next_ok naming (λ names. making >>= λ made. storing (result names made)) s r h in
      let (made, found, g2) =
        next_ok making (λ made. storing (result names made)) (naming s).1 r g1 in
      let same = store_result_same now runner w seal (result names made) r _ g2 in
      let both : (checked.1 && after.tree_oid == candidate.tree_oid) ≡ true =
        ap (λ (x : VerificationResult). x.passed) same ∙ p in
      subst (λ x. IsVerified w runner seal plan now start x) same
        (
          covered (ground (arith, both)),
          or_fail_ok
              (new_candidate_record digest marshal_basis w.id candidate
                (hash digest marshal runner.risk_policy) runner.engine_version now)
              incomplete_record (naming s).1 made found,
          first,
          after,
          frozen,
          (text_beq_iff after.tree_oid candidate.tree_oid).0 (ground (arith, both)),
        )

  verify_new_ok :
      (now : ℕ) (runner : Runner) (w : Workflow) (seal : ContextSeal) (plan : Plan)
      (s : VerificationState W) (r : VerificationResult)
      → (verify_new host digest marshal marshal_basis now runner w seal plan s).0 ≡ ok r
      → r.passed ≡ true
      → IsVerified w runner seal plan now s r
  unfolding verify_new verify_candidate freeze_candidate
  verify_new_ok now runner w seal plan s r h p =
      let freezing = freeze_candidate host digest marshal marshal_basis seal runner.policy in
      let (candidate, begun, g1) =
        next_ok freezing (verify_candidate host digest marshal marshal_basis now runner w seal plan)
          s r h in
      let running =
        run_plan host digest marshal marshal_basis w.id seal.repository_root candidate.tree_oid
          plan in
      let finishing = verify_tree host digest marshal marshal_basis now runner w seal candidate in
      let (checked, ran, g2) = next_ok running (λ checked. freezing >>= finishing checked) s r g1 in
      let s' = (running s).1 in
      let (after, frozen, g3) = next_ok freezing (finishing checked) s' r g2 in
      verify_tree_ok now runner w seal plan candidate checked after s s' r g3 p
        (run_plan-CoversPlan host digest marshal marshal_basis w.id seal.repository_root
          candidate.tree_oid plan s checked ran)
        (or_error_ok (host.freeze seal runner.policy s.host) candidate begun)
        (or_error_ok (host.freeze seal runner.policy s'.host) after frozen)

-- When the first verification of a workflow passes, the workflow was in verification, there is
-- evidence for every check and then every acceptance command of the plan, in order, each with exit
-- code 0 on the tree of the candidate, the candidate record is the one that NewCandidateRecord makes
-- of the candidate, which is what the first freeze gave, and the second freeze, on the machine that
-- the commands have left, found the same tree.
pub run-IsVerified :
    {W : Type 0} (host : Host W) (digest : Text → Text) (marshal : RiskPolicy → Text)
    (marshal_basis : CandidateRecord → Text) (now : ℕ) (runner : Runner) (id : Text)
    (seal : ContextSeal) (plan : Plan) (s : VerificationState W) (r : VerificationResult)
    → lookup id s.runs ≡ none
    → (run host digest marshal marshal_basis now runner id seal plan s).0 ≡ ok r
    → r.passed ≡ true
    → (w : Workflow) × (lookup id s.store.workflows ≡ some w)
      × (w.state ≡ verifying)
      × IsVerified host digest marshal marshal_basis w runner seal plan now s r
unfolding run run_on run_from
run-IsVerified {W} host digest marshal marshal_basis now runner id seal plan s r new h p =
    found (lookup id s.store.workflows) refl h
  where
    found :
        (o : Option Workflow)
        → lookup id s.store.workflows ≡ o
        → (run_on host digest marshal marshal_basis now runner seal plan o (lookup id s.runs) s).0
          ≡ ok r
        → (w : Workflow) × (o ≡ some w)
          × (w.state ≡ verifying)
          × IsVerified host digest marshal marshal_basis w runner seal plan now s r
    found none e g = cc
    found (some w) e g = elim (Bool-cases (w.state == verifying)) [
      | inl right ↦ (
        w,
        refl,
        (state_beq_iff w.state verifying).0 right,
        verify_new_ok host digest marshal marshal_basis now runner w seal plan s r
            (rw (right, new) at g) p,
      )
      | inr wrong ↦ let bad = rw wrong at g in cc
    ]
