-- ===== src/Verification/Run.antt =====
-- `Runner.Run` of internal/verification/verification.go, call by call.
use skilar.Prelude.{
  ℕ, ◌++◌, Bool, true, false, not, ◌&&◌, List, [], ◌∷◌, Option, none, some, Text, ◌==◌,
  if◌then◌else◌, Map, lookup, insert, insert_new, Result, ok, err, Action, pure, fail, gets, modify,
  fail_if, or_fail, ◌>>=◌, ◌>>◌, text_eq, codes,
}
use skilar.Workflow.Types.{
  State, verifying, replan_required, candidate_frozen, unset, state_eq, Workflow, Transition, Error,
  not_found, constraint,
}
use skilar.Workflow.Memory.{is_some}
use skilar.Workflow.Sqlite.{Database}
use skilar.Workflow.Sqlite
use skilar.Review.{RiskPolicy, deterministic_floor, hash}
use skilar.Review.Candidate.{ContextSeal, Candidate, CandidateRecord, new_candidate_record}
use skilar.Verification.{
  Command, Plan, CheckEvidence, VerificationResult, Host, RecoveryBasis, VerificationState,
  VerificationError, from_store, not_verifying, drifted, host_failed, incomplete_record, Runner,
  transition_key, evidence_artifact_ids, evidence_of, has_failed, changes_of, limit_or_default,
}

-- `RecoveryBasis{}`.
abbrev pub zero_basis : RecoveryBasis
zero_basis = record {
  seal = record {
    repository_root = [];
    git_common_dir = [];
    worktree_id = [];
    symbolic_head = [];
    detached = false;
    base_ref = [];
    base_commit_oid = [];
    base_tree_oid = [];
    object_format = [];
  };
  candidate_policy = [];
  pre_tree_oid = [];
  post_tree_oid = [];
  candidate_tree_oid = [];
  candidate_record_id = [];
  policy_hash = [];
}

abbrev pub or_zero : Option RecoveryBasis → RecoveryBasis
or_zero none = zero_basis
or_zero (some b) = b

abbrev pub raised : {A : Type 0} → Result Error A → Result VerificationError A
raised (ok a) = ok a
raised (err e) = err (from_store e)

module _ {W : Type 0} (host : Host W) (digest : Text → Text) (marshal : RiskPolicy → Text)
    (marshal_basis : CandidateRecord → Text) where
  abbrev pub Verify : Type 0 → Type 0
  Verify A = Action (VerificationState W) VerificationError A

  -- A call of the workflow store.
  abbrev pub call : {A : Type 0} → Action Database Error A → Verify A
  call m s = let r = m s.store in (raised r.0, record s { store = r.1 })

  -- `UpdateRecoveryBasis` of internal/workflow/recovery.go.
  unfoldable pub update_recovery_basis : Text → (RecoveryBasis → RecoveryBasis) → Verify (Unit {0})
  update_recovery_basis id mutate = do
    fail_if (not (is_some (← gets (λ s. lookup id s.store.workflows)))) (from_store constraint)
    modify (λ s. record s { bases = insert id (mutate (or_zero (lookup id s.bases))) s.bases })

  unfoldable pub with_candidate :
      ContextSeal → List Text → CandidateRecord → RecoveryBasis → RecoveryBasis
  with_candidate seal policy made b = record b {
    seal = seal;
    candidate_policy = policy;
    candidate_tree_oid = made.tree_oid;
    candidate_record_id = made.id;
    policy_hash = made.policy_hash;
  }

  -- The transition that `Run` asks for, from the workflow that it read.
  unfoldable pub verification_request : Workflow → State → Text → List Text → Transition
  verification_request w to kind artifacts = record {
    workflow_id = w.id;
    expected_state = w.state;
    expected_version = w.state_version;
    next_state = to;
    idempotency_key = transition_key kind w.state_version;
    artifact_ids = artifacts;
    resume_target = unset;
  }

  unfoldable pub move : ℕ → Workflow → State → Text → List Text → Verify (Unit {0})
  move now w to kind artifacts = do
    moved ← call (Sqlite.transition now (verification_request w to kind artifacts))
    pure tt

  -- `_, _ = r.Store.Transition(...)`
  unfoldable pub try_move : ℕ → Workflow → State → Text → Verify (Unit {0})
  try_move now w to kind s = (ok tt, (move now w to kind [] s).1)

  -- A test for drift, with the transition that a drift causes.
  unfoldable pub check_drift : ℕ → Runner → Workflow → Candidate → Verify (Unit {0})
  check_drift now runner w c = do
    drift ← or_fail (← gets (λ s. host.has_drifted c runner.policy s.host)) host_failed
    if drift then try_move now w replan_required (codes "drift") >> fail drifted else pure tt

  unfoldable pub run_hook : Verify (Unit {0})
  run_hook s =
      let r = host.before_transition s.host in
      (if r.0 then ok tt else err host_failed, record s { host = r.1 })

  abbrev pub or_error : {A : Type 0} → Option A → Result VerificationError A
  or_error none = err host_failed
  or_error (some a) = ok a

  -- The evidence with the artifact of its output, which then refers to it.
  abbrev pub kept_as :
      CheckEvidence
      → VerificationState W
      → Option (Option Text)
      → W
      → Result VerificationError CheckEvidence × VerificationState W
  kept_as item s none w = (err host_failed, record s { host = w })
  kept_as item s (some none) w = (ok item, record s { host = w })
  kept_as item s (some (some artifact)) w = (
    ok (record item { output_artifact_id = artifact }),
    record s { host = host.add_ref artifact item.id w },
  )

  -- PutLog and Ref on the artifacts.
  unfoldable pub keep_output : Text → CheckEvidence → Text → Verify CheckEvidence
  keep_output id item output s = let r = host.put_log id output s.host in kept_as item s r.0 r.1

  -- `break` after a command that failed.
  abbrev pub after_item :
      Bool → Verify (List CheckEvidence × Bool) → CheckEvidence → Verify (List CheckEvidence × Bool)
  after_item failed others item =
      if failed
      then pure (item ∷ [], false)
      else (others >>= λ later. pure (item ∷ later.0, later.1))

  -- The commands of a group, up to the first that fails, and whether all passed.
  unfoldable pub run_group :
      Text → Text → Text → Text → ℕ → List Command → Verify (List CheckEvidence × Bool)
  run_group id root tree kind limit [] s = (ok ([], true), s)
  run_group id root tree kind limit (c ∷ commands) s =
      let r = host.run_command root tree c s.host in
      let found = evidence_of digest tree kind c limit r.0 in
      (keep_output id found.0 found.1
          >>= after_item (has_failed r.0) (run_group id root tree kind limit commands))
        (record s { host = r.1 })

  -- The acceptance group runs when the checks passed.
  abbrev pub then_accept :
      Verify (List CheckEvidence × Bool)
      → List CheckEvidence × Bool
      → Verify (List CheckEvidence × Bool)
  then_accept acceptance checks =
      if checks.1
      then (acceptance >>= λ accepted. pure (checks.0 ++ accepted.0, accepted.1))
      else pure checks

  unfoldable pub run_plan : Text → Text → Text → Plan → Verify (List CheckEvidence × Bool)
  run_plan id root tree plan = do
    let limit = limit_or_default plan.max_output_bytes
    checks ← run_group id root tree (codes "check") limit plan.checks
    if checks.1
        then (do
          accepted ← run_group id root tree (codes "acceptance") limit plan.acceptance
          pure (checks.0 ++ accepted.0, accepted.1))
        else pure checks

  unfoldable pub insert_rows : List CheckEvidence → Map Text CheckEvidence → Map Text CheckEvidence
  insert_rows [] rows = rows
  insert_rows (e ∷ items) rows = insert_rows items (insert_new e.id e rows)

  unfoldable pub persist : Text → VerificationResult → Verify (Unit {0})
  persist id result = modify (λ s. record s {
    runs = insert_new id result s.runs;
    evidence_rows = insert_rows result.evidence s.evidence_rows;
    candidate_rows = insert_new result.candidate_record.id result.candidate_record s.candidate_rows;
  })

  -- The last steps, once every test has passed.
  unfoldable pub freeze_workflow : ℕ → Workflow → Verify (Unit {0})
  freeze_workflow now w = move now w candidate_frozen (codes "frozen") []

  -- `Run` on a result that is stored already.
  unfoldable pub replay :
      ℕ → Runner → Workflow → ContextSeal → VerificationResult → Verify VerificationResult
  replay now runner w seal existing =
      if not existing.passed
      then (do
        move now w replan_required (codes "failed") (evidence_artifact_ids existing.evidence)
        pure existing)
      else (do
        check_drift now runner w existing.candidate
        run_hook
        check_drift now runner w existing.candidate
        update_recovery_basis w.id (with_candidate seal runner.policy existing.candidate_record)
        freeze_workflow now w
        pure existing)

  -- `Run` from the stored result on.
  unfoldable pub conclude : ℕ → Runner → Workflow → VerificationResult → Verify VerificationResult
  conclude now runner w result =
      if not result.passed
      then (do
        move now w replan_required (codes "failed") (evidence_artifact_ids result.evidence)
        pure result)
      else (do
        run_hook
        check_drift now runner w result.candidate
        freeze_workflow now w
        pure result)

  unfoldable pub freeze_candidate : ContextSeal → List Text → Verify Candidate
  freeze_candidate seal policy s = (or_error (host.freeze seal policy s.host), s)

  unfoldable pub changed_names : ContextSeal → Workflow → Candidate → Verify (List Text)
  changed_names seal w c s =
      (or_error (host.diff_names seal.repository_root w.basis_tree c.tree_oid s.host), s)

  unfoldable pub make_record : ℕ → Runner → Workflow → Candidate → Verify CandidateRecord
  make_record now runner w c =
      or_fail
        (new_candidate_record digest marshal_basis w.id c (hash digest marshal runner.risk_policy)
          runner.engine_version now)
        incomplete_record

  unfoldable pub store_result :
      ℕ → Runner → Workflow → ContextSeal → VerificationResult → Verify VerificationResult
  store_result now runner w seal result = do
    persist w.id result
    update_recovery_basis w.id (with_candidate seal runner.policy result.candidate_record)
    conclude now runner w result

  -- `Run` after its commands and the second freeze.
  unfoldable pub verify_tree :
      ℕ
      → Runner
      → Workflow
      → ContextSeal
      → Candidate
      → List CheckEvidence × Bool
      → Candidate
      → Verify VerificationResult
  verify_tree now runner w seal candidate checked after = do
    names ← changed_names seal w candidate
    made ← make_record now runner w candidate
    store_result now runner w seal (record {
      candidate = candidate;
      candidate_record = made;
      floor = deterministic_floor digest marshal w.route (changes_of names) runner.risk_policy;
      evidence = checked.0;
      passed = checked.1 && after.tree_oid == candidate.tree_oid;
    })

  unfoldable pub verify_candidate :
      ℕ → Runner → Workflow → ContextSeal → Plan → Candidate → Verify VerificationResult
  verify_candidate now runner w seal plan candidate = do
    checked ← run_plan w.id seal.repository_root candidate.tree_oid plan
    after ← freeze_candidate seal runner.policy
    verify_tree now runner w seal candidate checked after

  -- `Run` on a workflow with no stored result.
  unfoldable pub verify_new : ℕ → Runner → Workflow → ContextSeal → Plan → Verify VerificationResult
  verify_new now runner w seal plan = do
    candidate ← freeze_candidate seal runner.policy
    verify_candidate now runner w seal plan candidate

  unfoldable pub run_from :
      ℕ
      → Runner
      → Workflow
      → ContextSeal
      → Plan
      → Option VerificationResult
      → Verify VerificationResult
  run_from now runner w seal plan (some existing) = replay now runner w seal existing
  run_from now runner w seal plan none = verify_new now runner w seal plan

  -- `Run` on the workflow and the result that it finds.
  unfoldable pub run_on :
      ℕ
      → Runner
      → ContextSeal
      → Plan
      → Option Workflow
      → Option VerificationResult
      → Verify VerificationResult
  run_on now runner seal plan none existing = fail (from_store not_found)
  run_on now runner seal plan (some w) existing =
      if w.state == verifying then run_from now runner w seal plan existing else fail not_verifying

  unfoldable pub run : ℕ → Runner → Text → ContextSeal → Plan → Verify VerificationResult
  run now runner id seal plan s =
      run_on now runner seal plan (lookup id s.store.workflows) (lookup id s.runs) s
