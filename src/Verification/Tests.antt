-- ===== src/Verification/Tests.antt =====
-- A verification of internal/verification/verification.go on a small machine, and the theorems at it.
use skilar.Prelude.{
  ◌≡◌, ◌<◌, refl, true, false, [], ◌∷◌, none, some, Text, codes, ok, text_beq, text_eq, lookup,
  insert, insert_new, is_empty, same_items, Every, Map, Result, err, length, take,
}
use skilar.Workflow.Types.{state_beq, verifying, unset, Route, Risk, Workflow}
use skilar.Workflow.Machine.{can_transition}
use skilar.Workflow.Requests.{same_transition, bad_block, advance}
use skilar.Workflow.Sqlite
use skilar.Workflow.Sqlite.{
  reread_request, reread_workflow, empty_database, has_event, next_sequence, update_workflow,
  insert_event, insert_idempotency, write_transition,
}
use skilar.Workflow.Sqlite.Slices.{decimal}
use skilar.Review.{RiskPolicy, low, deterministic, default_risk_policy, hash}
use skilar.Review.Candidate.{
  ContextSeal, Candidate, CandidateRecord, insert_entry, sort_manifest, nameless,
  new_candidate_record, candidate_record_id, validate_candidate_record,
}
use skilar.Review.Naming.{new_record_validates}
use skilar.Verification.{
  Command, Plan, exited, CheckEvidence, VerificationResult, CommandRun, Host, VerificationState,
  VerificationError, Runner, transition_key, evidence_artifact_ids, exit_text, evidence_id,
  evidence_of,
}
use skilar.Verification.Buffer.{new_buffer, read_from, read_all, write_calls, joined}
use skilar.Verification.Unlimited.{output_is_unlimited}
use skilar.Verification.Run.{
  zero_basis, update_recovery_basis, with_candidate, verification_request, move, try_move,
  check_drift, run_hook, keep_output, run_group, run_plan, insert_rows, persist, freeze_workflow,
  replay, conclude, freeze_candidate, changed_names, make_record, store_result, verify_tree,
  verify_candidate, verify_new, run_from, run_on, run,
}
use skilar.Verification.Verified.{IsVerified, run-IsVerified}
use skilar.Verification.Collision.{like_runs_share_evidence}

-- What a run computes with.
computing : Unit {0}
unfolding text_beq lookup insert insert_new same_items state_beq can_transition same_transition
    bad_block advance Sqlite.transition reread_request reread_workflow empty_database has_event
    next_sequence update_workflow insert_event insert_idempotency write_transition decimal
    insert_entry sort_manifest new_candidate_record candidate_record_id transition_key
    evidence_artifact_ids exit_text evidence_id evidence_of read_from read_all update_recovery_basis
    with_candidate verification_request move try_move check_drift run_hook keep_output run_group
    run_plan insert_rows persist freeze_workflow replay conclude freeze_candidate changed_names
    make_record store_result verify_tree verify_candidate verify_new run_from run_on run hash
    default_risk_policy
computing = tt

abbrev plain_digest : Text → Text
plain_digest bytes = bytes

abbrev policy_json : RiskPolicy → Text
policy_json policy = policy.version

abbrev basis_json : CandidateRecord → Text
basis_json c = c.tree_oid

abbrev here : ContextSeal
here = record zero_basis.seal { repository_root = codes "/repo" }

abbrev frozen : Candidate
frozen = record { seal = here; tree_oid = codes "tree"; manifest = []; policy_hash = codes "p" }

abbrev quiet : CommandRun
quiet = record { failed = false; code = exited 0; writes = []; started = 1; finished = 2 }

-- A machine on which every command succeeds without output and nothing drifts.
abbrev machine : Host (Unit {0})
machine = record {
  freeze = λ seal policy w. some frozen;
  has_drifted = λ c policy w. some false;
  run_command = λ root tree c w. (some quiet, w);
  put_log = λ id output w. (some none, w);
  add_ref = λ artifact id w. w;
  diff_names = λ root base tree w. some [];
  before_transition = λ w. (true, w);
}

abbrev vet : Command
vet = record { name = codes "go"; args = codes "vet" ∷ [] }

abbrev build : Command
build = record { name = codes "go"; args = codes "build" ∷ [] }

abbrev both : Plan
both = record { checks = vet ∷ []; acceptance = build ∷ []; max_output_bytes = 0 }

abbrev checking : Workflow
checking = record {
  id = codes "wf";
  state = verifying;
  state_version = 4;
  route = Route.planned;
  minimum_risk = Risk.medium;
  basis_tree = codes "base";
  resume_target = unset;
}

abbrev before : VerificationState (Unit {0})
before = record {
  store = record empty_database { workflows = (codes "wf", checking) ∷ [] };
  bases = [];
  runs = [];
  evidence_rows = [];
  candidate_rows = [];
  host = tt;
}

abbrev checker : Runner
checker = record { policy = []; risk_policy = default_risk_policy; engine_version = codes "v1" }

-- What a run answers, or what stands in for an error.
abbrev answer_or :
    Result VerificationError VerificationResult → VerificationResult → VerificationResult
answer_or (ok r) other = r
answer_or (err e) other = other

abbrev nothing : VerificationResult
nothing = record {
  candidate = frozen;
  candidate_record = nameless plain_digest basis_json [] frozen [] [] 0;
  floor = record { floor_risk = low; depth = deterministic; policy_hash = []; reasons = [] };
  evidence = [];
  passed = false;
}

abbrev no_evidence_yet : Map Text CheckEvidence
no_evidence_yet = []

abbrev seen : VerificationResult
seen =
    answer_or
      (run machine plain_digest policy_json basis_json 9 checker (codes "wf") here both before).0
      nothing

seen_ok :
    (run machine plain_digest policy_json basis_json 9 checker (codes "wf") here both before).0
    ≡ ok seen
unfolding computing
seen_ok = refl

no_runs : lookup (codes "wf") before.runs ≡ none
unfolding computing
no_runs = refl

no_rows :
    lookup
      (evidence_of plain_digest (codes "tree") (codes "check") vet 10 (some quiet)).0.id
      no_evidence_yet
    ≡ none
unfolding computing
no_rows = refl

seen_passed : seen.passed ≡ true
unfolding computing
seen_passed = refl

run-IsVerified_example :
    (w : Workflow) × (lookup (codes "wf") before.store.workflows ≡ some w)
    × (w.state ≡ verifying)
    × IsVerified machine plain_digest policy_json basis_json w checker here both 9 before seen
run-IsVerified_example =
    run-IsVerified machine plain_digest policy_json basis_json 9 checker (codes "wf") here both
      before seen no_runs seen_ok seen_passed

like_runs_share_evidence_example :
    let first = (evidence_of plain_digest (codes "tree") (codes "check") vet 10 (some quiet)).0 in
    let second =
      (evidence_of plain_digest (codes "tree") (codes "check") build 10 (some quiet)).0 in
    (second.id ≡ first.id)
    × (lookup second.id (
          insert_rows machine plain_digest policy_json basis_json
            (first ∷ second ∷ [])
            no_evidence_yet)
        ≡ some first)
like_runs_share_evidence_example =
    like_runs_share_evidence machine plain_digest policy_json basis_json (codes "tree")
      (codes "check") vet build 10 quiet quiet [] no_evidence_yet refl refl refl no_rows

made :
    new_candidate_record plain_digest basis_json (codes "wf") frozen (codes "h") (codes "v1") 3
    ≡ some
        (record (nameless plain_digest basis_json (codes "wf") frozen (codes "h") (codes "v1") 3) {
          id = codes "cand_tree";
        })
unfolding computing
made = refl

new_record_validates_example :
    validate_candidate_record plain_digest basis_json
      (record (nameless plain_digest basis_json (codes "wf") frozen (codes "h") (codes "v1") 3) {
        id = codes "cand_tree";
      })
    ≡ ok tt
new_record_validates_example =
    new_record_validates plain_digest basis_json (codes "wf") frozen (codes "h") (codes "v1") 3
      (record (nameless plain_digest basis_json (codes "wf") frozen (codes "h") (codes "v1") 3) {
        id = codes "cand_tree";
      })
      made refl

-- A command that writes four bytes under a limit of three.
abbrev chatty : CommandRun
chatty = record quiet { writes = codes "ab" ∷ codes "cd" ∷ [] }

output_is_unlimited_example :
    let found = evidence_of plain_digest (codes "tree") (codes "check") vet 3 (some chatty) in
    let written = write_calls (new_buffer 3) chatty.writes in
    (found.1 ≡ joined chatty.writes)
    × (found.0.truncated ≡ false)
    × (found.0.output_digest ≡ joined chatty.writes)
    × (written.content ≡ take 3 (joined chatty.writes))
    × (Every (λ (p : Text). is_empty p ≡ false) chatty.writes
        → written.truncated ≡ true
        → 3 < length (joined chatty.writes))
output_is_unlimited_example =
    output_is_unlimited plain_digest (codes "tree") (codes "check") vet 3 chatty
