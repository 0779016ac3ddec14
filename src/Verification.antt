-- ===== src/Verification.antt =====
-- The verification of a candidate in internal/verification/verification.go: `Runner.Run`. Git, the
-- commands and the artifact store are the record of operations `Host W` on the state `W` of the
-- machine; crypto/sha256 and encoding/json are parameters. A stored result is kept as the value that
-- its JSON encodes, and the tables of bases, results, evidence and candidates as maps.
pub mod Buffer
pub mod Run
pub mod Covering
pub mod Verified
mod Tests
pub mod Unlimited
pub mod Collision
use skilar.Prelude.{
  ℕ, suc, ◌+◌, ◌++◌, Bool, true, false, not, ◌&&◌, ◌||◌, List, [], ◌∷◌, Option, none, some, Text,
  ◌==◌, is_empty, if◌then◌else◌, Map, lookup, insert, insert_new, Result, ok, err, Action, pure,
  fail, gets, modify, fail_if, or_fail, ◌>>=◌, ◌>>◌, text_eq, nat_eq, codes, length,
}
use skilar.Workflow.Types.{
  State, verifying, replan_required, candidate_frozen, unset, state_eq, Route, Workflow, Transition,
  Error, not_found, constraint,
}
use skilar.Workflow.Memory.{is_some}
use skilar.Workflow.Sqlite.{Database}
use skilar.Workflow.Sqlite
use skilar.Workflow.Sqlite.Slices.{decimal}
use skilar.Review.{has_prefix, Change, ChangeKind, RiskPolicy, RiskFloor, deterministic_floor, hash}
use skilar.Review.Candidate.{ContextSeal, Candidate, CandidateRecord, new_candidate_record}
use skilar.Verification.Buffer.{LimitBuffer, new_buffer, read_all}

pub record Command : Type 0 where
  pub name : Text
  pub args : List Text

pub record Plan : Type 0 where
  pub checks : List Command
  pub acceptance : List Command
  pub max_output_bytes : ℕ  -- 0 for a limit that is not positive

-- An exit code; `unknown` is -1.
pub data ExitCode : Type 0 where
  exited : ℕ → ExitCode
  unknown : ExitCode

pub record CheckEvidence : Type 0 where
  pub id : Text
  pub kind : Text
  pub candidate_tree : Text
  pub command : Text
  pub args : List Text
  pub exit_code : ExitCode
  pub output_digest : Text
  pub started_at : ℕ
  pub finished_at : ℕ
  pub truncated : Bool
  pub output_artifact_id : Text

pub record VerificationResult : Type 0 where
  pub candidate : Candidate
  pub candidate_record : CandidateRecord
  pub floor : RiskFloor
  pub evidence : List CheckEvidence
  pub passed : Bool

-- What a command did: whether it failed, with which code, and its output in the parts
-- in which it came.
pub record CommandRun : Type 0 where
  pub failed : Bool
  pub code : ExitCode
  pub writes : List Text
  pub started : ℕ
  pub finished : ℕ

-- What is not under the repository's control. A `none`, or a false of `before_transition`, is an
-- error; `run_command` answers none when the cache directory cannot be made.
pub record Host (W : Type 0) : Type 0 where
  pub freeze : ContextSeal → List Text → W → Option Candidate
  pub has_drifted : Candidate → List Text → W → Option Bool
  pub run_command : Text → Text → Command → W → Option CommandRun × W
  pub put_log : Text → Text → W → Option (Option Text) × W
  pub add_ref : Text → Text → W → W
  pub diff_names : Text → Text → Text → W → Option (List Text)
  pub before_transition : W → Bool × W

-- `RecoveryBasis` of internal/workflow/recovery.go.
pub record RecoveryBasis : Type 0 where
  pub seal : ContextSeal
  pub candidate_policy : List Text
  pub pre_tree_oid : Text
  pub post_tree_oid : Text
  pub candidate_tree_oid : Text
  pub candidate_record_id : Text
  pub policy_hash : Text

pub record VerificationState (W : Type 0) : Type 0 where
  pub store : Database
  pub bases : Map Text RecoveryBasis
  pub runs : Map Text VerificationResult
  pub evidence_rows : Map Text CheckEvidence
  pub candidate_rows : Map Text CandidateRecord
  pub host : W

pub data VerificationError : Type 0 where
  from_store : Error → VerificationError
  not_verifying drifted host_failed incomplete_record : VerificationError

pub record Runner : Type 0 where
  pub policy : List Text
  pub risk_policy : RiskPolicy
  pub engine_version : Text

unfoldable pub transition_key : Text → ℕ → Text
transition_key kind version = codes "verification:" ++ kind ++ codes ":v1:sv" ++ decimal version

unfoldable pub evidence_artifact_ids : List CheckEvidence → List Text
evidence_artifact_ids [] = []
evidence_artifact_ids (e ∷ items) =
    (if is_empty e.id then [] else e.id ∷ [])
    ++ (if is_empty e.output_artifact_id then [] else e.output_artifact_id ∷ [])
    ++ evidence_artifact_ids items

unfoldable pub exit_text : ExitCode → Text
exit_text (exited n) = decimal n
exit_text unknown = codes "-1"

-- The name of a run. It leaves out the arguments of the command.
unfoldable pub evidence_id : (Text → Text) → Text → Text → Text → ExitCode → Text → Text
evidence_id digest tree kind name exit output_digest =
    codes "ve_" ++ digest (tree ++ 0 ∷ kind ++ 0 ∷ name ++ 0 ∷ exit_text exit ++ 0 ∷ output_digest)

abbrev pub exit_of : CommandRun → ExitCode
exit_of r = if r.failed then r.code else exited 0

-- The evidence of `Evidence{}`.
abbrev pub no_evidence : CheckEvidence
no_evidence = record {
  id = [];
  kind = [];
  candidate_tree = [];
  command = [];
  args = [];
  exit_code = exited 0;
  output_digest = [];
  started_at = 0;
  finished_at = 0;
  truncated = false;
  output_artifact_id = [];
}

-- `runCommand` after the command: its evidence and its output.
unfoldable pub evidence_of :
    (Text → Text) → Text → Text → Command → ℕ → Option CommandRun → CheckEvidence × Text
evidence_of digest tree kind c limit none = (no_evidence, [])
evidence_of digest tree kind c limit (some r) =
    let buffer = read_all (new_buffer limit) r.writes in
    (
      record {
        id = evidence_id digest tree kind c.name (exit_of r) (digest buffer.content);
        kind = kind;
        candidate_tree = tree;
        command = c.name;
        args = c.args;
        exit_code = exit_of r;
        output_digest = digest buffer.content;
        started_at = r.started;
        finished_at = r.finished;
        truncated = buffer.truncated;
        output_artifact_id = [];
      },
      buffer.content,
    )

abbrev pub has_failed : Option CommandRun → Bool
has_failed none = true
has_failed (some r) = r.failed

-- `filepath.Base(path)` on a path of git, which ends in no slash.
unfoldable pub base_name : Text → Text → Text
base_name name [] = name
base_name name (b ∷ path) = if b == 47 then base_name path path else base_name name path

unfoldable pub has_infix : Text → Text → Bool
has_infix [] part = has_prefix [] part
has_infix (b ∷ s) part = has_prefix (b ∷ s) part || has_infix s part

unfoldable pub change_of : Text → Change
change_of path =
    let name = base_name path path in
    record {
      path = path;
      kind =
          if has_infix path (codes "schema") || has_infix path (codes "migration")
          then ChangeKind.schema
          else if name == codes "go.mod"
              || name == codes "go.sum"
              || name == codes "package.json"
              || name == codes "package-lock.json"
          then ChangeKind.dependency
          else ChangeKind.text;
    }

-- `candidateChanges` on the names that git prints.
unfoldable pub changes_of : List Text → List Change
changes_of [] = []
changes_of (path ∷ paths) =
    let rest = changes_of paths in if is_empty path then rest else change_of path ∷ rest

abbrev pub limit_or_default : ℕ → ℕ
limit_or_default limit = if limit == 0 then 1048576 else limit

unfoldable pub environment_with : List Text → Text → Text → List Text
environment_with [] key value = (key ++ 61 ∷ value) ∷ []
environment_with (item ∷ items) key value =
    let rest = environment_with items key value in
    if has_prefix item (key ++ 61 ∷ []) then rest else item ∷ rest
