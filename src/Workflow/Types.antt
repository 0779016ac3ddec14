-- ===== src/Workflow/Types.antt =====
-- The data of internal/workflow/types.go and the errors of store.go. Strings are their bytes and
-- times are nanoseconds.
use skilar.Prelude.{
  ℕ, ◌≡◌, ◌↔◌, ap, Bool, true, List, arith, Text, Comparable, nat_beq, nat_beq_iff,
}

-- The Go type is a string: `unset` is "", and strings that no constant names are left out.
pub data State : Type 0 where
  created discovering ready executing verifying candidate_frozen reviewing : State
  receipted delivered blocked replan_required integration_conflict aborted failed unset : State

tag : State → ℕ
tag State.created = 0
tag State.discovering = 1
tag State.ready = 2
tag State.executing = 3
tag State.verifying = 4
tag State.candidate_frozen = 5
tag State.reviewing = 6
tag State.receipted = 7
tag State.delivered = 8
tag State.blocked = 9
tag State.replan_required = 10
tag State.integration_conflict = 11
tag State.aborted = 12
tag State.failed = 13
tag State.unset = 14

unfoldable pub state_beq : State → State → Bool
unfolding tag
state_beq s t = nat_beq (tag s) (tag t)

tag-injective : (s t : State) → tag s ≡ tag t → s ≡ t
unfolding tag
tag-injective s t h = ground arith

pub state_beq_iff : (s t : State) → (state_beq s t ≡ true) ↔ (s ≡ t)
unfolding state_beq
state_beq_iff s t = (
  λ h. tag-injective s t ((nat_beq_iff (tag s) (tag t)).0 h),
  λ e. (nat_beq_iff (tag s) (tag t)).1 (ap tag e),
)

pub State-discrete : Discrete State
State-discrete = hlevel

instance abbrev pub state_eq : Comparable State
state_eq = record { test = state_beq; decides = state_beq_iff }

pub data Route : Type 0 where
  simple planned discovery : Route
  unset : Route

pub data Risk : Type 0 where
  low medium high : Risk
  unset : Risk

pub record Workflow : Type 0 where
  pub id : Text
  pub state : State
  pub state_version : ℕ  -- uint64
  pub route : Route
  pub minimum_risk : Risk
  pub basis_tree : Text
  pub resume_target : State

pub record Transition : Type 0 where
  pub workflow_id : Text
  pub expected_state : State
  pub expected_version : ℕ  -- uint64
  pub next_state : State
  pub idempotency_key : Text
  pub artifact_ids : List Text
  pub resume_target : State

pub record Event : Type 0 where
  pub sequence : ℕ  -- uint64
  pub workflow_id : Text
  pub from : State
  pub to : State
  pub state_version : ℕ  -- uint64
  pub idempotency_key : Text
  pub artifact_ids : List Text
  pub occurred_at : ℕ

pub data AttemptStatus : Type 0 where
  completed blocked retryable_failure failed cancelled : AttemptStatus

pub record Attempt : Type 0 where
  pub id : Text
  pub workflow_id : Text
  pub node_id : Text
  pub basis_tree : Text
  pub live : Bool

pub record ResultEnvelope : Type 0 where
  pub workflow_id : Text
  pub node_id : Text
  pub attempt_id : Text
  pub base_candidate_oid : Text
  pub status : AttemptStatus
  pub artifact_ids : List Text
  pub evidence_ids : List Text

pub record Lease : Type 0 where
  pub resource : Text
  pub owner : Text
  pub fencing_token : Text
  pub expires_at : ℕ

-- The errors of store.go, those that `Create` and `Transition` make on the spot, and those of
-- sqlite.go.
pub data Error : Type 0 where
  not_found already_exists illegal_transition cas_conflict idempotency_reuse : Error
  stale_result lease_conflict : Error
  empty_id create_not_initial empty_idempotency_key : Error
  graph_version_required concurrent_writer not_ready slice_not_active : Error
  not_executing never_applied constraint no_rows : Error
