-- ===== src/Workflow/Sqlite/Repairing.antt =====
-- Which slices ReconcileCompletedExecution of internal/workflow/sqlite.go completes.
use mathlib.Core.Path.{subst}
use skilar.Prelude.{
  ℕ, ◌≡◌, refl, sym, ap, ◌∙◌, ◌↔◌, ◌⊎◌, Bool, true, false, ◌||◌, [], ◌∷◌, Option, none, some, Text,
  arith, Map, lookup, ok, nat_eq, text_eq, text_beq_iff, pair_eq, pair_beq_iff, Result, Every, Any,
  transaction, bind_ok, transaction_ok, ◌>>=◌, pure, if◌then◌else◌,
}
use skilar.Workflow.Types.{Error}
use skilar.Workflow.Sqlite.{
  SliceStatus, active, completed, MutationAttempt, MutationOperation, OperationStatus, Database,
  Query,
}
use skilar.Workflow.Sqlite.Slices.{complete_execution_if_ready}
use skilar.Workflow.Sqlite.SliceLaws.{IsKeyed, complete_execution_if_ready_ok}
use skilar.Workflow.Sqlite.Repair.{
  operation_done, has_completed, has_retired_attempt, has_live_attempt, is_adopted, adopt_rows,
  adopt_completed_slices, reconcile_completed_execution,
}

module _ (id sid : Text) where
  abbrev IsFor : Text × MutationAttempt → Type 0
  IsFor row = (row.1.workflow_id ≡ id) × (row.1.slice_id ≡ sid)

  abbrev IsDone : Option MutationOperation → Type 0
  IsDone none = ⊥
  IsDone (some o) = (o.workflow_id ≡ id) × (o.status ≡ OperationStatus.completed)

  abbrev IsRetired : Map Text MutationOperation → Text × MutationAttempt → Type 0
  IsRetired operations row =
      IsFor row × (row.1.live ≡ false) × IsDone (lookup row.1.operation_id operations)

  abbrev IsStopped : Text × MutationAttempt → Type 0
  IsStopped row = IsFor row → row.1.live ≡ false

  -- A worker completed the mutation of the slice and retired its attempt, and no attempt of the
  -- slice is live.
  abbrev pub IsAbandoned : Database → Type 0
  IsAbandoned d =
      Any (IsRetired d.mutation_operations) d.mutation_attempts
      × Every IsStopped d.mutation_attempts

  has_completed-IsCompleted :
      (s : OperationStatus) → (has_completed s ≡ true) ↔ (s ≡ OperationStatus.completed)
  has_completed-IsCompleted s = ground arith

  operation_done-iff-IsDone :
      (a : MutationAttempt) (found : Option MutationOperation)
      → a.workflow_id ≡ id
      → (operation_done a found ≡ true) ↔ IsDone found
  operation_done-iff-IsDone a none own = ground arith
  operation_done-iff-IsDone a (some o) own =
      ground (arith, text_beq_iff o.workflow_id a.workflow_id, has_completed-IsCompleted o.status)

  has_retired_attempt-iff-Any :
      (operations : Map Text MutationOperation) (rows : Map Text MutationAttempt)
      → (has_retired_attempt id sid operations rows ≡ true) ↔ Any (IsRetired operations) rows
  unfolding has_retired_attempt
  has_retired_attempt-iff-Any operations [] = ground arith
  has_retired_attempt-iff-Any operations ((aid, a) ∷ rows) = ground (
    arith,
    has_retired_attempt-iff-Any operations rows,
    text_beq_iff a.workflow_id id,
    text_beq_iff a.slice_id sid,
    operation_done-iff-IsDone a (lookup a.operation_id operations),
  )

  has_live_attempt-iff-Every :
      (rows : Map Text MutationAttempt)
      → (has_live_attempt id sid rows ≡ false) ↔ Every IsStopped rows
  unfolding has_live_attempt
  has_live_attempt-iff-Every [] = ground arith
  has_live_attempt-iff-Every ((aid, a) ∷ rows) = ground (
    arith,
    has_live_attempt-iff-Every rows,
    text_beq_iff a.workflow_id id,
    text_beq_iff a.slice_id sid,
  )

-- What becomes of a row.
abbrev repaired_row : Text → Database → Text × Text → Option SliceStatus → Option SliceStatus
repaired_row id d key none = none
repaired_row id d key (some status) =
    if is_adopted id d key status then some completed else some status

lookup-adopt_rows :
    (id : Text) (d : Database) (key : Text × Text) (rows : Map (Text × Text) SliceStatus)
    → lookup key (adopt_rows id d rows).1 ≡ repaired_row id d key (lookup key rows)
unfolding adopt_rows lookup
lookup-adopt_rows id d key [] = refl
lookup-adopt_rows id d key ((other, status) ∷ rows) =
    ground (arith, lookup-adopt_rows id d key rows, pair_beq_iff other key)

is_adopted-IsAbandoned :
    (id : Text) (d : Database) (key : Text × Text) (status : SliceStatus)
    → (is_adopted id d key status ≡ true)
      ↔ ((key.0 ≡ id) × (status ≡ active) × IsAbandoned id key.1 d)
is_adopted-IsAbandoned id d key status = ground (
  arith,
  text_beq_iff key.0 id,
  has_retired_attempt-iff-Any id key.1 d.mutation_operations d.mutation_attempts,
  has_live_attempt-iff-Every id key.1 d.mutation_attempts,
)

-- What the repair of a workflow may do to a slice: complete it when it was active and abandoned, and
-- nothing else; and every such slice is completed.
unfoldable pub IsRepaired :
    Text → Database → Text × Text → Option SliceStatus → Option SliceStatus → Type 0
IsRepaired id d key before after =
    ((after ≡ before)
      ⊎ ((key.0 ≡ id) × (before ≡ some active) × IsAbandoned id key.1 d × (after ≡ some completed)))
    × (key.0 ≡ id → before ≡ some active → IsAbandoned id key.1 d → after ≡ some completed)

repaired_row-IsRepaired :
    (id : Text) (d : Database) (key : Text × Text) (before : Option SliceStatus)
    → IsRepaired id d key before (repaired_row id d key before)
unfolding IsRepaired
repaired_row-IsRepaired id d key none = ground arith
repaired_row-IsRepaired id d key (some status) =
    ground (arith, is_adopted-IsAbandoned id d key status)

module _ (now : ℕ) (id : Text) (version : ℕ) where
  abbrev finish : Bool → Query Bool
  finish repaired =
      complete_execution_if_ready now id version >>= λ advanced. pure (repaired || advanced)

  abbrev adopting : Database → Database
  adopting d = record d { execution_slice_state = (adopt_rows id d d.execution_slice_state).1 }

  finish_keeps :
      (repaired b : Bool) (d : Database)
      → IsKeyed id d
      → (finish repaired d).0 ≡ ok b
      → (finish repaired d).1.execution_slice_state ≡ d.execution_slice_state
  finish_keeps repaired b d keyed h =
      let (advanced, fine, after) =
        bind_ok (complete_execution_if_ready now id version) (λ a. pure (repaired || a)) d h in
      rw after (complete_execution_if_ready_ok now version id d keyed fine).0

  -- When the row of a workflow has its id, a repair that succeeds completes each slice of the workflow
  -- that was active and abandoned, and leaves every other slice as it was.
  pub repair_completes_abandoned :
      (d : Database) (b : Bool) (key : Text × Text)
      → IsKeyed id d
      → (reconcile_completed_execution now id version d).0 ≡ ok b
      → IsRepaired id d key
          (lookup key d.execution_slice_state)
          (lookup key (reconcile_completed_execution now id version d).1.execution_slice_state)
  unfolding reconcile_completed_execution adopt_completed_slices
  repair_completes_abandoned d b key keyed h =
      let body : Query Bool = adopt_completed_slices id >>= finish in
      let plain = transaction_ok body d h in
      let inside : (body d).0 ≡ ok b =
        sym (ap (λ (r : Result Error Bool × Database). r.0) plain) ∙ h in
      let slices =
        finish_keeps (adopt_rows id d d.execution_slice_state).0 b (adopting d) keyed inside in
      let kept : (transaction body d).1.execution_slice_state
          ≡ (adopt_rows id d d.execution_slice_state).1 =
        ap (λ (r : Result Error Bool × Database). r.1.execution_slice_state) plain ∙ slices in
      let before = lookup key d.execution_slice_state in
      subst (λ o. IsRepaired id d key before o)
        (sym
          (ap (λ rows. lookup key rows) kept ∙ lookup-adopt_rows id d key d.execution_slice_state))
        (repaired_row-IsRepaired id d key before)
