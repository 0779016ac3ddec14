-- ===== src/Lib.antt =====
-- Skynex plans software work, lets agents execute it, reviews the result and delivers it. Its
-- control plane is a store of workflows, each in one of fourteen states; the other parts move a
-- workflow by requests that name the state and the version that they expect.
--
-- Workflow.Types is internal/workflow/types.go: records for its structs, data types for its string
-- enumerations, with `unset` for the empty string. Error lists the errors that the two stores tell
-- apart. Text is a Go string as its list of bytes; times are natural numbers on one scale, and the
-- clock is an argument of the calls that read it.
--
-- Workflow.Machine is machine.go, the tables of legal steps and CanTransition; Machine.Steps is the
-- diagram of the steps as an indexed data type, and Machine.Documented the one of
-- docs/specs/orchestrator-v2/design-tree-revised.md, compared with them.
--
-- Workflow.Requests holds what both stores share: sameTransition, and `advance`, the part of
-- Transition that decides on the workflow that it has read. Requests.Laws has its laws.
--
-- Workflow.Memory is store.go: MemoryStore with its maps as association lists, and one action for
-- each method. The mutex makes a method one step. Memory.Calls is the step relation: a call is a
-- method with its arguments, and a run is a list of calls, hence any interleaving of the clients.
-- Frames says what a method leaves alone, Keys when its map keys agree with pairs, Steps what
-- Transition can come to; History, Idempotency, Versions, Leases, Attempts and Errors hold what
-- they are named for. Workflow.Replay reads a workflow back from its events, and
-- Workflow.Milestones follows a log through the four gates before delivery.
--
-- Workflow.Sqlite is sqlite.go: the tables of the schema as maps and lists, with the PRIMARY KEY,
-- UNIQUE and AUTOINCREMENT clauses written out, and Create and Transition. Sqlite.Slices has
-- ActivateExecutionSlice and CompleteExecutionSlice. A BEGIN IMMEDIATE transaction is one step,
-- rolled back on an error. The database carries what the store relies on of encoding/json and of
-- UnixNano as two functions, and JSON columns hold what is read back. Sqlite.Writes has the laws of
-- the three writes of a transition, Refinement and Creation relate the two stores, and Activation
-- and SliceLaws are about the slices. Sqlite.Work has the attempts, results and leases, and
-- WorkLaws relates the leases of the two stores. Sqlite.Repair has AdoptAppliedMutation and
-- ReconcileCompletedExecution, for a worker that died, and Repairing what the second one does.
--
-- Approval is internal/approval/approval.go: Issue, Require, Revoke and RevokeAll over three
-- tables. The digest (crypto/sha256) is a parameter.
--
-- Review is internal/review/review.go: the risk floor of a set of changes, with its loop as
-- functions that carry the risk and the reasons. Review.Candidate has candidate records and
-- evidence, and Review.Semantic the assessment on top of the floor. The digest and encoding/json
-- are parameters. Review.Receipts is store.go of the same directory: the receipts that a candidate
-- needs before delivery. Floor, Monotone, Assessment, Authority and Finality hold the theorems.
--
-- Delivery is internal/delivery/delivery.go: the gate that commits a candidate under the current
-- receipt of its workflow, with its intents for retries. What runs git (commitTree, updateRef,
-- gitText, and DetectDrift of internal/gitcandidate) and the hooks are the fields of a record of
-- operations on a state of the repository. Delivery.Intents is sqlite.go of the same directory, the
-- table of intents, and relates it to the map that the gate uses here.
--
-- Orchestration is internal/orchestration/orchestration.go: SelectRoute here, ValidateExecution in
-- Orchestration.Graph, the Wayfinder graph, Frontier and the contract in Orchestration.Wayfinder,
-- and Begin and Close over the SQL store in Orchestration.Engine. Cycles, Orders, Tested and
-- Acceptance show which graphs are accepted; Closing, Immutable, Frontier and Routes hold the other
-- theorems, and Plans what the tests of Close mean. encoding/json is a record of functions, and the
-- order in which Go goes through the keys of a map a function whose result has the same keys.
--
-- Execution is the scheduler of internal/execution/execution.go: NewScheduler, NextReady, Start and
-- Complete over the SQL store, with Starting and Progress for its theorems.
--
-- Verification is internal/verification/verification.go. Verification.Run is Runner.Run call by
-- call, with its replay of a stored result and UpdateRecoveryBasis of
-- internal/workflow/recovery.go; Verification.Buffer is the buffer for the output of a command, and
-- Unlimited shows what becomes of its limit. Stored results and recovery bases are held as the
-- values that their JSON encodes. Git, the commands and the artifact store are the fields of a
-- record of operations on a state of the machine.
--
-- Workflow.Jobs is internal/workflow/jobs.go: the detached jobs over the SQL store. Jobs.Endings
-- has their terminal states, the blocker of a failure, the technical retry and the cancellation,
-- Jobs.Updates two single statements on jobs, Jobs.Latest reads the tables apart from the code,
-- Jobs.Keeping goes through the calls that leave a job alone, and Jobs.Final and Jobs.Retrying have
-- the theorems.
--
-- uint64 counters wrap (`u64`). Two loops are on fuel: the printing of a decimal number in
-- Sqlite.Slices, where the number plus one is enough, since each digit divides it by ten, and the
-- queue of ValidateExecution, where the number of slices is enough, since a slice is queued once;
-- the theorem on the graphs that are accepted shows that it ends.
--
-- Prelude has the tests (an interface Comparable of a decidable equality), maps, lists and the
-- monad of methods that may return an error.
--
-- Not modelled: the files, migrations and locks of the SQL store, failures of the database itself,
-- the staleness of jobs and their notifications, the mutation broker, resuming and replanning, the
-- runners of external processes, and the evaluation harness.
pub mod Approval
pub mod Delivery
pub mod Execution
pub mod Orchestration
pub mod Prelude
pub mod Review
pub mod Verification
pub mod Workflow
