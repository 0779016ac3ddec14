-- ===== src/Orchestration/Engine.antt =====
-- `Engine` of internal/orchestration/orchestration.go over the SQL store. The tables of its artifacts
-- hold JSON, which `Encoders` writes; each statement and each call of the store is one step.
use skilar.Prelude.{
  ℕ, suc, ◌+◌, ◌++◌, Bool, true, false, not, ◌&&◌, ◌||◌, List, [], ◌∷◌, Option, none, some, Text,
  ◌==◌, if◌then◌else◌, Map, lookup, insert, insert_new, Result, ok, err, Action, pure, fail, gets,
  modify, fail_if, ◌>>=◌, ◌>>◌, u64, nat_eq, text_eq, pair_eq, codes, Comparable,
}
use skilar.Workflow.Types.{
  created, discovering, ready, unset, state_eq, Route, Risk, Workflow, Transition, Error,
  constraint,
}
use skilar.Workflow.Memory.{is_some}
use skilar.Workflow.Sqlite.{Database}
use skilar.Workflow.Sqlite
use skilar.Workflow.Sqlite.Slices.{decimal}
use skilar.Review.{ReviewRisk, low, medium, high, unknown}
use skilar.Orchestration.{RouteInput, RouteOverride, RouteDecision, select_route}
use skilar.Orchestration.Graph.{
  OrchestrationError, other_workflow, open_question, open_node, conflict, ExecutionGraph,
  validate_execution,
}
use skilar.Orchestration.Wayfinder.{
  fog, WayfinderNode, WayfinderGraph, ExecutableContract, frontier, validate_wayfinder,
  validate_contract, validate_graph_separation,
}

pub record EngineState : Type 0 where
  pub store : Database
  pub routes : Map Text Text
  pub wayfinders : Map (Text × ℕ) Text
  pub contracts : Map Text Text
  pub graphs : Map (Text × ℕ) Text

pub data EngineError : Type 0 where
  from_store : Error → EngineError
  refused : OrchestrationError → EngineError
  endless : EngineError

abbrev pub Step : Type 0 → Type 0
Step A = Action EngineState EngineError A

-- `json.Marshal` on the artifacts.
pub record Encoders : Type 0 where
  pub route_json : RouteDecision → Text
  pub wayfinder_json : WayfinderGraph → Text
  pub contract_json : ExecutableContract → Text
  pub graph_json : ExecutionGraph → Text

abbrev pub raised : {A : Type 0} → Result Error A → Result EngineError A
raised (ok a) = ok a
raised (err e) = err (from_store e)

-- A call of the store.
abbrev pub call : {A : Type 0} → Action Database Error A → Step A
call m s = let r = m s.store in (raised r.0, record s { store = r.1 })

abbrev pub differs : Text → Option Text → Bool
differs raw none = true
differs raw (some existing) = not (existing == raw)

-- A table of artifacts, by its key.
pub record Table (K : Type 0) : Type 0 where
  pub rows_in : EngineState → Map K Text
  pub with_rows : Map K Text → EngineState → EngineState

abbrev pub route_table : Table Text
route_table = record { rows_in = λ s. s.routes; with_rows = λ rows s. record s { routes = rows } }

abbrev pub wayfinder_table : Table (Text × ℕ)
wayfinder_table = record {
  rows_in = λ s. s.wayfinders;
  with_rows = λ rows s. record s { wayfinders = rows };
}

abbrev pub contract_table : Table Text
contract_table = record {
  rows_in = λ s. s.contracts;
  with_rows = λ rows s. record s { contracts = rows };
}

abbrev pub graph_table : Table (Text × ℕ)
graph_table = record { rows_in = λ s. s.graphs; with_rows = λ rows s. record s { graphs = rows } }

-- `insertImmutable`, whose row refers to a workflow that exists.
unfoldable pub insert_immutable :
    {K : Type 0} ⦃e : Comparable K⦄ → Table K → Text → K → Text → Step (Unit {0})
insert_immutable table id key raw = do
  fail_if (not (is_some (← gets (λ s. lookup id s.store.workflows)))) (from_store constraint)
  modify (λ s. table.with_rows (insert_new key raw (table.rows_in s)) s)
  fail_if (← gets (λ s. differs raw (lookup key (table.rows_in s)))) (refused conflict)

module _ (json : Encoders) where
  abbrev pub save_route : Text → RouteDecision → Step (Unit {0})
  save_route id decision = insert_immutable route_table id id (json.route_json decision)

  abbrev pub save_wayfinder : WayfinderGraph → Step (Unit {0})
  save_wayfinder g =
      insert_immutable wayfinder_table g.workflow_id (g.workflow_id, g.version)
        (json.wayfinder_json g)

  abbrev pub save_contract : Text → ExecutableContract → Step (Unit {0})
  save_contract id c = insert_immutable contract_table id id (json.contract_json c)

  abbrev pub save_execution : Text → ExecutionGraph → Step (Unit {0})
  save_execution id g = insert_immutable graph_table id (id, g.version) (json.graph_json g)

-- The same strings in the store; `select_route` never returns an unknown risk.
abbrev stored_risk : ReviewRisk → Risk
stored_risk low = Risk.low
stored_risk medium = Risk.medium
stored_risk high = Risk.high
stored_risk (unknown s) = Risk.unset

-- UPDATE workflows SET route=?, minimum_risk=? WHERE id=? AND state=? AND state_version=0
unfoldable pub routed : RouteDecision → Option Workflow → Map Text Workflow → Map Text Workflow
routed decision none rows = rows
routed decision (some w) rows =
    if w.state == created && w.state_version == 0
    then insert w.id
        (record w { route = decision.route; minimum_risk = stored_risk decision.minimum_risk }) rows
    else rows

unfoldable pub set_route : Text → RouteDecision → Step (Unit {0})
set_route id decision = modify (λ s. record s {
  store = record s.store {
    workflows = routed decision (lookup id s.store.workflows) s.store.workflows;
  };
})

fog_node : ℕ → Text → WayfinderNode
fog_node number question = record {
  id = codes "wfnode_fog_" ++ decimal number;
  type = fog;
  question = question;
  blocking = true;
  resolved = false;
  unlocks = [];
  answer = [];
  actor = [];
}

unfoldable pub fog_nodes : ℕ → List Text → List WayfinderNode
unfolding fog_node
fog_nodes i [] = []
fog_nodes i (item ∷ items) = fog_node (i + 1) item ∷ fog_nodes (suc i) items

abbrev is_discovery : Route → Bool
is_discovery Route.discovery = true
is_discovery _ = false

-- The graph that `Begin` saves.
unfoldable pub first_wayfinder : Text → RouteInput → RouteDecision → WayfinderGraph
first_wayfinder id input decision = record {
  workflow_id = id;
  version = 1;
  nodes = if is_discovery decision.route then fog_nodes 0 input.blocking_uncertainty else [];
  relations = [];
  closed = false;
}

unfoldable pub discover_request : Text → Transition
discover_request id = record {
  workflow_id = id;
  expected_state = created;
  expected_version = 0;
  next_state = discovering;
  idempotency_key = codes "orchestration:discover:v1";
  artifact_ids = (codes "wayfinder:" ++ decimal 1) ∷ [];
  resume_target = unset;
}

unfoldable pub ready_request : Text → ExecutionGraph → Transition
ready_request id execution = record {
  workflow_id = id;
  expected_state = discovering;
  expected_version = 1;
  next_state = ready;
  idempotency_key = codes "orchestration:ready:v1";
  artifact_ids = codes "contract:v1" ∷ (codes "execution:" ++ decimal execution.version) ∷ [];
  resume_target = unset;
}

unfoldable pub begin : Encoders → ℕ → Text → RouteInput → Option RouteOverride → Step RouteDecision
begin json now id input o = do
  let decision = select_route input o
  save_route json id decision
  set_route id decision
  save_wayfinder json (first_wayfinder id input decision)
  moved ← call (Sqlite.transition now (discover_request id))
  pure decision

abbrev pub holds_back : WayfinderNode → Bool
holds_back n = n.blocking && not n.resolved

unfoldable pub any_holds_back : List WayfinderNode → Bool
any_holds_back [] = false
any_holds_back (n ∷ nodes) = holds_back n || any_holds_back nodes

-- The first error of two tests.
unfoldable pub or_next : Option EngineError → Option EngineError → Option EngineError
or_next (some e) next = some e
or_next none next = next

unfoldable pub fails_if : Bool → OrchestrationError → Option EngineError
fails_if true e = some (refused e)
fails_if false e = none

unfoldable pub refuses : Option OrchestrationError → Option EngineError
refuses none = none
refuses (some e) = some (refused e)

unfoldable pub graph_error : Option (Result OrchestrationError (Unit {0})) → Option EngineError
graph_error none = some endless
graph_error (some (ok u)) = none
graph_error (some (err e)) = some (refused e)

-- The tests of `Close`, with `range` the order in which Go goes through a map.
unfoldable pub plan_error :
    (List Text → List Text)
    → Text
    → WayfinderGraph
    → ExecutableContract
    → ExecutionGraph
    → Option EngineError
plan_error range id graph contract execution =
    or_next
      (fails_if (not (graph.workflow_id == id) || not (execution.workflow_id == id)) other_workflow)
      (or_next (refuses (validate_wayfinder graph)) (
        or_next (fails_if (is_some (frontier graph)) open_question) (
          or_next (fails_if (any_holds_back graph.nodes) open_node) (
            or_next (refuses (validate_contract contract)) (
              or_next (graph_error (validate_execution range execution))
                (refuses (validate_graph_separation graph execution.slices)))))))

-- The writes of `Close`.
unfoldable pub store_plan :
    Encoders → ℕ → Text → WayfinderGraph → ExecutableContract → ExecutionGraph → Step (Unit {0})
store_plan json now id graph contract execution = do
  save_wayfinder json (record graph { closed = true; version = u64 (graph.version + 1) })
  save_contract json id contract
  save_execution json id execution
  moved ← call (Sqlite.transition now (ready_request id execution))
  pure tt

abbrev pub unless_refused : Option EngineError → Step (Unit {0}) → Step (Unit {0})
unless_refused (some e) body = fail e
unless_refused none body = body

unfoldable pub close :
    Encoders
    → (List Text → List Text)
    → ℕ
    → Text
    → WayfinderGraph
    → ExecutableContract
    → ExecutionGraph
    → Step (Unit {0})
close json range now id graph contract execution =
    unless_refused (plan_error range id graph contract execution)
      (store_plan json now id graph contract execution)
