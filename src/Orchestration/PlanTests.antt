-- ===== src/Orchestration/PlanTests.antt =====
-- A plan of internal/orchestration/orchestration.go, and the theorems at it.
use skilar.Prelude.{
  ◌≡◌, refl, ◌↔◌, true, false, List, [], ◌∷◌, none, some, Text, codes, Result, ok, err, text_beq,
  lookup, insert, insert_new, count, same_items,
}
use skilar.Workflow.Types.{State, state_beq, unset, Route, Risk, Workflow}
use skilar.Workflow.Machine.{can_transition}
use skilar.Workflow.Requests.{same_transition, bad_block, advance}
use skilar.Workflow.Sqlite
use skilar.Workflow.Sqlite.{
  reread_request, reread_workflow, Database, empty_database, has_event, next_sequence,
  update_workflow, insert_event, insert_idempotency, write_transition,
}
use skilar.Workflow.Sqlite.Slices.{decimal}
use skilar.Review.{has_prefix}
use skilar.Orchestration.{RouteInput, select_route}
use skilar.Orchestration.Graph.{
  OrchestrationError, Slice, ExecutionGraph, cyclic, check_slices, bad_dependency,
  check_dependencies, links_to, links_of, indegree_of, edges_of, release, drain, sources_of,
  find_cycle, first_error, validate_execution,
}
use skilar.Orchestration.Orders.{WellFormed, IsOrderable}
use skilar.Orchestration.Acceptance.{graph_accepted_iff}
use skilar.Orchestration.Wayfinder.{
  grill, WayfinderNode, WayfinderGraph, ExecutableContract, text_before, candidates, sorts_before,
  first_of, frontier, check_nodes, check_relations, validate_wayfinder, is_blank, any_blank,
  validate_contract, overlaps, validate_graph_separation,
}
use skilar.Orchestration.Engine.{
  EngineState, Encoders, insert_immutable, routed, set_route, fog_nodes, first_wayfinder,
  discover_request, ready_request, begin, any_holds_back, or_next, fails_if, refuses, graph_error,
  plan_error, store_plan, close,
}
use skilar.Orchestration.Immutable.{Kept, artifacts_are_immutable}
use skilar.Orchestration.Closing.{IsExecutable, IsStored, closed_plan-IsExecutable}
use skilar.Orchestration.Frontier.{IsAnswer, frontier_is_first}

-- What a run computes with.
computing : Unit {0}
unfolding text_beq lookup insert insert_new count same_items state_beq can_transition
    same_transition bad_block advance Sqlite.transition reread_request reread_workflow
    empty_database has_event next_sequence update_workflow insert_event insert_idempotency
    write_transition decimal has_prefix select_route check_slices bad_dependency check_dependencies
    links_to links_of indegree_of edges_of release drain sources_of find_cycle first_error
    validate_execution text_before candidates sorts_before first_of frontier check_nodes
    check_relations validate_wayfinder is_blank any_blank validate_contract overlaps
    validate_graph_separation insert_immutable routed set_route fog_nodes first_wayfinder
    discover_request ready_request begin any_holds_back or_next fails_if refuses graph_error
    plan_error store_plan close
computing = tt

abbrev pub named : Text → List Text → Slice
named id deps = record {
  id = id;
  title = codes "title";
  acceptance_criteria = codes "works" ∷ [];
  dependencies = deps;
}

abbrev graph_of : List Slice → ExecutionGraph
graph_of slices = record { workflow_id = codes "wf"; version = 1; slices = slices }

abbrev pub plan : ExecutionGraph
plan = graph_of (named (codes "slice_b") (codes "slice_a" ∷ []) ∷ named (codes "slice_a") [] ∷ [])

abbrev circle : ExecutionGraph
circle = graph_of (
    named (codes "slice_b") (codes "slice_a" ∷ [])
    ∷ named (codes "slice_a") (codes "slice_b" ∷ [])
    ∷ [])

abbrev pub in_order : List Text → List Text
in_order names = names

plan_accepted : validate_execution in_order plan ≡ some (ok tt)
unfolding computing
plan_accepted = refl

circle_refused : validate_execution in_order circle ≡ some (err cyclic)
unfolding computing
circle_refused = refl

graph_accepted_iff_example :
    (result : Result OrchestrationError (Unit {0})) × (validate_execution in_order circle
      ≡ some result)
    × ((result ≡ ok tt) ↔ (WellFormed circle.slices × IsOrderable circle.slices))
graph_accepted_iff_example = graph_accepted_iff in_order circle (λ names id. refl)

abbrev question : WayfinderNode
question = record {
  id = codes "wfnode_1";
  type = grill;
  question = codes "which?";
  blocking = true;
  resolved = false;
  unlocks = [];
  answer = [];
  actor = [];
}

abbrev answered : WayfinderNode
answered = record question { resolved = true }

abbrev asking : List WayfinderNode → WayfinderGraph
asking nodes = record {
  workflow_id = codes "wf";
  version = 1;
  nodes = nodes;
  relations = [];
  closed = false;
}

frontier_is_first_example :
    IsAnswer (question ∷ answered ∷ []) (frontier (asking (question ∷ answered ∷ [])))
frontier_is_first_example = frontier_is_first (asking (question ∷ answered ∷ []))

abbrev agreed : ExecutableContract
agreed = record {
  destination = codes "there";
  acceptance_criteria = codes "works" ∷ [];
  assumptions = [];
  risks = [];
  blocking_decision_ids = [];
}

abbrev writers : Encoders
writers = record {
  route_json = λ d. d.rationale;
  wayfinder_json = λ g. g.workflow_id;
  contract_json = λ c. c.destination;
  graph_json = λ g. g.workflow_id;
}

abbrev found : Workflow
found = record {
  id = codes "wf";
  state = State.discovering;
  state_version = 1;
  route = Route.discovery;
  minimum_risk = Risk.medium;
  basis_tree = codes "tree";
  resume_target = unset;
}

abbrev discovering : EngineState
discovering = record {
  store = record empty_database { workflows = (codes "wf", found) ∷ [] };
  routes = [];
  wayfinders = [];
  contracts = [];
  graphs = [];
}

closed :
    (close writers in_order 5 (codes "wf") (asking (answered ∷ [])) agreed plan discovering).0
    ≡ ok tt
unfolding computing
closed = refl

closed_plan-IsExecutable_example :
    IsExecutable (codes "wf") (asking (answered ∷ [])) agreed plan
    × IsStored writers 5
        (codes "wf")
        (asking (answered ∷ []))
        agreed
        plan
        (close writers in_order 5 (codes "wf") (asking (answered ∷ [])) agreed plan discovering).1
closed_plan-IsExecutable_example =
    closed_plan-IsExecutable writers in_order 5 (codes "wf") (asking (answered ∷ [])) agreed plan
      discovering (λ names name. refl) closed

abbrev vague : RouteInput
vague = record {
  clear = false;
  estimated_slices = 2;
  blocking_uncertainty = codes "which?" ∷ [];
  sensitive = false;
}

artifacts_are_immutable_example :
    Kept discovering (begin writers 5 (codes "wf") vague none discovering).1
    × Kept discovering
        (close writers in_order 5 (codes "wf") (asking (answered ∷ [])) agreed plan discovering).1
artifacts_are_immutable_example =
    artifacts_are_immutable writers in_order 5 (codes "wf") vague none (asking (answered ∷ []))
      agreed plan discovering
