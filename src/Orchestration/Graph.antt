-- ===== src/Orchestration/Graph.antt =====
-- The execution graph of internal/orchestration/orchestration.go: `ValidateExecution`. The maps of
-- the code from an id to a number or a list are functions, 0 or empty where the code wrote nothing.
use skilar.Prelude.{
  ℕ, zero, suc, ◌-◌, ◌++◌, Bool, true, false, not, ◌||◌, List, [], ◌∷◌, map, Option, none, some,
  Text, ◌==◌, is_empty, if◌then◌else◌, length, contains, Result, ok, err, text_eq, nat_eq, codes,
}
use skilar.Review.{has_prefix}

pub data OrchestrationError : Type 0 where
  no_slices slice_prefix invalid_slice invalid_dependency cyclic : OrchestrationError
  node_prefix duplicate_node unknown_node_type unknown_node : OrchestrationError
  incomplete_contract empty_criterion open_decisions ids_overlap : OrchestrationError
  other_workflow open_question open_node conflict : OrchestrationError

pub record Slice : Type 0 where
  pub id : Text
  pub title : Text
  pub acceptance_criteria : List Text
  pub dependencies : List Text

pub record ExecutionGraph : Type 0 where
  pub workflow_id : Text
  pub version : ℕ  -- uint64
  pub slices : List Slice

abbrev pub no_items : List Text → Bool
no_items [] = true
no_items (t ∷ ts) = false

abbrev pub slice_ids : List Slice → List Text
slice_ids slices = map (λ s. s.id) slices

-- The first loop, after the slices whose ids are in `ids`: the error it returns.
unfoldable pub check_slices : List Text → List Slice → Option OrchestrationError
check_slices ids [] = none
check_slices ids (s ∷ rest) =
    let later = check_slices (s.id ∷ ids) rest in
    if not (has_prefix s.id (codes "slice_"))
    then some slice_prefix
    else if contains s.id ids || is_empty s.title || no_items s.acceptance_criteria
    then some invalid_slice
    else later

unfoldable pub bad_dependency : List Text → Text → List Text → Bool
bad_dependency ids id [] = false
bad_dependency ids id (dep ∷ deps) =
    not (contains dep ids) || dep == id || bad_dependency ids id deps

unfoldable pub check_dependencies : List Text → List Slice → Option OrchestrationError
check_dependencies ids [] = none
check_dependencies ids (s ∷ rest) =
    let later = check_dependencies ids rest in
    if bad_dependency ids s.id s.dependencies then some invalid_dependency else later

-- What the second loop goes through: a dependency and the slice that has it.
abbrev pub Link : Type 0
Link = Text × Text

unfoldable pub links_to : Text → List Text → List Link → List Link
links_to id [] after = after
links_to id (dep ∷ deps) after = (dep, id) ∷ links_to id deps after

unfoldable pub links_of : List Slice → List Link
links_of [] = []
links_of (s ∷ rest) = links_to s.id s.dependencies (links_of rest)

-- `indegree` and `edges` after the second loop.
unfoldable pub indegree_of : List Link → Text → ℕ
indegree_of [] id = 0
indegree_of ((dep, to) ∷ links) id =
    let others = indegree_of links id in if to == id then suc others else others

unfoldable pub edges_of : List Link → Text → List Text
edges_of [] id = []
edges_of ((dep, to) ∷ links) id =
    let others = edges_of links id in if dep == id then to ∷ others else others

-- The count of one slice goes down.
abbrev pub decrement : Text → (Text → ℕ) → Text → ℕ
decrement next indegree id = if next == id then indegree id - 1 else indegree id

-- The inner loop over `edges[id]`.
unfoldable pub release : List Text → (Text → ℕ) → List Text → (Text → ℕ) × List Text
release [] indegree queue = (indegree, queue)
release (next ∷ rest) indegree queue =
    let lower = decrement next indegree in
    release rest lower (if lower next == 0 then queue ++ next ∷ [] else queue)

-- The loop over the queue: `seen` at its end, or none when `fuel` rounds do not empty the queue.
unfoldable pub drain : ℕ → (Text → List Text) → (Text → ℕ) → List Text → ℕ → Option ℕ
drain fuel edges indegree [] seen = some seen
drain zero edges indegree (id ∷ queue) seen = none
drain (suc fuel) edges indegree (id ∷ queue) seen =
    let next = release (edges id) indegree queue in drain fuel edges next.0 next.1 (suc seen)

unfoldable pub sources_of : (Text → ℕ) → List Text → List Text
sources_of indegree [] = []
sources_of indegree (id ∷ ids) =
    let others = sources_of indegree ids in if indegree id == 0 then id ∷ others else others

abbrev pub compare_seen : ℕ → Option ℕ → Option (Result OrchestrationError (Unit {0}))
compare_seen ids none = none
compare_seen ids (some seen) = some (if seen == ids then ok tt else err cyclic)

-- The loop over the queue on a graph that passed the first two. Go goes through the keys of a map in
-- an order of its own, which is `range`.
unfoldable pub find_cycle :
    (List Text → List Text) → List Slice → Option (Result OrchestrationError (Unit {0}))
find_cycle range slices =
    let links = links_of slices in
    let ids = slice_ids slices in
    compare_seen (length ids) (
      drain (length ids) (edges_of links) (indegree_of links)
        (sources_of (indegree_of links) (range ids)) 0)

-- The error of the tests before the search for a cycle.
unfoldable pub first_error : List Slice → Option OrchestrationError
first_error [] = some no_slices
first_error (s ∷ rest) = elim (check_slices [] (s ∷ rest)) [
  | some e ↦ some e
  | none ↦ check_dependencies (slice_ids (s ∷ rest)) (s ∷ rest)
]

abbrev pub unless :
    Option OrchestrationError
    → Option (Result OrchestrationError (Unit {0}))
    → Option (Result OrchestrationError (Unit {0}))
unless (some e) found = some (err e)
unless none found = found

-- `none` stands for a loop that does not end.
unfoldable pub validate_execution :
    (List Text → List Text) → ExecutionGraph → Option (Result OrchestrationError (Unit {0}))
validate_execution range g = unless (first_error g.slices) (find_cycle range g.slices)
