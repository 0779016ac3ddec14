-- ===== src/Orchestration/Wayfinder.antt =====
-- The Wayfinder graph and the contract of internal/orchestration/orchestration.go.
use skilar.Prelude.{
  ℕ, Bool, true, false, not, ◌&&◌, ◌||◌, List, [], ◌∷◌, Option, none, some, Text, ◌==◌, is_empty,
  if◌then◌else◌, length, contains, text_eq, nat_eq, nat_beq, codes, ltb, map,
}
use skilar.Review.{has_prefix}
use skilar.Orchestration.Graph.{
  OrchestrationError, incomplete_contract, empty_criterion, open_decisions, ids_overlap,
  node_prefix, duplicate_node, unknown_node_type, unknown_node, Slice, no_items,
}

-- The Go type is a string: `other` is one that no constant names.
pub data NodeType : Type 0 where
  decision fog research prototype grill : NodeType
  other : Text → NodeType

pub record WayfinderNode : Type 0 where
  pub id : Text
  pub type : NodeType
  pub question : Text
  pub blocking : Bool
  pub resolved : Bool
  pub unlocks : List Text
  pub answer : Text
  pub actor : Text

pub record Relation : Type 0 where
  pub from : Text
  pub to : Text
  pub type : Text

pub record WayfinderGraph : Type 0 where
  pub workflow_id : Text
  pub version : ℕ  -- uint64
  pub nodes : List WayfinderNode
  pub relations : List Relation
  pub closed : Bool

pub record ExecutableContract : Type 0 where
  pub destination : Text
  pub acceptance_criteria : List Text
  pub assumptions : List Text
  pub risks : List Text
  pub blocking_decision_ids : List Text

-- Go's order on strings, byte by byte.
unfoldable pub text_before : Text → Text → Bool
text_before s [] = false
text_before [] (b ∷ bs) = true
text_before (a ∷ as') (b ∷ bs) = ltb a b || (nat_beq a b && text_before as' bs)

abbrev pub is_grill : NodeType → Bool
is_grill grill = true
is_grill _ = false

abbrev pub is_candidate : WayfinderNode → Bool
is_candidate n = is_grill n.type && n.blocking && not n.resolved && not (is_empty n.question)

unfoldable pub candidates : List WayfinderNode → List WayfinderNode
candidates [] = []
candidates (n ∷ nodes) = let rest = candidates nodes in if is_candidate n then n ∷ rest else rest

-- The test that the sort is given.
unfoldable pub sorts_before : WayfinderNode → WayfinderNode → Bool
sorts_before a b =
    if length a.unlocks == length b.unlocks
    then text_before a.id b.id
    else ltb (length b.unlocks) (length a.unlocks)

-- The first of the sorted candidates: one that no other sorts before.
unfoldable pub first_of : WayfinderNode → List WayfinderNode → WayfinderNode
first_of best [] = best
first_of best (n ∷ nodes) = first_of (if sorts_before n best then n else best) nodes

abbrev pub first_candidate : List WayfinderNode → Option WayfinderNode
first_candidate [] = none
first_candidate (n ∷ nodes) = some (first_of n nodes)

unfoldable pub frontier : WayfinderGraph → Option WayfinderNode
frontier g = first_candidate (candidates g.nodes)

abbrev pub is_known_type : NodeType → Bool
is_known_type (other name) = false
is_known_type _ = true

abbrev pub node_ids : List WayfinderNode → List Text
node_ids nodes = map (λ n. n.id) nodes

unfoldable pub check_nodes : List Text → List WayfinderNode → Option OrchestrationError
check_nodes ids [] = none
check_nodes ids (n ∷ nodes) =
    let later = check_nodes (n.id ∷ ids) nodes in
    if not (has_prefix n.id (codes "wfnode_"))
    then some node_prefix
    else if contains n.id ids
    then some duplicate_node
    else if not (is_known_type n.type)
    then some unknown_node_type
    else later

unfoldable pub check_relations : List Text → List Relation → Option OrchestrationError
check_relations ids [] = none
check_relations ids (r ∷ relations) =
    let later = check_relations ids relations in
    if not (contains r.from ids) || not (contains r.to ids) then some unknown_node else later

-- What the second test returns after the first.
abbrev pub or_else :
    Option OrchestrationError → Option OrchestrationError → Option OrchestrationError
or_else (some e) next = some e
or_else none next = next

unfoldable pub validate_wayfinder : WayfinderGraph → Option OrchestrationError
validate_wayfinder g =
    or_else (check_nodes [] g.nodes) (check_relations (node_ids g.nodes) g.relations)

-- White space of one, two and three bytes in UTF-8.
abbrev is_space : ℕ → Bool
is_space a = contains a (9 ∷ 10 ∷ 11 ∷ 12 ∷ 13 ∷ 32 ∷ [])

abbrev is_space_pair : ℕ → ℕ → Bool
is_space_pair a b = a == 194 && contains b (133 ∷ 160 ∷ [])

abbrev is_space_triple : ℕ → ℕ → ℕ → Bool
is_space_triple a b c =
    (a == 225 && b == 154 && c == 128)
    || (a == 226 && b == 128 && (ltb 127 c && ltb c 139 || contains c (168 ∷ 169 ∷ 175 ∷ [])))
    || (a == 226 && b == 129 && c == 159)
    || (a == 227 && b == 128 && c == 128)

-- `strings.TrimSpace(s) == ""`
unfoldable pub is_blank : Text → Bool
is_blank [] = true
is_blank (a ∷ []) = is_space a
is_blank (a ∷ b ∷ []) = (is_space a && is_blank (b ∷ [])) || is_space_pair a b
is_blank (a ∷ b ∷ c ∷ s) =
    (is_space a && is_blank (b ∷ c ∷ s))
    || (is_space_pair a b && is_blank (c ∷ s))
    || (is_space_triple a b c && is_blank s)

unfoldable pub any_blank : List Text → Bool
any_blank [] = false
any_blank (t ∷ ts) = is_blank t || any_blank ts

unfoldable pub validate_contract : ExecutableContract → Option OrchestrationError
validate_contract c =
    if is_blank c.destination || no_items c.acceptance_criteria
    then some incomplete_contract
    else if any_blank c.acceptance_criteria
    then some empty_criterion
    else if not (no_items c.blocking_decision_ids)
    then some open_decisions
    else none

unfoldable pub overlaps : List Text → List Slice → Bool
overlaps ids [] = false
overlaps ids (s ∷ slices) = contains s.id ids || overlaps ids slices

unfoldable pub validate_graph_separation : WayfinderGraph → List Slice → Option OrchestrationError
validate_graph_separation w slices =
    if overlaps (node_ids w.nodes) slices then some ids_overlap else none
