-- ===== src/Orchestration/Plans.antt =====
-- What ValidateWayfinder, ValidateContract and ValidateGraphSeparation of
-- internal/orchestration/orchestration.go, and the test of `Close` on open nodes, make sure of.
use skilar.Prelude.{
  ◌&&◌, ◌||◌, ap, ℕ, ◌≡◌, ◌≢◌, refl, Bool, true, false, List, [], ◌∷◌, none, Text, ◌==◌, arith,
  Every, Any, inl, inr, contains, text_eq, nat_eq, text_beq_iff, codes, Bool-cases,
}
use skilar.Review.{has_prefix}
use skilar.Orchestration.Graph.{Slice}
use skilar.Orchestration.Wayfinder.{
  NodeType, other, WayfinderNode, Relation, WayfinderGraph, ExecutableContract, node_ids,
  is_known_type, check_nodes, check_relations, validate_wayfinder, is_blank, any_blank,
  validate_contract, overlaps, validate_graph_separation,
}
use skilar.Orchestration.Engine.{any_holds_back}

-- No blocking node is unresolved.
abbrev pub IsSettled : List WayfinderNode → Type 0
IsSettled nodes = Every (λ n. n.blocking ≡ true → n.resolved ≡ true) nodes

pub any_holds_back-IsSettled :
    (nodes : List WayfinderNode) → any_holds_back nodes ≡ false → IsSettled nodes
unfolding any_holds_back
any_holds_back-IsSettled [] h = tt
any_holds_back-IsSettled (n ∷ nodes) h =
    ((λ b. ground (arith, h, b)), any_holds_back-IsSettled nodes (ground (arith, h)))

-- No node and no slice have one id.
abbrev pub IsSeparate : List WayfinderNode → List Slice → Type 0
IsSeparate nodes slices =
    Every (λ (s : Slice). Every (λ (n : WayfinderNode). n.id ≢ s.id) nodes) slices

contains-Every :
    (id : Text) (nodes : List WayfinderNode)
    → contains id (node_ids nodes) ≡ false
    → Every (λ (n : WayfinderNode). n.id ≢ id) nodes
contains-Every id [] h = tt
contains-Every id (n ∷ nodes) h =
    ((λ e. ground (arith, h, text_beq_iff n.id id, e)), contains-Every id nodes (ground (arith, h)))

overlaps-IsSeparate :
    (nodes : List WayfinderNode) (slices : List Slice)
    → overlaps (node_ids nodes) slices ≡ false
    → IsSeparate nodes slices
unfolding overlaps
overlaps-IsSeparate nodes [] h = tt
overlaps-IsSeparate nodes (s ∷ slices) h = (
  contains-Every s.id nodes (ground (arith, h)),
  overlaps-IsSeparate nodes slices (ground (arith, h)),
)

pub validate_graph_separation-IsSeparate :
    (g : WayfinderGraph) (slices : List Slice)
    → validate_graph_separation g slices ≡ none
    → IsSeparate g.nodes slices
unfolding validate_graph_separation
validate_graph_separation-IsSeparate g slices h =
    overlaps-IsSeparate g.nodes slices (ground (arith, h))

abbrev white : List ℕ
white = 9 ∷ 10 ∷ 11 ∷ 12 ∷ 13 ∷ 32 ∷ []

-- A byte that is no white space of ASCII.
abbrev IsVisible : ℕ → Type 0
IsVisible b = contains b white ≡ false

abbrev pub SaysSomething : Text → Type 0
SaysSomething t = Any IsVisible t

first_false : (s p q : Bool) → s ≡ true → ((s && p) || q) ≡ false → p ≡ false
first_false s p q h e = ground (arith, h, e)

either_false : (p q : Bool) → (p || q) ≡ false → (p ≡ false) × (q ≡ false)
either_false p q e = (ground (arith, e), ground (arith, e))

is_blank-SaysSomething : (t : Text) → is_blank t ≡ false → SaysSomething t
unfolding is_blank
is_blank-SaysSomething [] h = absurd (ground (arith, h))
is_blank-SaysSomething (a ∷ []) h = inl h
is_blank-SaysSomething (a ∷ b ∷ []) h = elim (Bool-cases (contains a white)) [
  | inl space ↦ inr (is_blank-SaysSomething (b ∷ []) (first_false _ _ _ space h))
  | inr visible ↦ inl visible
]
is_blank-SaysSomething (a ∷ b ∷ c ∷ s) h = elim (Bool-cases (contains a white)) [
  | inl space ↦
      inr (is_blank-SaysSomething (b ∷ c ∷ s) (first_false _ _ _ space (either_false _ _ h).0))
  | inr visible ↦ inl visible
]

any_blank-Every : (ts : List Text) → any_blank ts ≡ false → Every SaysSomething ts
unfolding any_blank
any_blank-Every [] h = tt
any_blank-Every (t ∷ ts) h =
    (is_blank-SaysSomething t (ground (arith, h)), any_blank-Every ts (ground (arith, h)))

-- A contract with a destination and criteria, each of which says something, and no open decision.
pub record IsAgreed (c : ExecutableContract) : Type 0 where
  pub destination : SaysSomething c.destination
  pub some_criteria : c.acceptance_criteria ≢ []
  pub criteria : Every SaysSomething c.acceptance_criteria
  pub decided : c.blocking_decision_ids ≡ []

pub validate_contract-IsAgreed : (c : ExecutableContract) → validate_contract c ≡ none → IsAgreed c
unfolding validate_contract
validate_contract-IsAgreed c h = record {
  destination = is_blank-SaysSomething c.destination (ground (arith, h));
  some_criteria = λ e. ground (arith, h, e);
  criteria = any_blank-Every c.acceptance_criteria (ground (arith, h));
  decided = ground (arith, h);
}

abbrev IsDistinct : List Text → Type 0
IsDistinct [] = Unit
IsDistinct (id ∷ ids) = (contains id ids ≡ false) × IsDistinct ids

abbrev IsNamed : WayfinderNode → Type 0
IsNamed n = (has_prefix n.id (codes "wfnode_") ≡ true) × ((name : Text) → n.type ≢ other name)

-- A graph whose nodes have distinct ids with the prefix of nodes and a known type, and whose relations
-- join its nodes.
pub record IsMap (g : WayfinderGraph) : Type 0 where
  pub named : Every IsNamed g.nodes
  pub distinct : IsDistinct (node_ids g.nodes)
  pub joined :
      Every
        (λ (r : Relation).
          (contains r.from (node_ids g.nodes) ≡ true) × (contains r.to (node_ids g.nodes) ≡ true))
        g.relations

known : (t : NodeType) → is_known_type t ≡ true → (name : Text) → t ≢ other name
known t h name e = let f = ap (λ x. is_known_type x) e in cc

check_nodes_unseen :
    (seen : List Text) (nodes : List WayfinderNode) (id : Text)
    → contains id seen ≡ true
    → check_nodes seen nodes ≡ none
    → contains id (node_ids nodes) ≡ false
unfolding check_nodes
check_nodes_unseen seen [] id there h = refl
check_nodes_unseen seen (n ∷ nodes) id there h =
    let fresh : contains n.id seen ≡ false = ground (arith, h) in
    let differs : (n.id == id) ≡ false = elim (Bool-cases (n.id == id)) [
      | inl same ↦
          let e = ap (λ x. contains x seen) ((text_beq_iff n.id id).0 same) in
          absurd (ground (arith, fresh, there, e))
      | inr other_id ↦ other_id
    ] in
    let rest =
      check_nodes_unseen (n.id ∷ seen) nodes id (ground (arith, there, differs))
        (ground (arith, h)) in
    ground (arith, differs, rest)

check_nodes_ok :
    (seen : List Text) (nodes : List WayfinderNode)
    → check_nodes seen nodes ≡ none
    → Every IsNamed nodes × IsDistinct (node_ids nodes)
unfolding check_nodes
check_nodes_ok seen [] h = (tt, tt)
check_nodes_ok seen (n ∷ nodes) h =
    let later : check_nodes (n.id ∷ seen) nodes ≡ none = ground (arith, h) in
    let rest = check_nodes_ok (n.id ∷ seen) nodes later in
    let own : contains n.id (n.id ∷ seen) ≡ true = ground (arith, text_beq_iff n.id n.id) in
    (
      ((ground (arith, h), known n.type (ground (arith, h))), rest.0),
      (check_nodes_unseen (n.id ∷ seen) nodes n.id own later, rest.1),
    )

check_relations-Every :
    (ids : List Text) (relations : List Relation)
    → check_relations ids relations ≡ none
    → Every (λ (r : Relation). (contains r.from ids ≡ true) × (contains r.to ids ≡ true)) relations
unfolding check_relations
check_relations-Every ids [] h = tt
check_relations-Every ids (r ∷ relations) h = (
  (ground (arith, h), ground (arith, h)),
  check_relations-Every ids relations (ground (arith, h)),
)

pub validate_wayfinder-IsMap : (g : WayfinderGraph) → validate_wayfinder g ≡ none → IsMap g
unfolding validate_wayfinder
validate_wayfinder-IsMap g h =
    let nodes = check_nodes_ok [] g.nodes (ground (arith, h)) in
    record {
      named = nodes.0;
      distinct = nodes.1;
      joined = check_relations-Every (node_ids g.nodes) g.relations (ground (arith, h));
    }
