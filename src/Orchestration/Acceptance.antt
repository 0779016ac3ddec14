-- ===== src/Orchestration/Acceptance.antt =====
-- Which graphs `ValidateExecution` of internal/orchestration/orchestration.go accepts.
use skilar.Prelude.{
  ◌≡◌, ◌↔◌, true, ◌||◌, List, [], ◌∷◌, Option-cases, some, Text, contains, Result, ok, err, text_eq,
  count, arith, ◌∙◌, ◌==◌, ap, inl, inr,
}
use skilar.Orchestration.Graph.{
  OrchestrationError, Slice, ExecutionGraph, Link, links_to, links_of, edges_of, slice_ids,
  first_error, unless, find_cycle, validate_execution,
}
use skilar.Orchestration.Orders.{IsOrderable, WellFormed, missing_iff, ordered_iff}
use skilar.Orchestration.Tested.{first_error_iff}
use skilar.Orchestration.Cycles.{search_lem}

ends_links_to :
    (own : Text) (deps : List Text) (after : List Link) (id next : Text)
    → contains next (edges_of (links_to own deps after) id) ≡ true
    → ((own == next) || contains next (edges_of after id)) ≡ true
unfolding edges_of links_to
ends_links_to own [] after id next h = ground (arith, h)
ends_links_to own (dep ∷ deps) after id next h =
    ground (arith, h, ends_links_to own deps after id next)

-- A link ends at a slice.
ends_links_of :
    (slices : List Slice) (id next : Text)
    → contains next (edges_of (links_of slices) id) ≡ true
    → contains next (slice_ids slices) ≡ true
unfolding edges_of links_of
ends_links_of [] id next h = absurd (ground (arith, h))
ends_links_of (s ∷ rest) id next h =
    ground (
      arith,
      ends_links_to s.id s.dependencies (links_of rest) id next h,
      ends_links_of rest id next,
    )

-- ValidateExecution ends on every graph, whatever the order in which Go goes through a map, and
-- accepts it exactly when it has slices, each with the prefix, a title, a criterion and an id of its
-- own, every dependency is another of its slices, and the slices have an order in which each comes
-- after its dependencies.
pub graph_accepted_iff :
    (range : List Text → List Text) (g : ExecutionGraph)
    → ((names : List Text) (id : Text) → count id (range names) ≡ count id names)
    → (result : Result OrchestrationError (Unit {0})) × (validate_execution range g ≡ some result)
      × ((result ≡ ok tt) ↔ (WellFormed g.slices × IsOrderable g.slices))
unfolding validate_execution
graph_accepted_iff range g same = elim (Option-cases (first_error g.slices)) [
  | inl passed ↦
      let formed = (first_error_iff g.slices).0 passed in
      let found =
        search_lem range g.slices same formed.distinct
          (λ id.
            (missing_iff (slice_ids g.slices) g.slices id).1
              (λ dep listed. (formed.known id dep listed).0))
          (ends_links_of g.slices) in
      (
        found.0,
        ap (λ e. unless e (find_cycle range g.slices)) passed ∙ found.1,
        (
          λ accepted.
              let order = found.2.0 accepted in
              (formed, (order.0, (ordered_iff g.slices order.0).0 order.1, order.2)),
          λ both. found.2.1 (both.1.0, (ordered_iff g.slices both.1.0).1 both.1.1, both.1.2),
        ),
      )
  | inr (e, failed) ↦ (
    err e,
    ap (λ e. unless e (find_cycle range g.slices)) failed,
    (
      λ accepted. absurd (ground (arith, accepted)),
      λ both. absurd (ground (arith, failed, (first_error_iff g.slices).1 both.0)),
    ),
  )
]
