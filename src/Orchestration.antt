-- ===== src/Orchestration.antt =====
-- The choice of a route in internal/orchestration/orchestration.go.
pub mod Routes
pub mod Graph
pub mod Cycles
pub mod Orders
pub mod Tested
pub mod Acceptance
pub mod Wayfinder
pub mod Engine
pub mod Immutable
pub mod Plans
pub mod Closing
pub mod Frontier
mod Tests
pub mod PlanTests
use skilar.Prelude.{
  ℕ, ◌++◌, Bool, true, false, not, ◌&&◌, List, [], ◌∷◌, Option, none, some, Text, is_empty,
  if◌then◌else◌, ltb, leb, codes,
}
use skilar.Workflow.Types.{Route, simple, planned, discovery}
use skilar.Review.{ReviewRisk, low, medium, high, unknown}

pub record RouteInput : Type 0 where
  pub clear : Bool
  pub estimated_slices : ℕ
  pub blocking_uncertainty : List Text
  pub sensitive : Bool

pub record RouteOverride : Type 0 where
  pub route : Route
  pub actor : Text
  pub reason : Text
  pub at : ℕ

pub record RouteDecision : Type 0 where
  pub route : Route
  pub minimum_risk : ReviewRisk
  pub rationale : Text
  pub override : Option RouteOverride

unfoldable pub route_floor : Route → ReviewRisk
route_floor simple = low
route_floor _ = medium

-- `order`, which is 0 for an unknown risk.
unfoldable pub risk_order : ReviewRisk → ℕ
risk_order low = 0
risk_order medium = 1
risk_order high = 2
risk_order (unknown s) = 0

unfoldable pub larger_risk : ReviewRisk → ReviewRisk → ReviewRisk
larger_risk a b = if ltb (risk_order a) (risk_order b) then b else a

abbrev pub has_none : List Text → Bool
has_none [] = true
has_none (t ∷ ts) = false

-- The route and its rationale before the test for sensitivity.
unfoldable pub plain_route : RouteInput → Route × Text
plain_route input =
    if has_none input.blocking_uncertainty && input.clear
    then (if leb input.estimated_slices 1
        then (simple, codes "clear bounded request fits one production slice")
        else (planned, codes "clear request requires multiple production slices"))
    else (discovery, codes "blocking uncertainty requires discovery")

abbrev pub is_simple : Route → Bool
is_simple simple = true
is_simple _ = false

unfoldable pub chosen_route : RouteInput → Route × Text
chosen_route input =
    if input.sensitive && is_simple (plain_route input).0
    then (planned, codes "sensitive request requires planned execution")
    else plain_route input

unfoldable pub decision_of : Route × Text → RouteDecision
decision_of chosen = record {
  route = chosen.0;
  minimum_risk = route_floor chosen.0;
  rationale = chosen.1;
  override = none;
}

unfoldable pub overridden : RouteDecision → RouteOverride → RouteDecision
overridden d o = record {
  route = o.route;
  minimum_risk = larger_risk d.minimum_risk (route_floor o.route);
  rationale = codes "manual route override: " ++ o.reason;
  override = some o;
}

unfoldable pub select_route : RouteInput → Option RouteOverride → RouteDecision
select_route input none = decision_of (chosen_route input)
select_route input (some o) =
    let decision = decision_of (chosen_route input) in
    if not (is_empty o.actor) && not (is_empty o.reason) then overridden decision o else decision
