-- ===== src/Orchestration/Tests.antt =====
-- A route of internal/orchestration/orchestration.go, and the theorem at it.
use skilar.Prelude.{◌≤◌, ◌≡◌, true, false, ◌&&◌, [], none, some, codes}
use skilar.Workflow.Types.{simple}
use skilar.Review.{rank, low, medium}
use skilar.Orchestration.{
  RouteInput, RouteOverride, is_simple, route_floor, plain_route, chosen_route, decision_of,
  overridden, select_route, risk_order, larger_risk,
}
use skilar.Orchestration.Routes.{select_route_keeps_floor}

-- What a run computes with.
computing : Unit {0}
unfolding rank route_floor plain_route chosen_route decision_of overridden select_route risk_order
    larger_risk
computing = tt

abbrev request : RouteInput
request = record { clear = true; estimated_slices = 1; blocking_uncertainty = []; sensitive = true }

abbrev as_simple : RouteOverride
as_simple = record { route = simple; actor = codes "ana"; reason = codes "small"; at = 4 }

select_route_keeps_floor_example :
    (rank low ≤ rank medium)
    × (rank medium ≤ rank (select_route request (some as_simple)).minimum_risk)
    × ((true && is_simple (select_route request none).route) ≡ false)
unfolding computing
select_route_keeps_floor_example = select_route_keeps_floor request (some as_simple)
