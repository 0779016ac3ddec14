-- ===== src/Orchestration/Routes.antt =====
-- What a route of internal/orchestration/orchestration.go is worth.
use skilar.Prelude.{◌≤◌, ◌≡◌, false, ◌&&◌, Option, none, some, arith}
use skilar.Review.{rank}
use skilar.Orchestration.{
  RouteInput, RouteOverride, route_floor, risk_order, larger_risk, is_simple, chosen_route,
  decision_of, overridden, select_route,
}

-- With or without an override, the minimum risk is at least the floor of the route that is chosen and
-- at least the minimum risk of the request without an override. Without one, a sensitive request is
-- never simple.
pub select_route_keeps_floor :
    (input : RouteInput) (o : Option RouteOverride)
    → (rank (route_floor (select_route input o).route) ≤ rank (select_route input o).minimum_risk)
      × (rank (select_route input none).minimum_risk ≤ rank (select_route input o).minimum_risk)
      × ((input.sensitive && is_simple (select_route input none).route) ≡ false)
unfolding select_route overridden decision_of chosen_route route_floor larger_risk risk_order rank
select_route_keeps_floor input none = (ground arith, omega arith, ground arith)
select_route_keeps_floor input (some o) = (ground arith, ground arith, ground arith)
