-- ===== src/Orchestration/Immutable.antt =====
-- The artifacts of `Engine` in internal/orchestration/orchestration.go never change.
use skilar.Prelude.{
  ℕ, ◌≡◌, true, List, Option, none, some, Text, Map, lookup, insert_new, insert_new_keeps, Result,
  ok, err, Action, pure, ◌>>=◌, ◌>>◌, chained, ◌+◌, u64, nat_eq, text_eq, pair_eq, Comparable, inl,
  inr, Option-cases, Bool-cases,
}
use skilar.Workflow.Types.{Error}
use skilar.Workflow.Sqlite.{Database}
use skilar.Workflow.Sqlite
use skilar.Orchestration.{RouteInput, RouteOverride, RouteDecision, select_route}
use skilar.Orchestration.Graph.{ExecutionGraph}
use skilar.Orchestration.Wayfinder.{WayfinderGraph, ExecutableContract}
use skilar.Orchestration.Engine.{
  EngineState, EngineError, Step, Encoders, call, insert_immutable, save_route, save_wayfinder,
  save_contract, save_execution, Table, route_table, wayfinder_table, contract_table, graph_table,
  first_wayfinder, discover_request, ready_request, set_route, begin, plan_error, store_plan, close,
  unless_refused, differs,
}

-- What a table holds stays as it is.
abbrev pub Extends : {K : Type 0} ⦃e : Comparable K⦄ → Map K Text → Map K Text → Type 0
Extends {K} rows rows' =
    (key : K) (raw : Text) → lookup key rows ≡ some raw → lookup key rows' ≡ some raw

unfoldable pub Kept : EngineState → EngineState → Type 0
Kept s s' =
    Extends s.routes s'.routes
    × Extends s.wayfinders s'.wayfinders
    × Extends s.contracts s'.contracts
    × Extends s.graphs s'.graphs

Kept-refl : (s : EngineState) → Kept s s
unfolding Kept
Kept-refl s = (λ _ _ h. h, λ _ _ h. h, λ _ _ h. h, λ _ _ h. h)

Kept-trans : (s s' s'' : EngineState) → Kept s s' → Kept s' s'' → Kept s s''
unfolding Kept
Kept-trans s s' s'' a b = (
  λ k raw h. b.0 k raw (a.0 k raw h),
  λ k raw h. b.1 k raw (a.1 k raw h),
  λ k raw h. b.2 k raw (a.2 k raw h),
  λ k raw h. b.3 k raw (a.3 k raw h),
)

insert_new-Extends :
    {K : Type 0} ⦃e : Comparable K⦄ (key : K) (raw : Text) (rows : Map K Text)
    → Extends rows (insert_new key raw rows)
insert_new-Extends key raw rows asked old h = insert_new_keeps key asked raw old rows h

abbrev Keeps : {A : Type 0} → Step A → Type 0
Keeps m = (s : EngineState) → Kept s (m s).1

bind-Keeps :
    {A B : Type 0} (m : Step A) (f : A → Step B)
    → Keeps m
    → ((a : A) → Keeps (f a))
    → Keeps (m >>= f)
bind-Keeps {A} m f first next s = through (m s) (first s)
  where
    through : (r : Result EngineError A × EngineState) → Kept s r.1 → Kept s (chained f r).1
    through (ok a, s') kept = Kept-trans _ _ _ kept (next a s')
    through (err e, s') kept = kept

pub call-Keeps : {A : Type 0} (m : Action Database Error A) → Keeps (call m)
unfolding Kept
call-Keeps m s = (λ _ _ h. h, λ _ _ h. h, λ _ _ h. h, λ _ _ h. h)

insert_immutable-Keeps :
    {K : Type 0} ⦃e : Comparable K⦄ (table : Table K) (id : Text) (key : K) (raw : Text)
    → ((s : EngineState) → Kept s (table.with_rows (insert_new key raw (table.rows_in s)) s))
    → Keeps (insert_immutable table id key raw)
unfolding insert_immutable
insert_immutable-Keeps table id key raw kept s = elim (Option-cases (lookup id s.store.workflows)) [
  | inl unknown ↦ rw unknown (Kept-refl s)
  | inr (w, found) ↦
      let s' = table.with_rows (insert_new key raw (table.rows_in s)) s in
      rw found (elim (Bool-cases (differs raw (lookup key (table.rows_in s')))) [
        | inl other ↦ rw other (kept s)
        | inr same ↦ rw same (kept s)
      ])
]

module _ (json : Encoders) where
  save_route-Keeps : (id : Text) (r : RouteDecision) → Keeps (save_route json id r)
  unfolding Kept
  save_route-Keeps id r = insert_immutable-Keeps route_table id id (json.route_json r) (λ s.
      (insert_new-Extends id (json.route_json r) s.routes, λ _ _ h. h, λ _ _ h. h, λ _ _ h. h))

  save_wayfinder-Keeps : (g : WayfinderGraph) → Keeps (save_wayfinder json g)
  unfolding Kept
  save_wayfinder-Keeps g =
      insert_immutable-Keeps wayfinder_table g.workflow_id (g.workflow_id, g.version)
        (json.wayfinder_json g)
        (λ s. (
          λ _ _ h. h,
          insert_new-Extends (g.workflow_id, g.version) (json.wayfinder_json g) s.wayfinders,
          λ _ _ h. h,
          λ _ _ h. h,
        ))

  save_contract-Keeps : (id : Text) (c : ExecutableContract) → Keeps (save_contract json id c)
  unfolding Kept
  save_contract-Keeps id c =
      insert_immutable-Keeps contract_table id id (json.contract_json c) (λ s. (
        λ _ _ h. h,
        λ _ _ h. h,
        insert_new-Extends id (json.contract_json c) s.contracts,
        λ _ _ h. h,
      ))

  save_execution-Keeps : (id : Text) (g : ExecutionGraph) → Keeps (save_execution json id g)
  unfolding Kept
  save_execution-Keeps id g =
      insert_immutable-Keeps graph_table id (id, g.version) (json.graph_json g)
        (λ s. (
          λ _ _ h. h,
          λ _ _ h. h,
          λ _ _ h. h,
          insert_new-Extends (id, g.version) (json.graph_json g) s.graphs,
        ))

  store_plan-Keeps :
      (now : ℕ) (id : Text) (g : WayfinderGraph) (c : ExecutableContract) (e : ExecutionGraph)
      → Keeps (store_plan json now id g c e)
  unfolding store_plan
  store_plan-Keeps now id g c e =
      let shut : WayfinderGraph = record g { closed = true; version = u64 (g.version + 1) } in
      let move : Step (Unit {0}) =
        call (Sqlite.transition now (ready_request id e)) >>= λ _. pure tt in
      bind-Keeps (save_wayfinder json shut)
        (λ _. save_contract json id c >> (save_execution json id e >> move))
        (save_wayfinder-Keeps shut)
        (λ _.
          bind-Keeps (save_contract json id c) (λ _. save_execution json id e >> move)
            (save_contract-Keeps id c)
            (λ _.
              bind-Keeps (save_execution json id e) (λ _. move) (save_execution-Keeps id e)
                (λ _.
                  bind-Keeps (call (Sqlite.transition now (ready_request id e))) (λ _. pure tt)
                    (call-Keeps (Sqlite.transition now (ready_request id e))) (λ _. Kept-refl))))

  begin-Keeps :
      (now : ℕ) (id : Text) (input : RouteInput) (o : Option RouteOverride)
      → Keeps (begin json now id input o)
  unfolding begin set_route Kept
  begin-Keeps now id input o =
      let decision = select_route input o in
      let g = first_wayfinder id input decision in
      let move : Step RouteDecision =
        call (Sqlite.transition now (discover_request id)) >>= λ _. pure decision in
      bind-Keeps (save_route json id decision)
        (λ _. set_route id decision >> (save_wayfinder json g >> move))
        (save_route-Keeps id decision)
        (λ _.
          bind-Keeps (set_route id decision) (λ _. save_wayfinder json g >> move)
            (λ s. (λ _ _ h. h, λ _ _ h. h, λ _ _ h. h, λ _ _ h. h))
            (λ _.
              bind-Keeps (save_wayfinder json g) (λ _. move) (save_wayfinder-Keeps g)
                (λ _.
                  bind-Keeps (call (Sqlite.transition now (discover_request id)))
                    (λ _. pure decision) (call-Keeps (Sqlite.transition now (discover_request id)))
                    (λ _. Kept-refl))))

  close-Keeps :
      (range : List Text → List Text) (now : ℕ) (id : Text) (g : WayfinderGraph)
      (c : ExecutableContract) (e : ExecutionGraph)
      → Keeps (close json range now id g c e)
  unfolding close
  close-Keeps range now id g c e = refused-Keeps (plan_error range id g c e)
    where
      refused-Keeps :
          (o : Option EngineError) → Keeps (unless_refused o (store_plan json now id g c e))
      refused-Keeps none = store_plan-Keeps now id g c e
      refused-Keeps (some e) = Kept-refl

  -- Begin and Close never change a route, a Wayfinder graph, a contract or an execution graph that is
  -- stored, whether they succeed or not.
  pub artifacts_are_immutable :
      (range : List Text → List Text) (now : ℕ) (id : Text) (input : RouteInput)
      (o : Option RouteOverride) (g : WayfinderGraph) (c : ExecutableContract) (e : ExecutionGraph)
      (s : EngineState)
      → Kept s (begin json now id input o s).1 × Kept s (close json range now id g c e s).1
  artifacts_are_immutable range now id input o g c e s =
      (begin-Keeps now id input o s, close-Keeps range now id g c e s)
