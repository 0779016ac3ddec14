-- ===== src/Orchestration/Closing.antt =====
-- What `Close` of internal/orchestration/orchestration.go has made sure of when it succeeds.
use mathlib.Core.Path.{subst}
use skilar.Prelude.{
  ℕ, ◌+◌, ◌≡◌, refl, sym, ap, ◌∙◌, Bool, true, false, List, Option, none, some, Text, ◌==◌, lookup,
  insert_new, Result, ok, err, pure, ◌>>=◌, ◌>>◌, nat_eq, text_eq, pair_eq, arith, inl, inr,
  Option-cases, Bool-cases, u64, count, bind_ok, text_beq_iff,
}
use mathlib.Core.Option.{some-injective}
use skilar.Workflow.Sqlite
use skilar.Orchestration.Graph.{ExecutionGraph, OrchestrationError}
use skilar.Orchestration.Orders.{WellFormed, IsOrderable}
use skilar.Orchestration.Acceptance.{graph_accepted_iff}
use skilar.Orchestration.Wayfinder.{WayfinderGraph, ExecutableContract}
use skilar.Orchestration.Plans.{
  IsMap, IsSettled, IsAgreed, IsSeparate, validate_wayfinder-IsMap, any_holds_back-IsSettled,
  validate_contract-IsAgreed, validate_graph_separation-IsSeparate,
}
use skilar.Orchestration.Engine.{
  EngineState, EngineError, Step, Encoders, call, insert_immutable, save_wayfinder, save_contract,
  save_execution, ready_request, plan_error, store_plan, close, unless_refused, or_next, fails_if,
  refuses, graph_error,
}

or_next-none : (a b : Option EngineError) → or_next a b ≡ none → (a ≡ none) × (b ≡ none)
unfolding or_next
or_next-none none b h = (refl, h)
or_next-none (some e) b h = absurd (ground (arith, h))

fails_if-none : (b : Bool) (e : OrchestrationError) → fails_if b e ≡ none → b ≡ false
unfolding fails_if
fails_if-none b e h = ground arith

refuses-none : (o : Option OrchestrationError) → refuses o ≡ none → o ≡ none
unfolding refuses
refuses-none o h = ground arith

graph_error-none :
    (o : Option (Result OrchestrationError (Unit {0}))) → graph_error o ≡ none → o ≡ some (ok tt)
unfolding graph_error
graph_error-none none h = absurd (ground (arith, h))
graph_error-none (some (ok tt)) h = refl
graph_error-none (some (err e)) h = absurd (ground (arith, h))

-- What a plan fulfils that Close lets through.
pub record IsExecutable (id : Text) (g : WayfinderGraph) (c : ExecutableContract)
    (e : ExecutionGraph) : Type 0 where
  pub same_workflow : (g.workflow_id ≡ id) × (e.workflow_id ≡ id)
  pub map : IsMap g
  pub settled : IsSettled g.nodes
  pub agreed : IsAgreed c
  pub well_formed : WellFormed e.slices
  pub orderable : IsOrderable e.slices
  pub separate : IsSeparate g.nodes e.slices

module _ (range : List Text → List Text) (id : Text) (g : WayfinderGraph) (c : ExecutableContract)
    (e : ExecutionGraph)
    (same : (names : List Text) (name : Text) → count name (range names) ≡ count name names) where
  plan_error_lem : plan_error range id g c e ≡ none → IsExecutable id g c e
  unfolding plan_error
  plan_error_lem h =
      let (ids, h1) = or_next-none _ _ h in
      let (wayfinder, h2) = or_next-none _ _ h1 in
      let (question, h3) = or_next-none _ _ h2 in
      let (open_nodes, h4) = or_next-none _ _ h3 in
      let (contract, h5) = or_next-none _ _ h4 in
      let (graph, apart) = or_next-none _ _ h5 in
      let found = graph_accepted_iff range e same in
      let both = found.2.0 (some-injective _ _ (sym found.1 ∙ graph_error-none _ graph)) in
      let ids_false = fails_if-none _ _ ids in
      record {
        same_workflow =
            ground (arith, ids_false, text_beq_iff g.workflow_id id, text_beq_iff e.workflow_id id);
        map = validate_wayfinder-IsMap g (refuses-none _ wayfinder);
        settled = any_holds_back-IsSettled g.nodes (fails_if-none _ _ open_nodes);
        agreed = validate_contract-IsAgreed c (refuses-none _ contract);
        well_formed = both.0;
        orderable = both.1;
        separate = validate_graph_separation-IsSeparate g e.slices (refuses-none _ apart);
      }

module _ (json : Encoders) (now : ℕ) (id : Text) (g : WayfinderGraph) (c : ExecutableContract)
    (e : ExecutionGraph) where
  abbrev pub key : Text × ℕ
  key = (id, e.version)

  abbrev pub IsStored : EngineState → Type 0
  IsStored s = lookup key s.graphs ≡ some (json.graph_json e)

  save_execution_ok :
      (s : EngineState)
      → (save_execution json id e s).0 ≡ ok tt
      → IsStored (save_execution json id e s).1
  unfolding insert_immutable
  save_execution_ok s h = elim (Option-cases (lookup id s.store.workflows)) [
    | inl unknown ↦ let bad = rw unknown at h in cc
    | inr (w, found) ↦
        let s' = record s { graphs = insert_new key (json.graph_json e) s.graphs } in
        let written = rw found at h in
        rw found (elim (Option-cases (lookup key s'.graphs)) [
          | inl none_there ↦ let bad = rw none_there at written in cc
          | inr (raw, there) ↦ elim (Bool-cases (raw == json.graph_json e)) [
            | inl alike ↦
                rw (there, alike) (there ∙ ap some ((text_beq_iff raw (json.graph_json e)).0 alike))
            | inr other ↦ let bad = rw (there, other) at written in cc
          ]
        ])
  ]

  store_plan_ok :
      (s : EngineState)
      → (store_plan json now id g c e s).0 ≡ ok tt
      → IsStored (store_plan json now id g c e s).1
  unfolding store_plan
  store_plan_ok s h =
      let shut : WayfinderGraph = record g { closed = true; version = u64 (g.version + 1) } in
      let request = ready_request id e in
      let moving = call (Sqlite.transition now request) in
      let move : Step (Unit {0}) = moving >>= λ _. pure tt in
      let (_, _, after1) =
        bind_ok (save_wayfinder json shut)
          (λ _. save_contract json id c >> (save_execution json id e >> move)) s h in
      let s1 = (save_wayfinder json shut s).1 in
      let h1 = sym (ap (λ (r : Result EngineError (Unit {0}) × EngineState). r.0) after1) ∙ h in
      let (_, _, after2) =
        bind_ok (save_contract json id c) (λ _. save_execution json id e >> move) s1 h1 in
      let s2 = (save_contract json id c s1).1 in
      let h2 = sym (ap (λ (r : Result EngineError (Unit {0}) × EngineState). r.0) after2) ∙ h1 in
      let (_, saved, after3) = bind_ok (save_execution json id e) (λ _. move) s2 h2 in
      let s3 = (save_execution json id e s2).1 in
      let h3 = sym (ap (λ (r : Result EngineError (Unit {0}) × EngineState). r.0) after3) ∙ h2 in
      let (_, _, after4) = bind_ok moving (λ _. pure tt) s3 h3 in
      subst (λ (r : Result EngineError (Unit {0}) × EngineState). IsStored r.1)
        (sym (after1 ∙ after2 ∙ after3 ∙ after4)) (save_execution_ok s2 saved)

-- When Close succeeds, both graphs are the workflow's. The Wayfinder nodes have distinct ids with their
-- prefix and known types, the relations join them, and no blocking one is unresolved; the contract has
-- a destination, criteria that each say something, and no open decision; the execution graph is well
-- formed and its slices have an order that respects the dependencies; no node and no slice share an
-- id; and the execution graph is stored under the workflow and its version.
pub closed_plan-IsExecutable :
    (json : Encoders) (range : List Text → List Text) (now : ℕ) (id : Text) (g : WayfinderGraph)
    (c : ExecutableContract) (e : ExecutionGraph) (s : EngineState)
    → ((names : List Text) (name : Text) → count name (range names) ≡ count name names)
    → (close json range now id g c e s).0 ≡ ok tt
    → IsExecutable id g c e × IsStored json now id g c e (close json range now id g c e s).1
unfolding close
closed_plan-IsExecutable json range now id g c e s same h =
    passed (plan_error range id g c e) refl h
  where
    passed :
        (o : Option EngineError)
        → plan_error range id g c e ≡ o
        → (unless_refused o (store_plan json now id g c e) s).0 ≡ ok tt
        → IsExecutable id g c e
          × IsStored json now id g c e (unless_refused o (store_plan json now id g c e) s).1
    passed none fine h =
        (plan_error_lem range id g c e same fine, store_plan_ok json now id g c e s h)
    passed (some e) bad h = cc
