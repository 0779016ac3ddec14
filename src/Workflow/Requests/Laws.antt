-- ===== src/Workflow/Requests/Laws.antt =====
-- What an admitted request of internal/workflow/store.go has passed, and when two requests are the
-- same.
use mathlib.Core.Path.{subst}
use skilar.Prelude.{
  ◌+◌, ◌≡◌, ◌≢◌, refl, ◌↔◌, Bool, true, false, ◌&&◌, arith, ok, u64, nat_eq, text_eq, text_beq_iff,
  nat_beq_iff, Text, List, [], ◌∷◌, same_items,
}
use skilar.Workflow.Types.{State, blocked, state_eq, state_beq_iff, Workflow, Transition}
use skilar.Workflow.Machine.{can_transition}
use skilar.Workflow.Requests.{same_transition, next_resume, bad_block, advance}

-- What an admitted request has passed, and the workflow that it makes.
pub record Advanced (r : State) (w : Workflow) (req : Transition) (w' : Workflow) : Type 0 where
  pub same_state : w.state ≡ req.expected_state
  pub same_version : w.state_version ≡ req.expected_version
  pub legal : can_transition w.state req.next_state r ≡ true
  pub well_blocked : bad_block w req ≡ false
  pub new_workflow : w' ≡ record w {
    state = req.next_state;
    state_version = u64 (w.state_version + 1);
    resume_target = next_resume w.state req.next_state req.resume_target w.resume_target;
  }

pub advance-Advanced :
    (r : State) (w : Workflow) (req : Transition) {w' : Workflow}
    → advance r w req ≡ ok w'
    → Advanced r w req w'
unfolding advance
advance-Advanced r w req h = ground (arith, state_beq_iff w.state req.expected_state)

-- Only a blocked workflow looks at the resume target.
pub can_transition-resume_irrelevant :
    (s t r r' : State) → s ≢ blocked → can_transition s t r ≡ can_transition s t r'
unfolding can_transition
can_transition-resume_irrelevant s t r r' n = ground (arith, state_beq_iff s blocked)

-- A request to block leaves the state that it will resume at.
pub block_target :
    (w : Workflow) (req : Transition)
    → bad_block w req ≡ false
    → req.next_state ≡ blocked
    → req.resume_target ≡ w.state
unfolding bad_block
block_target w req h e =
    ground (arith, state_beq_iff req.next_state blocked, state_beq_iff req.resume_target w.state)

&&_split : (p q : Bool) → (p && q) ≡ true → (p ≡ true) × (q ≡ true)
&&_split true true h = (refl, refl)
&&_split true false h = cc
&&_split false q h = cc

same_items_iff : (xs ys : List Text) → (same_items xs ys ≡ true) ↔ (xs ≡ ys)
unfolding same_items
same_items_iff [] [] = ground arith
same_items_iff [] (y ∷ ys) = ground arith
same_items_iff (x ∷ xs) [] = ground arith
same_items_iff (x ∷ xs) (y ∷ ys) = ground (arith, text_beq_iff x y, same_items_iff xs ys)

module _ (a b : Transition) where
  same_transition-fields :
      same_transition a b ≡ true
      → (a.workflow_id ≡ b.workflow_id)
        × (a.expected_state ≡ b.expected_state)
        × (a.expected_version ≡ b.expected_version)
        × (a.next_state ≡ b.next_state)
        × (a.idempotency_key ≡ b.idempotency_key)
        × (a.resume_target ≡ b.resume_target)
        × (a.artifact_ids ≡ b.artifact_ids)
  unfolding same_transition
  same_transition-fields h =
      let h1 = &&_split _ _ h in
      let h2 = &&_split _ _ h1.0 in
      let h3 = &&_split _ _ h2.0 in
      let h4 = &&_split _ _ h3.0 in
      let h5 = &&_split _ _ h4.0 in
      let h6 = &&_split _ _ h5.0 in
      (
        (text_beq_iff _ _).0 h6.0,
        (state_beq_iff _ _).0 h6.1,
        (nat_beq_iff _ _).0 h5.1,
        (state_beq_iff _ _).0 h4.1,
        (text_beq_iff _ _).0 h3.1,
        (state_beq_iff _ _).0 h2.1,
        (same_items_iff _ _).0 h1.1,
      )

  same_transition-eq : same_transition a b ≡ true → a ≡ b
  same_transition-eq h = let (f1, f2, f3, f4, f5, f6, f7) = same_transition-fields h in cc

same_transition_refl : (a : Transition) → same_transition a a ≡ true
unfolding same_transition
same_transition_refl a = simp (
  (text_beq_iff a.workflow_id _).1 refl,
  (state_beq_iff a.expected_state _).1 refl,
  (nat_beq_iff a.expected_version _).1 refl,
  (state_beq_iff a.next_state _).1 refl,
  (text_beq_iff a.idempotency_key _).1 refl,
  (state_beq_iff a.resume_target _).1 refl,
  (same_items_iff a.artifact_ids _).1 refl,
)

-- `sameTransition` decides whether two requests are equal.
pub same_transition_iff : (a b : Transition) → (same_transition a b ≡ true) ↔ (a ≡ b)
same_transition_iff a b = (
  same_transition-eq a b,
  λ e. subst (λ t. same_transition a t ≡ true) e (same_transition_refl a),
)
