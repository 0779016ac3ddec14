-- ===== src/Approval/Revoking.antt =====
-- What `Revoke` and `RevokeAll` of internal/approval/approval.go take away.
use skilar.Prelude.{
  ℕ, ◌≡◌, sym, ap, ◌∙◌, true, List, [], ◌∷◌, none, some, Text, ◌==◌, if◌then◌else◌, Map, arith,
  lookup, lookup-erase, Result, ok, err, bind_ok, nat_eq, text_eq, pair_eq, text_beq_iff,
  Option-cases, inl, inr, contains,
}
use skilar.Approval.{
  Approvals, ApprovalError, approval_required, require, current_approval, revoke, revoke_each,
  revoke_all, actions_of,
}

module _ (workflow_id actor reason : Text) (now : ℕ) where
  -- A revocation takes away the current approval of its action, and of no other.
  revoke_ok :
      (action asked : Text) (d : Approvals)
      → (revoke workflow_id action actor reason now d).0 ≡ ok tt
      → lookup (workflow_id, asked) (revoke workflow_id action actor reason now d).1.current
        ≡ (if action == asked then none else lookup (workflow_id, asked) d.current)
  unfolding revoke
  revoke_ok action asked d h = ground (
    arith,
    lookup-erase (workflow_id, action) (workflow_id, asked) d.current,
    text_beq_iff workflow_id workflow_id,
  )

  abbrev IsListed : List Text → Approvals → Type 0
  IsListed actions d =
      (asked id : Text)
      → lookup (workflow_id, asked) d.current ≡ some id
      → contains asked actions ≡ true

  revoke_each-gone :
      (actions : List Text) (d : Approvals)
      → IsListed actions d
      → (revoke_each workflow_id actor reason now actions d).0 ≡ ok tt
      → (asked : Text)
      → lookup (workflow_id, asked) (revoke_each workflow_id actor reason now actions d).1.current
        ≡ none
  unfolding revoke_each
  revoke_each-gone [] d listed h asked =
      elim (Option-cases (lookup (workflow_id, asked) d.current)) [
        | inl gone ↦ gone
        | inr (id, here) ↦ let no = listed asked id here in cc
      ]
  revoke_each-gone (action ∷ actions) d listed h asked =
      let first_revoked = revoke workflow_id action actor reason now in
      let others = revoke_each workflow_id actor reason now actions in
      let (_, first, after) = bind_ok first_revoked (λ _. others) d h in
      let rest : (others (first_revoked d).1).0 ≡ ok tt =
        sym (ap (λ (r : Result ApprovalError (Unit {0}) × Approvals). r.0) after) ∙ h in
      let still_listed : IsListed actions (first_revoked d).1 = λ x id here. ground (
        arith,
        revoke_ok action x d first,
        listed x id,
        text_beq_iff action x,
        text_beq_iff x action,
      ) in
      rw after (revoke_each-gone actions (first_revoked d).1 still_listed rest asked)

actions_of-lists :
    (workflow_id asked id : Text) (rows : Map (Text × Text) Text)
    → lookup (workflow_id, asked) rows ≡ some id
    → contains asked (actions_of workflow_id rows) ≡ true
unfolding actions_of lookup
actions_of-lists workflow_id asked id [] h = cc
actions_of-lists workflow_id asked id (((w, a), i) ∷ rows) h = ground (
  arith,
  actions_of-lists workflow_id asked id rows,
  text_beq_iff w workflow_id,
  text_beq_iff a asked,
  text_beq_iff asked a,
)

module _ (sha256_hex : Text → Text) where
  require-gone :
      (workflow_id action basis policy : Text) (now : ℕ) (d : Approvals)
      → lookup (workflow_id, action) d.current ≡ none
      → require sha256_hex workflow_id action basis policy now d ≡ (err approval_required, d)
  unfolding require current_approval
  require-gone workflow_id action basis policy now d gone = ground (arith, gone)

  -- After `RevokeAll` on a workflow succeeded, `Require` refuses each of its actions at any time, on any
  -- basis and policy.
  pub revoked_workflow_needs_approval :
      (workflow_id actor reason : Text) (now : ℕ) (d : Approvals)
      → (revoke_all workflow_id actor reason now d).0 ≡ ok tt
      → let d' = (revoke_all workflow_id actor reason now d).1 in
        (action basis policy : Text) (later : ℕ)
        → require sha256_hex workflow_id action basis policy later d' ≡ (err approval_required, d')
  unfolding revoke_all
  revoked_workflow_needs_approval workflow_id actor reason now d h action basis policy later =
      require-gone workflow_id action basis policy later _ (
        revoke_each-gone workflow_id actor reason now (actions_of workflow_id d.current) d
          (λ asked id here. actions_of-lists workflow_id asked id d.current here) h action)
