-- ===== src/Approval/Laws.antt =====
-- What an approval of internal/approval/approval.go is good for, and that it is issued once.
use skilar.Prelude.{
  ℕ, ◌≤◌, ◌≡◌, refl, sym, ◌∙◌, false, some, Text, if◌then◌else◌, arith, lookup, lookup-insert_self,
  ok, err, transaction, transaction_ok, ltb, nat_eq, text_eq, pair_eq, text_beq_iff, Bool-cases,
  inl, inr,
}
use skilar.Approval.{
  Artifact, Approvals, approval_required, insert_or_ignore, store_approval, prepared, issue,
  require, current_approval, is_incomplete,
}

-- What a stored approval leaves behind.
record Stored (a p : Artifact) (d d' : Approvals) : Type 0 where
  pub found : lookup a.id d'.approvals ≡ some p
  pub same_digest : p.action_digest ≡ a.action_digest
  pub now_current : lookup (a.workflow_id, a.action) d'.current ≡ some a.id
  pub kept : (b : Artifact) → lookup a.id d.approvals ≡ some b → p ≡ b

store_approval-Stored :
    (a p : Artifact) (d : Approvals)
    → (store_approval a d).0 ≡ ok p
    → Stored a p d (store_approval a d).1
unfolding store_approval insert_or_ignore
store_approval-Stored a p d h = ground (
  arith,
  lookup-insert_self a.id a d.approvals,
  lookup-insert_self (a.workflow_id, a.action) a.id d.current,
  text_beq_iff p.action_digest a.action_digest,
)

module _ (sha256_hex : Text → Text) where
  -- A call that issued an approval has stored it under the name of its digest.
  issue-Stored :
      (now : ℕ) (a p : Artifact) (d : Approvals)
      → (issue sha256_hex now a d).0 ≡ ok p
      → Stored (prepared sha256_hex now a) p d (issue sha256_hex now a d).1
  unfolding issue prepared
  issue-Stored now a p d h = elim (Bool-cases (is_incomplete a)) [
    | inl bad ↦ let refused = rw bad at h in cc
    | inr full ↦ elim (Bool-cases (ltb (prepared sha256_hex now a).issued_at a.expires_at)) [
      | inl fine ↦
          let stored : (transaction (store_approval (prepared sha256_hex now a)) d).0 ≡ ok p =
            rw (full, fine) at h in
          let plain = transaction_ok (store_approval (prepared sha256_hex now a)) d stored in
          rw (full, fine, plain)
            (store_approval-Stored (prepared sha256_hex now a) p d (rw plain at stored))
      | inr late ↦ let refused = rw (full, late) at h in cc
    ]
  ]

  -- After an approval was issued, `Require` on the same four fields returns the stored artifact until
  -- its expiry and fails with ErrApprovalRequired from then on, and the tables stay as they are.
  pub require-issue :
      (now later : ℕ) (a p : Artifact) (d : Approvals)
      → (issue sha256_hex now a d).0 ≡ ok p
      → let d' = (issue sha256_hex now a d).1 in
        require sha256_hex a.workflow_id a.action a.basis a.policy_hash later d'
        ≡ (if ltb later p.expires_at then ok p else err approval_required, d')
  unfolding require current_approval prepared
  require-issue now later a p d h =
      let s = issue-Stored now a p d h in
      ground (
        arith,
        s.found,
        s.same_digest,
        s.now_current,
        text_beq_iff p.action_digest (prepared sha256_hex now a).action_digest,
      )

  reissue_keeps_first :
      (now later : ℕ) (a b p q : Artifact) (d : Approvals)
      → (prepared sha256_hex later b).id ≡ (prepared sha256_hex now a).id
      → (issue sha256_hex now a d).0 ≡ ok p
      → (issue sha256_hex later b (issue sha256_hex now a d).1).0 ≡ ok q
      → q ≡ p
  reissue_keeps_first now later a b p q d same h k =
      (issue-Stored later b q (issue sha256_hex now a d).1 k).kept p
        (rw same (issue-Stored now a p d h).found)

  -- When an approval was issued and the same action on the same basis and policy is issued once more,
  -- with whatever times, actor and rationale, the second call too returns the first artifact. From the
  -- expiry of the first artifact on, `Require` fails with ErrApprovalRequired.
  pub expired_approval_is_final :
      (now later time : ℕ) (a b p q : Artifact) (d : Approvals)
      → b.workflow_id ≡ a.workflow_id
      → b.action ≡ a.action
      → b.basis ≡ a.basis
      → b.policy_hash ≡ a.policy_hash
      → (issue sha256_hex now a d).0 ≡ ok p
      → (issue sha256_hex later b (issue sha256_hex now a d).1).0 ≡ ok q
      → p.expires_at ≤ time
      → let d' = (issue sha256_hex later b (issue sha256_hex now a d).1).1 in
        (q ≡ p)
        × (require sha256_hex a.workflow_id a.action a.basis a.policy_hash time d'
            ≡ (err approval_required, d'))
  unfolding prepared
  expired_approval_is_final now later time a b p q d e1 e2 e3 e4 h k late =
      let same = reissue_keeps_first now later a b p q d (rw (e1, e2, e3, e4) refl) h k in
      let answer = require-issue later time b q (issue sha256_hex now a d).1 k in
      let over : ltb time q.expires_at ≡ false = rw same (ground arith) in
      let d' = (issue sha256_hex later b (issue sha256_hex now a d).1).1 in
      let asked : require sha256_hex a.workflow_id a.action a.basis a.policy_hash time d'
          ≡ require sha256_hex b.workflow_id b.action b.basis b.policy_hash time d' =
        λ i. require sha256_hex (sym e1 i) (sym e2 i) (sym e3 i) (sym e4 i) time d' in
      let refused : (if ltb time q.expires_at then ok q else err approval_required, d')
          ≡ (err approval_required, d') =
        rw over refl in
      (same, asked ∙ answer ∙ refused)
