-- ===== src/Delivery/Authorised.antt =====
-- What the gate of internal/delivery/delivery.go has tested before it delivers.
use skilar.Prelude.{◌≡◌, ◌⊎◌, Bool, true, false, none, some, Text, lookup, ok, text_eq}
use skilar.Review.Candidate.{CandidateRecord, validate_candidate_record}
use skilar.Review.Receipts.{Receipt}
use skilar.Delivery.{
  DeliveryRequest, Delivered, Intent, Git, GateState, delivered_as, intent_of, intent_key,
}

-- A receipt that covers exactly the candidate and the policy of the request.
pub record Covers (digest : Text → Text) (candidate_json : CandidateRecord → Text)
    (req : DeliveryRequest) (r : Receipt) : Type 0 where
  pub expected : r.id ≡ req.expected_receipt_id
  pub same_candidate : r.candidate_record_id ≡ req.candidate.id
  pub same_tree : r.candidate_tree_oid ≡ req.candidate.tree_oid
  pub same_policy : r.policy_hash ≡ req.expected_policy_hash
  pub on_branch : req.candidate.seal.symbolic_head ≡ req.candidate.seal.base_ref
  pub genuine : validate_candidate_record digest candidate_json req.candidate ≡ ok tt

module _ {W : Type 0} (git : Git W) where
  abbrev repo_of : DeliveryRequest → Text
  repo_of req = req.candidate.seal.repository_root

  -- The repository after the commit was made and the two hooks were called.
  abbrev after_hooks : DeliveryRequest → GateState W → Bool × W
  after_hooks req s =
      git.before_ref_update (git.after_gate_check (git.commit_tree req s.repository).1)

  -- A first delivery: nothing has drifted, the commit that was made has the candidate's tree, the hooks
  -- agree, and the base reference was moved from the base commit to that commit.
  pub record IsFresh (req : DeliveryRequest) (r : Receipt) (s : GateState W) (res : Delivered)
      (s' : GateState W) : Type 0 where
    pub no_drift : git.detect_drift req.candidate req.candidate_policy s.repository ≡ some false
    pub committed : (git.commit_tree req s.repository).0 ≡ some res.commit_oid
    pub right_tree :
        git.tree_of (repo_of req) res.commit_oid (git.commit_tree req s.repository).1
        ≡ some req.candidate.tree_oid
    pub hooks : (after_hooks req s).0 ≡ true
    pub moved :
        git.update_ref (repo_of req) (intent_of git req r res.commit_oid) (after_hooks req s).1
        ≡ (true, s'.repository)
    pub answer : res ≡ delivered_as (intent_of git req r res.commit_oid) false

  -- The intent of an earlier call is one for the same candidate, receipt and tree.
  abbrev IsSame : DeliveryRequest → Receipt → Intent → Type 0
  IsSame req r i =
      (i.candidate_record_id ≡ req.candidate.id)
      × (i.receipt_id ≡ r.id)
      × (i.tree_oid ≡ req.candidate.tree_oid)

  -- The reference of the intent names its commit already, with its tree, or it was moved to it from
  -- the commit that it should replace.
  abbrev Landed : DeliveryRequest → Intent → GateState W → Delivered → GateState W → Type 0
  Landed req i s res s' =
      (res ≡ delivered_as i true)
      × (((git.rev_parse (repo_of req) i.ref s.repository ≡ some i.commit_oid)
            × (git.tree_of (repo_of req) i.commit_oid s.repository ≡ some i.tree_oid))
          ⊎ ((git.rev_parse (repo_of req) i.ref s.repository ≡ some i.old_commit_oid)
              × (git.update_ref (repo_of req) i s.repository ≡ (true, s'.repository))))

  -- A recovery of an earlier delivery, whose intent is one for the same candidate, receipt and tree.
  abbrev pub IsRecovered :
      DeliveryRequest → Receipt → Intent → GateState W → Delivered → GateState W → Type 0
  IsRecovered req r i s res s' = IsSame req r i × Landed req i s res s'

  -- What a delivery has done: it finished the delivery of an intent that was stored under the key of
  -- the request, or it made a new one.
  pub data IsDelivered (req : DeliveryRequest) (r : Receipt) (s : GateState W) (res : Delivered)
      (s' : GateState W) : Type 0 where
    fresh :
        lookup (intent_key req.workflow_id req.idempotency_key) s.intents ≡ none
        → IsFresh req r s res s'
        → IsDelivered req r s res s'
    again :
        (i : Intent)
        → lookup (intent_key req.workflow_id req.idempotency_key) s.intents ≡ some i
        → IsRecovered req r i s res s'
        → IsDelivered req r s res s'
