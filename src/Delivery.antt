-- ===== src/Delivery.antt =====
-- The delivery gate of internal/delivery/delivery.go with its in-memory intents. Git is the record of
-- operations `Git W` on the state `W` of the repository; the authority store, the two hooks,
-- crypto/sha256 and encoding/json are parameters too.
pub mod Authorised
pub mod Intents
mod Tests
use skilar.Prelude.{
  ◌++◌, Bool, true, false, not, ◌||◌, List, [], ◌∷◌, Option, none, some, Text, ◌==◌, is_empty,
  if◌then◌else◌, Map, lookup, insert, Result, ok, err, Action, pure, fail, gets, modify, fail_if,
  or_fail, ◌>>=◌, ◌>>◌, text_eq, codes,
}
use skilar.Review.{sort_strings}
use skilar.Review.Candidate.{CandidateRecord, validate_candidate_record}
use skilar.Review.Receipts.{Receipt}

pub data DeliveryError : Type 0 where
  incomplete_request invalid_authority incompatible context_drift ref_conflict : DeliveryError
  intent_reuse git_failed tree_mismatch hook_failed corrupt_intent : DeliveryError

pub record DeliveryRequest : Type 0 where
  pub workflow_id : Text
  pub candidate : CandidateRecord
  pub candidate_policy : List Text  -- IncludeIgnored of gitcandidate.Policy
  pub expected_receipt_id : Text
  pub expected_policy_hash : Text
  pub compatible_engine_version : Text
  pub message : Text
  pub idempotency_key : Text
  pub author_name : Text
  pub author_email : Text

pub record Delivered : Type 0 where
  pub commit_oid : Text
  pub tree_oid : Text
  pub ref : Text
  pub receipt_id : Text
  pub recovered : Bool

pub record Intent : Type 0 where
  pub workflow_id : Text
  pub idempotency_key : Text
  pub candidate_record_id : Text
  pub receipt_id : Text
  pub ref : Text
  pub old_commit_oid : Text
  pub commit_oid : Text
  pub tree_oid : Text
  pub message : Text
  pub author_name : Text
  pub author_email : Text

-- Git and the hooks: `rev_parse` and `commit_tree` answer none on an error, `update_ref` false, and
-- `detect_drift` whether the candidate has drifted.
pub record Git (W : Type 0) : Type 0 where
  pub detect_drift : CandidateRecord → List Text → W → Option Bool
  pub commit_tree : DeliveryRequest → W → Option Text × W
  pub tree_of : Text → Text → W → Option Text  -- rev-parse <commit>^{tree}
  pub rev_parse : Text → Text → W → Option Text
  pub update_ref : Text → Intent → W → Bool × W
  pub after_gate_check : W → W
  pub before_ref_update : W → Bool × W  -- false for an error

pub record GateState (W : Type 0) : Type 0 where
  pub intents : Map Text Intent
  pub repository : W

unfoldable pub intent_key : Text → Text → Text
intent_key workflow_id key = workflow_id ++ 0 ∷ key

unfoldable pub same_intent : Intent → Intent → Bool
same_intent i j = not (
    not (i.workflow_id == j.workflow_id)
    || not (i.idempotency_key == j.idempotency_key)
    || not (i.candidate_record_id == j.candidate_record_id)
    || not (i.receipt_id == j.receipt_id)
    || not (i.ref == j.ref)
    || not (i.old_commit_oid == j.old_commit_oid)
    || not (i.commit_oid == j.commit_oid)
    || not (i.tree_oid == j.tree_oid)
    || not (i.message == j.message)
    || not (i.author_name == j.author_name)
    || not (i.author_email == j.author_email))

unfoldable pub join_paths : List Text → Text
join_paths [] = []
join_paths (p ∷ []) = p
join_paths (p ∷ q ∷ ps) = p ++ 0 ∷ join_paths (q ∷ ps)

-- `Hash` of gitcandidate.Policy.
unfoldable pub candidate_policy_hash_of : (Text → Text) → List Text → Text
candidate_policy_hash_of digest paths =
    digest (codes "gitcandidate-policy-v1" ++ 0 ∷ join_paths (sort_strings paths))

-- The tests on the receipt, the policy and the seal, in their order.
unfoldable pub check_authority :
    (Text → Text)
    → (CandidateRecord → Text)
    → DeliveryRequest
    → Receipt
    → Result DeliveryError (Unit {0})
check_authority digest candidate_json req authority =
    let seal = req.candidate.seal in
    if not (authority.id == req.expected_receipt_id)
      || not (authority.workflow_id == req.workflow_id)
      || not (authority.candidate_record_id == req.candidate.id)
      || not (authority.candidate_tree_oid == req.candidate.tree_oid)
    then err invalid_authority
    else if not (authority.policy_hash == req.expected_policy_hash)
        || not (req.candidate.policy_hash == req.expected_policy_hash)
        || not (authority.engine_version == req.compatible_engine_version)
        || not (req.candidate.engine_version == req.compatible_engine_version)
    then err incompatible
    else if seal.detached
        || is_empty seal.symbolic_head
        || is_empty seal.base_ref
        || not (seal.symbolic_head == seal.base_ref)
    then err context_drift
    else elim (validate_candidate_record digest candidate_json req.candidate) [
      | err e ↦ err invalid_authority
      | ok u ↦
          if not (
            req.candidate.candidate_policy_hash
            == candidate_policy_hash_of digest req.candidate_policy)
          then err incompatible
          else ok tt
    ]

unfoldable pub is_other_intent : DeliveryRequest → Receipt → Intent → Bool
is_other_intent req authority intent =
    not (intent.candidate_record_id == req.candidate.id)
    || not (intent.receipt_id == authority.id)
    || not (intent.tree_oid == req.candidate.tree_oid)
    || not (intent.message == req.message)
    || not (intent.author_name == req.author_name)
    || not (intent.author_email == req.author_email)

abbrev pub delivered_as : Intent → Bool → Delivered
delivered_as intent recovered = record {
  commit_oid = intent.commit_oid;
  tree_oid = intent.tree_oid;
  ref = intent.ref;
  receipt_id = intent.receipt_id;
  recovered = recovered;
}

module _ {W : Type 0} (git : Git W) where
  abbrev pub Gate : Type 0 → Type 0
  Gate A = Action (GateState W) DeliveryError A

  unfoldable pub move_ref : Text → Intent → Gate (Unit {0})
  move_ref repo intent s =
      let r = git.update_ref repo intent s.repository in
      (if r.0 then ok tt else err ref_conflict, record s { repository = r.1 })

  unfoldable pub put_intent : Intent → Gate (Unit {0})
  put_intent i s = elim (lookup (intent_key i.workflow_id i.idempotency_key) s.intents) [
    | some old ↦ (if same_intent old i then ok tt else err intent_reuse, s)
    | none ↦ (
      ok tt,
      record s { intents = insert (intent_key i.workflow_id i.idempotency_key) i s.intents },
    )
  ]

  -- The end of `recover`, on the commit that the reference names.
  unfoldable pub recover_at : Text → Intent → Text → Gate Delivered
  recover_at repo intent current =
      if current == intent.commit_oid
      then (do
        tree ← or_fail (← gets (λ s. git.tree_of repo current s.repository)) ref_conflict
        fail_if (not (tree == intent.tree_oid)) ref_conflict
        pure (delivered_as intent true))
      else (do
        fail_if (not (current == intent.old_commit_oid)) ref_conflict
        move_ref repo intent
        pure (delivered_as intent true))

  unfoldable pub recover : DeliveryRequest → Receipt → Intent → Gate Delivered
  recover req authority intent = do
    fail_if (is_other_intent req authority intent) intent_reuse
    let repo = req.candidate.seal.repository_root
    current ← or_fail (← gets (λ s. git.rev_parse repo intent.ref s.repository)) git_failed
    recover_at repo intent current

  unfoldable pub make_commit : DeliveryRequest → Gate Text
  make_commit req s =
      let r = git.commit_tree req s.repository in
      (elim r.0 [ none ↦ err git_failed | some oid ↦ ok oid ], record s { repository = r.1 })

  unfoldable pub run_hooks : Gate (Unit {0})
  run_hooks s =
      let r = git.before_ref_update (git.after_gate_check s.repository) in
      (if r.0 then ok tt else err hook_failed, record s { repository = r.1 })

  abbrev pub intent_of : DeliveryRequest → Receipt → Text → Intent
  intent_of req authority commit_oid = record {
    workflow_id = req.workflow_id;
    idempotency_key = req.idempotency_key;
    candidate_record_id = req.candidate.id;
    receipt_id = authority.id;
    ref = req.candidate.seal.base_ref;
    old_commit_oid = req.candidate.seal.base_commit_oid;
    commit_oid = commit_oid;
    tree_oid = req.candidate.tree_oid;
    message = req.message;
    author_name = req.author_name;
    author_email = req.author_email;
  }

  -- `Commit` from the test for drift on.
  unfoldable pub deliver_new : DeliveryRequest → Receipt → Gate Delivered
  deliver_new req authority = do
    let repo = req.candidate.seal.repository_root
    drift ←
        or_fail (← gets (λ s. git.detect_drift req.candidate req.candidate_policy s.repository))
          git_failed
    fail_if drift context_drift
    commit_oid ← make_commit req
    tree ← or_fail (← gets (λ s. git.tree_of repo commit_oid s.repository)) tree_mismatch
    fail_if (not (tree == req.candidate.tree_oid)) tree_mismatch
    let intent = intent_of req authority commit_oid
    put_intent intent
    run_hooks
    move_ref repo intent
    pure (delivered_as intent false)

  unfoldable pub deliver_under : DeliveryRequest → Receipt → Option Intent → Gate Delivered
  deliver_under req authority (some previous) = recover req authority previous
  deliver_under req authority none = deliver_new req authority

  unfoldable pub commit :
      (Text → Text)
      → (CandidateRecord → Text)
      → (Text → Option Receipt)
      → DeliveryRequest
      → Gate Delivered
  commit digest candidate_json authority_of req = do
    fail_if (is_empty req.idempotency_key || is_empty req.message) incomplete_request
    authority ← or_fail (authority_of req.workflow_id) invalid_authority
    λ s. (check_authority digest candidate_json req authority, s)
    previous ← gets (λ s. lookup (intent_key req.workflow_id req.idempotency_key) s.intents)
    deliver_under req authority previous
