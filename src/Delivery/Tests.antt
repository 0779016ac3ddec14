-- ===== src/Delivery/Tests.antt =====
-- A delivery through internal/delivery/delivery.go, and the theorem at it. The digest is the text itself.
use skilar.Prelude.{
  ◌≡◌, refl, true, false, [], ◌∷◌, ◌++◌, Option, some, Text, ok, codes, text_beq, text_eq, lookup,
  insert, insert_new, err,
}
use skilar.Review.{low, deterministic, no_lens, text_leb, insert_sorted, sort_strings}
use skilar.Review.Candidate.{
  CandidateRecord, ContextSeal, insert_entry, sort_manifest, candidate_record_id,
  validate_candidate_record,
}
use skilar.Review.Receipts.{Receipt}
use skilar.Delivery.{
  intent_reuse, DeliveryRequest, Delivered, Intent, Git, GateState, intent_key, same_intent,
  join_paths, candidate_policy_hash_of, check_authority, is_other_intent, move_ref, put_intent,
  recover_at, recover, make_commit, run_hooks, deliver_new, deliver_under, commit,
}
use skilar.Workflow.Memory.Keys.{HasNoNul}
use skilar.Delivery.Intents.{Represents, keep_intent, find_intent, put_intent_refines}

-- What a run computes with.
computing : Unit {0}
unfolding text_leb text_beq lookup insert insert_entry sort_manifest candidate_record_id
    insert_sorted sort_strings validate_candidate_record intent_key same_intent join_paths
    candidate_policy_hash_of check_authority is_other_intent move_ref put_intent recover_at recover
    make_commit run_hooks deliver_new deliver_under commit
computing = tt

abbrev plain : Text → Text
plain t = t

abbrev tree_json : CandidateRecord → Text
tree_json c = c.tree_oid

-- A repository in which every call succeeds, whose state is the commit of the branch.
abbrev git : Git Text
git = record {
  detect_drift = λ c paths w. some false;
  commit_tree = λ req w. (some (codes "c2"), w);
  tree_of = λ repo c w. some (codes "t");
  rev_parse = λ repo ref w. some w;
  update_ref = λ repo i w. (true, i.commit_oid);
  after_gate_check = λ w. w;
  before_ref_update = λ w. (true, w);
}

abbrev seal : ContextSeal
seal = record {
  repository_root = codes "/r";
  git_common_dir = codes "/r/.git";
  worktree_id = codes "w";
  symbolic_head = codes "refs/heads/main";
  detached = false;
  base_ref = codes "refs/heads/main";
  base_commit_oid = codes "c1";
  base_tree_oid = codes "b";
  object_format = codes "sha1";
}

abbrev candidate : CandidateRecord
candidate = record {
  id = codes "cand_t";
  workflow_id = codes "wf";
  tree_oid = codes "t";
  manifest = [];
  seal = seal;
  policy_hash = codes "p";
  candidate_policy_hash = codes "gitcandidate-policy-v1" ++ 0 ∷ [];
  engine_version = codes "1";
  frozen_at = 5;
}

abbrev receipt : Receipt
receipt = record {
  id = codes "rcpt";
  workflow_id = codes "wf";
  candidate_record_id = codes "cand_t";
  candidate_tree_oid = codes "t";
  policy_hash = codes "p";
  engine_version = codes "1";
  effective_risk = low;
  depth = deterministic;
  lens = no_lens;
  evidence_ids = [];
  evidence_set_digest = [];
  assessment_digest = [];
  issued_at = 3;
}

abbrev current_receipt : Text → Option Receipt
current_receipt id = some receipt

abbrev request : DeliveryRequest
request = record {
  workflow_id = codes "wf";
  candidate = candidate;
  candidate_policy = [];
  expected_receipt_id = codes "rcpt";
  expected_policy_hash = codes "p";
  compatible_engine_version = codes "1";
  message = codes "m";
  idempotency_key = codes "k";
  author_name = [];
  author_email = [];
}

abbrev before : GateState Text
before = record { intents = []; repository = codes "c1" }

abbrev delivery : Delivered
delivery = record {
  commit_oid = codes "c2";
  tree_oid = codes "t";
  ref = codes "refs/heads/main";
  receipt_id = codes "rcpt";
  recovered = false;
}

delivered_again :
    (commit git plain tree_json current_receipt request
      (commit git plain tree_json current_receipt request before).1).0
    ≡ ok (record delivery { recovered = true })
unfolding computing
delivered_again = refl

abbrev intent : Intent
intent = record {
  workflow_id = codes "wf";
  idempotency_key = codes "k";
  candidate_record_id = [];
  receipt_id = [];
  ref = [];
  old_commit_oid = [];
  commit_oid = codes "c2";
  tree_oid = [];
  message = [];
  author_name = [];
  author_email = [];
}

-- An encoding for intents that differ in their commit only.
abbrev to_json : Intent → Text
to_json i = i.commit_oid

abbrev of_json : Text → Option Intent
of_json raw = some (record intent { commit_oid = raw })

nothing_stored : Represents to_json of_json before []
unfolding computing
nothing_stored = record { same = λ w k n. refl; readable = λ k i h. cc }

put_intent_refines_example :
    let stored = (put_intent git intent before).1 in
    let rows = (keep_intent to_json of_json intent []).1 in
    ((put_intent git intent before).0 ≡ (keep_intent to_json of_json intent []).0)
    × Represents to_json of_json stored rows
    × ((workflow_id key : Text)
        → HasNoNul workflow_id
        → find_intent to_json of_json workflow_id key rows
          ≡ lookup (intent_key workflow_id key) stored.intents)
put_intent_refines_example =
    put_intent_refines to_json of_json git intent before [] (λ e. cc e, (λ e. cc e, tt)) refl
      nothing_stored

-- A second intent under the key is refused.
other_intent_refused :
    (keep_intent to_json of_json
      (record intent { commit_oid = codes "c3" })
      (keep_intent to_json of_json intent []).1).0
    ≡ err intent_reuse
unfolding computing keep_intent find_intent insert_new
other_intent_refused = refl
