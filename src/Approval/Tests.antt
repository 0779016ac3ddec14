-- ===== src/Approval/Tests.antt =====
-- Runs of internal/approval/approval.go, and the theorems at them. The digest is the text itself.
use skilar.Prelude.{◌≡◌, refl, arith, [], Text, ok, err, lookup, insert, erase, text_beq, codes}
use skilar.Approval.{
  Artifact, Approvals, approval_required, is_incomplete, insert_or_ignore, store_approval,
  current_approval, digest_of_action, prepared, issue, require, revoke, revoke_each, revoke_all,
  actions_of,
}
use skilar.Approval.Laws.{require-issue, expired_approval_is_final}
use skilar.Approval.Revoking.{revoked_workflow_needs_approval}

-- What a run computes with.
computing : Unit {0}
unfolding is_incomplete insert_or_ignore store_approval current_approval digest_of_action prepared
    issue require revoke revoke_each revoke_all actions_of lookup insert erase text_beq
computing = tt

abbrev plain : Text → Text
plain t = t

abbrev no_approvals : Approvals
no_approvals = record { approvals = []; current = []; revocations = [] }

abbrev delivery : Artifact
delivery = record {
  id = [];
  actor = codes "ana";
  auth_source = codes "cli";
  workflow_id = codes "wf";
  action = codes "deliver";
  action_digest = [];
  basis = codes "tree";
  policy_hash = codes "p";
  rationale = codes "ok";
  issued_at = 0;
  expires_at = 50;
}

abbrev approved : Artifact
approved = prepared plain 10 delivery

abbrev held : Approvals
held = (issue plain 10 delivery no_approvals).1

approved_first : (issue plain 10 delivery no_approvals).0 ≡ ok approved
unfolding computing
approved_first = refl

require-issue_example :
    require plain (codes "wf") (codes "deliver") (codes "tree") (codes "p") 20 held
    ≡ (ok approved, held)
unfolding computing
require-issue_example = require-issue plain 10 20 delivery approved no_approvals approved_first

abbrev renewal : Artifact
renewal = record delivery { actor = codes "eva"; expires_at = 900 }

expired_approval_is_final_example :
    let d' = (issue plain 100 renewal held).1 in
    (approved ≡ approved)
    × (require plain (codes "wf") (codes "deliver") (codes "tree") (codes "p") 101 d'
        ≡ (err approval_required, d'))
unfolding computing
expired_approval_is_final_example =
    expired_approval_is_final plain 10 100 101 delivery renewal approved approved no_approvals refl
      refl refl refl approved_first refl (omega arith)

revoked_workflow_needs_approval_example :
    let d' = (revoke_all (codes "wf") (codes "ana") (codes "stop") 30 held).1 in
    require plain (codes "wf") (codes "deliver") (codes "tree") (codes "p") 20 d'
    ≡ (err approval_required, d')
unfolding computing
revoked_workflow_needs_approval_example =
    revoked_workflow_needs_approval plain (codes "wf") (codes "ana") (codes "stop") 30 held refl
      (codes "deliver") (codes "tree") (codes "p") 20
