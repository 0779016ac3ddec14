-- ===== src/Approval.antt =====
-- internal/approval/approval.go over its three tables. `crypto/sha256` is the parameter
-- `sha256_hex`; a time is a number, and 0 is the zero time. A transaction is one step, and the
-- artifact column holds the value that it encodes.
pub mod Laws
pub mod Revoking
mod Tests
use skilar.Prelude.{
  ℕ, ◌++◌, Bool, not, ◌||◌, List, [], ◌∷◌, Option, none, some, Text, ◌==◌, is_empty, if◌then◌else◌,
  Map, lookup, insert, erase, Result, ok, err, Action, pure, fail, gets, modify, fail_if, or_fail,
  transaction, ◌>>=◌, ◌>>◌, ltb, nat_eq, text_eq, pair_eq, codes, nat_beq,
}

pub data ApprovalError : Type 0 where
  approval_required incomplete_artifact bad_expiry immutable_conflict : ApprovalError

pub record Artifact : Type 0 where
  pub id : Text
  pub actor : Text
  pub auth_source : Text
  pub workflow_id : Text
  pub action : Text
  pub action_digest : Text
  pub basis : Text  -- BasisGraphOrCandidate
  pub policy_hash : Text
  pub rationale : Text
  pub issued_at : ℕ
  pub expires_at : ℕ

pub record Revocation : Type 0 where
  pub workflow_id : Text
  pub action : Text
  pub approval_id : Text
  pub actor : Text
  pub reason : Text
  pub occurred_at : ℕ

-- The tables approvals, current_approvals and approval_revocations.
pub record Approvals : Type 0 where
  pub approvals : Map Text Artifact
  pub current : Map (Text × Text) Text
  pub revocations : List Revocation

abbrev pub Ask : Type 0 → Type 0
Ask A = Action Approvals ApprovalError A

unfoldable pub is_incomplete : Artifact → Bool
is_incomplete a =
    is_empty a.workflow_id
    || is_empty a.action
    || is_empty a.actor
    || is_empty a.auth_source
    || is_empty a.rationale
    || is_empty a.basis
    || is_empty a.policy_hash

-- `artifact.IssuedAt`, which is the clock's time when it is zero.
abbrev pub with_issue_time : ℕ → Artifact → Artifact
with_issue_time now a = record a { issued_at = if a.issued_at == 0 then now else a.issued_at }

-- INSERT OR IGNORE INTO approvals
unfoldable pub insert_or_ignore : Artifact → Map Text Artifact → Map Text Artifact
insert_or_ignore a rows = elim (lookup a.id rows) [ none ↦ insert a.id a rows | some old ↦ rows ]

unfoldable pub store_approval : Artifact → Ask Artifact
store_approval a = do
  modify (λ d. record d { approvals = insert_or_ignore a d.approvals })
  persisted ← or_fail (← gets (λ d. lookup a.id d.approvals)) immutable_conflict
  fail_if (not (persisted.action_digest == a.action_digest)) immutable_conflict
  modify (λ d. record d { current = insert (a.workflow_id, a.action) a.id d.current })
  pure persisted

-- The current approval of an action, through the join of the two tables.
unfoldable pub current_approval : Text → Text → Approvals → Option Artifact
current_approval workflow_id action d = elim (lookup (workflow_id, action) d.current) [
  | none ↦ none
  | some id ↦ lookup id d.approvals
]

module _ (sha256_hex : Text → Text) where
  unfoldable pub digest_of_action : Text → Text → Text → Text → Text
  digest_of_action workflow_id action basis policy =
      sha256_hex (workflow_id ++ 0 ∷ action ++ 0 ∷ basis ++ 0 ∷ policy)

  -- The artifact with its digest, its time and its name.
  unfoldable pub prepared : ℕ → Artifact → Artifact
  prepared now a =
      let digest = digest_of_action a.workflow_id a.action a.basis a.policy_hash in
      record (with_issue_time now a) { id = codes "approval_" ++ digest; action_digest = digest }

  unfoldable pub issue : ℕ → Artifact → Ask Artifact
  issue now artifact = do
    fail_if (is_incomplete artifact) incomplete_artifact
    let a = prepared now artifact
    fail_if (not (ltb a.issued_at a.expires_at)) bad_expiry
    transaction (store_approval a)

  unfoldable pub require : Text → Text → Text → Text → ℕ → Ask Artifact
  require workflow_id action basis policy now = do
    a ← or_fail (← gets (current_approval workflow_id action)) approval_required
    fail_if
        (not (a.action_digest == digest_of_action workflow_id action basis policy)
          || not (ltb now a.expires_at))
        approval_required
    pure a

unfoldable pub revoke : Text → Text → Text → Text → ℕ → Ask (Unit {0})
revoke workflow_id action actor reason now = transaction (do
  id ← or_fail (← gets (λ d. lookup (workflow_id, action) d.current)) approval_required
  modify (λ d. record d {
    current = erase (workflow_id, action) d.current;
    revocations =
        d.revocations
        ++ (record {
          workflow_id = workflow_id;
          action = action;
          approval_id = id;
          actor = actor;
          reason = reason;
          occurred_at = now;
        })
          ∷ [];
  }))

-- SELECT action FROM current_approvals WHERE workflow_id=?
unfoldable pub actions_of : Text → Map (Text × Text) Text → List Text
actions_of workflow_id [] = []
actions_of workflow_id (((wid, action), id) ∷ rows) =
    let rest = actions_of workflow_id rows in if wid == workflow_id then action ∷ rest else rest

unfoldable pub revoke_each : Text → Text → Text → ℕ → List Text → Ask (Unit {0})
revoke_each workflow_id actor reason now [] = pure tt
revoke_each workflow_id actor reason now (action ∷ actions) =
    revoke workflow_id action actor reason now >> revoke_each workflow_id actor reason now actions

unfoldable pub revoke_all : Text → Text → Text → ℕ → Ask (Unit {0})
revoke_all workflow_id actor reason now = do
  actions ← gets (λ d. actions_of workflow_id d.current)
  revoke_each workflow_id actor reason now actions
