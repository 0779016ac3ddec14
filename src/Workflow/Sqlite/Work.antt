-- ===== src/Workflow/Sqlite/Work.antt =====
-- The attempts, results and leases of internal/workflow/sqlite.go. RegisterAttempt reads the workflow
-- and then inserts, in two statements, which are one step here.
use skilar.Prelude.{
  ℕ, Bool, true, false, not, ◌&&◌, ◌||◌, Option, none, some, Text, ◌==◌, is_empty, lookup, insert,
  map, pure, gets, modify, fail_if, or_fail, transaction, ◌>>=◌, ◌>>◌, ltb, leb, text_eq,
}
use skilar.Workflow.Types.{
  Attempt, ResultEnvelope, Lease, not_found, already_exists, stale_result, lease_conflict,
}
use skilar.Workflow.Memory.{is_some, not_registrable, is_stale}
use skilar.Workflow.Sqlite.{Query}

unfoldable pub register_attempt : Attempt → Query (Unit {0})
register_attempt a = do
  w ← or_fail (← gets (λ d. lookup a.workflow_id d.workflows)) not_found
  fail_if (not_registrable a w) stale_result
  fail_if (is_some (← gets (λ d. lookup a.id d.attempts))) already_exists
  modify (λ d. record d { attempts = insert a.id (record a { live = true }) d.attempts })

unfoldable pub supersede_attempt : Text → Query (Unit {0})
supersede_attempt id = do
  a ← or_fail (← gets (λ d. lookup id d.attempts)) not_found
  modify (λ d. record d { attempts = insert id (record a { live = false }) d.attempts })

-- A result as its JSON column is read back; its status is one of the constants.
abbrev pub reread_result : (Text → Text) → ResultEnvelope → ResultEnvelope
reread_result json r = record r {
  workflow_id = json r.workflow_id;
  node_id = json r.node_id;
  attempt_id = json r.attempt_id;
  base_candidate_oid = json r.base_candidate_oid;
  artifact_ids = map json r.artifact_ids;
  evidence_ids = map json r.evidence_ids;
}

unfoldable pub accept_result : ResultEnvelope → Query (Unit {0})
accept_result r = transaction (do
  a ← or_fail (← gets (λ d. lookup r.attempt_id d.attempts)) stale_result
  w ← or_fail (← gets (λ d. lookup r.workflow_id d.workflows)) stale_result
  fail_if (is_stale a w r) stale_result
  modify (λ d. record d { attempts = insert a.id (record a { live = false }) d.attempts })
  fail_if (is_some (← gets (λ d. lookup a.id d.results))) stale_result
  modify (λ d. record d { results = insert a.id (reread_result d.json r) d.results }))

abbrev pub lease_of : Text → Text → Text → ℕ → Lease
lease_of resource owner token expires_at = record {
  resource = resource;
  owner = owner;
  fencing_token = token;
  expires_at = expires_at;
}

-- ON CONFLICT(resource) DO UPDATE … WHERE leases.expires_at<=?, with the column in nanoseconds
abbrev pub is_replaceable : Option Lease → ℕ → Bool
is_replaceable none now = true
is_replaceable (some l) now = leb l.expires_at now

unfoldable pub acquire_lease : Text → Text → Text → ℕ → ℕ → Query Lease
acquire_lease resource owner token now expires_at = do
  fail_if (is_empty resource || is_empty owner || is_empty token || not (ltb now expires_at))
      lease_conflict
  now_nano ← gets (λ d. d.unix_nano now)
  fail_if (not (is_replaceable (← gets (λ d. lookup resource d.leases)) now_nano)) lease_conflict
  modify (λ d. record d {
    leases = insert resource (lease_of resource owner token (d.unix_nano expires_at)) d.leases;
  })
  pure (lease_of resource owner token expires_at)

-- WHERE resource=? AND owner=? AND fencing_token=? AND expires_at>?
unfoldable pub holds : Text → Text → ℕ → Option Lease → Bool
holds owner token now none = false
holds owner token now (some l) =
    l.owner == owner && l.fencing_token == token && ltb now l.expires_at

unfoldable pub heartbeat_lease : Text → Text → Text → ℕ → ℕ → Query Lease
heartbeat_lease resource owner token now expires_at = do
  fail_if (not (ltb now expires_at)) lease_conflict
  now_nano ← gets (λ d. d.unix_nano now)
  fail_if (not (holds owner token now_nano (← gets (λ d. lookup resource d.leases)))) lease_conflict
  modify (λ d. record d {
    leases = insert resource (lease_of resource owner token (d.unix_nano expires_at)) d.leases;
  })
  pure (lease_of resource owner token expires_at)

unfoldable pub validate_lease : Text → Text → Text → ℕ → Query (Unit {0})
validate_lease resource owner token now = do
  now_nano ← gets (λ d. d.unix_nano now)
  fail_if (not (holds owner token now_nano (← gets (λ d. lookup resource d.leases)))) lease_conflict
