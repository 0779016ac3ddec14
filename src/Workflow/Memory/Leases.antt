-- ===== src/Workflow/Memory/Leases.antt =====
-- Leases of MemoryStore (internal/workflow/store.go): exclusive until they expire.
use skilar.Prelude.{
  ℕ, ◌<◌, ◌≡◌, ◌≢◌, ◌⊎◌, ◌∙◌, false, List, [], ◌∷◌, some, arith, ◌==◌, Text, lookup, lookup-insert,
  lookup-insert_self, nat_eq, text_eq, text_beq_iff, ok, err, Every, inl, inr, Bool-cases,
  Option-cases,
}
use skilar.Workflow.Types.{Lease, lease_conflict}
use skilar.Workflow.Memory.{MemoryStore, acquire_lease, heartbeat_lease}
use skilar.Workflow.Memory.Frames.{
  create-leases, transition-leases, register_attempt-leases, supersede_attempt-leases,
  accept_result-leases,
}
use skilar.Workflow.Memory.Calls.{Call, perform, run}

-- A lease that has been granted stands in the store, until the time asked for.
acquire_lease_granted :
    (r o t : Text) (now e : ℕ) (s : MemoryStore) (l : Lease)
    → (acquire_lease r o t now e s).0 ≡ ok l
    → (lookup r (acquire_lease r o t now e s).1.leases ≡ some l) × (l.expires_at ≡ e)
unfolding acquire_lease
acquire_lease_granted r o t now e s l h = ground (
  arith,
  lookup-insert_self r (record { resource = r; owner = o; fencing_token = t; expires_at = e })
      s.leases,
)

-- While a lease is current nobody is granted another on its resource.
acquire_lease_refused :
    (r o t : Text) (now e : ℕ) (s : MemoryStore) (l : Lease)
    → lookup r s.leases ≡ some l
    → now < l.expires_at
    → acquire_lease r o t now e s ≡ (err lease_conflict, s)
unfolding acquire_lease
acquire_lease_refused r o t now e s l found current = ground arith

-- A heartbeat under another owner or token is refused.
heartbeat_lease_refused :
    (r o t : Text) (now e : ℕ) (s : MemoryStore) (l : Lease)
    → lookup r s.leases ≡ some l
    → (o ≢ l.owner) ⊎ (t ≢ l.fencing_token)
    → heartbeat_lease r o t now e s ≡ (err lease_conflict, s)
unfolding heartbeat_lease
heartbeat_lease_refused r o t now e s l found other =
    ground (arith, text_beq_iff l.owner o, text_beq_iff l.fencing_token t)

module _ (resource r o t : Text) (now e : ℕ) (s : MemoryStore)
    (other : (r == resource) ≡ false) where
  acquire_lease-keeps_other :
      lookup resource (acquire_lease r o t now e s).1.leases ≡ lookup resource s.leases
  unfolding acquire_lease
  acquire_lease-keeps_other = ground (
    arith,
    lookup-insert r resource (record { resource = r; owner = o; fencing_token = t; expires_at = e })
        s.leases,
  )

  heartbeat_lease-keeps_other :
      lookup resource (heartbeat_lease r o t now e s).1.leases ≡ lookup resource s.leases
  unfolding heartbeat_lease
  heartbeat_lease-keeps_other = elim (Option-cases (lookup r s.leases)) [
    | inl none_here ↦ ground arith
    | inr (l, found) ↦
        ground (arith, lookup-insert r resource (record l { expires_at = e }) s.leases)
  ]

module _ (resource : Text) (l : Lease) where
  -- Calls that the holder of `l` has to expect of others: attempts to acquire before it expires, and
  -- heartbeats under another owner or token.
  abbrev pub ByOthers : Call → Type 0
  ByOthers (Call.acquire_lease r o t now e) = r ≡ resource → now < l.expires_at
  ByOthers (Call.heartbeat_lease r o t now e) = r ≡ resource → (o ≢ l.owner) ⊎ (t ≢ l.fencing_token)
  ByOthers _ = Unit

  acquire_lease-keeps :
      (r o t : Text) (now e : ℕ) (s : MemoryStore)
      → (r ≡ resource → now < l.expires_at)
      → lookup resource s.leases ≡ some l
      → lookup resource (acquire_lease r o t now e s).1.leases ≡ some l
  acquire_lease-keeps r o t now e s others found = elim (Bool-cases (r == resource)) [
    | inl same ↦
        let p = (text_beq_iff r resource).0 same in
        rw (acquire_lease_refused r o t now e s l (rw p found) (others p)) found
    | inr other ↦ acquire_lease-keeps_other resource r o t now e s other ∙ found
  ]

  heartbeat_lease-keeps :
      (r o t : Text) (now e : ℕ) (s : MemoryStore)
      → (r ≡ resource → (o ≢ l.owner) ⊎ (t ≢ l.fencing_token))
      → lookup resource s.leases ≡ some l
      → lookup resource (heartbeat_lease r o t now e s).1.leases ≡ some l
  heartbeat_lease-keeps r o t now e s others found = elim (Bool-cases (r == resource)) [
    | inl same ↦
        let p = (text_beq_iff r resource).0 same in
        rw (heartbeat_lease_refused r o t now e s l (rw p found) (others p)) found
    | inr other ↦ heartbeat_lease-keeps_other resource r o t now e s other ∙ found
  ]

  perform-keeps_lease :
      (c : Call) (s : MemoryStore)
      → ByOthers c
      → lookup resource s.leases ≡ some l
      → lookup resource (perform c s).leases ≡ some l
  unfolding perform
  perform-keeps_lease (Call.create w) s others found = rw (create-leases w s) found
  perform-keeps_lease (Call.transition now req) s others found =
      rw (transition-leases now req s) found
  perform-keeps_lease (Call.register_attempt a) s others found =
      rw (register_attempt-leases a s) found
  perform-keeps_lease (Call.supersede_attempt id) s others found =
      rw (supersede_attempt-leases id s) found
  perform-keeps_lease (Call.accept_result r) s others found = rw (accept_result-leases r s) found
  perform-keeps_lease (Call.acquire_lease r o t now e) s others found =
      acquire_lease-keeps r o t now e s others found
  perform-keeps_lease (Call.heartbeat_lease r o t now e) s others found =
      heartbeat_lease-keeps r o t now e s others found

  run-keeps_lease :
      (cs : List Call) (s : MemoryStore)
      → Every ByOthers cs
      → lookup resource s.leases ≡ some l
      → lookup resource (run cs s).leases ≡ some l
  unfolding run
  run-keeps_lease [] s others found = found
  run-keeps_lease (c ∷ cs) s others found =
      run-keeps_lease cs (perform c s) others.1 (perform-keeps_lease c s others.0 found)

-- A lease that was granted is exclusive: after any calls in which acquisitions of its resource come
-- before its expiry and heartbeats of it have another owner or token, the store still holds it unchanged,
-- and an acquisition of the resource before it expires is refused and changes nothing.
pub granted_lease_is_exclusive :
    (r o t : Text) (now e : ℕ) (s : MemoryStore) (l : Lease) (cs : List Call)
    → (acquire_lease r o t now e s).0 ≡ ok l
    → Every (ByOthers r l) cs
    → let s' = run cs (acquire_lease r o t now e s).1 in
      (lookup r s'.leases ≡ some l)
      × ((o' t' : Text) (now' e' : ℕ)
          → now' < e
          → acquire_lease r o' t' now' e' s' ≡ (err lease_conflict, s'))
granted_lease_is_exclusive r o t now e s l cs granted others =
    let (stored, expiry) = acquire_lease_granted r o t now e s l granted in
    let kept = run-keeps_lease r l cs (acquire_lease r o t now e s).1 others stored in
    (
      kept,
      λ o' t' now' e' early.
          acquire_lease_refused r o' t' now' e' (run cs (acquire_lease r o t now e s).1) l kept
            (rw expiry early),
    )
