-- ===== src/Workflow/Sqlite/WorkLaws.antt =====
-- The leases of SQLiteStore (internal/workflow/sqlite.go) and of MemoryStore (store.go) agree.
use skilar.Prelude.{
  ℕ, ◌≡◌, refl, ap, ◌∙◌, not, ◌||◌, Option, some, Text, ◌==◌, arith, is_empty, lookup, insert,
  lookup-insert, ltb, text_eq, text_beq_iff, Bool-cases, inl, inr,
}
use skilar.Workflow.Types.{Lease}
use skilar.Workflow.Memory
use skilar.Workflow.Memory.{MemoryStore, is_taken}
use skilar.Workflow.Sqlite.{Database}
use skilar.Workflow.Sqlite.Work
use skilar.Workflow.Sqlite.Work.{holds, is_replaceable}

-- The two stores hold the same leases, each under its resource.
pub record SameLeases (m : MemoryStore) (d : Database) : Type 0 where
  pub same : (resource : Text) → lookup resource d.leases ≡ lookup resource m.leases
  pub named :
      (resource : Text) (l : Lease) → lookup resource m.leases ≡ some l → l.resource ≡ resource

inserted-SameLeases :
    (l : Lease) (m : MemoryStore) (d : Database)
    → SameLeases m d
    → SameLeases
        (record m { leases = insert l.resource l m.leases })
        (record d { leases = insert l.resource l d.leases })
inserted-SameLeases l m d r = record {
  same = λ x.
      rw (lookup-insert l.resource x l d.leases, lookup-insert l.resource x l m.leases, r.same x)
        refl;
  named = λ x k h. elim (Bool-cases (l.resource == x)) [
    | inl e ↦ ground (arith, lookup-insert l.resource x l m.leases, text_beq_iff l.resource x)
    | inr n ↦ r.named x k (ground (arith, lookup-insert l.resource x l m.leases))
  ];
}

is_replaceable-is_taken : (o : Option Lease) (now : ℕ) → is_replaceable o now ≡ not (is_taken o now)
is_replaceable-is_taken o now = ground arith

-- When the two stores hold the same leases, and UnixNano gives both times exactly, they answer
-- `AcquireLease` alike and hold the same leases afterwards.
pub acquire_lease_refines :
    (resource owner token : Text) (now expires_at : ℕ) (m : MemoryStore) (d : Database)
    → SameLeases m d
    → d.unix_nano now ≡ now
    → d.unix_nano expires_at ≡ expires_at
    → ((Memory.acquire_lease resource owner token now expires_at m).0
        ≡ (Work.acquire_lease resource owner token now expires_at d).0)
      × SameLeases
          (Memory.acquire_lease resource owner token now expires_at m).1
          (Work.acquire_lease resource owner token now expires_at d).1
unfolding Memory.acquire_lease Work.acquire_lease
acquire_lease_refines resource owner token now expires_at m d r exact_now exact =
    elim (Bool-cases
      (is_empty resource || is_empty owner || is_empty token || not (ltb now expires_at))) [
        | inl bad ↦ rw bad (refl, r)
        | inr good ↦
            let test : is_replaceable (lookup resource d.leases) now
                ≡ not (is_taken (lookup resource m.leases) now) =
              ap (λ o. is_replaceable o now) (r.same resource)
              ∙ is_replaceable-is_taken (lookup resource m.leases) now in
            elim (Bool-cases (is_taken (lookup resource m.leases) now)) [
              | inl taken ↦ rw (good, exact_now, test, taken) (refl, r)
              | inr free ↦
                  rw (good, exact_now, test, free, exact) (refl, inserted-SameLeases _ m d r)
            ]
      ]
