-- ===== src/Workflow/Sqlite/Creation.antt =====
-- `Create` of SQLiteStore (internal/workflow/sqlite.go) and of MemoryStore (store.go) agree.
use skilar.Prelude.{
  ◌≡◌, refl, ◌↔◌, Bool, not, ◌||◌, ◌==◌, arith, lookup, insert, lookup-insert, ok, nat_eq, text_eq,
  text_beq_iff, Bool-cases, inl, inr, is_empty,
}
use skilar.Workflow.Types.{created, state_eq, Workflow}
use skilar.Workflow.Memory
use skilar.Workflow.Memory.{MemoryStore, new_memory_store, is_some, with_initial_state}
use skilar.Workflow.Sqlite
use skilar.Workflow.Sqlite.{Database, empty_database, has_event}
use skilar.Workflow.Sqlite.Refinement.{Represents, events_by}

pub empty-Represents : Represents new_memory_store empty_database
unfolding new_memory_store empty_database lookup has_event events_by
empty-Represents = record {
  workflows = λ id. refl;
  named = λ id w h. cc;
  idempotency = λ id key n. refl;
  events = λ id. refl;
  keyed = λ id key h. cc;
}

module _ (w : Workflow) (m : MemoryStore) (d : Database) (r : Represents m d) where
  inserted-Represents :
      Represents
        (record m { workflows = insert w.id w m.workflows })
        (record d { workflows = insert w.id w d.workflows })
  inserted-Represents = record {
    workflows = λ id.
        rw
          (lookup-insert w.id id w d.workflows, lookup-insert w.id id w m.workflows, r.workflows id)
          refl;
    named = λ id v h. elim (Bool-cases (w.id == id)) [
      | inl e ↦ ground (arith, lookup-insert w.id id w m.workflows, text_beq_iff w.id id)
      | inr n ↦ r.named id v (ground (arith, lookup-insert w.id id w m.workflows))
    ];
    idempotency = r.idempotency;
    events = r.events;
    keyed = r.keyed;
  }

-- Whether a workflow does not start at the beginning.
abbrev is_wrong : Workflow → Bool
is_wrong given =
    not ((with_initial_state given).state == created)
    || not ((with_initial_state given).state_version == 0)

-- When the two stores hold the same, `Create` succeeds in both with the same workflow or in neither,
-- and they hold the same afterwards. (The two may refuse with different errors.)
pub create_refines :
    (given : Workflow) (m : MemoryStore) (d : Database)
    → Represents m d
    → ((v : Workflow) → (Memory.create given m).0 ≡ ok v ↔ (Sqlite.create given d).0 ≡ ok v)
      × Represents (Memory.create given m).1 (Sqlite.create given d).1
unfolding Memory.create Sqlite.create
create_refines given m d r = elim (Bool-cases (is_empty given.id)) [
  | inl empty ↦ rw empty ((λ v. (λ h. cc, λ h. cc)), r)
  | inr named ↦ elim (Bool-cases (is_some (lookup given.id m.workflows))) [
    | inl known ↦ elim (Bool-cases (is_wrong given)) [
      | inl wrong ↦ rw (named, known, wrong) ((λ v. (λ h. cc, λ h. cc)), r)
      | inr right ↦
          rw (named, known, right, r.workflows given.id, known) ((λ v. (λ h. cc, λ h. cc)), r)
    ]
    | inr fresh ↦ elim (Bool-cases (is_wrong given)) [
      | inl wrong ↦ rw (named, fresh, wrong) ((λ v. (λ h. cc, λ h. cc)), r)
      | inr right ↦
          rw (named, fresh, right, r.workflows given.id, fresh)
            ((λ v. (λ h. h, λ h. h)), inserted-Represents (with_initial_state given) m d r)
    ]
  ]
]
