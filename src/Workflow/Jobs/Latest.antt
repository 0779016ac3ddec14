-- ===== src/Workflow/Jobs/Latest.antt =====
-- The rows that RetryTechnicalWorkflowJob of internal/workflow/jobs.go reads.
use skilar.Prelude.{
  ℕ, suc, ◌≡◌, ◌↔◌, refl, Bool, true, false, ◌&&◌, not, List, [], ◌∷◌, Option, none, some, Text,
  ◌==◌, Every, Map, arith, Bool-cases, inl, inr, text_eq, if◌then◌else◌, text_beq_iff, codes,
  contains,
}
use skilar.Workflow.Types.{Event, blocked, state_eq, state_beq_iff}
use skilar.Review.{has_prefix}
use skilar.Workflow.Jobs.{WorkflowJob, JobState, cancelled, is_cancelled}
use skilar.Workflow.Jobs.Endings.{
  is_displaced, is_job_of, lower_text, count_attempts, latest_job, or_later, blocker_is,
}

-- `IsLast P a as`: `a` is the last item of the list with the property.
pub data IsLast {A : Type 0} (P : A → Type 0) : A → List A → Type 0 where
  here : {a : A} → {rest : List A} → P a → Every (λ b. P b → ⊥) rest → IsLast P a (a ∷ rest)
  later : {a b : A} → {rest : List A} → IsLast P a rest → IsLast P a (b ∷ rest)

-- `Counts P as n`: the list has `n` items with the property.
pub data Counts {A : Type 0} (P : A → Type 0) : List A → ℕ → Type 0 where
  ended : Counts P [] 0
  taken : {a : A} → {rest : List A} → {n : ℕ} → P a → Counts P rest n → Counts P (a ∷ rest) (suc n)
  passed : {a : A} → {rest : List A} → {n : ℕ} → (P a → ⊥) → Counts P rest n → Counts P (a ∷ rest) n

module _ (id operation : Text) where
  abbrev pub IsJobOf : Text × WorkflowJob → Type 0
  IsJobOf row = (row.1.workflow_id ≡ id) × (row.1.operation ≡ operation)

  -- A job that counts: it did not give way to another.
  abbrev pub IsAttempt : Text × WorkflowJob → Type 0
  IsAttempt row =
      IsJobOf row
      × (row.1.state ≡ cancelled
          → has_prefix (lower_text row.1.error) (codes "execution displaced: ") ≡ false)

  is_job_of-iff-IsJobOf :
      (row : Text × WorkflowJob) → (is_job_of id operation row.1 ≡ true) ↔ IsJobOf row
  is_job_of-iff-IsJobOf row =
      ground (arith, text_beq_iff row.1.workflow_id id, text_beq_iff row.1.operation operation)

  cancelled_iff : (s : JobState) → (is_cancelled s ≡ true) ↔ (s ≡ cancelled)
  cancelled_iff s = ground arith

  IsAttempt-iff :
      (row : Text × WorkflowJob)
      → ((is_job_of id operation row.1 && not (is_displaced row.1)) ≡ true) ↔ IsAttempt row
  IsAttempt-iff row = ground (arith, is_job_of-iff-IsJobOf row, cancelled_iff row.1.state)

  pub count_attempts-Counts :
      (rows : Map Text WorkflowJob) → Counts IsAttempt rows (count_attempts id operation rows)
  unfolding count_attempts
  count_attempts-Counts [] = ended
  count_attempts-Counts (row ∷ rows) =
      elim (Bool-cases (is_job_of id operation row.1 && not (is_displaced row.1))) [
        | inl counted ↦
            rw counted (taken ((IsAttempt-iff row).0 counted) (count_attempts-Counts rows))
        | inr skipped ↦
            rw skipped
              (passed (λ a. let c = (IsAttempt-iff row).1 a in cc) (count_attempts-Counts rows))
      ]

  -- The last job of the operation, or that there is none.
  abbrev pub IsLatest : Map Text WorkflowJob → Option (Text × WorkflowJob) → Type 0
  IsLatest rows none = Every (λ row. IsJobOf row → ⊥) rows
  IsLatest rows (some row) = IsLast IsJobOf row rows

  pub latest_job-IsLatest :
      (rows : Map Text WorkflowJob) → IsLatest rows (latest_job id operation rows)
  unfolding latest_job
  latest_job-IsLatest [] = tt
  latest_job-IsLatest (row ∷ rows) =
      by_rest (latest_job id operation rows) (latest_job-IsLatest rows)
    where
      by_rest :
          (o : Option (Text × WorkflowJob))
          → IsLatest rows o
          → IsLatest
              (row ∷ rows)
              (or_later (if is_job_of id operation row.1 then some row else none) o)
      by_rest (some last) h = later h
      by_rest none h = elim (Bool-cases (is_job_of id operation row.1)) [
        | inl own ↦ rw own (here ((is_job_of-iff-IsJobOf row).0 own) h)
        | inr foreign ↦ rw foreign ((λ a. let c = (is_job_of-iff-IsJobOf row).1 a in cc), h)
      ]

-- A step of the workflow into `blocked`.
abbrev pub IsBlock : Text → Event → Type 0
IsBlock id e = (e.workflow_id ≡ id) × (e.to ≡ blocked)

abbrev pub IsBlocker : Text → Text → List Event → Option Bool → Type 0
IsBlocker id artifact events none = Every (λ e. IsBlock id e → ⊥) events
IsBlocker id artifact events (some found) =
    (e : Event) × IsLast (IsBlock id) e events × (found ≡ contains artifact e.artifact_ids)

IsBlock-iff :
    (id : Text) (e : Event) → ((e.workflow_id == id && e.to == blocked) ≡ true) ↔ IsBlock id e
IsBlock-iff id e = ground (arith, text_beq_iff e.workflow_id id, state_beq_iff e.to blocked)

pub blocker_is-IsBlocker :
    (id artifact : Text) (events : List Event)
    → IsBlocker id artifact events (blocker_is id artifact events)
unfolding blocker_is
blocker_is-IsBlocker id artifact [] = tt
blocker_is-IsBlocker id artifact (e ∷ events) =
    by_rest (blocker_is id artifact events) (blocker_is-IsBlocker id artifact events)
  where
    by_rest :
        (o : Option Bool)
        → IsBlocker id artifact events o
        → IsBlocker id artifact (e ∷ events) (elim o [
          | some found ↦ some found
          | none ↦
              if e.workflow_id == id && e.to == blocked
              then some (contains artifact e.artifact_ids)
              else none
        ])
    by_rest (some found) (last, h, same) = (last, later h, same)
    by_rest none h = elim (Bool-cases (e.workflow_id == id && e.to == blocked)) [
      | inl own ↦ rw own (e, here ((IsBlock-iff id e).0 own) h, refl)
      | inr foreign ↦ rw foreign ((λ a. let c = (IsBlock-iff id e).1 a in cc), h)
    ]
