-- ===== src/Verification/Covering.antt =====
-- What a verification of internal/verification/verification.go that passes has run.
use mathlib.Core.Path.{subst}
use skilar.Prelude.{
  ℕ, ◌≡◌, refl, sym, ap, ◌∙◌, ◌++◌, Bool, true, false, List, [], ◌∷◌, Option, none, some, Text,
  if◌then◌else◌, Result, ok, pure, ◌>>=◌, text_eq, codes, Every, arith, ok-injective, bind_ok,
}
use skilar.Workflow.Types.{state_eq}
use skilar.Review.{RiskPolicy}
use skilar.Review.Candidate.{CandidateRecord}
use skilar.Verification.{
  Command, Plan, exited, CheckEvidence, Host, VerificationState, VerificationError, evidence_of,
  has_failed, CommandRun, limit_or_default,
}
use skilar.Verification.Run.{
  Verify, kept_as, keep_output, after_item, then_accept, run_group, run_plan,
}

-- Evidence of a command that succeeded on the tree.
abbrev pub IsSuccess : Text → Text → CheckEvidence → Type 0
IsSuccess tree kind e = (e.candidate_tree ≡ tree) × (e.kind ≡ kind) × (e.exit_code ≡ exited 0)

abbrev pub command_of : CheckEvidence → Command
command_of e = record { name = e.command; args = e.args }

abbrev pub commands_of : List CheckEvidence → List Command
commands_of [] = []
commands_of (e ∷ items) = command_of e ∷ commands_of items

abbrev pub Covers : Text → Text → List Command → List CheckEvidence → Type 0
Covers tree kind commands items = (commands_of items ≡ commands) × Every (IsSuccess tree kind) items

module _ {W : Type 0} (host : Host W) (digest : Text → Text) (marshal : RiskPolicy → Text)
    (marshal_basis : CandidateRecord → Text) where
  evidence_of-IsSuccess :
      (tree kind : Text) (c : Command) (limit : ℕ) (r : Option CommandRun)
      → has_failed r ≡ false
      → let e = (evidence_of digest tree kind c limit r).0 in
        IsSuccess tree kind e × (command_of e ≡ c)
  unfolding evidence_of
  evidence_of-IsSuccess tree kind c limit none h = absurd (ground (arith, h))
  evidence_of-IsSuccess tree kind c limit (some r) h =
      ((refl, refl, ap (λ b. if b then r.code else exited 0) h), refl)

  kept_as_same :
      (item : CheckEvidence) (s : VerificationState W) (o : Option (Option Text)) (w : W)
      (kept : CheckEvidence)
      → (kept_as host digest marshal marshal_basis item s o w).0 ≡ ok kept
      → (oid : Text) × (record item { output_artifact_id = oid } ≡ kept)
  kept_as_same item s none w kept h = cc
  kept_as_same item s (some none) w kept h = (item.output_artifact_id, ok-injective item kept h)
  kept_as_same item s (some (some artifact)) w kept h = (artifact, ok-injective _ kept h)

  -- Keeping the output leaves the rest of the evidence.
  keep_output_same :
      (id : Text) (item : CheckEvidence) (output : Text) (s : VerificationState W)
      (kept : CheckEvidence)
      → (keep_output host digest marshal marshal_basis id item output s).0 ≡ ok kept
      → (oid : Text) × (record item { output_artifact_id = oid } ≡ kept)
  unfolding keep_output
  keep_output_same id item output s kept h =
      let r = host.put_log id output s.host in kept_as_same item s r.0 r.1 kept h

  -- An action followed by an answer that it does not change.
  pub answered :
      {A B : Type 0} (m : Verify host digest marshal marshal_basis A) (f : A → B)
      (s : VerificationState W) (b : B)
      → ((m >>= λ a. pure (f a)) s).0 ≡ ok b
      → (a : A) × ((m s).0 ≡ ok a) × (f a ≡ b)
  answered {B = B} m f s b h =
      let (a, fine, after) = bind_ok m (λ a. pure (f a)) s h in
      (
        a,
        fine,
        ok-injective (f a) b
            (sym (ap (λ (r : Result VerificationError B × VerificationState W). r.0) after) ∙ h),
      )

  abbrev group :
      Text
      → Text
      → Text
      → Text
      → ℕ
      → List Command
      → Verify host digest marshal marshal_basis (List CheckEvidence × Bool)
  group = run_group host digest marshal marshal_basis

  after_item_ok :
      (failed : Bool)
      (others : Verify host digest marshal marshal_basis (List CheckEvidence × Bool))
      (item : CheckEvidence) (s : VerificationState W) (r : List CheckEvidence × Bool)
      → (after_item host digest marshal marshal_basis failed others item s).0 ≡ ok r
      → r.1 ≡ true
      → (failed ≡ false)
        × (later : List CheckEvidence × Bool) × ((others s).0 ≡ ok later)
        × ((item ∷ later.0, later.1) ≡ r)
  after_item_ok true others item s r h p =
      absurd (ground (arith, ap (λ (x : List CheckEvidence × Bool). x.1) (ok-injective _ r h), p))
  after_item_ok false others item s r h p =
      let (later, fine, same) = answered others (λ l. (item ∷ l.0, l.1)) s r h in
      (refl, later, fine, same)

  run_group-Covers :
      (id root tree kind : Text) (limit : ℕ) (commands : List Command) (s : VerificationState W)
      (r : List CheckEvidence × Bool)
      → (group id root tree kind limit commands s).0 ≡ ok r
      → r.1 ≡ true
      → Covers tree kind commands r.0
  unfolding run_group
  run_group-Covers id root tree kind limit [] s r h p =
      subst (λ (x : List CheckEvidence × Bool). Covers tree kind [] x.0) (ok-injective _ r h)
        (refl, tt)
  run_group-Covers id root tree kind limit (c ∷ commands) s r h p =
      let ran = host.run_command root tree c s.host in
      let found = evidence_of digest tree kind c limit ran.0 in
      let s' = record s { host = ran.1 } in
      let others = group id root tree kind limit commands in
      let (item, kept, after) =
        bind_ok (keep_output host digest marshal marshal_basis id found.0 found.1)
          (after_item host digest marshal marshal_basis (has_failed ran.0) others) s' h in
      let s'' = (keep_output host digest marshal marshal_basis id found.0 found.1 s').1 in
      let ended =
        sym (
          ap
            (λ (x : Result VerificationError (List CheckEvidence × Bool) × VerificationState W).
              x.0)
            after)
        ∙ h in
      let (fine, later, went, same) = after_item_ok (has_failed ran.0) others item s'' r ended p in
      let (oid, whole) = keep_output_same id found.0 found.1 s' item kept in
      let (good, named) = evidence_of-IsSuccess tree kind c limit ran.0 fine in
      let rest =
        run_group-Covers id root tree kind limit commands s'' later went
          (ap (λ (x : List CheckEvidence × Bool). x.1) same ∙ p) in
      subst (λ (x : List CheckEvidence × Bool). Covers tree kind (c ∷ commands) x.0) same
        (
          ap (λ e. command_of e ∷ commands_of later.0) (sym whole)
              ∙ ap (λ x. x ∷ commands_of later.0) named
              ∙ ap (λ l. c ∷ l) rest.0,
          (subst (λ e. IsSuccess tree kind e) whole good, rest.1),
        )

  Every-append :
      (P : CheckEvidence → Type 0) (xs ys : List CheckEvidence)
      → Every P xs
      → Every P ys
      → Every P (xs ++ ys)
  Every-append P [] ys h g = g
  Every-append P (x ∷ xs) ys h g = (h.0, Every-append P xs ys h.1 g)

  commands_of-append :
      (xs ys : List CheckEvidence) → commands_of (xs ++ ys) ≡ commands_of xs ++ commands_of ys
  commands_of-append [] ys = refl
  commands_of-append (x ∷ xs) ys = ap (λ l. command_of x ∷ l) (commands_of-append xs ys)

  -- The evidence of a plan that passed: the checks and then the acceptance.
  abbrev pub CoversPlan : Text → Plan → List CheckEvidence → Type 0
  CoversPlan tree plan items =
      (commands_of items ≡ plan.checks ++ plan.acceptance)
      × Every (λ e. (e.candidate_tree ≡ tree) × (e.exit_code ≡ exited 0)) items

  forget_kind :
      (tree kind : Text) (items : List CheckEvidence)
      → Every (IsSuccess tree kind) items
      → Every (λ e. (e.candidate_tree ≡ tree) × (e.exit_code ≡ exited 0)) items
  forget_kind tree kind [] h = tt
  forget_kind tree kind (e ∷ items) h = ((h.0.0, h.0.2), forget_kind tree kind items h.1)

  then_accept_ok :
      (acceptance : Verify host digest marshal marshal_basis (List CheckEvidence × Bool))
      (checks : List CheckEvidence × Bool) (s : VerificationState W) (r : List CheckEvidence × Bool)
      → (then_accept host digest marshal marshal_basis acceptance checks s).0 ≡ ok r
      → r.1 ≡ true
      → (checks.1 ≡ true)
        × (accepted : List CheckEvidence × Bool) × ((acceptance s).0 ≡ ok accepted)
        × ((checks.0 ++ accepted.0, accepted.1) ≡ r)
  then_accept_ok acceptance (items, false) s r h p =
      absurd (ground (arith, ap (λ (x : List CheckEvidence × Bool). x.1) (ok-injective _ r h), p))
  then_accept_ok acceptance (items, true) s r h p =
      let (accepted, fine, same) = answered acceptance (λ l. (items ++ l.0, l.1)) s r h in
      (refl, accepted, fine, same)

  pub run_plan-CoversPlan :
      (id root tree : Text) (plan : Plan) (s : VerificationState W) (r : List CheckEvidence × Bool)
      → (run_plan host digest marshal marshal_basis id root tree plan s).0 ≡ ok r
      → r.1 ≡ true
      → CoversPlan tree plan r.0
  unfolding run_plan
  run_plan-CoversPlan id root tree plan s r h p =
      let limit = limit_or_default plan.max_output_bytes in
      let checking = group id root tree (codes "check") limit plan.checks in
      let accepting = group id root tree (codes "acceptance") limit plan.acceptance in
      let (checks, checked, after) =
        bind_ok checking (then_accept host digest marshal marshal_basis accepting) s h in
      let ended =
        sym (
          ap
            (λ (x : Result VerificationError (List CheckEvidence × Bool) × VerificationState W).
              x.0)
            after)
        ∙ h in
      let s' = (checking s).1 in
      let (passed, accepted, went, same) = then_accept_ok accepting checks s' r ended p in
      let first =
        run_group-Covers id root tree (codes "check") limit plan.checks s checks checked passed in
      let second =
        run_group-Covers id root tree (codes "acceptance") limit plan.acceptance s' accepted went
          (ap (λ (x : List CheckEvidence × Bool). x.1) same ∙ p) in
      subst (λ (x : List CheckEvidence × Bool). CoversPlan tree plan x.0) same
        (
          commands_of-append checks.0 accepted.0
              ∙ ap (λ l. l ++ commands_of accepted.0) first.0
              ∙ ap (λ l. plan.checks ++ l) second.0,
          Every-append _ checks.0 accepted.0 (forget_kind tree (codes "check") checks.0 first.1)
              (forget_kind tree (codes "acceptance") accepted.0 second.1),
        )
