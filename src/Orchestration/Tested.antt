-- ===== src/Orchestration/Tested.antt =====
-- The tests of `ValidateExecution` in internal/orchestration/orchestration.go before the search for
-- a cycle, as properties of the slices.
use skilar.Prelude.{
  ◌≤◌, ◌≡◌, ◌↔◌, true, false, ◌&&◌, List, [], ◌∷◌, none, Text, ◌==◌, contains, text_eq, count,
  arith, text_beq_iff, refl, Every, Bool-cases, inl, inr, sym,
}
use skilar.Orchestration.Graph.{
  Slice, slice_ids, check_slices, check_dependencies, bad_dependency, first_error,
}
use skilar.Orchestration.Orders.{depends_on, IsVertical, WellFormed}

abbrev NewIds : List Text → List Slice → Type 0
NewIds ids slices = (id : Text) → contains id ids ≡ true → count id (slice_ids slices) ≡ 0

abbrev DistinctIds : List Slice → Type 0
DistinctIds slices = (id : Text) → count id (slice_ids slices) ≤ 1

check_slices_iff :
    (ids : List Text) (slices : List Slice)
    → (check_slices ids slices ≡ none)
      ↔ (Every IsVertical slices × NewIds ids slices × DistinctIds slices)
unfolding check_slices count
check_slices_iff ids [] = (λ h. (tt, (λ id here. refl), λ id. omega arith), λ h. refl)
check_slices_iff ids (s ∷ rest) =
    let later = check_slices_iff (s.id ∷ ids) rest in
    (
      λ h.
          let after = later.0 (ground (arith, h)) in
          (
            (ground (arith, h), after.0),
            (λ id here. ground (arith, h, here, after.1 id, text_beq_iff s.id id)),
            λ id. ground (arith, after.1 id, after.2 id),
          ),
      λ h.
          let after = later.1 (
            h.0.1,
            (λ id here. ground (arith, here, h.1 id, h.2 id)),
            λ id. ground (arith, h.2 id),
          ) in
          ground (arith, after, h.0.0, h.1 s.id, text_beq_iff s.id s.id),
    )

bad_dependency_iff :
    (ids : List Text) (id : Text) (deps : List Text)
    → (bad_dependency ids id deps ≡ false) ↔ (
        (dep : Text) → contains dep deps ≡ true → (contains dep ids ≡ true) × ((dep == id) ≡ false))
unfolding bad_dependency
bad_dependency_iff ids id [] = (λ h dep here. absurd (ground (arith, here)), λ h. refl)
bad_dependency_iff ids id (first ∷ deps) =
    let later = bad_dependency_iff ids id deps in
    (
      λ h dep here. elim (Bool-cases (first == dep)) [
        | inl same ↦ rw (sym ((text_beq_iff first dep).0 same)) (ground (arith, h))
        | inr differ ↦ later.0 (ground (arith, h)) dep (ground (arith, here, differ))
      ],
      λ h.
          let rest = later.1 (λ dep here. h dep (ground (arith, here))) in
          ground (arith, rest, h first, text_beq_iff first first),
    )

check_dependencies_iff :
    (ids : List Text) (slices : List Slice)
    → (check_dependencies ids slices ≡ none) ↔ (
        (id dep : Text)
        → depends_on slices id dep ≡ true
        → (contains dep ids ≡ true) × ((dep == id) ≡ false))
unfolding check_dependencies depends_on
check_dependencies_iff ids [] = (λ h id dep here. absurd (ground (arith, here)), λ h. refl)
check_dependencies_iff ids (s ∷ rest) =
    let own = bad_dependency_iff ids s.id s.dependencies in
    let later = check_dependencies_iff ids rest in
    (
      λ h id dep here. elim (Bool-cases (s.id == id && contains dep s.dependencies)) [
        | inl listed ↦
            rw (sym ((text_beq_iff s.id id).0 (ground (arith, listed))))
              (own.0 (ground (arith, h)) dep (ground (arith, listed)))
        | inr other ↦ later.0 (ground (arith, h)) id dep (ground (arith, here, other))
      ],
      λ h.
          let here =
            own.1 (λ dep listed. h s.id dep (ground (arith, listed, text_beq_iff s.id s.id))) in
          let after = later.1 (λ id dep listed. h id dep (ground (arith, listed))) in
          ground (arith, here, after),
    )

pub first_error_iff : (slices : List Slice) → (first_error slices ≡ none) ↔ WellFormed slices
unfolding first_error
first_error_iff [] = (λ h. absurd (ground (arith, h)), λ h. absurd (omega (arith, h.nonempty)))
first_error_iff (s ∷ rest) =
    let tests = check_slices_iff [] (s ∷ rest) in
    let links = check_dependencies_iff (slice_ids (s ∷ rest)) (s ∷ rest) in
    (
      λ h.
          let passed = tests.0 (ground (arith, h)) in
          record {
            nonempty = omega arith;
            vertical = passed.0;
            distinct = passed.2;
            known = links.0 (ground (arith, h));
          },
      λ h.
          let first =
            tests.1 (h.vertical, (λ id here. absurd (ground (arith, here))), h.distinct) in
          rw (first, first_error) (links.1 h.known),
    )
