-- ===== src/Orchestration/Orders.antt =====
-- What it means that the slices of internal/orchestration/orchestration.go are well formed and have
-- an order.
use skilar.Prelude.{
  ◌≤◌, ◌≡◌, ◌↔◌, Bool, true, false, ◌&&◌, ◌||◌, List, [], ◌∷◌, Text, ◌==◌, is_empty, length,
  contains, text_eq, nat_eq, codes, count, arith, text_beq_iff, refl, sym, ◌∙◌, Every, Bool-cases,
  inl, inr,
}
use skilar.Review.{has_prefix}
use skilar.Orchestration.Graph.{Slice, Link, links_to, links_of, slice_ids, no_items}
use skilar.Orchestration.Cycles.{missing, Ordered}

-- Whether a slice with the id lists the dependency.
unfoldable pub depends_on : List Slice → Text → Text → Bool
depends_on [] id dep = false
depends_on (s ∷ rest) id dep = (s.id == id && contains dep s.dependencies) || depends_on rest id dep

-- A list of ids, the last first, in which each slice comes after its dependencies.
unfoldable pub IsOrder : List Slice → List Text → Type 0
IsOrder slices [] = Unit
IsOrder slices (id ∷ before) =
    ((dep : Text) → depends_on slices id dep ≡ true → contains dep before ≡ true)
    × IsOrder slices before

-- The slices can be done one after the other.
abbrev pub IsOrderable : List Slice → Type 0
IsOrderable slices =
    (order : List Text) × IsOrder slices order
    × ((id : Text) → contains id (slice_ids slices) ≡ true → contains id order ≡ true)

abbrev pub IsVertical : Slice → Type 0
IsVertical s =
    (has_prefix s.id (codes "slice_") ≡ true)
    × (is_empty s.title ≡ false)
    × (no_items s.acceptance_criteria ≡ false)

pub record WellFormed (slices : List Slice) : Type 0 where
  pub nonempty : 1 ≤ length slices
  pub vertical : Every IsVertical slices
  pub distinct : (id : Text) → count id (slice_ids slices) ≤ 1
  pub known :
      (id dep : Text)
      → depends_on slices id dep ≡ true
      → (contains dep (slice_ids slices) ≡ true) × ((dep == id) ≡ false)

missing-links_to :
    (seen : List Text) (own id : Text) (deps : List Text) (after : List Link)
    → (own == id) ≡ false
    → missing seen (links_to own deps after) id ≡ missing seen after id
unfolding missing links_to
missing-links_to seen own id [] after differ = refl
missing-links_to seen own id (dep ∷ deps) after differ =
    ground (arith, missing-links_to seen own id deps after differ)

missing_own :
    (seen : List Text) (own id : Text) (deps : List Text) (after : List Link)
    → (own == id) ≡ true
    → (missing seen (links_to own deps after) id ≡ 0) ↔ (
        ((dep : Text) → contains dep deps ≡ true → contains dep seen ≡ true)
        × (missing seen after id ≡ 0))
unfolding missing links_to
missing_own seen own id [] after same =
    (λ h. ((λ dep here. absurd (ground (arith, here))), h), λ h. h.1)
missing_own seen own id (dep ∷ deps) after same = (
  λ h.
      let rest = (missing_own seen own id deps after same).0 (ground (arith, h, same)) in
      (λ d here. ground (arith, here, rest.0 d, text_beq_iff dep d, h, same), rest.1),
  λ h.
      let rest =
        (missing_own seen own id deps after same).1
          ((λ d here. h.0 d (ground (arith, here))), h.1) in
      ground (arith, rest, h.0 dep, text_beq_iff dep dep),
)

pub missing_iff :
    (seen : List Text) (slices : List Slice) (id : Text)
    → (missing seen (links_of slices) id ≡ 0)
      ↔ ((dep : Text) → depends_on slices id dep ≡ true → contains dep seen ≡ true)
unfolding missing links_of depends_on
missing_iff seen [] id = (λ h dep here. absurd (ground (arith, here)), λ h. refl)
missing_iff seen (s ∷ rest) id = elim (Bool-cases (s.id == id)) [
  | inl same ↦
      let own = missing_own seen s.id id s.dependencies (links_of rest) same in
      let others = missing_iff seen rest id in
      (
        λ h dep here. let both = own.0 h in ground (arith, here, both.0 dep, others.0 both.1 dep),
        λ h. own.1 (
          λ dep here. h dep (ground (arith, here, same)),
          others.1 (λ dep here. h dep (ground (arith, here))),
        ),
      )
  | inr differ ↦
      let own = missing-links_to seen s.id id s.dependencies (links_of rest) differ in
      let others = missing_iff seen rest id in
      (
        λ h dep here. ground (arith, here, differ, others.0 (sym own ∙ h) dep),
        λ h. own ∙ others.1 (λ dep here. h dep (ground (arith, here))),
      )
]

-- An order in the sense of the loop is an order in the sense of the slices.
pub ordered_iff :
    (slices : List Slice) (order : List Text)
    → Ordered (links_of slices) order ↔ IsOrder slices order
unfolding Ordered IsOrder
ordered_iff slices [] = (λ h. h, λ h. h)
ordered_iff slices (id ∷ before) =
    let here = missing_iff before slices id in
    let rest = ordered_iff slices before in
    (λ h. (here.0 h.0, rest.0 h.1), λ h. (here.1 h.0, rest.1 h.1))
