-- ===== src/Prelude/Maps.antt =====
-- A Go map, or a table under its primary key, as an association list.
use mathlib.Core.Path.{◌≡◌, refl}
use mathlib.Core.Logic.{inl, inr}
use mathlib.Core.Option.{Option, none, some}
use mathlib.Core.List.{List, [], ◌∷◌}
use native.Mathlib.Omega.{arith}
use skilar.Prelude.Tests.{Comparable, ◌==◌, if◌then◌else◌, Option-cases}

abbrev pub Map {ℓ κ} : Type ℓ → Type κ → Type (ℓ ⊔ κ)
Map K V = List (K × V)

module _ {ℓ κ} {K : Type ℓ} {V : Type κ} ⦃e : Comparable K⦄ where
  unfoldable pub lookup : K → Map K V → Option V
  lookup key [] = none
  lookup key ((other, value) ∷ rows) = if other == key then some value else lookup key rows

  -- `m[key] = value`
  unfoldable pub insert : K → V → Map K V → Map K V
  insert key value [] = (key, value) ∷ []
  insert key value (row ∷ rows) =
      if row.0 == key then (key, value) ∷ rows else row ∷ insert key value rows

  -- `delete(m, key)`
  unfoldable pub erase : K → Map K V → Map K V
  erase key [] = []
  erase key (row ∷ rows) = let rest = erase key rows in if row.0 == key then rest else row ∷ rest

  module _ (key asked : K) where
    pub lookup-insert :
        (value : V) (rows : Map K V)
        → lookup asked (insert key value rows)
          ≡ (if key == asked then some value else lookup asked rows)
    unfolding lookup insert
    lookup-insert value [] = refl
    lookup-insert value (row ∷ rows) = ground (
      arith,
      lookup-insert value rows,
      e.decides row.0 key,
      e.decides row.0 asked,
      e.decides key asked,
    )

    pub lookup-erase :
        (rows : Map K V)
        → lookup asked (erase key rows) ≡ (if key == asked then none else lookup asked rows)
    unfolding lookup erase
    lookup-erase [] = ground arith
    lookup-erase (row ∷ rows) =
        ground (
          arith,
          lookup-erase rows,
          e.decides row.0 key,
          e.decides row.0 asked,
          e.decides key asked,
        )

  pub lookup-insert_self :
      (key : K) (value : V) (rows : Map K V) → lookup key (insert key value rows) ≡ some value
  lookup-insert_self key value rows =
      ground (arith, lookup-insert key key value rows, e.decides key key)

  -- INSERT OR IGNORE
  abbrev pub keep_or : Option V → Map K V → Map K V → Map K V
  keep_or none rows more = more
  keep_or (some value) rows more = rows

  unfoldable pub insert_new : K → V → Map K V → Map K V
  insert_new key value rows = keep_or (lookup key rows) rows (insert key value rows)

  -- What a table holds is not written again, and the key is there afterwards.
  pub insert_new_keeps :
      (key asked : K) (value old : V) (rows : Map K V)
      → lookup asked rows ≡ some old
      → lookup asked (insert_new key value rows) ≡ some old
  unfolding insert_new
  insert_new_keeps key asked value old rows h = elim (Option-cases (lookup key rows)) [
    | inl new ↦
        rw new (ground (arith, h, new, lookup-insert key asked value rows, e.decides key asked))
    | inr (there, found) ↦ rw found h
  ]

  pub insert_new_has :
      (key : K) (value : V) (rows : Map K V)
      → (there : V) × (lookup key (insert_new key value rows) ≡ some there)
  unfolding insert_new
  insert_new_has key value rows = elim (Option-cases (lookup key rows)) [
    | inl new ↦ rw new (value, lookup-insert_self key value rows)
    | inr (there, found) ↦ rw found (there, found)
  ]
