-- ===== src/Prelude/Lists.antt =====
-- Lists measured by native numbers, and predicates over them.
use Prim.Native.Nat.{zero, ◌-◌, ℕ, suc, ◌+◌, ◌≤◌}
use mathlib.Core.Path.{refl, ap, ◌∙◌, ◌≡◌}
use mathlib.Core.Logic.{◌↔◌, ◌⊎◌}
use mathlib.Core.Bool.{Bool, true, false, ◌||◌, ◌&&◌}
use mathlib.Core.List.{List, [], ◌∷◌, ◌++◌}
use native.Mathlib.Omega.{arith}
use skilar.Prelude.Tests.{Comparable, ◌==◌, if◌then◌else◌}

module _ {ℓ} {A : Type ℓ} where
  abbrev pub length : List A → ℕ
  length [] = 0
  length (x ∷ xs) = suc (length xs)

  pub length-append : (xs ys : List A) → length (xs ++ ys) ≡ length xs + length ys
  length-append [] ys = omega arith
  length-append (x ∷ xs) ys = omega (arith, length-append xs ys)

  abbrev pub take : ℕ → List A → List A
  take n [] = []
  take zero (x ∷ xs) = []
  take (suc n) (x ∷ xs) = x ∷ take n xs

  pub take-append :
      (n : ℕ) (xs ys : List A) → take n (xs ++ ys) ≡ take n xs ++ take (n - length xs) ys
  take-append n [] ys = let e : n ≡ n - 0 = omega arith in ap (λ m. take m ys) e
  take-append zero (x ∷ xs) [] = refl
  take-append zero (x ∷ xs) (y ∷ ys) =
      let e : 0 ≡ 0 - suc (length xs) = omega arith in ap (λ m. take m (y ∷ ys)) e
  take-append (suc n) (x ∷ xs) ys =
      let e : n - length xs ≡ suc n - suc (length xs) = omega arith in
      ap (λ l. x ∷ l) (take-append n xs ys) ∙ ap (λ m. x ∷ (take n xs ++ take m ys)) e

  -- What is left to take after a prefix.
  pub length-take_left : (n : ℕ) (xs : List A) → n - length (take n xs) ≡ n - length xs
  length-take_left n [] = refl
  length-take_left zero (x ∷ xs) = omega arith
  length-take_left (suc n) (x ∷ xs) = omega (arith, length-take_left n xs)

  pub length-take_le : (n : ℕ) (xs : List A) → length (take n xs) ≤ n
  length-take_le n [] = omega arith
  length-take_le zero (x ∷ xs) = omega arith
  length-take_le (suc n) (x ∷ xs) = omega (arith, length-take_le n xs)

  pub take_all : (n : ℕ) (xs : List A) → length xs ≤ n → take n xs ≡ xs
  take_all n [] h = refl
  take_all zero (x ∷ xs) h = absurd (omega (arith, h))
  take_all (suc n) (x ∷ xs) h = ap (λ l. x ∷ l) (take_all n xs (omega (arith, h)))

-- A property of each item, as a tuple.
abbrev pub Every {ℓ κ} : {A : Type ℓ} (P : A → Type κ) → List A → Type κ
Every P [] = Unit
Every P (a ∷ rest) = P a × Every P rest

-- A property of one item at least.
abbrev pub Any {ℓ} : {A : Type ℓ} (P : A → Type 0) → List A → Type 0
Any P [] = ⊥
Any P (a ∷ rest) = P a ⊎ Any P rest

module _ {ℓ} {A : Type ℓ} ⦃e : Comparable A⦄ where
  -- Whether a value is one of a few.
  abbrev pub contains : A → List A → Bool
  contains a [] = false
  contains a (x ∷ xs) = x == a || contains a xs

  -- Elementwise comparison, after the test on the lengths.
  unfoldable pub same_items : List A → List A → Bool
  same_items [] [] = true
  same_items [] (y ∷ ys) = false
  same_items (x ∷ xs) [] = false
  same_items (x ∷ xs) (y ∷ ys) = x == y && same_items xs ys

  -- How often a value occurs.
  unfoldable pub count : A → List A → ℕ
  count a [] = 0
  count a (x ∷ xs) = let rest = count a xs in if x == a then suc rest else rest

  unfoldable pub remove_one : A → List A → List A
  remove_one a [] = []
  remove_one a (x ∷ xs) = let rest = remove_one a xs in if x == a then xs else x ∷ rest

  pub count-append : (a : A) (xs ys : List A) → count a (xs ++ ys) ≡ count a xs + count a ys
  unfolding count
  count-append a [] ys = omega arith
  count-append a (x ∷ xs) ys = ground (arith, count-append a xs ys)

  pub contains-count : (a : A) (xs : List A) → (contains a xs ≡ true) ↔ (1 ≤ count a xs)
  unfolding count
  contains-count a [] = ground arith
  contains-count a (x ∷ xs) = ground (arith, contains-count a xs)

  -- A value that occurs can be removed.
  pub length-remove_one :
      (a : A) (xs : List A) → 1 ≤ count a xs → length xs ≡ suc (length (remove_one a xs))
  unfolding count remove_one
  length-remove_one a [] h = absurd (omega arith)
  length-remove_one a (x ∷ xs) h = ground (arith, length-remove_one a xs)

  pub count-remove_one :
      (b a : A) (xs : List A)
      → 1 ≤ count a xs
      → count b xs ≡ count b (remove_one a xs) + (if a == b then 1 else 0)
  unfolding count remove_one
  count-remove_one b a [] h = absurd (omega arith)
  count-remove_one b a (x ∷ xs) h =
      ground (arith, count-remove_one b a xs, e.decides x a, e.decides x b, e.decides a b)

  -- What occurs no more often is no longer, and when it is as long it occurs as often.
  pub length-count_le :
      (xs ys : List A)
      → ((a : A) → count a xs ≤ count a ys)
      → (length xs ≤ length ys) × (length xs ≡ length ys → (a : A) → count a ys ≤ count a xs)
  unfolding count
  length-count_le [] [] h = (omega arith, λ _ a. omega arith)
  length-count_le [] (y ∷ ys) h = (omega arith, λ same a. absurd (omega (arith, same)))
  length-count_le (x ∷ xs) ys h =
      let found = first_occurs in
      let rest = length-count_le xs (remove_one x ys) (fewer found) in
      let long = length-remove_one x ys found in
      (
        omega (arith, rest, long),
        λ same a.
            let others = rest.1 (omega (arith, same, long)) a in
            ground (arith, others, count-remove_one a x ys found),
      )
    where
      first_occurs : 1 ≤ count x ys
      first_occurs = ground (arith, h x, e.decides x x)

      fewer : 1 ≤ count x ys → (a : A) → count a xs ≤ count a (remove_one x ys)
      fewer found a = ground (arith, h a, count-remove_one a x ys found)
