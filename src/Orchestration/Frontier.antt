-- ===== src/Orchestration/Frontier.antt =====
-- The question that `Frontier` of internal/orchestration/orchestration.go returns.
use mathlib.Core.Path.{subst}
use skilar.Prelude.{
  is_empty, ◌≡◌, ◌≢◌, ◌↔◌, ◌<◌, ℕ, length, ltb, nat_beq_iff, ◌==◌, Text, refl, ap, sym, ◌∙◌, ◌⊎◌,
  true, false, ◌||◌, List, [], ◌∷◌, Option, none, some, Text, nat_eq, arith, Every, Bool-cases,
  if_ind, inl, inr,
}
use skilar.Orchestration.Wayfinder.{
  NodeType, grill, is_grill, WayfinderNode, WayfinderGraph, text_before, is_candidate, candidates,
  sorts_before, first_of, first_candidate, frontier,
}

text_before_trans :
    (a b c : Text) → text_before a b ≡ true → text_before b c ≡ true → text_before a c ≡ true
unfolding text_before
text_before_trans a [] c h g = absurd (ground (arith, h))
text_before_trans a (y ∷ b) [] h g = absurd (ground (arith, g))
text_before_trans [] (y ∷ b) (z ∷ c) h g = refl
text_before_trans (x ∷ a) (y ∷ b) (z ∷ c) h g = ground (arith, text_before_trans a b c, h, g)

text_before_cotrans :
    (a b c : Text) → text_before a c ≡ true → (text_before a b || text_before b c) ≡ true
unfolding text_before
text_before_cotrans a b [] h = absurd (ground (arith, h))
text_before_cotrans [] [] (z ∷ c) h = refl
text_before_cotrans (x ∷ a) [] (z ∷ c) h = refl
text_before_cotrans [] (y ∷ b) (z ∷ c) h = refl
text_before_cotrans (x ∷ a) (y ∷ b) (z ∷ c) h = ground (arith, text_before_cotrans a b c, h)

text_before_irrefl : (a : Text) → text_before a a ≡ false
unfolding text_before
text_before_irrefl [] = refl
text_before_irrefl (x ∷ a) = ground (arith, text_before_irrefl a)

sorts_before_trans :
    (a b c : WayfinderNode)
    → sorts_before a b ≡ true
    → sorts_before b c ≡ true
    → sorts_before a c ≡ true
unfolding sorts_before
sorts_before_trans a b c h g = ground (arith, text_before_trans a.id b.id c.id, h, g)

sorts_before_irrefl : (a : WayfinderNode) → sorts_before a a ≡ false
unfolding sorts_before
sorts_before_irrefl a = ground (arith, text_before_irrefl a.id)

sorts_before_cotrans :
    (a b c : WayfinderNode)
    → sorts_before a c ≡ true
    → (sorts_before a b || sorts_before b c) ≡ true
unfolding sorts_before
sorts_before_cotrans a b c h = ground (arith, text_before_cotrans a.id b.id c.id, h)

abbrev NoneBefore : WayfinderNode → List WayfinderNode → Type 0
NoneBefore first nodes = Every (λ n. sorts_before n first ≡ false) nodes

first_of_lem :
    (best : WayfinderNode) (nodes : List WayfinderNode)
    → NoneBefore (first_of best nodes) (best ∷ nodes)
unfolding first_of
first_of_lem best [] = (sorts_before_irrefl best, tt)
first_of_lem best (n ∷ nodes) =
    if_ind (λ b. NoneBefore (first_of b nodes) (best ∷ n ∷ nodes)) (sorts_before n best) n best
      (λ earlier.
        let (not_new, rest) = first_of_lem n nodes in
        let first = first_of n nodes in
        (ground (arith, sorts_before_trans n best first earlier, not_new), (not_new, rest)))
      (λ later.
        let (not_best, rest) = first_of_lem best nodes in
        let first = first_of best nodes in
        (not_best, (ground (arith, sorts_before_cotrans n best first, later, not_best), rest)))

-- A node of the list.
abbrev pub IsAmong : WayfinderNode → List WayfinderNode → Type 0
IsAmong first [] = ⊥
IsAmong first (n ∷ nodes) = (first ≡ n) ⊎ IsAmong first nodes

first_of-IsAmong :
    (best : WayfinderNode) (nodes : List WayfinderNode)
    → IsAmong (first_of best nodes) (best ∷ nodes)
unfolding first_of
first_of-IsAmong best [] = inl refl
first_of-IsAmong best (n ∷ nodes) =
    if_ind (λ b. IsAmong (first_of b nodes) (best ∷ n ∷ nodes)) (sorts_before n best) n best
      (λ _. inr (first_of-IsAmong n nodes))
      (λ _. elim (first_of-IsAmong best nodes) [
        | inl same ↦ inl same
        | inr inside ↦ inr (inr inside)
      ])

-- No candidate among the nodes sorts before the first.
abbrev pub IsFirst : WayfinderNode → List WayfinderNode → Type 0
IsFirst first nodes = Every (λ n. is_candidate n ≡ true → sorts_before n first ≡ false) nodes

candidates-IsFirst :
    (first : WayfinderNode) (nodes : List WayfinderNode)
    → NoneBefore first (candidates nodes)
    → IsFirst first nodes
unfolding candidates
candidates-IsFirst first [] h = tt
candidates-IsFirst first (n ∷ nodes) h = elim (Bool-cases (is_candidate n)) [
  | inl is_one ↦ let all = rw is_one at h in (λ _. all.0, candidates-IsFirst first nodes all.1)
  | inr not_one ↦
      let all = rw not_one at h in
      ((λ is_one. absurd (ground (arith, is_one, not_one))), candidates-IsFirst first nodes all)
]

candidates-IsAmong :
    (first : WayfinderNode) (nodes : List WayfinderNode)
    → IsAmong first (candidates nodes)
    → IsAmong first nodes × (is_candidate first ≡ true)
unfolding candidates
candidates-IsAmong first [] h = absurd h
candidates-IsAmong first (n ∷ nodes) h = elim (Bool-cases (is_candidate n)) [
  | inl is_one ↦ elim (rw is_one at h) [
    | inl same ↦ (inl same, ap (λ m. is_candidate m) same ∙ is_one)
    | inr inside ↦ let (there, fits) = candidates-IsAmong first nodes inside in (inr there, fits)
  ]
  | inr not_one ↦
      let (there, fits) = candidates-IsAmong first nodes (rw not_one at h) in (inr there, fits)
]

candidates_none :
    (nodes : List WayfinderNode) → candidates nodes ≡ [] → Every (λ n. is_candidate n ≡ false) nodes
unfolding candidates
candidates_none [] h = tt
candidates_none (n ∷ nodes) h = (ground (arith, h), candidates_none nodes (ground (arith, h)))

-- An open question: a Grill node that blocks, has a text and is not resolved.
pub record IsOpen (n : WayfinderNode) : Type 0 where
  pub grills : n.type ≡ grill
  pub blocks : n.blocking ≡ true
  pub unresolved : n.resolved ≡ false
  pub asks : n.question ≢ []

-- The order of Go on strings, byte by byte.
pub data IsUpTo : Text → Text → Type 0 where
  ended : {t : Text} → IsUpTo [] t
  smaller : {a b : ℕ} → {s t : Text} → a < b → IsUpTo (a ∷ s) (b ∷ t)
  equal : {a : ℕ} → {s t : Text} → IsUpTo s t → IsUpTo (a ∷ s) (a ∷ t)

-- A node unlocks more than another, or as many and its id is not after the other's.
abbrev pub IsPreferred : WayfinderNode → WayfinderNode → Type 0
IsPreferred first n =
    (length n.unlocks < length first.unlocks)
    ⊎ ((length n.unlocks ≡ length first.unlocks) × IsUpTo first.id n.id)

abbrev pub IsAnswer : List WayfinderNode → Option WayfinderNode → Type 0
IsAnswer nodes none = Every (λ n. IsOpen n → ⊥) nodes
IsAnswer nodes (some first) =
    IsAmong first nodes × IsOpen first × Every (λ n. IsOpen n → IsPreferred first n) nodes

is_grill_iff : (t : NodeType) → (is_grill t ≡ true) ↔ (t ≡ grill)
is_grill_iff t = ground arith

is_empty_iff : (t : Text) → (is_empty t ≡ false) ↔ (t ≢ [])
is_empty_iff [] = ((λ h. cc), λ n. absurd (n refl))
is_empty_iff (b ∷ t) = ((λ h e. cc), λ n. refl)

is_candidate-iff-IsOpen : (n : WayfinderNode) → (is_candidate n ≡ true) ↔ IsOpen n
is_candidate-iff-IsOpen n = (
  λ h. record {
    grills = (is_grill_iff n.type).0 (ground (arith, h));
    blocks = ground (arith, h);
    unresolved = ground (arith, h);
    asks = (is_empty_iff n.question).0 (ground (arith, h));
  },
  λ o. ground (
    arith,
    (is_grill_iff n.type).1 o.grills,
    o.blocks,
    o.unresolved,
    (is_empty_iff n.question).1 o.asks,
  ),
)

text_before-IsUpTo : (s t : Text) → text_before t s ≡ false → IsUpTo s t
unfolding text_before
text_before-IsUpTo [] t h = ended
text_before-IsUpTo (a ∷ s) [] h = absurd (ground (arith, h))
text_before-IsUpTo (a ∷ s) (b ∷ t) h = elim (Bool-cases (ltb a b)) [
  | inl less ↦ smaller (ground (arith, less))
  | inr not_less ↦
      let same : a ≡ b = ground (arith, h, not_less) in
      subst (λ x. IsUpTo (a ∷ s) (x ∷ t)) same
        (equal (text_before-IsUpTo s t (ground (arith, h, same))))
]

sorts_before-IsPreferred :
    (first n : WayfinderNode) → sorts_before n first ≡ false → IsPreferred first n
unfolding sorts_before
sorts_before-IsPreferred first n h = elim (Bool-cases (length n.unlocks == length first.unlocks)) [
  | inl same ↦
      inr ((nat_beq_iff _ _).0 same, text_before-IsUpTo first.id n.id (ground (arith, h, same)))
  | inr differs ↦ inl (ground (arith, h, differs))
]

first-IsPreferred :
    (first : WayfinderNode) (nodes : List WayfinderNode)
    → IsFirst first nodes
    → Every (λ n. IsOpen n → IsPreferred first n) nodes
first-IsPreferred first [] h = tt
first-IsPreferred first (n ∷ nodes) h = (
  (λ o. sorts_before-IsPreferred first n (h.0 ((is_candidate-iff-IsOpen n).1 o))),
  first-IsPreferred first nodes h.1,
)

none-IsOpen :
    (nodes : List WayfinderNode)
    → Every (λ n. is_candidate n ≡ false) nodes
    → Every (λ n. IsOpen n → ⊥) nodes
none-IsOpen [] h = tt
none-IsOpen (n ∷ nodes) h =
    ((λ o. let c = (is_candidate-iff-IsOpen n).1 o in let f = h.0 in cc), none-IsOpen nodes h.1)

-- Frontier returns none exactly for a graph without an open question: a blocking Grill node with a text
-- that is not resolved. Else it returns an open one that unlocks as many nodes as any, and among
-- those that unlock as many the one with the first id.
pub frontier_is_first : (g : WayfinderGraph) → IsAnswer g.nodes (frontier g)
unfolding frontier
frontier_is_first g = chosen (candidates g.nodes) refl
  where
    chosen :
        (found : List WayfinderNode)
        → candidates g.nodes ≡ found
        → IsAnswer g.nodes (first_candidate found)
    chosen [] e = none-IsOpen g.nodes (candidates_none g.nodes e)
    chosen (n ∷ nodes) e =
        let first = first_of n nodes in
        let (there, fits) =
          candidates-IsAmong first g.nodes
            (subst (λ l. IsAmong first l) (sym e) (first_of-IsAmong n nodes)) in
        (
          there,
          (is_candidate-iff-IsOpen first).0 fits,
          first-IsPreferred first g.nodes (
              candidates-IsFirst first g.nodes
                (subst (λ l. NoneBefore first l) (sym e) (first_of_lem n nodes))),
        )
