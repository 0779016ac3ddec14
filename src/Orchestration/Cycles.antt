-- ===== src/Orchestration/Cycles.antt =====
-- The search for a cycle in internal/orchestration/orchestration.go ends, and finds one exactly when
-- the slices have no order.
use skilar.Prelude.{
  ℕ, zero, suc, ◌+◌, ◌≤◌, ◌≡◌, ◌↔◌, ◌++◌, true, false, not, ◌&&◌, List, [], ◌∷◌, some, Text, ◌==◌,
  if◌then◌else◌, length, contains, Result, ok, text_eq, nat_eq, count, count-append, contains-count,
  length-append, length-count_le, arith, Bool-cases, inl, inr, nat_beq_iff, text_beq_iff, refl, ap,
}
use skilar.Orchestration.Graph.{
  OrchestrationError, Slice, Link, links_of, indegree_of, edges_of, decrement, release, drain,
  sources_of, compare_seen, find_cycle, slice_ids,
}

-- How many links to `id` come from none of the slices in `seen`.
unfoldable pub missing : List Text → List Link → Text → ℕ
missing seen [] id = 0
missing seen ((dep, to) ∷ links) id =
    let others = missing seen links id in
    if to == id && not (contains dep seen) then suc others else others

missing_none : (links : List Link) (id : Text) → missing [] links id ≡ indegree_of links id
unfolding missing indegree_of
missing_none [] id = omega arith
missing_none ((dep, to) ∷ links) id = ground (arith, missing_none links id)

missing_more :
    (seen : List Text) (x : Text) (links : List Link) (id : Text)
    → contains x seen ≡ false
    → missing seen links id ≡ missing (x ∷ seen) links id + count id (edges_of links x)
unfolding missing edges_of count
missing_more seen x [] id new = omega arith
missing_more seen x ((dep, to) ∷ links) id new =
    ground (arith, missing_more seen x links id new, text_beq_iff dep x, text_beq_iff x dep)

missing_through :
    (ids order seen : List Text) (links : List Link) (id : Text)
    → ((dep : Text)
        → contains dep order ≡ true
        → contains dep ids ≡ true
        → contains dep seen ≡ true)
    → missing order links id ≡ 0
    → missing ids links id ≡ 0
    → missing seen links id ≡ 0
unfolding missing
missing_through ids order seen [] id moved in_order in_ids = refl
missing_through ids order seen ((dep, to) ∷ links) id moved in_order in_ids =
    ground (arith, missing_through ids order seen links id moved, moved dep, in_order, in_ids)

-- Each slice comes after all that it depends on.
unfoldable pub Ordered : List Link → List Text → Type 0
Ordered links [] = Unit
Ordered links (id ∷ seen) = (missing seen links id ≡ 0) × Ordered links seen

count-sources_of :
    (indegree : Text → ℕ) (id : Text) (ids : List Text)
    → count id (sources_of indegree ids) ≡ (if indegree id == 0 then count id ids else 0)
unfolding sources_of count
count-sources_of indegree id [] = ground arith
count-sources_of indegree id (other ∷ ids) = elim (Bool-cases (other == id)) [
  | inl same ↦
      rw ((text_beq_iff other id).0 same)
        (ground (arith, count-sources_of indegree id ids, text_beq_iff id id))
  | inr differ ↦ ground (arith, count-sources_of indegree id ids, differ)
]

module _ (ids : List Text) (links : List Link) where
  -- 1 for a slice that nothing holds back any more.
  abbrev reached : (Text → ℕ) → Text → ℕ
  reached indegree id = if contains id ids && indegree id == 0 then 1 else 0

  -- What the loop keeps, with `seen` the slices it took from the queue and `left` the ends of links
  -- that the inner loop has still to go through.
  record Inv (seen left : List Text) (indegree : Text → ℕ) (queue : List Text) : Type 0 where
    counted : (id : Text) → indegree id ≡ missing seen links id + count id left
    listed : (id : Text) → count id seen + count id queue ≡ reached indegree id

  release-Inv :
      (seen left : List Text) (indegree : Text → ℕ) (queue : List Text)
      → ((id : Text) → contains id left ≡ true → contains id ids ≡ true)
      → Inv seen left indegree queue
      → let after = release left indegree queue in Inv seen [] after.0 after.1
  unfolding release count
  release-Inv seen [] indegree queue known inv = inv
  release-Inv seen (next ∷ left) indegree queue known inv =
      release-Inv seen left (decrement next indegree) _ (λ id h. known id (ground (arith, h)))
        (record {
          counted = λ id. ground (
            arith,
            inv.counted id,
            inv.counted next,
            text_beq_iff next id,
            text_beq_iff next next,
          );
          listed = λ id. ground (
            arith,
            inv.counted id,
            inv.counted next,
            inv.listed id,
            known next,
            text_beq_iff next id,
            text_beq_iff next next,
            nat_beq_iff (decrement next indegree next) 0,
            nat_beq_iff (indegree id) 0,
            nat_beq_iff (indegree next) 0,
            count-append id queue (next ∷ []),
          );
        })

  -- Taking the first slice of the queue.
  taken_Inv :
      (seen : List Text) (indegree : Text → ℕ) (id : Text) (queue : List Text)
      → Inv seen [] indegree (id ∷ queue)
      → Inv (id ∷ seen) (edges_of links id) indegree queue
  unfolding count
  taken_Inv seen indegree id queue inv = record {
    counted = λ other. ground (arith, inv.counted other, missing_more seen id links other new);
    listed = λ other. ground (arith, inv.listed other);
  }
    where
      new : contains id seen ≡ false
      new = ground (arith, inv.listed id, contains-count id seen, text_beq_iff id id)

  -- What the loop took and what waits are slices of the graph, each once.
  queued_le :
      (seen : List Text) (indegree : Text → ℕ) (queue : List Text)
      → Inv seen [] indegree queue
      → length seen + length queue ≤ length ids
  queued_le seen indegree queue inv =
      omega (arith, length-append seen queue, (length-count_le (seen ++ queue) ids once).0)
    where
      once : (id : Text) → count id (seen ++ queue) ≤ count id ids
      once id = ground (arith, count-append id seen queue, inv.listed id, contains-count id ids)

  -- How the loop ends: with the slices it took.
  record End (seen : List Text) : Type 0 where
    last_indegree : Text → ℕ
    last_inv : Inv seen [] last_indegree []
    in_order : Ordered links seen

  drain_lem :
      ((id next : Text) → contains next (edges_of links id) ≡ true → contains next ids ≡ true)
      → (fuel : ℕ) (seen : List Text) (indegree : Text → ℕ) (queue : List Text)
      → Inv seen [] indegree queue
      → Ordered links seen
      → length ids ≤ fuel + length seen
      → (final : List Text) × (drain fuel (edges_of links) indegree queue (length seen)
          ≡ some (length final))
        × End final
  unfolding drain Ordered count
  drain_lem known fuel seen indegree [] inv ordered enough =
      (seen, refl, record { last_indegree = indegree; last_inv = inv; in_order = ordered })
  drain_lem known zero seen indegree (id ∷ queue) inv ordered enough =
      absurd (omega (arith, queued_le seen indegree (id ∷ queue) inv))
  drain_lem known (suc fuel) seen indegree (id ∷ queue) inv ordered enough =
      drain_lem known fuel (id ∷ seen) _ _
        (release-Inv (id ∷ seen) (edges_of links id) indegree queue (known id)
          (taken_Inv seen indegree id queue inv))
        (free, ordered) (omega (arith, enough))
    where
      free : missing seen links id ≡ 0
      free =
          ground
            (arith, inv.counted id, inv.listed id, text_beq_iff id id, nat_beq_iff (indegree id) 0)

  -- An order leaves none of its slices behind.
  ordered_seen :
      (seen order : List Text)
      → ((id : Text) → missing ids links id ≡ 0)
      → End seen
      → Ordered links order
      → (id : Text) → contains id order ≡ true
      → contains id ids ≡ true
      → contains id seen ≡ true
  unfolding Ordered count
  ordered_seen seen [] within end ordered id here is_id = absurd (ground (arith, here))
  ordered_seen seen (first ∷ order) within end ordered id here is_id =
      let before = ordered_seen seen order within end ordered.1 in
      let free = missing_through ids order seen links first before ordered.0 (within first) in
      ground (
        arith,
        here,
        before id,
        text_beq_iff first id,
        free,
        end.last_inv.counted first,
        end.last_inv.listed first,
        contains-count first seen,
        nat_beq_iff (end.last_indegree first) 0,
      )

  -- The loop starts with the slices that depend on none.
  start_Inv :
      (queue : List Text)
      → ((id : Text) → count id queue ≡ count id (sources_of (indegree_of links) ids))
      → ((id : Text) → count id ids ≤ 1)
      → Inv [] [] (indegree_of links) queue
  unfolding count
  start_Inv queue same once = record {
    counted = λ id. omega (arith, missing_none links id);
    listed = λ id. ground (
      arith,
      same id,
      once id,
      count-sources_of (indegree_of links) id ids,
      contains-count id ids,
    );
  }

-- The search on a graph whose links are between its slices: it ends, and it finds no cycle exactly
-- when the slices have an order.
pub search_lem :
    (range : List Text → List Text) (slices : List Slice)
    → ((names : List Text) (id : Text) → count id (range names) ≡ count id names)
    → ((id : Text) → count id (slice_ids slices) ≤ 1)
    → ((id : Text) → missing (slice_ids slices) (links_of slices) id ≡ 0)
    → ((id next : Text)
        → contains next (edges_of (links_of slices) id) ≡ true
        → contains next (slice_ids slices) ≡ true)
    → (result : Result OrchestrationError (Unit {0})) × (find_cycle range slices ≡ some result)
      × ((result ≡ ok tt) ↔ (
          (order : List Text) × Ordered (links_of slices) order
          × ((id : Text) → contains id (slice_ids slices) ≡ true → contains id order ≡ true)))
unfolding find_cycle count Ordered
search_lem range slices same once within ends =
    let ids = slice_ids slices in
    let links = links_of slices in
    let start = start_Inv ids links (sources_of (indegree_of links) (range ids)) queued once in
    let final = drain_lem ids links ends (length ids) [] _ _ start tt (omega arith) in
    let end = final.2 in
    let le =
      length-count_le final.0 ids
        (λ id. ground (arith, end.last_inv.listed id, contains-count id ids)) in
    let ge = length-count_le ids final.0 in
    (
      _,
      ap (compare_seen (length ids)) final.1,
      (
        λ accepted. (
          final.0,
          end.in_order,
          λ id here. ground (
            arith,
            here,
            accepted,
            le.1 (ground (arith, accepted, nat_beq_iff (length final.0) (length ids))) id,
            contains-count id ids,
            contains-count id final.0,
          ),
        ),
        λ orderable. ground (
          arith,
          nat_beq_iff (length final.0) (length ids),
          le.0,
          (ge (λ id. ground (
            arith,
            once id,
            contains-count id ids,
            contains-count id final.0,
            ordered_seen ids links final.0 orderable.0 within end orderable.1 id,
            orderable.2 id,
          ))).0,
        ),
      ),
    )
  where
    queued :
        (id : Text)
        → count id (sources_of (indegree_of (links_of slices)) (range (slice_ids slices)))
          ≡ count id (sources_of (indegree_of (links_of slices)) (slice_ids slices))
    queued id = ground (
      arith,
      same (slice_ids slices) id,
      count-sources_of (indegree_of (links_of slices)) id (range (slice_ids slices)),
      count-sources_of (indegree_of (links_of slices)) id (slice_ids slices),
    )
