-- ===== src/Review/Naming.antt =====
-- The names that internal/review/review.go gives candidate records.
use mathlib.Core.Path.{subst}
use mathlib.Core.Option.{some-injective}
use skilar.Prelude.{
  ℕ, ◌≡◌, refl, ap, ◌∙◌, ◌++◌, true, false, ◌||◌, List, [], ◌∷◌, some, Text, is_empty, nat_eq,
  text_eq, text_beq_iff, codes, ok, arith, Bool-cases, inl, inr, if_ind,
}
use skilar.Review.{text_leb}
use skilar.Review.Candidate.{
  ManifestEntry, CandidateRecord, Candidate, insert_entry, sort_manifest, candidate_record_id,
  validate_candidate_record, nameless, new_candidate_record,
}

text_leb_total : (s t : Text) → text_leb s t ≡ false → text_leb t s ≡ true
unfolding text_leb
text_leb_total [] t h = absurd (ground (arith, h))
text_leb_total (a ∷ s) [] h = refl
text_leb_total (a ∷ s) (b ∷ t) h = ground (arith, h, text_leb_total s t)

abbrev IsSorted : List ManifestEntry → Type 0
IsSorted [] = Unit
IsSorted (e ∷ []) = Unit
IsSorted (e ∷ f ∷ fs) = (text_leb e.path f.path ≡ true) × IsSorted (f ∷ fs)

-- A sorted list in front of which an earlier entry stands.
abbrev IsBefore : ManifestEntry → List ManifestEntry → Type 0
IsBefore e [] = Unit
IsBefore e (f ∷ fs) = text_leb e.path f.path ≡ true

cons-IsSorted :
    (e : ManifestEntry) (es : List ManifestEntry) → IsBefore e es → IsSorted es → IsSorted (e ∷ es)
cons-IsSorted e [] h s = tt
cons-IsSorted e (f ∷ fs) h s = (h, s)

insert_entry-IsBefore :
    (g e : ManifestEntry) (es : List ManifestEntry)
    → text_leb g.path e.path ≡ true
    → IsBefore g es
    → IsBefore g (insert_entry e es)
unfolding insert_entry
insert_entry-IsBefore g e [] h before = h
insert_entry-IsBefore g e (f ∷ fs) h before =
    if_ind (λ l. IsBefore g l) (text_leb e.path f.path) (e ∷ f ∷ fs) (f ∷ insert_entry e fs)
      (λ _. h) (λ _. before)

insert_entry-IsSorted :
    (e : ManifestEntry) (es : List ManifestEntry) → IsSorted es → IsSorted (insert_entry e es)
unfolding insert_entry
insert_entry-IsSorted e [] s = tt
insert_entry-IsSorted e (f ∷ []) s =
    if_ind IsSorted (text_leb e.path f.path) (e ∷ f ∷ []) (f ∷ e ∷ []) (λ first. (first, tt))
      (λ later. (text_leb_total e.path f.path later, tt))
insert_entry-IsSorted e (f ∷ g ∷ gs) s =
    if_ind IsSorted (text_leb e.path f.path) (e ∷ f ∷ g ∷ gs) (f ∷ insert_entry e (g ∷ gs))
      (λ first. (first, s))
      (λ later.
        cons-IsSorted f (insert_entry e (g ∷ gs))
          (insert_entry-IsBefore f e (g ∷ gs) (text_leb_total e.path f.path later) s.0)
          (insert_entry-IsSorted e (g ∷ gs) s.1))

sort_manifest-IsSorted : (es : List ManifestEntry) → IsSorted (sort_manifest es)
unfolding sort_manifest
sort_manifest-IsSorted [] = tt
sort_manifest-IsSorted (e ∷ es) =
    insert_entry-IsSorted e (sort_manifest es) (sort_manifest-IsSorted es)

sort_manifest_sorted : (es : List ManifestEntry) → IsSorted es → sort_manifest es ≡ es
unfolding sort_manifest insert_entry
sort_manifest_sorted [] s = refl
sort_manifest_sorted (e ∷ []) s = refl
sort_manifest_sorted (e ∷ f ∷ fs) s =
    ap (insert_entry e) (sort_manifest_sorted (f ∷ fs) s.1) ∙ rw s.0 refl

module _ (digest : Text → Text) (marshal_basis : CandidateRecord → Text) (id : Text) (c : Candidate)
    (policy_hash engine_version : Text) (now : ℕ) where
  abbrev bare : CandidateRecord
  bare = nameless digest marshal_basis id c policy_hash engine_version now

  abbrev named : CandidateRecord
  named = record bare {
    id = codes "cand_" ++ digest (marshal_basis (record bare { frozen_at = 0 }));
  }

  -- Sorting the sorted manifest again leaves the name as it is.
  candidate_record_id-named : candidate_record_id digest marshal_basis named ≡ named.id
  unfolding candidate_record_id
  candidate_record_id-named =
      ap
        (λ m. codes "cand_" ++ digest (marshal_basis (record bare { manifest = m; frozen_at = 0 })))
        (sort_manifest_sorted (sort_manifest c.manifest) (sort_manifest-IsSorted c.manifest))

  -- A record that NewCandidateRecord makes of a candidate with a policy hash passes
  -- ValidateCandidateRecord, whatever the order of the candidate's manifest.
  pub new_record_validates :
      (made : CandidateRecord)
      → new_candidate_record digest marshal_basis id c policy_hash engine_version now ≡ some made
      → is_empty c.policy_hash ≡ false
      → validate_candidate_record digest marshal_basis made ≡ ok tt
  unfolding new_candidate_record validate_candidate_record
  new_record_validates made h hashed =
      elim (Bool-cases
        (is_empty id || is_empty c.tree_oid || is_empty policy_hash || is_empty engine_version)) [
          | inl lacking ↦ let bad = rw lacking at h in cc
          | inr complete ↦
              let same : named ≡ made = some-injective _ _ (rw complete at h) in
              subst (λ m. validate_candidate_record digest marshal_basis m ≡ ok tt) same
                (ground (
                  arith,
                  complete,
                  hashed,
                  text_beq_iff (candidate_record_id digest marshal_basis named) named.id,
                  candidate_record_id-named,
                ))
        ]
