-- ===== src/Review/Candidate.antt =====
-- Candidate records and evidence of internal/review/review.go, with the seal and the manifest of
-- internal/gitcandidate/candidate.go that they carry. `digest` (crypto/sha256) and `marshal_basis`
-- (encoding/json of the record without its name) are parameters.
use skilar.Prelude.{
  ℕ, ◌++◌, Bool, not, ◌||◌, List, [], ◌∷◌, Option, none, some, Text, ◌==◌, is_empty, if◌then◌else◌,
  Result, ok, err, text_eq, codes,
}
use skilar.Review.{
  ReviewError, candidate_mismatch, policy_mismatch, evidence_mismatch, Lens, text_leb,
}

pub record ContextSeal : Type 0 where
  pub repository_root : Text
  pub git_common_dir : Text
  pub worktree_id : Text
  pub symbolic_head : Text
  pub detached : Bool
  pub base_ref : Text
  pub base_commit_oid : Text
  pub base_tree_oid : Text
  pub object_format : Text

pub record ManifestEntry : Type 0 where
  pub path : Text
  pub mode : Text
  pub kind : Text
  pub oid : Text

pub record CandidateRecord : Type 0 where
  pub id : Text
  pub workflow_id : Text
  pub tree_oid : Text
  pub manifest : List ManifestEntry
  pub seal : ContextSeal
  pub policy_hash : Text
  pub candidate_policy_hash : Text
  pub engine_version : Text
  pub frozen_at : ℕ

-- `sort.Slice` by path.
unfoldable pub insert_entry : ManifestEntry → List ManifestEntry → List ManifestEntry
insert_entry e [] = e ∷ []
insert_entry e (f ∷ fs) =
    let rest = insert_entry e fs in if text_leb e.path f.path then e ∷ f ∷ fs else f ∷ rest

unfoldable pub sort_manifest : List ManifestEntry → List ManifestEntry
sort_manifest [] = []
sort_manifest (e ∷ es) = insert_entry e (sort_manifest es)

pub data EvidenceKind : Type 0 where
  acceptance check review other_kind : EvidenceKind

pub record Evidence : Type 0 where
  pub id : Text
  pub kind : EvidenceKind
  pub candidate_record_id : Text
  pub candidate_tree_oid : Text
  pub policy_hash : Text
  pub digest : Text
  pub lens : Lens

unfoldable pub validate_evidence : CandidateRecord → List Evidence → Result ReviewError (Unit {0})
validate_evidence c [] = ok tt
validate_evidence c (item ∷ items) =
    let rest = validate_evidence c items in
    if is_empty item.id
      || is_empty item.digest
      || not (item.candidate_record_id == c.id)
      || not (item.candidate_tree_oid == c.tree_oid)
    then err evidence_mismatch
    else if not (item.policy_hash == c.policy_hash)
    then err policy_mismatch
    else rest

module _ (digest : Text → Text) (marshal_basis : CandidateRecord → Text) where
  -- The name that the other fields give a record, but for the time.
  unfoldable pub candidate_record_id : CandidateRecord → Text
  candidate_record_id c =
      codes "cand_"
      ++ digest
          (marshal_basis (record c { id = []; manifest = sort_manifest c.manifest; frozen_at = 0 }))

  unfoldable pub validate_candidate_record : CandidateRecord → Result ReviewError (Unit {0})
  validate_candidate_record c =
      if is_empty c.id
        || is_empty c.workflow_id
        || is_empty c.tree_oid
        || is_empty c.policy_hash
        || is_empty c.candidate_policy_hash
        || is_empty c.engine_version
      then err candidate_mismatch
      else if not (candidate_record_id c == c.id)
      then err candidate_mismatch
      else ok tt

-- `Candidate` of internal/gitcandidate/candidate.go.
pub record Candidate : Type 0 where
  pub seal : ContextSeal
  pub tree_oid : Text
  pub manifest : List ManifestEntry
  pub policy_hash : Text

module _ (digest : Text → Text) (marshal_basis : CandidateRecord → Text) where
  -- The record before it has its name.
  abbrev pub nameless : Text → Candidate → Text → Text → ℕ → CandidateRecord
  nameless workflow_id c policy_hash engine_version now = record {
    id = [];
    workflow_id = workflow_id;
    tree_oid = c.tree_oid;
    manifest = sort_manifest c.manifest;
    seal = c.seal;
    policy_hash = policy_hash;
    candidate_policy_hash = c.policy_hash;
    engine_version = engine_version;
    frozen_at = now;
  }

  unfoldable pub new_candidate_record : Text → Candidate → Text → Text → ℕ → Option CandidateRecord
  new_candidate_record workflow_id c policy_hash engine_version now =
      let made = nameless workflow_id c policy_hash engine_version now in
      if is_empty workflow_id
        || is_empty c.tree_oid
        || is_empty policy_hash
        || is_empty engine_version
      then none
      else some (record made {
        id = codes "cand_" ++ digest (marshal_basis (record made { frozen_at = 0 }));
      })
