-- ===== src/Review.antt =====
-- The risk floor, the semantic assessment and the evidence of internal/review/review.go. A risk or
-- lens that no constant names is `unknown`, with its text; `rank` is one more than the code's, which starts at -1.
-- `digest` (crypto/sha256) and `marshal` (encoding/json) are parameters.
pub mod Candidate
pub mod Naming
pub mod Semantic
pub mod Receipts
pub mod Floor
pub mod Monotone
pub mod Assessment
pub mod Authority
pub mod Finality
mod Tests
mod ReceiptTests
use skilar.Prelude.{
  ℕ, suc, ◌++◌, Bool, true, false, not, ◌&&◌, ◌||◌, List, [], ◌∷◌, Text, ◌==◌, is_empty,
  if◌then◌else◌, contains, length, Result, ok, err, ltb, leb, nat_beq, nat_eq, text_eq, codes,
}
use skilar.Workflow.Types.{Route, planned, discovery}

pub data ReviewRisk : Type 0 where
  low medium high : ReviewRisk
  unknown : Text → ReviewRisk

pub data Depth : Type 0 where
  deterministic one_lens four_lenses : Depth

pub data Lens : Type 0 where
  risk readability reliability resilience no_lens : Lens
  unknown_lens : Text → Lens

pub data ReviewError : Type 0 where
  semantic_lowering candidate_mismatch policy_mismatch evidence_mismatch : ReviewError
  incomplete_audit lens_required lens_forbidden : ReviewError
  receipt_exists no_authority invalid_audit : ReviewError

unfoldable pub rank : ReviewRisk → ℕ
rank (unknown s) = 0
rank low = 1
rank medium = 2
rank high = 3

unfoldable pub depth_for : ReviewRisk → Depth
depth_for high = four_lenses
depth_for medium = one_lens
depth_for _ = deterministic

unfoldable pub max_risk : ReviewRisk → ReviewRisk → ReviewRisk
max_risk a b = if ltb (rank a) (rank b) then b else a

unfoldable pub or_default : ReviewRisk → ReviewRisk → ReviewRisk
or_default value fallback = if rank value == 0 then fallback else value

pub data ChangeKind : Type 0 where
  text binary dependency schema public_api generated other_kind : ChangeKind

pub record Change : Type 0 where
  pub path : Text
  pub kind : ChangeKind

pub record RiskPolicy : Type 0 where
  pub version : Text
  pub high_risk_prefixes : List Text
  pub medium_risk_prefixes : List Text
  pub planned_floor : ReviewRisk
  pub discovery_floor : ReviewRisk
  pub medium_file_count : ℕ

unfoldable pub default_risk_policy : RiskPolicy
default_risk_policy = record {
  version = codes "v1";
  high_risk_prefixes =
      codes ".github/workflows/"
      ∷ codes "migrations/"
      ∷ codes "schemas/"
      ∷ codes "auth/"
      ∷ codes "security/"
      ∷ [];
  medium_risk_prefixes = codes "internal/" ∷ codes "cmd/" ∷ [];
  planned_floor = medium;
  discovery_floor = medium;
  medium_file_count = 20;
}

-- `strings.HasPrefix`, the text first.
unfoldable pub has_prefix : Text → Text → Bool
has_prefix s [] = true
has_prefix [] (b ∷ prefix) = false
has_prefix (a ∷ s) (b ∷ prefix) = a == b && has_prefix s prefix

-- The risk and the reasons that the loop carries.
pub record Rated : Type 0 where
  pub rated_risk : ReviewRisk
  pub reasons : List Text

abbrev pub raise : ReviewRisk → Text → Rated → Rated
raise r reason s = record {
  rated_risk = max_risk s.rated_risk r;
  reasons = s.reasons ++ reason ∷ [];
}

abbrev pub force_high : Text → Rated → Rated
force_high reason s = record { rated_risk = high; reasons = s.reasons ++ reason ∷ [] }

unfoldable pub rate_kind : ChangeKind → Rated → Rated
rate_kind binary s = force_high (codes "binary change") s
rate_kind dependency s = force_high (codes "dependency change") s
rate_kind schema s = force_high (codes "schema change") s
rate_kind public_api s = force_high (codes "public_api change") s
rate_kind generated s = raise medium (codes "generated change") s
rate_kind text s = s
rate_kind other_kind s = s

unfoldable pub rate_high_paths : Text → List Text → Rated → Rated
rate_high_paths path [] s = s
rate_high_paths path (prefix ∷ prefixes) s =
    rate_high_paths path prefixes
      (if has_prefix path prefix then force_high (codes "high-risk path: " ++ prefix) s else s)

unfoldable pub rate_medium_paths : Text → List Text → Rated → Rated
rate_medium_paths path [] s = s
rate_medium_paths path (prefix ∷ prefixes) s =
    rate_medium_paths path prefixes
      (if has_prefix path prefix then raise medium (codes "medium-risk path: " ++ prefix) s else s)

unfoldable pub rate_change : RiskPolicy → Change → Rated → Rated
rate_change policy change s =
    rate_medium_paths change.path policy.medium_risk_prefixes
      (rate_high_paths change.path policy.high_risk_prefixes (rate_kind change.kind s))

unfoldable pub rate_changes : RiskPolicy → List Change → Rated → Rated
rate_changes policy [] s = s
rate_changes policy (change ∷ changes) s = rate_changes policy changes (rate_change policy change s)

-- What the route and the number of changes demand, before the loop.
unfoldable pub rate_route : RiskPolicy → Route → Rated → Rated
rate_route policy planned s =
    raise (or_default policy.planned_floor medium) (codes "planned route floor") s
rate_route policy discovery s =
    raise (or_default policy.discovery_floor medium) (codes "discovery route floor") s
rate_route policy _ s = s

unfoldable pub rate_count : RiskPolicy → ℕ → Rated → Rated
rate_count policy count s =
    if ltb 0 policy.medium_file_count && leb policy.medium_file_count count
    then raise medium (codes "change count threshold") s
    else s

-- `dedupe`: the texts that have not come before, in order.
unfoldable pub dedupe_from : List Text → List Text → List Text
dedupe_from seen [] = []
dedupe_from seen (v ∷ values) =
    let rest = dedupe_from (v ∷ seen) values in
    let same = dedupe_from seen values in if contains v seen then same else v ∷ rest

abbrev pub dedupe : List Text → List Text
dedupe values = dedupe_from [] values

-- Less or equal in the order of bytes, and `sort.Strings`.
unfoldable pub text_leb : Text → Text → Bool
text_leb [] t = true
text_leb (a ∷ s) [] = false
text_leb (a ∷ s) (b ∷ t) = ltb a b || (a == b && text_leb s t)

unfoldable pub insert_sorted : Text → List Text → List Text
insert_sorted v [] = v ∷ []
insert_sorted v (w ∷ ws) = if text_leb v w then v ∷ w ∷ ws else w ∷ insert_sorted v ws

unfoldable pub sort_strings : List Text → List Text
sort_strings [] = []
sort_strings (v ∷ vs) = insert_sorted v (sort_strings vs)

pub record RiskFloor : Type 0 where
  pub floor_risk : ReviewRisk
  pub depth : Depth
  pub policy_hash : Text
  pub reasons : List Text

unfoldable pub rate : Route → List Change → RiskPolicy → Rated
rate route changes policy = rate_changes policy changes (
    rate_count policy (length changes)
      (rate_route policy route (record { rated_risk = low; reasons = [] })))

module _ (digest : Text → Text) (marshal : RiskPolicy → Text) where
  unfoldable pub hash : RiskPolicy → Text
  hash policy = digest (
      marshal (record policy {
        high_risk_prefixes = sort_strings policy.high_risk_prefixes;
        medium_risk_prefixes = sort_strings policy.medium_risk_prefixes;
      }))

  unfoldable pub deterministic_floor : Route → List Change → RiskPolicy → RiskFloor
  deterministic_floor route changes policy =
      let rated = rate route changes policy in
      record {
        floor_risk = rated.rated_risk;
        depth = depth_for rated.rated_risk;
        policy_hash = hash policy;
        reasons = dedupe rated.reasons;
      }
