-- ===== src/Review/Monotone.antt =====
-- A larger set of changes is never rated lower by internal/review/review.go.
use skilar.Prelude.{
  ℕ, ◌≤◌, ◌++◌, ◌≡◌, refl, List, [], ◌∷◌, Text, arith, if◌then◌else◌, length, codes, length-append,
}
use skilar.Workflow.Types.{Route}
use skilar.Review.{
  ReviewRisk, low, medium, high, rank, max_risk, raise, force_high, Change, ChangeKind, RiskPolicy,
  Rated, has_prefix, rate, rate_kind, rate_high_paths, rate_medium_paths, rate_change, rate_changes,
  rate_route, rate_count, deterministic_floor,
}

abbrev AtMost : Rated → Rated → Type 0
AtMost s t = rank s.rated_risk ≤ rank t.rated_risk

rank_high : (r : ReviewRisk) → rank r ≤ rank high
unfolding rank
rank_high r = ground arith

max_risk_mono : (a b r : ReviewRisk) → rank a ≤ rank b → rank (max_risk a r) ≤ rank (max_risk b r)
unfolding max_risk
max_risk_mono a b r h = ground arith

max_risk_above : (a r : ReviewRisk) → rank a ≤ rank (max_risk a r)
unfolding max_risk
max_risk_above a r = ground arith

rate_kind_above : (kind : ChangeKind) (s : Rated) → AtMost s (rate_kind kind s)
unfolding rate_kind
rate_kind_above kind s = ground (arith, rank_high s.rated_risk, max_risk_above s.rated_risk medium)

rate_kind_mono :
    (kind : ChangeKind) (s t : Rated) → AtMost s t → AtMost (rate_kind kind s) (rate_kind kind t)
unfolding rate_kind
rate_kind_mono kind s t h = ground (arith, max_risk_mono s.rated_risk t.rated_risk medium h)

module _ (path : Text) where
  rate_high_paths_above :
      (prefixes : List Text) (s : Rated) → AtMost s (rate_high_paths path prefixes s)
  unfolding rate_high_paths
  rate_high_paths_above [] s = omega arith
  rate_high_paths_above (prefix ∷ prefixes) s =
      let here =
        if has_prefix path prefix then force_high (codes "high-risk path: " ++ prefix) s else s in
      ground (arith, rate_high_paths_above prefixes here, rank_high s.rated_risk)

  rate_high_paths_mono :
      (prefixes : List Text) (s t : Rated)
      → AtMost s t
      → AtMost (rate_high_paths path prefixes s) (rate_high_paths path prefixes t)
  unfolding rate_high_paths
  rate_high_paths_mono [] s t h = h
  rate_high_paths_mono (prefix ∷ prefixes) s t h =
      rate_high_paths_mono prefixes _ _ (ground (arith, rank_high s.rated_risk))

  rate_medium_paths_above :
      (prefixes : List Text) (s : Rated) → AtMost s (rate_medium_paths path prefixes s)
  unfolding rate_medium_paths
  rate_medium_paths_above [] s = omega arith
  rate_medium_paths_above (prefix ∷ prefixes) s =
      let here =
        if has_prefix path prefix
        then raise medium (codes "medium-risk path: " ++ prefix) s
        else s in
      ground (arith, rate_medium_paths_above prefixes here, max_risk_above s.rated_risk medium)

  rate_medium_paths_mono :
      (prefixes : List Text) (s t : Rated)
      → AtMost s t
      → AtMost (rate_medium_paths path prefixes s) (rate_medium_paths path prefixes t)
  unfolding rate_medium_paths
  rate_medium_paths_mono [] s t h = h
  rate_medium_paths_mono (prefix ∷ prefixes) s t h =
      rate_medium_paths_mono prefixes _ _
        (ground (arith, max_risk_mono s.rated_risk t.rated_risk medium h))

module _ (policy : RiskPolicy) where
  rate_changes_above :
      (changes : List Change) (s : Rated) → AtMost s (rate_changes policy changes s)
  unfolding rate_changes rate_change
  rate_changes_above [] s = omega arith
  rate_changes_above (change ∷ changes) s =
      let kinds = rate_kind change.kind s in
      let paths = rate_high_paths change.path policy.high_risk_prefixes kinds in
      omega (
        arith,
        rate_kind_above change.kind s,
        rate_high_paths_above change.path policy.high_risk_prefixes kinds,
        rate_medium_paths_above change.path policy.medium_risk_prefixes paths,
        rate_changes_above changes (rate_change policy change s),
      )

  rate_changes_mono :
      (changes : List Change) (s t : Rated)
      → AtMost s t
      → AtMost (rate_changes policy changes s) (rate_changes policy changes t)
  unfolding rate_changes rate_change
  rate_changes_mono [] s t h = h
  rate_changes_mono (change ∷ changes) s t h = rate_changes_mono changes _ _ (
      rate_medium_paths_mono change.path policy.medium_risk_prefixes _ _ (
        rate_high_paths_mono change.path policy.high_risk_prefixes _ _
          (rate_kind_mono change.kind s t h)))

  rate_changes-append :
      (xs ys : List Change) (s : Rated)
      → rate_changes policy (xs ++ ys) s ≡ rate_changes policy ys (rate_changes policy xs s)
  unfolding rate_changes
  rate_changes-append [] ys s = refl
  rate_changes-append (x ∷ xs) ys s = rate_changes-append xs ys (rate_change policy x s)

  rate_count_mono :
      (m n : ℕ) (s : Rated) → m ≤ n → AtMost (rate_count policy m s) (rate_count policy n s)
  unfolding rate_count
  rate_count_mono m n s h = ground (arith, max_risk_above s.rated_risk medium)

  -- Further changes never lower the floor, whatever the route.
  pub more_changes_never_lower :
      (digest : Text → Text) (marshal : RiskPolicy → Text) (route : Route)
      (changes more : List Change)
      → rank (deterministic_floor digest marshal route changes policy).floor_risk
        ≤ rank (deterministic_floor digest marshal route (changes ++ more) policy).floor_risk
  unfolding deterministic_floor rate
  more_changes_never_lower digest marshal route changes more =
      let start = rate_route policy route (record { rated_risk = low; reasons = [] }) in
      let few = rate_count policy (length changes) start in
      let many = rate_count policy (length (changes ++ more)) start in
      let sizes : length changes ≤ length (changes ++ more) =
        omega (arith, length-append changes more) in
      rw (rate_changes-append changes more many) (
        omega (
          arith,
          rate_changes_mono changes few many
              (rate_count_mono (length changes) (length (changes ++ more)) start sizes),
          rate_changes_above more (rate_changes policy changes many),
        ))
