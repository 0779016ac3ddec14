-- ===== src/Review/Floor.antt =====
-- What `DeterministicFloor` of internal/review/review.go demands.
use skilar.Prelude.{
  ℕ, ◌++◌, ◌≡◌, refl, ap, ◌∙◌, Bool, true, false, ◌||◌, List, [], ◌∷◌, Text, arith, if◌then◌else◌,
  length, text_eq, codes,
}
use skilar.Workflow.Types.{Route, planned, discovery}
use skilar.Review.{
  ReviewRisk, low, medium, high, unknown, rank, max_risk, or_default, raise, force_high, Change,
  ChangeKind, binary, dependency, schema, public_api, RiskPolicy, Rated, has_prefix, rate,
  rate_kind, rate_high_paths, rate_medium_paths, rate_change, rate_changes, rate_route, rate_count,
  deterministic_floor,
}

abbrev pub is_high : ReviewRisk → Bool
is_high high = true
is_high _ = false

-- A kind of change that is high-risk wherever it is.
unfoldable pub dangerous_kind : ChangeKind → Bool
dangerous_kind binary = true
dangerous_kind dependency = true
dangerous_kind schema = true
dangerous_kind public_api = true
dangerous_kind _ = false

unfoldable pub under_any : Text → List Text → Bool
under_any path [] = false
under_any path (prefix ∷ prefixes) = has_prefix path prefix || under_any path prefixes

unfoldable pub any_dangerous : RiskPolicy → List Change → Bool
any_dangerous policy [] = false
any_dangerous policy (change ∷ changes) =
    (dangerous_kind change.kind || under_any change.path policy.high_risk_prefixes)
    || any_dangerous policy changes

-- A route whose floor in the policy is high.
unfoldable pub route_is_high : RiskPolicy → Route → Bool
route_is_high policy planned = is_high policy.planned_floor
route_is_high policy discovery = is_high policy.discovery_floor
route_is_high policy _ = false

max_medium : (r : ReviewRisk) → is_high (max_risk r medium) ≡ is_high r
unfolding max_risk rank
max_medium low = refl
max_medium medium = refl
max_medium high = refl
max_medium (unknown s) = refl

high_rate_kind :
    (kind : ChangeKind) (s : Rated)
    → is_high (rate_kind kind s).rated_risk ≡ (is_high s.rated_risk || dangerous_kind kind)
unfolding rate_kind dangerous_kind
high_rate_kind kind s = ground (arith, max_medium s.rated_risk)

high_rate_high_paths :
    (path : Text) (prefixes : List Text) (s : Rated)
    → is_high (rate_high_paths path prefixes s).rated_risk
      ≡ (is_high s.rated_risk || under_any path prefixes)
unfolding rate_high_paths under_any
high_rate_high_paths path [] s = ground arith
high_rate_high_paths path (prefix ∷ prefixes) s =
    let here =
      if has_prefix path prefix then force_high (codes "high-risk path: " ++ prefix) s else s in
    ground (arith, high_rate_high_paths path prefixes here)

high_rate_medium_paths :
    (path : Text) (prefixes : List Text) (s : Rated)
    → is_high (rate_medium_paths path prefixes s).rated_risk ≡ is_high s.rated_risk
unfolding rate_medium_paths
high_rate_medium_paths path [] s = refl
high_rate_medium_paths path (prefix ∷ prefixes) s =
    let here =
      if has_prefix path prefix then raise medium (codes "medium-risk path: " ++ prefix) s else s in
    ground (arith, high_rate_medium_paths path prefixes here, max_medium s.rated_risk)

module _ (policy : RiskPolicy) where
  high_rate_changes :
      (changes : List Change) (s : Rated)
      → is_high (rate_changes policy changes s).rated_risk
        ≡ (is_high s.rated_risk || any_dangerous policy changes)
  unfolding rate_changes rate_change any_dangerous
  high_rate_changes [] s = ground arith
  high_rate_changes (change ∷ changes) s =
      let kinds = rate_kind change.kind s in
      let paths = rate_high_paths change.path policy.high_risk_prefixes kinds in
      ground (
        arith,
        high_rate_changes changes (rate_change policy change s),
        high_rate_medium_paths change.path policy.medium_risk_prefixes paths,
        high_rate_high_paths change.path policy.high_risk_prefixes kinds,
        high_rate_kind change.kind s,
      )

  high_rate_count :
      (count : ℕ) (s : Rated)
      → is_high (rate_count policy count s).rated_risk ≡ is_high s.rated_risk
  unfolding rate_count
  high_rate_count count s = ground (arith, max_medium s.rated_risk)

  high_rate_route :
      (route : Route) (reasons : List Text)
      → is_high
          (rate_route policy route (record { rated_risk = low; reasons = reasons })).rated_risk
        ≡ route_is_high policy route
  unfolding rate_route route_is_high or_default max_risk rank
  high_rate_route route reasons = ground arith

  -- The floor is high exactly when the policy's floor of the route is, or some change is of a kind that
  -- is high-risk anywhere or lies under a high-risk prefix.
  pub is_high-deterministic_floor :
      (digest : Text → Text) (marshal : RiskPolicy → Text) (route : Route) (changes : List Change)
      → is_high (deterministic_floor digest marshal route changes policy).floor_risk
        ≡ (route_is_high policy route || any_dangerous policy changes)
  unfolding deterministic_floor rate
  is_high-deterministic_floor digest marshal route changes =
      let start = rate_route policy route (record { rated_risk = low; reasons = [] }) in
      high_rate_changes changes (rate_count policy (length changes) start)
      ∙ ap (λ b. b || any_dangerous policy changes)
          (high_rate_count (length changes) start ∙ high_rate_route route [])
