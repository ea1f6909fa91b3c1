-- ===== src/Select/Weigh.antt =====
-- How `select_mesh_route_with_pref` of mesh/select.py weighs the routes that pass the preference, and
-- its result. Qualities are in thousandths; scores are computed in floating point, and `round_4`
-- is Python's rounding to four digits. The text of `reason` is not modelled.
use slancha_mesh.Common.{
  ℕ, String, Bool, true, false, Option, none, some, List, [], ◌∷◌, ◌++◌, map, ltb, get_or,
  if◌then◌else◌, ◌==◌, not, any, keep,
}
use slancha_mesh.Common.Dict.{Assoc, lookup}
use slancha_mesh.Common.Floats.{Floats}
use slancha_mesh.Common.Sort.{sort_by}
use slancha_mesh.Models.{SpecialistCard, Route, RegistrySnapshot}
use slancha_mesh.Select.Text.{lower, strip}
use slancha_mesh.Select.Route.{
  ClassifierSignals, domain_for_signals, filter_routes, candidate_routes, MeshSelectionResult,
  model_id, model_id_for, select_mesh_route,
}
use slancha_mesh.Select.Pref.{
  PrefVector, AdminCeiling, clamped, UnsupportedPref, reject_unsupported_pref, DropReason,
  pref_filter, clamp_pref_with_ceiling, unsupported,
}

-- The list of axes of an alternative: names, or the reason for which a route was dropped.
pub data LosingAxes : Type 0 where
  named : List String → LosingAxes
  dropped : DropReason → LosingAxes

pub record Alternative (F : Type 0) : Type 0 where
  pub id : String
  pub delta : F
  pub losing_axes : LosingAxes

-- decision_reason_structured
pub record DecisionReason (F : Type 0) : Type 0 where
  pub winner : String
  pub alternatives_considered : List (Alternative F)
  pub deciding_axes : List String
  pub preset_applied : Option String

-- A route with what `_pref_score` returns for it. A set of axes is its sorted list.
pub record Scored (F : Type 0) : Type 0 where
  pub route : Route
  pub score : F
  pub axes : List String

-- The result, with its field decision_reason_structured beside it, or the error that is raised.
pub data PrefOutcome (F : Type 0) : Type 0 where
  unsupported_pref : UnsupportedPref → PrefOutcome F
  selected : MeshSelectionResult → Option (DecisionReason F) → PrefOutcome F

unfoldable pub axes_of : Route → List String
axes_of r =
    if ltb 0 r.cost_estimate_cents
    then "cost" ∷ "latency" ∷ "quality" ∷ []
    else "latency" ∷ "quality" ∷ []

-- sorted(deciding_axes - ax)
unfoldable pub losing : List String → List String → List String
losing deciding axes = keep (λ a. not (any (λ b. b == a) axes)) deciding

-- [(cloud_fallback_model, None)] if include_cloud else []
abbrev pub cloud_entry : Option Bool → String → List (String × Option String)
cloud_entry none cloud = (cloud, none) ∷ []
cloud_entry (some allowed) cloud = if allowed then (cloud, none) ∷ [] else []

module _ (fl : Floats) where
  -- Observed, or else discounted, or else 2.5.
  unfoldable pub known_quality : Option ℕ → Option ℕ → fl.F → fl.F
  known_quality (some observed) reported discount = fl.ratio observed 1000
  known_quality none (some reported) discount = fl.mul (fl.ratio reported 1000) discount
  known_quality none none discount = fl.ratio 25 10

  unfoldable pub effective_quality : Option SpecialistCard → fl.F → fl.F
  unfolding known_quality
  effective_quality none discount = fl.ratio 25 10
  effective_quality (some card) discount =
      known_quality card.quality_router_observed card.quality_node_self_reported discount

  unfoldable pub pref_score : Route → Option SpecialistCard → PrefVector fl.F → fl.F → fl.F
  unfolding effective_quality
  pref_score route card pref discount =
      let one = fl.ratio 1 1 in
      let qw = get_or pref.quality_weight (fl.ratio 5 10) in
      let p95 = fl.ratio (get_or route.p95_latency_ms 800) 1 in
      let latency_pen =
        fl.smallest
          (fl.largest (fl.div (fl.sub p95 (fl.ratio 200 1)) (fl.ratio 1800 1)) (fl.ratio 0 1))
          (fl.ratio 15 10) in
      let cost_pen = fl.ratio route.cost_estimate_cents 10 in
      let quality_norm =
        fl.smallest (fl.div (effective_quality card discount) (fl.ratio 5 1)) one in
      fl.add (fl.mul qw quality_norm) (
        fl.mul (fl.sub one qw) (
          fl.sub (fl.sub one (fl.mul (fl.ratio 6 10) latency_pen))
            (fl.mul (fl.ratio 4 10) cost_pen)))

  unfoldable pub scored_route : Assoc SpecialistCard → PrefVector fl.F → fl.F → Route → Scored fl.F
  unfolding pref_score axes_of
  scored_route catalog pref discount r = record {
    route = r;
    score = pref_score r (lookup r.specialist_id catalog) pref discount;
    axes = axes_of r;
  }

  -- The order of `scored.sort(key=lambda t: -t[1])`.
  abbrev pub outscores : Scored fl.F → Scored fl.F → Bool
  outscores a b = fl.lt b.score a.score

  abbrev pub dropped_alternative : Route × DropReason → Alternative fl.F
  dropped_alternative (r, reason) = record {
    id = r.specialist_id;
    delta = fl.ratio 0 1;
    losing_axes = dropped reason;
  }

  module _ (round_4 : fl.F → fl.F) where
    unfoldable pub scored_alternative : Scored fl.F → Scored fl.F → Alternative fl.F
    unfolding losing
    scored_alternative winner loser = record {
      id = loser.route.specialist_id;
      delta = round_4 (fl.sub winner.score loser.score);
      losing_axes = named (losing winner.axes loser.axes);
    }

    -- The result, from the sorted routes that passed both filters.
    unfoldable pub pref_selection :
        List (Scored fl.F)
        → List (Route × DropReason)
        → RegistrySnapshot
        → PrefVector fl.F
        → String
        → Option String
        → MeshSelectionResult × DecisionReason fl.F
    unfolding model_id scored_alternative
    pref_selection [] drops s pref cloud preset = (
      record {
        model = cloud;
        specialist_id = none;
        node_id = none;
        node_url = none;
        queue_ms_estimated = 0;
        cluster_coverage_used = false;
        fallback_chain = cloud_entry pref.allow_fallbacks cloud;
      },
      record {
        winner = cloud;
        alternatives_considered = map dropped_alternative drops;
        deciding_axes = "pref_gate" ∷ [];
        preset_applied = preset;
      },
    )
    pref_selection (winner ∷ losers) drops s pref cloud preset = (
      record {
        model = model_id_for winner.route s;
        specialist_id = some winner.route.specialist_id;
        node_id = some winner.route.node_id;
        node_url = winner.route.node_url;
        queue_ms_estimated = winner.route.estimated_queue_ms;
        cluster_coverage_used = true;
        fallback_chain =
            map (λ (l : Scored fl.F). (model_id_for l.route s, some l.route.node_id)) losers
            ++ cloud_entry pref.allow_fallbacks cloud;
      },
      record {
        winner = winner.route.specialist_id;
        alternatives_considered =
            map (scored_alternative winner) losers ++ map dropped_alternative drops;
        deciding_axes = winner.axes;
        preset_applied = preset;
      },
    )

    -- For a preference without unsupported fields, under the ceiling.
    unfoldable pub select_by_pref :
        ClassifierSignals
        → RegistrySnapshot
        → PrefVector fl.F
        → ℕ
        → String
        → fl.F
        → Option String
        → MeshSelectionResult × DecisionReason fl.F
    unfolding domain_for_signals candidate_routes filter_routes pref_filter scored_route
        pref_selection
    select_by_pref signals s pref max_queue_ms cloud discount preset =
        let candidates =
          candidate_routes (domain_for_signals signals) (strip (lower signals.difficulty)) s in
        let base = filter_routes candidates signals.route_class max_queue_ms in
        let (survivors, drops) = pref_filter base s.catalog pref in
        pref_selection (sort_by outscores (map (scored_route s.catalog pref discount) survivors))
          drops s pref cloud preset

    abbrev pub unless_unsupported :
        Option UnsupportedPref → MeshSelectionResult × DecisionReason fl.F → PrefOutcome fl.F
    unless_unsupported (some error) answer = unsupported_pref error
    unless_unsupported none (result, why) = selected result (some why)

    unfoldable pub select_mesh_route_with_pref :
        ClassifierSignals
        → RegistrySnapshot
        → Option (PrefVector fl.F)
        → ℕ
        → String
        → Option (AdminCeiling fl.F)
        → fl.F
        → Option String
        → PrefOutcome fl.F
    unfolding select_mesh_route clamp_pref_with_ceiling unsupported select_by_pref
    select_mesh_route_with_pref signals s none max_queue_ms cloud ceiling discount preset =
        selected (select_mesh_route signals s max_queue_ms cloud) none
    select_mesh_route_with_pref signals s (some pref) max_queue_ms cloud ceiling discount preset =
        unless_unsupported (reject_unsupported_pref pref)
          (select_by_pref signals s (clamped fl pref ceiling) max_queue_ms cloud discount preset)
