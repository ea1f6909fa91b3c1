-- ===== src/Select/Route.antt =====
-- `select_mesh_route` of mesh/select.py. Latencies are whole milliseconds; a score is the negation of
-- a penalty, counted in 1/2000.
use slancha_mesh.Common.{
  ℕ, ◌+◌, ◌*◌, String, Bool, true, false, Option, none, some, List, [], ◌∷◌, ◌++◌, map, ltb, get_or,
  if◌then◌else◌, is_empty, ◌==◌, ◌&&◌, ◌||◌, not, any, keep,
}
use slancha_mesh.Common.Dict.{Assoc, lookup}
use slancha_mesh.Common.Sort.{sort_by}
use slancha_mesh.Models.{SpecialistCard, Route, RegistrySnapshot}
use slancha_mesh.Registry.Replay.{p95_or, route_key, build_ranked_routes}
use slancha_mesh.Select.Text.{lower, strip}

abbrev pub hot_interactive_p95_ms : ℕ
hot_interactive_p95_ms = 1500

pub record ClassifierSignals : Type 0 where
  pub domain : String
  pub difficulty : String
  pub language : String
  pub needs_tools : Bool
  pub route_class : String

-- The negated score: queue in seconds and p95, weighted by the class of the route.
unfoldable pub route_penalty : Route → String → ℕ
route_penalty route route_class =
    let queue = route.estimated_queue_ms in
    let p95 = p95_or 500 route.p95_latency_ms in
    if route_class == "hot_interactive"
    then 4 * queue + 20 * p95
    else if route_class == "batch"
    then queue + 4 * p95
    else 2 * queue + 8 * p95

abbrev is_one_of : List String → String → Bool
is_one_of names d = any (λ n. n == d) names

unfoldable pub domain_for_signals : ClassifierSignals → String
unfolding lower strip any
domain_for_signals signals =
    let d = strip (lower signals.domain) in
    if is_one_of ("code" ∷ "computer science" ∷ "engineering" ∷ "programming" ∷ "coding" ∷ []) d
    then "code"
    else if is_one_of ("math" ∷ "physics" ∷ "chemistry" ∷ "mathematics" ∷ []) d
    then "math"
    else if d == "multilingual" || not (is_one_of ("en" ∷ "" ∷ []) signals.language)
    then "multilingual"
    else if is_one_of ("reasoning" ∷ "analysis" ∷ []) d
    then "reasoning"
    else "general"

abbrev pub over_p95 : Option ℕ → Bool
over_p95 none = false
over_p95 (some p95) = ltb hot_interactive_p95_ms p95

-- A route within the budgets of queue and latency.
abbrev pub within_budget : String → ℕ → Route → Bool
within_budget route_class max_queue_ms r =
    not (ltb max_queue_ms r.estimated_queue_ms)
    && not (route_class == "hot_interactive" && over_p95 r.p95_latency_ms)

unfoldable pub filter_routes : List Route → String → ℕ → List Route
filter_routes routes route_class max_queue_ms = keep (within_budget route_class max_queue_ms) routes

-- ranked.get(key, [])
abbrev pub routes_of : String → String → Assoc (List Route) → List Route
routes_of domain difficulty ranked = get_or (lookup (route_key domain difficulty) ranked) []

abbrev pub ranked_or_built : RegistrySnapshot → Assoc (List Route)
ranked_or_built s = if is_empty s.ranked_routes then build_ranked_routes s else s.ranked_routes

-- `if not candidates and <test>: candidates = <others>`
unfoldable pub fall_through : Bool → List Route → List Route → List Route
fall_through test others candidates = if is_empty candidates && test then others else candidates

unfoldable pub candidate_routes : String → String → RegistrySnapshot → List Route
unfolding fall_through
candidate_routes domain difficulty s =
    let ranked = ranked_or_built s in
    fall_through (not (domain == "general")) (routes_of "general" difficulty ranked) (
      fall_through (difficulty == "easy" || difficulty == "medium") (routes_of domain "hard" ranked)
        (fall_through (difficulty == "easy") (routes_of domain "medium" ranked)
          (routes_of domain difficulty ranked)))

pub record MeshSelectionResult : Type 0 where
  pub model : String
  pub specialist_id : Option String
  pub node_id : Option String
  pub node_url : Option String
  pub queue_ms_estimated : ℕ
  pub cluster_coverage_used : Bool
  pub fallback_chain : List (String × Option String)

-- The model of a card, or the specialist's own id.
unfoldable pub model_id : Option SpecialistCard → Route → String
model_id none route = route.specialist_id
model_id (some card) route = card.model_id

abbrev pub model_id_for : Route → RegistrySnapshot → String
model_id_for route s = model_id (lookup route.specialist_id s.catalog) route

abbrev pub lighter : String → Route → Route → Bool
lighter route_class a b = ltb (route_penalty a route_class) (route_penalty b route_class)

-- The result, from the sorted routes that passed the filter.
unfoldable pub selection : List Route → RegistrySnapshot → String → MeshSelectionResult
unfolding model_id
selection [] s cloud = record {
  model = cloud;
  specialist_id = none;
  node_id = none;
  node_url = none;
  queue_ms_estimated = 0;
  cluster_coverage_used = false;
  fallback_chain = (cloud, none) ∷ [];
}
selection (primary ∷ others) s cloud = record {
  model = model_id_for primary s;
  specialist_id = some primary.specialist_id;
  node_id = some primary.node_id;
  node_url = primary.node_url;
  queue_ms_estimated = primary.estimated_queue_ms;
  cluster_coverage_used = true;
  fallback_chain =
      map (λ (r : Route). (model_id_for r s, some r.node_id)) others ++ (cloud, none) ∷ [];
}

unfoldable pub select_mesh_route :
    ClassifierSignals → RegistrySnapshot → ℕ → String → MeshSelectionResult
unfolding domain_for_signals candidate_routes filter_routes selection route_penalty
select_mesh_route signals s max_queue_ms cloud =
    let candidates =
      candidate_routes (domain_for_signals signals) (strip (lower signals.difficulty)) s in
    let filtered = filter_routes candidates signals.route_class max_queue_ms in
    selection (sort_by (lighter signals.route_class) filtered) s cloud
