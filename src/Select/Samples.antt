-- ===== src/Select/Samples.antt =====
-- A request that the registry of Registry/Samples serves, and the theorems at it.
use slancha_mesh.Common.{
  ℕ, ◌-◌, ◌≤◌, ◌≡◌, refl, true, false, none, some, [], ◌∷◌, ◌⊎◌, All, keep, any, all,
}
use slancha_mesh.Common.Dict.{lookup, insert, remove}
use slancha_mesh.Common.Sort.{sort_by}
use slancha_mesh.Models.{healthy, Route}
use slancha_mesh.Registry.State.{HeartbeatEvent}
use slancha_mesh.Registry.Replay.{snapshot, build_ranked_routes}
use slancha_mesh.Registry.Snapshots.{standing}
use slancha_mesh.Registry.Samples.{pinned, log}
use slancha_mesh.Select.Text.{lower, strip}
use slancha_mesh.Select.Route.{
  ClassifierSignals, domain_for_signals, within_budget, MeshSelectionResult, select_mesh_route,
}
use slancha_mesh.Allocator.Samples.{whole_numbers, whole_numbers-IsOrdered}
use slancha_mesh.Select.Pref.{
  PrefVector, AdminCeiling, unsupported, gate_drop, clamped, pref_filter,
}
use slancha_mesh.Select.Weigh.{DecisionReason, selected, losing, select_mesh_route_with_pref}
use slancha_mesh.Select.Preferred.{IsResult, select_mesh_route_with_pref-cases}
use slancha_mesh.Select.Limits.{KeepsLimits, results_keep_limits}
use slancha_mesh.Select.Chosen.{
  candidates_of, IsLightest, FellThrough, Serves, select_mesh_route-cases, selected_node_is_alive,
}

abbrev signals : ClassifierSignals
signals = record {
  domain = " Programming";
  difficulty = "Easy";
  language = "en";
  needs_tools = false;
  route_class = "hot_interactive";
}

normalised : strip (lower signals.difficulty) ≡ "easy"
unfolding strip lower
normalised = refl

mapped : domain_for_signals signals ≡ "code"
unfolding domain_for_signals
mapped = refl

served_by_a : (select_mesh_route signals (snapshot 200 pinned) 2000 "cloud").node_id ≡ some "a"
unfolding select_mesh_route snapshot build_ranked_routes sort_by keep insert remove lookup
served_by_a = refl

select_mesh_route-cases_example :
    (FellThrough (select_mesh_route signals (snapshot 200 pinned) 2000 "cloud") "cloud"
      × All
          (λ r. within_budget "hot_interactive" 2000 r ≡ false)
          (candidates_of signals (snapshot 200 pinned)))
    ⊎ ((r : Route) × Serves (select_mesh_route signals (snapshot 200 pinned) 2000 "cloud") r
        × IsLightest signals (candidates_of signals (snapshot 200 pinned)) 2000 r)
select_mesh_route-cases_example = select_mesh_route-cases signals (snapshot 200 pinned) 2000 "cloud"

selected_node_is_alive_example :
    (ev : HeartbeatEvent) × (standing "a" log ≡ some ev)
    × (200 - ev.ts ≤ 300000000)
    × (ev.heartbeat.health ≡ healthy)
    × ((select_mesh_route signals (snapshot 200 pinned) 2000 "cloud").queue_ms_estimated ≤ 2000)
selected_node_is_alive_example =
    selected_node_is_alive signals 200 pinned 2000 "cloud" "a" served_by_a

abbrev pref : PrefVector ℕ
pref = record {
  max_cost_cents = none;
  max_latency_ms_p95 = some 100;
  max_ttft_ms = none;
  min_throughput_tps = none;
  quality_weight = some 200;
  require_capabilities = some ("chat" ∷ []);
  require_streaming = none;
  allow_fallbacks = some false;
  min_context_window = some 4096;
}

-- An administrator who also sets a limit that the selection cannot keep.
abbrev ceiling : AdminCeiling ℕ
ceiling = record {
  max_cost_cents = some 5;
  max_latency_ms_p95 = some 50;
  max_ttft_ms = some 10;
  quality_weight_min = some 500;
}

select_mesh_route_with_pref-cases_example :
    (answer : MeshSelectionResult × DecisionReason ℕ) × (select_mesh_route_with_pref whole_numbers
        (λ a. a)
        signals
        (snapshot 200 pinned)
        (some pref)
        2000
        "cloud"
        (some ceiling)
        500
        none
      ≡ selected answer.0 (some answer.1))
    × IsResult whole_numbers signals
        (snapshot 200 pinned)
        2000
        "cloud"
        500
        (clamped whole_numbers pref (some ceiling))
        answer
unfolding unsupported
select_mesh_route_with_pref-cases_example =
    select_mesh_route_with_pref-cases whole_numbers signals (snapshot 200 pinned) 2000 500 (λ a. a)
      "cloud" pref (some ceiling) none whole_numbers-IsOrdered refl

abbrev preferred : MeshSelectionResult
preferred = record {
  model = "m";
  specialist_id = some "code";
  node_id = some "a";
  node_url = some "http://10.0.0.1:8000";
  queue_ms_estimated = 1000;
  cluster_coverage_used = true;
  fallback_chain = [];
}

abbrev why : DecisionReason ℕ
why = record {
  winner = "code";
  alternatives_considered = [];
  deciding_axes = "latency" ∷ "quality" ∷ [];
  preset_applied = none;
}

-- The limit on the time to the first token that came from the ceiling is not refused.
served_under_ceiling :
    select_mesh_route_with_pref whole_numbers
      (λ a. a)
      signals
      (snapshot 200 pinned)
      (some pref)
      2000
      "cloud"
      (some ceiling)
      500
      none
    ≡ selected preferred (some why)
unfolding select_mesh_route_with_pref pref_filter snapshot build_ranked_routes sort_by keep insert
    remove lookup gate_drop all
served_under_ceiling = refl

results_keep_limits_example :
    KeepsLimits whole_numbers signals (snapshot 200 pinned) 2000 pref ceiling "cloud" preferred
results_keep_limits_example =
    results_keep_limits whole_numbers signals (snapshot 200 pinned) 2000 500 (λ a. a) "cloud" pref
      ceiling none preferred (some why) whole_numbers-IsOrdered served_under_ceiling

-- What an alternative without cost loses to a winner that has one.
loses_cost : losing ("cost" ∷ "latency" ∷ "quality" ∷ []) ("latency" ∷ "quality" ∷ []) ≡ "cost" ∷ []
unfolding losing keep any
loses_cost = refl
