-- ===== src/Router/Bindings.antt =====
-- The snapshots that the router of mesh/router_app.py works on, and the bindings that it may use.
use slancha_mesh.Common.{
  ℕ, String, Bool, true, false, Option, none, some, List, [], ◌∷◌, ◌++◌, eqb, get_or, if◌then◌else◌,
  ◌==◌, ◌&&◌, ◌||◌, not, keep, is_empty,
}
use slancha_mesh.Common.Dict.{Assoc, lookup, insert, set_default}
use slancha_mesh.Models.{
  is_unreachable, healthy, Backend, ollama, external, NodeBinding, NodeSummary, RegistrySnapshot,
  SpecialistCard,
}
use slancha_mesh.Registry.State.{by_specialist_id}
use slancha_mesh.RuntimeHealth.{RouterRuntimeHealth, binding_key, peek_routable}

-- A text that is there and not empty.
abbrev pub truthy : Option String → Bool
truthy none = false
truthy (some s) = not (s == "")

abbrev pub is_reachable : NodeBinding → Bool
is_reachable b = not (is_unreachable b.health) && truthy b.node_url

unfoldable pub reachable_bindings : String → RegistrySnapshot → List NodeBinding
reachable_bindings specialist_id s =
    keep is_reachable (get_or (lookup specialist_id s.specialists) [])

-- The bindings whose circuit lets a request through.
unfoldable pub ready : String → ℕ → RouterRuntimeHealth → List NodeBinding → List NodeBinding
unfolding peek_routable
ready specialist_id now h bindings =
    keep (λ b. peek_routable (binding_key specialist_id b.node_id) now h) bindings

unfoldable pub ready_specialists :
    ℕ → RouterRuntimeHealth → RegistrySnapshot → Assoc (List NodeBinding) → Assoc (List NodeBinding)
unfolding ready reachable_bindings
ready_specialists now h s [] = []
ready_specialists now h s ((specialist_id, bindings) ∷ rest) =
    let others = ready_specialists now h s rest in
    let here = ready specialist_id now h (reachable_bindings specialist_id s) in
    if is_empty here then others else (specialist_id, here) ∷ others

unfoldable pub runtime_ready_snapshot :
    ℕ → RouterRuntimeHealth → RegistrySnapshot → RegistrySnapshot
unfolding ready_specialists
runtime_ready_snapshot now h s = record s {
  specialists = ready_specialists now h s s.specialists;
  ranked_routes = [];
}

abbrev pub is_retriable_status : ℕ → Bool
is_retriable_status code = eqb code 502 || eqb code 503 || eqb code 504

abbrev pub is_ollama : Backend → Bool
is_ollama ollama = true
is_ollama _ = false

abbrev pub is_external : Backend → Bool
is_external external = true
is_external _ = false

-- The model that the node is asked for.
unfoldable pub upstream_model : Option SpecialistCard → String → String
upstream_model none model = model
upstream_model (some card) model =
    if is_ollama card.required_backend && truthy card.ollama_tag
    then get_or card.ollama_tag model
    else if is_external card.required_backend && truthy card.served_model_name
    then get_or card.served_model_name model
    else model

-- `body["model"]` after `_rewrite_model_for_upstream`.
unfoldable pub rewrite_model : String → String → RegistrySnapshot → String
unfolding upstream_model
rewrite_model model specialist_id s = upstream_model (lookup specialist_id s.catalog) model

-- What a discovery pass found: the URLs of each specialist.
abbrev pub DiscoveryResult : Type 0
DiscoveryResult = Assoc (List String)

abbrev pub discovered_binding : String → String → String → ℕ → NodeBinding
discovered_binding specialist_id node_id url now = record {
  node_id = node_id;
  specialist_id = specialist_id;
  health = healthy;
  queue_depth = 0;
  p95_latency_ms_60s = none;
  node_url = some url;
  last_seen = now;
}

abbrev pub discovered_node : String → String → String → ℕ → NodeSummary
discovered_node specialist_id node_id url now = record {
  node_id = node_id;
  friendly_name = node_id;
  health = healthy;
  last_seen = now;
  loaded_specialist_ids = specialist_id ∷ [];
  queue_depth = 0;
  p95_latency_ms_60s = none;
  node_url = some url;
}

abbrev pub Found : Type 0
Found = Assoc (List NodeBinding) × Assoc NodeSummary

-- bindings_by_specialist.setdefault(sid, []).append(binding)
abbrev pub append_binding :
    String → NodeBinding → Assoc (List NodeBinding) → Assoc (List NodeBinding)
append_binding specialist_id b m =
    insert specialist_id (get_or (lookup specialist_id m) [] ++ b ∷ []) m

-- `node_id_for_url` is the host and port that `urlsplit` finds.
module _ (node_id_for_url : String → String) (now : ℕ) where
  unfoldable pub add_urls : String → List String → Found → Found
  add_urls specialist_id [] found = found
  add_urls specialist_id (url ∷ urls) (bindings, nodes) =
      let node_id = node_id_for_url url in
      add_urls specialist_id urls (
        append_binding specialist_id (discovered_binding specialist_id node_id url now) bindings,
        set_default node_id (discovered_node specialist_id node_id url now) nodes,
      )

  unfoldable pub add_specialists : DiscoveryResult → Found → Found
  unfolding add_urls
  add_specialists [] found = found
  add_specialists ((specialist_id, urls) ∷ rest) found =
      add_specialists rest (add_urls specialist_id urls found)

  unfoldable pub discovery_to_snapshot : DiscoveryResult → List SpecialistCard → RegistrySnapshot
  unfolding add_specialists by_specialist_id
  discovery_to_snapshot discovery catalog =
      let (bindings, nodes) = add_specialists discovery ([], []) in
      record {
        snapshot_ts = now;
        nodes = nodes;
        specialists = bindings;
        coverage = [];
        ranked_routes = [];
        catalog = by_specialist_id catalog [];
      }
