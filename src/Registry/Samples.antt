-- ===== src/Registry/Samples.antt =====
-- A small registry of mesh/registry.py, and the theorems at it.
use mathlib.Core.List.{Perm}
use slancha_mesh.Common.{
  ap, sym, some-injective, map, take, ℕ, ◌≤◌, ◌-◌, String, ◌≡◌, refl, true, false, none, some, List,
  [], ◌∷◌, ◌==◌, ◌&&◌, not, get_or, In, inl, ◌↔◌,
}
use slancha_mesh.Common.Dict.{lookup, insert, remove}
use slancha_mesh.Common.Sort.{sort_by}
use slancha_mesh.Models.{
  medium, vllm, healthy, NodeProbe, SpecialistCard, NodeHeartbeat, NodeBinding,
}
use slancha_mesh.Identity.{NodeIdentityCert, verify_node_cert, cert_message}
use slancha_mesh.EventStore.{EventEnvelope, list_store, list_store-IsDurable}
use slancha_mesh.Registry.State.{
  HeartbeatEvent, Event, heartbeat, node_left, Env, HeartbeatPostRequest, MeshRegistry, boot,
  boot_replay, by_specialist_id,
}
use slancha_mesh.Registry.Compact.{compact_events, compact_heartbeats}
use slancha_mesh.Registry.Ingest.{
  impersonation, store_failure, raised, done, ack_response, record_heartbeat, latest_hardware,
}
use slancha_mesh.Registry.Replay.{
  snapshot, build_ranked_routes, route_of, replay_events, nothing_replayed,
}
use slancha_mesh.Registry.Compaction.{drop_superseded, compact_events-eq-drop_superseded}
use slancha_mesh.Registry.Preserved.{latest_hardware-compact_events}
use slancha_mesh.Registry.Views.{summary_or}
use slancha_mesh.Registry.Snapshots.{
  standing, snapshot_has_standing_nodes, compact_heartbeats-SameSnapshot,
}
use slancha_mesh.Registry.Trace.{Request, beat, leave, Allocate, run}
use slancha_mesh.Registry.Pins.{Certified, pins_survive, acknowledged_is_Certified}
use slancha_mesh.Registry.Errors.{Leaves, record_heartbeat-Leaves}
use slancha_mesh.Registry.Decode.{IsReliable}
use slancha_mesh.Registry.Restart.{Restores, restart-Restores}
use slancha_mesh.Registry.Ranked.{routes_at, Offers, ranked_routes_iff}
use slancha_mesh.Registry.Fresh.{ranked_routes_are_alive}

abbrev pub hardware : String → NodeProbe
hardware n = record {
  node_id = n;
  friendly_name = n;
  chip = "NVIDIA L40S";
  cuda_capability = some "9.0";
  ram_available_gb = 64;
  vram_available_gb = some 24;
  unified_memory = false;
  memory_bandwidth_gbs = none;
  rtt_to_master_ms = none;
  available_backends = vllm ∷ [];
  disk_free_gb = 500;
}

abbrev beat_of : String → ℕ → NodeHeartbeat
beat_of n queue = record {
  node_id = n;
  ts = 7;
  hardware = hardware n;
  loaded_models = record { specialist_id = "code"; model_id = "m"; node_url = none } ∷ [];
  util = record { gpu_util_pct = 0; queue_depth = queue; p95_latency_ms_60s = some 40 };
  health = healthy;
}

abbrev pub code_card : SpecialistCard
code_card = record {
  model_id = "m";
  specialist_id = "code";
  domain = "code";
  difficulty_tiers = medium ∷ [];
  required_backend = vllm;
  requires_fp4 = false;
  storage_gb = 10;
  runtime_gb = 12;
  min_vram_gb = 12;
  context_window = 8192;
  n_layers = 32;
  estimated_tps_at = ("l40", 60) ∷ [];
  n_kv_heads = none;
  head_dim = none;
  kv_dtype_bytes = none;
  kv_arch = none;
  active_params_gb = none;
  ollama_tag = none;
  served_model_name = none;
  capabilities = "chat" ∷ [];
  quality_router_observed = none;
  quality_node_self_reported = none;
  quality_observation_source = none;
  quality_sample_count = 0;
}

-- A signature that verifies is the text of the key.
abbrev pub env : Env Event (List (EventEnvelope Event))
env = record {
  store = list_store;
  model_dump_json = λ ev. ev;
  model_validate_json = λ kind ev. some ev;
  isoformat = λ t. "t";
  verify_signature = λ key message sig. not (key == "") && sig == key;
  uuid4 = λ n. "id";
}

env-IsReliable : IsReliable env
env-IsReliable = record {
  durable = list_store-IsDurable;
  accepts = λ d e. (_, refl);
  compacts = (_, refl);
  always_compacts =
      λ f d envs h. (envs, ap (λ g. g d envs) (sym (some-injective (λ d' envs'. some envs') f h)));
  reads_back = λ ev. refl;
  no_empty_key = λ message sig. refl;
}

abbrev alloc : Allocate
alloc nodes cards = []

abbrev cert_of : String → String → NodeIdentityCert
cert_of n key = record { node_id = n; public_key_b64 = key; signature_b64 = key }

abbrev request : String → ℕ → String → HeartbeatPostRequest
request n queue key = record {
  heartbeat = beat_of n queue;
  node_url = some "http://10.0.0.1:8000";
  identity_cert = some (cert_of n key);
}

abbrev fresh : MeshRegistry (List (EventEnvelope Event))
fresh = record {
  events = [];
  max_events = 2;
  node_pubkeys = [];
  require_node_identity = true;
  store = [];
  catalog = ("code", code_card) ∷ [];
  node_urls = [];
  uuids_drawn = 0;
}

boot-fresh : boot env (code_card ∷ []) 2 [] true ≡ some fresh
unfolding boot boot_replay by_specialist_id insert
boot-fresh = refl

abbrev requests : List Request
requests =
    beat 100 (request "a" 3 "ka")
    ∷ beat 101 (request "b" 1 "kb")
    ∷ beat 102 (request "a" 2 "ka")
    ∷ leave 103 "b" "graceful"
    ∷ []

abbrev served : MeshRegistry (List (EventEnvelope Event))
served = run env alloc requests fresh

restart-Restores_example : Restores env [] 2 true served
unfolding boot
restart-Restores_example =
    restart-Restores env env-IsReliable alloc (code_card ∷ []) [] 2 true [] fresh requests refl
      boot-fresh

-- A registry that knows the key of a, and has a log with a superseded heartbeat.
abbrev pub event_of : String → ℕ → ℕ → HeartbeatEvent
event_of n now queue = record {
  ts = now;
  node_url = some "http://10.0.0.1:8000";
  public_key_b64 = some "ka";
  heartbeat = beat_of n queue;
}

abbrev pub log : List Event
log =
    heartbeat (event_of "a" 100 3)
    ∷ heartbeat (event_of "b" 101 1)
    ∷ heartbeat (event_of "a" 102 2)
    ∷ node_left 103 "b" "graceful"
    ∷ []

abbrev pub pinned : MeshRegistry (List (EventEnvelope Event))
pinned = record fresh { node_pubkeys = ("a", "ka") ∷ []; events = log }

pins_survive_example : lookup "a" (run env alloc requests pinned).node_pubkeys ≡ some "ka"
unfolding lookup
pins_survive_example = pins_survive env alloc requests pinned "a" "ka" refl

acknowledged : (record_heartbeat env 110 (request "a" 2 "ka") pinned).0 ≡ done ack_response
unfolding record_heartbeat lookup verify_node_cert cert_message
acknowledged = refl

acknowledged_is_Certified_example :
    Certified env.verify_signature (some (cert_of "a" "ka")) "a" "ka"
unfolding lookup
acknowledged_is_Certified_example =
    acknowledged_is_Certified env 110 (request "a" 2 "ka") pinned "ka" ack_response refl
      acknowledged

impersonated : (record_heartbeat env 110 (request "a" 2 "kb") pinned).0 ≡ raised impersonation
unfolding record_heartbeat lookup verify_node_cert cert_message
impersonated = refl

-- A store that takes every event and refuses to compact its log.
abbrev rigid : Env Event (List (EventEnvelope Event))
rigid = record env { store = record list_store { compact = some (λ d envs. none) } }

not_compacted : (record_heartbeat rigid 110 (request "a" 2 "ka") pinned).0 ≡ raised store_failure
unfolding record_heartbeat lookup verify_node_cert cert_message compact_heartbeats compact_events
    insert
not_compacted = refl

record_heartbeat-Leaves_example :
    Leaves rigid 110
      (request "a" 2 "ka")
      store_failure
      pinned
      (record_heartbeat rigid 110 (request "a" 2 "ka") pinned).1
record_heartbeat-Leaves_example =
    record_heartbeat-Leaves rigid 110 (request "a" 2 "ka") pinned store_failure not_compacted

compacted_log :
    compact_events log
    ≡ heartbeat (event_of "b" 101 1)
      ∷ heartbeat (event_of "a" 102 2)
      ∷ node_left 103 "b" "graceful"
      ∷ []
unfolding compact_events insert
compacted_log = refl

compact_events-eq-drop_superseded_example : compact_events log ≡ drop_superseded log
compact_events-eq-drop_superseded_example = compact_events-eq-drop_superseded log

latest_hardware-compact_events_example :
    lookup "a" (latest_hardware (compact_events log) []) ≡ lookup "a" (latest_hardware log [])
latest_hardware-compact_events_example = latest_hardware-compact_events log "a"

compact_heartbeats-SameSnapshot_example :
    (lookup "a" (snapshot 200 (compact_heartbeats env pinned).1).nodes
      ≡ lookup "a" (snapshot 200 pinned).nodes)
    × Perm
        (get_or (lookup "a" (snapshot 200 (compact_heartbeats env pinned).1).specialists) [])
        (get_or (lookup "a" (snapshot 200 pinned).specialists) [])
compact_heartbeats-SameSnapshot_example = compact_heartbeats-SameSnapshot env 200 pinned "a"

snapshot_has_standing_nodes_example :
    lookup "a" (snapshot 200 pinned).nodes ≡ summary_or 200 [] "a" (standing "a" log) none
snapshot_has_standing_nodes_example = snapshot_has_standing_nodes 200 pinned "a"

abbrev binding : NodeBinding
binding = record {
  node_id = "a";
  specialist_id = "code";
  health = healthy;
  queue_depth = 2;
  p95_latency_ms_60s = some 40;
  node_url = some "http://10.0.0.1:8000";
  last_seen = 102;
}

ranked_here :
    In
      (route_of "code" binding)
      (routes_at "code|medium" (build_ranked_routes (snapshot 200 pinned)))
unfolding build_ranked_routes snapshot insert lookup remove sort_by
ranked_here = inl refl

ranked_routes_iff_example :
    In
      (route_of "code" binding)
      (routes_at "code|medium" (build_ranked_routes (snapshot 200 pinned)))
    ↔ ((sid : String) × (bindings : List NodeBinding) × In
          (sid, bindings)
          (snapshot 200 pinned).specialists
        × Offers (snapshot 200 pinned).catalog sid bindings "code|medium" (route_of "code" binding))
ranked_routes_iff_example =
    ranked_routes_iff (snapshot 200 pinned) "code|medium" (route_of "code" binding)

ranked_routes_are_alive_example :
    (ev : HeartbeatEvent) × (standing "a" log ≡ some ev)
    × (200 - ev.ts ≤ 300000000)
    × (ev.heartbeat.health ≡ healthy)
ranked_routes_are_alive_example =
    ranked_routes_are_alive 200 pinned "code|medium" (route_of "code" binding) ranked_here

-- The compaction moves a behind b: a dictionary keeps the place of the first write of a key.
moved :
    (map (λ e. e.0) (replay_events (compact_events (take 3 log)) nothing_replayed).latest
      ≡ "b" ∷ "a" ∷ [])
    × (map (λ e. e.0) (replay_events (take 3 log) nothing_replayed).latest ≡ "a" ∷ "b" ∷ [])
unfolding replay_events compact_events insert remove
moved = (refl, refl)
