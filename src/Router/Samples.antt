-- ===== src/Router/Samples.antt =====
-- A request that the first node refuses and the second answers, and the theorems at it.
use slancha_mesh.Common.{
  ◌≤◌, ℕ, List, arith, Option, length, get_or, any, In, ◌↔◌, String, true, false, if◌then◌else◌,
  ◌≡◌, refl, none, some, [], ◌∷◌, ◌==◌, keep,
}
use slancha_mesh.Common.Dict.{IsDistinct, AllValues, lookup, insert, remove}
use slancha_mesh.Models.{healthy, unreachable, NodeBinding, RegistrySnapshot}
use slancha_mesh.RuntimeHealth.{
  RouterRuntimeHealth, init, initialised, binding_key, is_routable, record_success, record_failure,
}
use slancha_mesh.Router.Request.{
  ChatResponse, forwarded, punt_response, local_route_unavailable, unknown_specialist, http_error,
  ChatRequest, object, check_request,
}
use slancha_mesh.Router.Attempts.{replies, raises, Network}
use slancha_mesh.Router.Chat.{Settings, chat_completions}
use slancha_mesh.Router.Bindings.{reachable_bindings}
use slancha_mesh.Router.Refresh.{Pass, refresh_once, is_kept}
use slancha_mesh.Router.Retained.{held_after, FoundRecently, held_iff_FoundRecently}
use slancha_mesh.RuntimeHealth.Bounds.{IsCoherent}
use slancha_mesh.Router.Served.{Arrival, serve_all, requests_keep_bounds}
use slancha_mesh.Router.Cases.{Requested}
use slancha_mesh.Router.Forwarded.{Serves, answers_come_from_ready_nodes}
use slancha_mesh.Router.Accounts.{Accounted, answers_are_counted}

abbrev node : String → NodeBinding
node n = record {
  node_id = n;
  specialist_id = "code";
  health = healthy;
  queue_depth = 0;
  p95_latency_ms_60s = none;
  node_url = some "http://10.0.0.1:8000";
  last_seen = 7;
}

abbrev snap : RegistrySnapshot
snap = record {
  snapshot_ts = 7;
  nodes = [];
  specialists =
      ("code", record (node "z") { health = unreachable } ∷ node "a" ∷ node "b" ∷ []) ∷ [];
  coverage = [];
  ranked_routes = [];
  catalog = [];
}

abbrev health : RouterRuntimeHealth
health = record {
  failure_threshold = 1;
  cooldown_s = 30;
  max_bindings = 8;
  bindings = [];
  requests_succeeded = 0;
  requests_failed = 0;
  client_errors = 0;
  punts = 0;
}

abbrev net : Network
net = record {
  call = λ i b model. if b.node_id == "b" then replies 200 else replies 503;
  asked_at = λ i. 10;
  recorded_at = λ i. 11;
  latency_ms = λ i. 25;
  completes = λ i. true;
}

abbrev settings : Settings
settings = record { max_request_bytes = 100; max_fallback_attempts = 3; classify = none }

abbrev asking : String → ChatRequest
asking m = record {
  declared_length = some 50;
  received_length = 50;
  parsed = object (record { model = some m; prompt = "hi"; stream = false });
}

abbrev serve_sample : ChatRequest → ChatResponse × RouterRuntimeHealth
serve_sample request = chat_completions settings net 9 request snap health

second_answers : (serve_sample (asking "code")).0 ≡ forwarded (node "b") 1 2 200
unfolding chat_completions is_routable record_success record_failure lookup insert remove keep
    binding_key
second_answers = refl

abbrev after : RouterRuntimeHealth
after = (serve_sample (asking "code")).1

served : serve_sample (asking "code") ≡ (forwarded (node "b") 1 2 200, after)
unfolding chat_completions is_routable record_success record_failure lookup insert remove keep
    binding_key
served = refl

too_long : (serve_sample (record (asking "code") { received_length = 101 })).0 ≡ http_error 413
unfolding chat_completions
too_long = refl

not_known : (serve_sample (asking "poem")).0 ≡ unknown_specialist
unfolding chat_completions lookup
not_known = refl

-- Every node fails, and the answer is a punt after two attempts.
all_fail :
    (chat_completions settings
      (record net { call = λ i b model. raises "ConnectError" })
      9
      (asking "code")
      snap
      health).0
    ≡ punt_response local_route_unavailable 2
unfolding chat_completions is_routable record_failure lookup insert remove keep binding_key
all_fail = refl

-- The chain is cut before the second node.
cut :
    (chat_completions
      (record settings { max_fallback_attempts = 1 })
      net
      9
      (asking "code")
      snap
      health).0
    ≡ punt_response local_route_unavailable 1
unfolding chat_completions is_routable record_failure lookup insert remove keep binding_key
cut = refl

no_classifier : (serve_sample (asking "auto")).0 ≡ http_error 404
unfolding chat_completions
no_classifier = refl

answers_come_from_ready_nodes_example :
    (specialist_id : String) × Requested settings net 9 snap health
      (check_request 100 (asking "code"))
      specialist_id
    × Serves settings net 9 snap health specialist_id (node "b") 1 2 200
answers_come_from_ready_nodes_example =
    answers_come_from_ready_nodes settings net 9 snap health (asking "code") (node "b") 1 2 200
      after served

answers_are_counted_example : Accounted health (serve_sample (asking "code"))
answers_are_counted_example =
    answers_are_counted settings net 9 snap health (λ i. refl) (asking "code")

-- The first pass finds the node, the second misses it, and the third, later than the retention, too.
abbrev seen : Pass
seen = record { at = 100; found = ("code", "http://a:1" ∷ []) ∷ [] }

abbrev missed : ℕ → Pass
missed t = record { at = t; found = ("code", []) ∷ [] }

abbrev after_passes : List Pass → Option RegistrySnapshot
after_passes passes = held_after (λ url. url) [] 10 passes

abbrev usable : List Pass → ℕ
usable passes = length (reachable_bindings "code" (get_or (after_passes passes) snap))

kept_once : usable (missed 105 ∷ seen ∷ []) ≡ 1
unfolding reachable_bindings held_after refresh_once insert lookup keep any is_kept
kept_once = refl

dropped_later : usable (missed 111 ∷ missed 105 ∷ seen ∷ []) ≡ 0
unfolding reachable_bindings held_after refresh_once insert lookup keep any is_kept
dropped_later = refl

held_iff_FoundRecently_example :
    (s : RegistrySnapshot) × (after_passes (missed 105 ∷ seen ∷ []) ≡ some s)
    × (((b : NodeBinding) × In b (reachable_bindings "code" s) × (b.node_url ≡ some "http://a:1"))
        ↔ FoundRecently (λ url. url) [] 10 (missed 105 ∷ seen ∷ []) 105 "code" "http://a:1")
held_iff_FoundRecently_example =
    held_iff_FoundRecently (λ url. url) [] 10 (missed 105) (seen ∷ []) "code" "http://a:1"
      (omega arith) ((omega arith, tt), (tt, tt)) refl

abbrev arrivals : List Arrival
arrivals =
    record { request = asking "code"; net = net; now = 9; snapshot = snap }
    ∷ record { request = asking "poem"; net = net; now = 10; snapshot = snap }
    ∷ []

init_health : init 1 30 8 ≡ initialised health
unfolding init
init_health = refl

requests_keep_bounds_example :
    (length (serve_all settings arrivals health).bindings ≤ 8)
    × IsDistinct (serve_all settings arrivals health).bindings
    × AllValues (IsCoherent 1) (serve_all settings arrivals health).bindings
requests_keep_bounds_example = requests_keep_bounds 1 30 8 health settings arrivals init_health
