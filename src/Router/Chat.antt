-- ===== src/Router/Chat.antt =====
-- `chat_completions` of mesh/router_app.py, and `select` of mesh/classifier/auto.py. What nodes
-- answer and what clocks return is an argument; a request runs with no other one in between.
use slancha_mesh.Common.{
  ℕ, String, Bool, true, false, Option, none, some, List, if◌then◌else◌, ◌==◌, ◌&&◌, not, is_empty,
  take,
}
use slancha_mesh.Common.Dict.{has}
use slancha_mesh.Common.Sort.{sort_by}
use slancha_mesh.Models.{NodeBinding, RegistrySnapshot}
use slancha_mesh.RuntimeHealth.{RouterRuntimeHealth, record_client_error, record_punt}
use slancha_mesh.Select.Route.{ClassifierSignals, MeshSelectionResult, select_mesh_route}
use slancha_mesh.Router.Bindings.{reachable_bindings, runtime_ready_snapshot, ready, rewrite_model}
use slancha_mesh.Router.Request.{
  PuntCode, ChatResponse, ChatBody, ChatRequest, Checked, check_request, http_error,
  unknown_specialist, punt_response, forwarded, rejected, accepted, no_suitable_local_route,
  local_route_unavailable,
}
use slancha_mesh.Router.Attempts.{
  Network, settle, settle_stream, Tried, try_bindings, exhausted, answered,
}

abbrev pub respond : Tried × RouterRuntimeHealth → ChatResponse × RouterRuntimeHealth
respond (exhausted attempts, h) = (punt_response local_route_unavailable attempts, record_punt h)
respond (answered b idx attempts code, h) = (forwarded b idx attempts code, h)

-- `binding.node_id != preferred_node_id`, as a sort key.
abbrev pub preferred_first : String → NodeBinding → NodeBinding → Bool
preferred_first node a b = a.node_id == node && not (b.node_id == node)

unfoldable pub prefer : Option String → List NodeBinding → List NodeBinding
prefer none bindings = bindings
prefer (some node) bindings = sort_by (preferred_first node) bindings

-- The settings of the router and the moment of the request.
pub record Settings : Type 0 where
  pub max_request_bytes : ℕ
  pub max_fallback_attempts : ℕ
  pub classify : Option (String → ClassifierSignals)

abbrev pub punted : PuntCode → RouterRuntimeHealth → ChatResponse × RouterRuntimeHealth
punted code h = (punt_response code 0, record_punt h)

abbrev pub finish_for : Network → Bool → ℕ → String → ℕ → RouterRuntimeHealth → RouterRuntimeHealth
finish_for net true = settle_stream net
finish_for net false = settle net

-- The bindings that a request may be sent to, in order.
unfoldable pub chain :
    ℕ → String → Option String → RegistrySnapshot → RouterRuntimeHealth → List NodeBinding
unfolding prefer ready reachable_bindings
chain now specialist_id preferred s h =
    prefer preferred (ready specialist_id now h (reachable_bindings specialist_id s))

-- From a specialist on, and the node that is preferred.
unfoldable pub serve :
    Settings
    → Network
    → ℕ
    → Bool
    → String
    → Option String
    → RegistrySnapshot
    → RouterRuntimeHealth
    → ChatResponse × RouterRuntimeHealth
unfolding chain try_bindings rewrite_model settle settle_stream
serve c net now stream specialist_id preferred s h =
    if not (has specialist_id s.specialists)
    then (unknown_specialist, record_client_error h)
    else if is_empty (reachable_bindings specialist_id s)
    then punted local_route_unavailable h
    else if is_empty (chain now specialist_id preferred s h)
    then punted local_route_unavailable h
    else respond (
        try_bindings net (finish_for net stream) specialist_id
          (rewrite_model specialist_id specialist_id s) 0 0
          (take c.max_fallback_attempts (chain now specialist_id preferred s h)) h)

-- The signals of a prompt; no prompt is routed to the general pool.
abbrev pub signals_of : (String → ClassifierSignals) → String → ClassifierSignals
signals_of classify prompt =
    if prompt == ""
    then record {
      domain = "general";
      difficulty = "medium";
      language = "en";
      needs_tools = false;
      route_class = "standard";
    }
    else classify prompt

-- `AutoRouter.select`
unfoldable pub auto_select :
    (String → ClassifierSignals) → String → RegistrySnapshot → MeshSelectionResult
unfolding select_mesh_route
auto_select classify prompt s =
    select_mesh_route (signals_of classify prompt) s 2000 "claude-sonnet-4-7"

unfoldable pub serve_selected :
    Settings
    → Network
    → ℕ
    → Bool
    → Option String
    → Option String
    → RegistrySnapshot
    → RouterRuntimeHealth
    → ChatResponse × RouterRuntimeHealth
unfolding serve
serve_selected c net now stream none preferred s h = punted no_suitable_local_route h
serve_selected c net now stream (some specialist_id) preferred s h =
    serve c net now stream specialist_id preferred s h

unfoldable pub serve_auto :
    Settings
    → Network
    → ℕ
    → ChatBody
    → Option (String → ClassifierSignals)
    → RegistrySnapshot
    → RouterRuntimeHealth
    → ChatResponse × RouterRuntimeHealth
unfolding serve_selected auto_select runtime_ready_snapshot
serve_auto c net now body none s h = (http_error 404, h)
serve_auto c net now body (some classify) s h =
    let selection = auto_select classify body.prompt (runtime_ready_snapshot now h s) in
    serve_selected c net now body.stream selection.specialist_id selection.node_id s h

unfoldable pub serve_checked :
    Settings
    → Network
    → ℕ
    → Checked
    → RegistrySnapshot
    → RouterRuntimeHealth
    → ChatResponse × RouterRuntimeHealth
unfolding serve serve_auto
serve_checked c net now (rejected code) s h = (http_error code, h)
serve_checked c net now (accepted body model) s h =
    if model == "auto"
    then serve_auto c net now body c.classify s h
    else serve c net now body.stream model none s h

unfoldable pub chat_completions :
    Settings
    → Network
    → ℕ
    → ChatRequest
    → RegistrySnapshot
    → RouterRuntimeHealth
    → ChatResponse × RouterRuntimeHealth
unfolding serve_checked check_request
chat_completions c net now request s h =
    serve_checked c net now (check_request c.max_request_bytes request) s h
