-- ===== src/Router/Served.antt =====
-- Requests to `chat_completions` of mesh/router_app.py, one after the other.
use slancha_mesh.Common.{take, ℕ, ◌≤◌, ◌≡◌, subst, List, [], ◌∷◌, take, length}
use slancha_mesh.Common.Dict.{IsDistinct, AllValues}
use slancha_mesh.Models.{RegistrySnapshot}
use slancha_mesh.RuntimeHealth.{RouterRuntimeHealth, init, initialised, record_punt}
use slancha_mesh.RuntimeHealth.Bounds.{IsCoherent}
use slancha_mesh.RuntimeHealth.Trace.{punt, apply, run-bounded}
use slancha_mesh.Router.Bindings.{rewrite_model}
use slancha_mesh.Router.Request.{ChatRequest, check_request}
use slancha_mesh.Router.Attempts.{Network, Tried, exhausted, answered}
use slancha_mesh.Router.Chat.{respond, Settings, chain, chat_completions}
use slancha_mesh.Router.Cases.{tried, serve_checked-cases}
use slancha_mesh.Router.Calls.{
  IsRun, IsRun-none, IsRun-one, IsRun-trans, client_error-IsRun, try_bindings-IsRun,
}

punt-IsRun : (h : RouterRuntimeHealth) → IsRun h (record_punt h)
unfolding apply
punt-IsRun h = IsRun-one punt 0 h

respond-IsRun : (h g : RouterRuntimeHealth) (t : Tried) → IsRun h g → IsRun h (respond (t, g)).1
respond-IsRun h g (exhausted n) r = IsRun-trans h g (record_punt g) r (punt-IsRun g)
respond-IsRun h g (answered b idx n code) r = r

-- A request with what surrounds it: the network, the time, and the snapshot of that moment.
pub record Arrival : Type 0 where
  pub request : ChatRequest
  pub net : Network
  pub now : ℕ
  pub snapshot : RegistrySnapshot

chat_completions-IsRun :
    (c : Settings) (a : Arrival) (h : RouterRuntimeHealth)
    → IsRun h (chat_completions c a.net a.now a.request a.snapshot h).1
unfolding chat_completions
chat_completions-IsRun c a h =
    serve_checked-cases c a.net a.now a.snapshot h (λ r. IsRun h r.1)
      (client_error-IsRun a.net 0 "" 0 h) (λ code. punt-IsRun h) (λ code. IsRun-none h)
      (check_request c.max_request_bytes a.request)
      (λ specialist_id preferred stream q.
        let end = tried c a.net a.now a.snapshot h specialist_id preferred stream in
        respond-IsRun h end.1 end.0 (
          try_bindings-IsRun a.net stream specialist_id
            (rewrite_model specialist_id specialist_id a.snapshot) 0 0
            (take c.max_fallback_attempts (chain a.now specialist_id preferred a.snapshot h)) h))

-- The runtime health after the requests.
unfoldable pub serve_all : Settings → List Arrival → RouterRuntimeHealth → RouterRuntimeHealth
unfolding chat_completions
serve_all c [] h = h
serve_all c (a ∷ later) h =
    serve_all c later (chat_completions c a.net a.now a.request a.snapshot h).1

serve_all-IsRun :
    (c : Settings) (arrivals : List Arrival) (h : RouterRuntimeHealth)
    → IsRun h (serve_all c arrivals h)
unfolding serve_all chat_completions
serve_all-IsRun c [] h = IsRun-none h
serve_all-IsRun c (a ∷ later) h =
    let g = (chat_completions c a.net a.now a.request a.snapshot h).1 in
    IsRun-trans h g _ (chat_completions-IsRun c a h) (serve_all-IsRun c later g)

-- After `__init__` has accepted its parameters and any requests have been answered, on any snapshots
-- and whatever nodes answer and streams break off: no more than `max_bindings` keys are tracked, no
-- key twice, and in every binding a closed circuit is below the failure threshold and has no
-- opening time, and an open or half-open one has an opening time and has reached the threshold.
pub requests_keep_bounds :
    (failure_threshold cooldown_s max_bindings : ℕ) (h : RouterRuntimeHealth) (c : Settings)
    (arrivals : List Arrival)
    → init failure_threshold cooldown_s max_bindings ≡ initialised h
    → (length (serve_all c arrivals h).bindings ≤ max_bindings)
      × IsDistinct (serve_all c arrivals h).bindings
      × AllValues (IsCoherent failure_threshold) (serve_all c arrivals h).bindings
unfolding IsRun
requests_keep_bounds failure_threshold cooldown_s max_bindings h c arrivals e =
    let (calls, same) = serve_all-IsRun c arrivals h in
    subst
      (λ g.
        (length g.bindings ≤ max_bindings)
        × IsDistinct g.bindings
        × AllValues (IsCoherent failure_threshold) g.bindings)
      same (run-bounded failure_threshold cooldown_s max_bindings h calls e)
