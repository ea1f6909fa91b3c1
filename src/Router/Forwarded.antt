-- ===== src/Router/Forwarded.antt =====
-- Which node an answer of `chat_completions` in mesh/router_app.py comes from.
use slancha_mesh.Common.{
  ℕ, ◌≤◌, ◌<◌, String, Bool, true, false, ◌≡◌, subst, Option, none, some, [], arith, get_or, take,
  length, length-take, keep, In, All, All-from, All-keep_tested, All-take, All-mono,
}
use slancha_mesh.Common.Dict.{lookup}
use slancha_mesh.Common.Sort.{All-sort_by}
use slancha_mesh.Models.{NodeBinding, RegistrySnapshot}
use slancha_mesh.RuntimeHealth.{RouterRuntimeHealth, binding_key, peek_routable}
use slancha_mesh.Router.Bindings.{
  is_reachable, reachable_bindings, ready, is_retriable_status, rewrite_model,
}
use slancha_mesh.Router.Request.{ChatResponse, punt_response, forwarded, ChatRequest, check_request}
use slancha_mesh.Router.Attempts.{replies, Network, Tried, exhausted, answered}
use slancha_mesh.Router.Chat.{
  respond, preferred_first, prefer, Settings, finish_for, chain, chat_completions,
}
use slancha_mesh.Router.Cases.{Requested, tried, serve_checked-cases}
use slancha_mesh.Router.Settled.{Settled, try_bindings-Settled}

-- A binding of the specialist in the snapshot that is reachable and whose circuit lets a request
-- through.
abbrev pub IsReady : String → ℕ → RegistrySnapshot → RouterRuntimeHealth → NodeBinding → Type 0
IsReady specialist_id now s h b =
    In b (get_or (lookup specialist_id s.specialists) [])
    × (is_reachable b ≡ true)
    × (peek_routable (binding_key specialist_id b.node_id) now h ≡ true)

module _ (specialist_id : String) (now : ℕ) (s : RegistrySnapshot) (h : RouterRuntimeHealth) where
  ready-IsReady :
      All
        (IsReady specialist_id now s h)
        (ready specialist_id now h (reachable_bindings specialist_id s))
  unfolding ready reachable_bindings
  ready-IsReady =
      let listed = get_or (lookup specialist_id s.specialists) [] in
      let Reachable = λ (b : NodeBinding). In b listed × (is_reachable b ≡ true) in
      let reachable : All Reachable (keep is_reachable listed) =
        All-keep_tested (λ b. In b listed) is_reachable listed
          (All-from (λ b. In b listed) listed (λ b i. i)) in
      All-mono
        (λ b. Reachable b × (peek_routable (binding_key specialist_id b.node_id) now h ≡ true))
        (IsReady specialist_id now s h) (λ b (a, e). (a.0, a.1, e)) _
        (All-keep_tested Reachable (λ b. peek_routable (binding_key specialist_id b.node_id) now h)
          _ reachable)

  chain-IsReady :
      (preferred : Option String)
      → All (IsReady specialist_id now s h) (chain now specialist_id preferred s h)
  unfolding chain prefer
  chain-IsReady none = ready-IsReady
  chain-IsReady (some node) =
      All-sort_by (preferred_first node) (IsReady specialist_id now s h) _ ready-IsReady

module _ (c : Settings) (net : Network) (now : ℕ) (s : RegistrySnapshot)
    (h : RouterRuntimeHealth) where
  -- The node's answer, the place of the node in the chain and the attempts are bounded.
  abbrev pub Serves : String → NodeBinding → ℕ → ℕ → ℕ → Type 0
  Serves specialist_id b idx attempts code =
      IsReady specialist_id now s h b
      × (idx < c.max_fallback_attempts)
      × (attempts ≤ c.max_fallback_attempts)
      × (net.call idx b (rewrite_model specialist_id specialist_id s) ≡ replies code)
      × (is_retriable_status code ≡ false)

  abbrev Justified : (String → Type 0) → ChatResponse → Type 0
  Justified Q (forwarded b idx attempts code) =
      (specialist_id : String) × Q specialist_id × Serves specialist_id b idx attempts code
  Justified Q (punt_response code attempts) = attempts ≤ c.max_fallback_attempts
  Justified Q _ = Unit

  respond-Justified :
      (Q : String → Type 0) (specialist_id : String) (room : ℕ) (t : Tried)
      (g : RouterRuntimeHealth)
      → Q specialist_id
      → room ≤ c.max_fallback_attempts
      → Settled net
          (rewrite_model specialist_id specialist_id s)
          (IsReady specialist_id now s h)
          0
          0
          room
          t
      → Justified Q (respond (t, g)).0
  respond-Justified Q specialist_id room (exhausted n) g q r (a, b) = omega (arith, b, r)
  respond-Justified Q specialist_id room (answered b i n code) g q r ((by, e, f), l, u, a, m) =
      (specialist_id, q, (by, omega (arith, u, r), omega (arith, m, r), e, f))

  tried-Justified :
      (Q : String → Type 0) (specialist_id : String) (preferred : Option String) (stream : Bool)
      → Q specialist_id
      → Justified Q (respond (tried c net now s h specialist_id preferred stream)).0
  tried-Justified Q specialist_id preferred stream q =
      let bindings = take c.max_fallback_attempts (chain now specialist_id preferred s h) in
      let model = rewrite_model specialist_id specialist_id s in
      respond-Justified Q specialist_id (length bindings) _ _ q
        (length-take c.max_fallback_attempts _)
        (try_bindings-Settled net model (IsReady specialist_id now s h) (finish_for net stream)
          specialist_id 0 0 bindings h
          (All-take (IsReady specialist_id now s h) c.max_fallback_attempts _
            (chain-IsReady specialist_id now s h preferred)))

  -- A request that a node has answered was sent to a binding of the snapshot under the specialist
  -- that was asked for, or that the classifier's selection chose: the binding is not unreachable,
  -- has a URL, and its circuit let requests through when the chain was made; it stands within the
  -- first `max_fallback_attempts` places, no more attempts than that were made, the status that is
  -- passed on is the node's reply to the rewritten model, and it is none of those on which the next
  -- node is tried.
  pub answers_come_from_ready_nodes :
      (request : ChatRequest) (b : NodeBinding) (idx attempts code : ℕ) (g : RouterRuntimeHealth)
      → chat_completions c net now request s h ≡ (forwarded b idx attempts code, g)
      → (specialist_id : String) × Requested c net now s h
          (check_request c.max_request_bytes request)
          specialist_id
        × Serves specialist_id b idx attempts code
  unfolding chat_completions
  answers_come_from_ready_nodes request b idx attempts code g e =
      let checked = check_request c.max_request_bytes request in
      let Good = λ (r : ChatResponse × RouterRuntimeHealth).
        Justified (Requested c net now s h checked) r.0 in
      subst Good e (
        serve_checked-cases c net now s h Good tt (λ code. omega arith) (λ code. tt) checked
          (tried-Justified (Requested c net now s h checked)))
