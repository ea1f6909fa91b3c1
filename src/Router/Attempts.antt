-- ===== src/Router/Attempts.antt =====
-- The fallback loop of `chat_completions` and of `_proxy_stream_with_fallback` in
-- mesh/router_app.py.
use Prim.Native.String.{◌++◌}
use slancha_mesh.Common.{
  ℕ, ◌+◌, ◌/◌, String, Bool, true, false, List, [], ◌∷◌, ltb, leb, eqb, if◌then◌else◌, ◌&&◌, not,
}
use Prim.Native.Nat.{◌%◌}
use slancha_mesh.Common.Int.{pos}
use slancha_mesh.Models.{NodeBinding}
use slancha_mesh.RuntimeHealth.{
  RouterRuntimeHealth, binding_key, is_routable, record_success, record_failure,
  record_client_error,
}
use slancha_mesh.Router.Bindings.{is_retriable_status}

abbrev pub digit : ℕ → String
digit n =
    if eqb n 0
    then "0"
    else if eqb n 1
    then "1"
    else if eqb n 2
    then "2"
    else if eqb n 3
    then "3"
    else if eqb n 4
    then "4"
    else if eqb n 5
    then "5"
    else if eqb n 6
    then "6"
    else if eqb n 7
    then "7"
    else if eqb n 8
    then "8"
    else "9"

-- f"http_{code}", of a status with three digits.
unfoldable pub http_class : ℕ → String
http_class code = "http_" ++ digit (code / 100 % 10) ++ digit (code / 10 % 10) ++ digit (code % 10)

-- What a call of a node comes to before the first byte: an exception of its class, or a status.
pub data Upstream : Type 0 where
  raises : String → Upstream
  replies : ℕ → Upstream

-- What surrounds the loop, by the place in the chain: the answers of the nodes, the clock when the
-- circuit is asked and when the outcome is recorded, the latency, and whether a stream runs to its end.
pub record Network : Type 0 where
  pub call : ℕ → NodeBinding → String → Upstream
  pub asked_at : ℕ → ℕ
  pub recorded_at : ℕ → ℕ
  pub latency_ms : ℕ → ℕ
  pub completes : ℕ → Bool

-- A status that ends the chain, as a whole answer.
unfoldable pub settle : Network → ℕ → String → ℕ → RouterRuntimeHealth → RouterRuntimeHealth
unfolding http_class
settle net idx key code h =
    if leb 500 code
    then record_failure key (http_class code) (net.recorded_at idx) h
    else if leb 400 code
    then record_client_error h
    else record_success key (pos (net.latency_ms idx)) (net.recorded_at idx) h

-- The same for a stream: the error at once, and the rest when the generator ends.
unfoldable pub settle_stream : Network → ℕ → String → ℕ → RouterRuntimeHealth → RouterRuntimeHealth
unfolding http_class
settle_stream net idx key code h =
    let opened =
      if leb 500 code
      then record_failure key (http_class code) (net.recorded_at idx) h
      else if leb 400 code
      then record_client_error h
      else h in
    if net.completes idx && ltb code 400
    then record_success key (pos (net.latency_ms idx)) (net.recorded_at idx) opened
    else if not (net.completes idx)
    then record_failure key "stream_interrupted" (net.recorded_at idx) opened
    else opened

pub data Tried : Type 0 where
  exhausted : ℕ → Tried
  answered : NodeBinding → ℕ → ℕ → ℕ → Tried

-- What follows the answer of the circuit: the binding is skipped, or called.
abbrev pub if_routable :
    Bool × RouterRuntimeHealth
    → (RouterRuntimeHealth → Tried × RouterRuntimeHealth)
    → (RouterRuntimeHealth → Tried × RouterRuntimeHealth)
    → Tried × RouterRuntimeHealth
if_routable (false, h) skipped called = skipped h
if_routable (true, h) skipped called = called h

module _ (net : Network) (finish : ℕ → String → ℕ → RouterRuntimeHealth → RouterRuntimeHealth)
    (specialist_id model : String) where
  -- What follows a reply of the node.
  unfoldable pub after_call :
      Upstream
      → ℕ
      → ℕ
      → NodeBinding
      → (RouterRuntimeHealth → Tried × RouterRuntimeHealth)
      → RouterRuntimeHealth
      → Tried × RouterRuntimeHealth
  unfolding http_class
  after_call (raises failure_class) idx attempts b next h =
      next
        (record_failure (binding_key specialist_id b.node_id) failure_class (net.recorded_at idx) h)
  after_call (replies code) idx attempts b next h =
      let key = binding_key specialist_id b.node_id in
      if is_retriable_status code
      then next (record_failure key (http_class code) (net.recorded_at idx) h)
      else (answered b idx attempts code, finish idx key code h)

  -- The chain: the place of the next binding, the attempts so far, and what is left.
  unfoldable pub try_bindings :
      ℕ → ℕ → List NodeBinding → RouterRuntimeHealth → Tried × RouterRuntimeHealth
  unfolding after_call
  try_bindings idx attempts [] h = (exhausted attempts, h)
  try_bindings idx attempts (b ∷ rest) h =
      if_routable (is_routable (binding_key specialist_id b.node_id) (net.asked_at idx) h)
        (λ g. try_bindings (idx + 1) attempts rest g)
        (λ g.
          after_call (net.call idx b model) idx (attempts + 1) b
            (λ f. try_bindings (idx + 1) (attempts + 1) rest f) g)
