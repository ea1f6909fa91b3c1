-- ===== src/Router/Calls.antt =====
-- The fallback loop of mesh/router_app.py as calls of the methods of mesh/runtime_health.py.
use slancha_mesh.Common.{
  if◌then◌else◌, ℕ, ◌+◌, String, Bool, true, false, ◌≡◌, refl, ap, ◌∙◌, List, [], ◌∷◌, ◌++◌, inl,
  inr, Bool-cases, leb, ltb, ◌&&◌, not,
}
use slancha_mesh.Common.Int.{pos}
use slancha_mesh.Models.{NodeBinding}
use slancha_mesh.RuntimeHealth.{
  RouterRuntimeHealth, binding_key, is_routable, record_success, record_failure,
  record_client_error,
}
use slancha_mesh.RuntimeHealth.Trace.{Call, routable, success, failure, client_error, apply, run}
use slancha_mesh.Router.Bindings.{is_retriable_status}
use slancha_mesh.Router.Attempts.{
  Upstream, raises, replies, Network, Tried, after_call, try_bindings, settle, settle_stream,
  http_class,
}
use slancha_mesh.Router.Chat.{finish_for}
use slancha_mesh.Router.Settled.{if_routable-cases}

-- Calls of the methods lead from one state to the other.
unfoldable pub IsRun : RouterRuntimeHealth → RouterRuntimeHealth → Type 0
IsRun h g = (calls : List (ℕ × Call)) × (run calls h ≡ g)

run-append :
    (calls more : List (ℕ × Call)) (h : RouterRuntimeHealth)
    → run (calls ++ more) h ≡ run more (run calls h)
unfolding run
run-append [] more h = refl
run-append ((now, c) ∷ calls) more h = run-append calls more (apply c now h)

pub IsRun-none : (h : RouterRuntimeHealth) → IsRun h h
unfolding IsRun run
IsRun-none h = ([], refl)

pub IsRun-one : (c : Call) (now : ℕ) (h : RouterRuntimeHealth) → IsRun h (apply c now h)
unfolding IsRun run
IsRun-one c now h = ((now, c) ∷ [], refl)

pub IsRun-trans : (h g f : RouterRuntimeHealth) → IsRun h g → IsRun g f → IsRun h f
unfolding IsRun
IsRun-trans h g f (calls, e) (more, d) =
    (calls ++ more, run-append calls more h ∙ ap (run more) e ∙ d)

module _ (net : Network) (idx : ℕ) (key : String) (code : ℕ) (h : RouterRuntimeHealth) where
  failed-IsRun :
      (failure_class : String) → IsRun h (record_failure key failure_class (net.recorded_at idx) h)
  unfolding apply
  failed-IsRun failure_class = IsRun-one (failure key failure_class) (net.recorded_at idx) h

  succeeded-IsRun : IsRun h (record_success key (pos (net.latency_ms idx)) (net.recorded_at idx) h)
  unfolding apply
  succeeded-IsRun = IsRun-one (success key (pos (net.latency_ms idx))) (net.recorded_at idx) h

  pub client_error-IsRun : IsRun h (record_client_error h)
  unfolding apply
  client_error-IsRun = IsRun-one client_error 0 h

  settle-IsRun : IsRun h (settle net idx key code h)
  unfolding settle
  settle-IsRun = elim (Bool-cases (leb 500 code)) [
    | inl e ↦ rw e (failed-IsRun (http_class code))
    | inr e ↦ elim (Bool-cases (leb 400 code)) [
      | inl f ↦ rw (e, f) client_error-IsRun
      | inr f ↦ rw (e, f) succeeded-IsRun
    ]
  ]

  opened-IsRun : IsRun h (
      if leb 500 code
      then record_failure key (http_class code) (net.recorded_at idx) h
      else if leb 400 code
      then record_client_error h
      else h)
  opened-IsRun = elim (Bool-cases (leb 500 code)) [
    | inl e ↦ rw e (failed-IsRun (http_class code))
    | inr e ↦ elim (Bool-cases (leb 400 code)) [
      | inl f ↦ rw (e, f) client_error-IsRun
      | inr f ↦ rw (e, f) (IsRun-none h)
    ]
  ]

settle_stream-IsRun :
    (net : Network) (idx : ℕ) (key : String) (code : ℕ) (h : RouterRuntimeHealth)
    → IsRun h (settle_stream net idx key code h)
unfolding settle_stream
settle_stream-IsRun net idx key code h =
    let opened : RouterRuntimeHealth =
      if leb 500 code
      then record_failure key (http_class code) (net.recorded_at idx) h
      else if leb 400 code
      then record_client_error h
      else h in
    let first = opened-IsRun net idx key code h in
    elim (Bool-cases (net.completes idx && ltb code 400)) [
      | inl e ↦ rw e (IsRun-trans h opened _ first (succeeded-IsRun net idx key code opened))
      | inr e ↦ elim (Bool-cases (not (net.completes idx))) [
        | inl f ↦
            rw (e, f)
              (IsRun-trans h opened _ first
                (failed-IsRun net idx key code opened "stream_interrupted"))
        | inr f ↦ rw (e, f) first
      ]
    ]

finish_for-IsRun :
    (net : Network) (stream : Bool) (idx : ℕ) (key : String) (code : ℕ) (h : RouterRuntimeHealth)
    → IsRun h (finish_for net stream idx key code h)
finish_for-IsRun net true idx key code h = settle_stream-IsRun net idx key code h
finish_for-IsRun net false idx key code h = settle-IsRun net idx key code h

module _ (net : Network) (stream : Bool) (specialist_id model : String) where
  after_call-IsRun :
      (reply : Upstream) (idx attempts : ℕ) (b : NodeBinding)
      (next : RouterRuntimeHealth → Tried × RouterRuntimeHealth)
      → ((g : RouterRuntimeHealth) → IsRun g (next g).1)
      → (h : RouterRuntimeHealth)
      → IsRun h
          (after_call net (finish_for net stream) specialist_id model reply idx attempts b next h).1
  unfolding after_call
  after_call-IsRun (raises c) idx attempts b next later h =
      let key = binding_key specialist_id b.node_id in
      IsRun-trans h (record_failure key c (net.recorded_at idx) h) _
        (failed-IsRun net idx key 0 h c) (later _)
  after_call-IsRun (replies code) idx attempts b next later h =
      let key = binding_key specialist_id b.node_id in
      elim (Bool-cases (is_retriable_status code)) [
        | inl e ↦ rw e (
            IsRun-trans h (record_failure key (http_class code) (net.recorded_at idx) h) _
              (failed-IsRun net idx key code h (http_class code)) (later _))
        | inr e ↦ rw e (finish_for-IsRun net stream idx key code h)
      ]

  pub try_bindings-IsRun :
      (idx attempts : ℕ) (bs : List NodeBinding) (h : RouterRuntimeHealth)
      → IsRun h (try_bindings net (finish_for net stream) specialist_id model idx attempts bs h).1
  unfolding try_bindings apply
  try_bindings-IsRun idx attempts [] h = IsRun-none h
  try_bindings-IsRun idx attempts (b ∷ rest) h =
      let key = binding_key specialist_id b.node_id in
      let asked = is_routable key (net.asked_at idx) h in
      let first : IsRun h asked.1 = IsRun-one (routable key) (net.asked_at idx) h in
      let go = try_bindings net (finish_for net stream) specialist_id model in
      let called = λ (g : RouterRuntimeHealth).
        after_call net (finish_for net stream) specialist_id model (net.call idx b model) idx
          (attempts + 1) b (go (idx + 1) (attempts + 1) rest) g in
      if_routable-cases (λ r. IsRun h r.1) asked (go (idx + 1) attempts rest) called
        (IsRun-trans h asked.1 _ first (try_bindings-IsRun (idx + 1) attempts rest asked.1))
        (IsRun-trans h asked.1 (called asked.1).1 first (
          after_call-IsRun (net.call idx b model) idx (attempts + 1) b
            (go (idx + 1) (attempts + 1) rest) (try_bindings-IsRun (idx + 1) (attempts + 1) rest)
            asked.1))
