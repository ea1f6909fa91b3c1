-- ===== src/Router/Accounts.antt =====
-- How `chat_completions` of mesh/router_app.py keeps the counts of mesh/runtime_health.py.
use slancha_mesh.Common.{
  ℕ, ◌+◌, String, Bool, true, false, ◌≡◌, refl, List, [], ◌∷◌, inl, inr, arith, Bool-cases, take,
}
use slancha_mesh.Models.{NodeBinding, RegistrySnapshot}
use slancha_mesh.RuntimeHealth.{
  RouterRuntimeHealth, binding_key, is_routable, record_failure, record_punt,
}
use slancha_mesh.Router.Bindings.{is_retriable_status, rewrite_model}
use slancha_mesh.Router.Request.{
  ChatResponse, http_error, unknown_specialist, punt_response, forwarded, ChatRequest,
  check_request,
}
use slancha_mesh.Router.Attempts.{
  Upstream, raises, replies, Network, Tried, exhausted, answered, after_call, try_bindings,
  http_class,
}
use slancha_mesh.Router.Chat.{respond, Settings, finish_for, chain, chat_completions}
use slancha_mesh.Router.Cases.{serve_checked-cases}
use slancha_mesh.Router.Settled.{if_routable-cases}
use slancha_mesh.Router.Counts.{
  outcomes, Accounts, is_routable-Accounts, record_failure-Accounts, record_client_error-Accounts,
  record_punt-Accounts, settle-Accounts, settle_stream-Accounts,
}

abbrev attempted : Tried → ℕ
attempted (exhausted n) = n
attempted (answered b idx n code) = n

-- Every attempt from here on is one more outcome.
abbrev Tallied : ℕ → RouterRuntimeHealth → Tried × RouterRuntimeHealth → Type 0
Tallied attempts h r =
    (outcomes r.1 + attempts ≡ outcomes h + attempted r.0) × (r.1.punts ≡ h.punts)

failed_attempt-Tallied :
    (key failure_class : String) (now attempts : ℕ) (h : RouterRuntimeHealth)
    (next : RouterRuntimeHealth → Tried × RouterRuntimeHealth)
    → ((g : RouterRuntimeHealth) → Tallied (attempts + 1) g (next g))
    → Tallied attempts h (next (record_failure key failure_class now h))
failed_attempt-Tallied key failure_class now attempts h next later =
    let a = record_failure-Accounts key failure_class now h in
    let t = later (record_failure key failure_class now h) in
    (omega (arith, a.0, t.0), omega (arith, a.1, t.1))

module _ (net : Network) (finish : ℕ → String → ℕ → RouterRuntimeHealth → RouterRuntimeHealth)
    (finish-Accounts : (idx : ℕ) (key : String) (code : ℕ) (h : RouterRuntimeHealth)
      → Accounts 1 0 h (finish idx key code h))
    (specialist_id model : String) where
  after_call-Tallied :
      (reply : Upstream) (idx attempts : ℕ) (b : NodeBinding)
      (next : RouterRuntimeHealth → Tried × RouterRuntimeHealth)
      → ((g : RouterRuntimeHealth) → Tallied (attempts + 1) g (next g))
      → (h : RouterRuntimeHealth)
      → Tallied attempts h
          (after_call net finish specialist_id model reply idx (attempts + 1) b next h)
  unfolding after_call
  after_call-Tallied (raises c) idx attempts b next later h =
      failed_attempt-Tallied (binding_key specialist_id b.node_id) c (net.recorded_at idx) attempts
        h next later
  after_call-Tallied (replies code) idx attempts b next later h =
      let key = binding_key specialist_id b.node_id in
      elim (Bool-cases (is_retriable_status code)) [
        | inl t ↦ rw t (
            failed_attempt-Tallied key (http_class code) (net.recorded_at idx) attempts h next
              later)
        | inr t ↦
            let a = finish-Accounts idx key code h in rw t (omega (arith, a.0), omega (arith, a.1))
      ]

  try_bindings-Tallied :
      (idx attempts : ℕ) (bs : List NodeBinding) (h : RouterRuntimeHealth)
      → Tallied attempts h (try_bindings net finish specialist_id model idx attempts bs h)
  unfolding try_bindings
  try_bindings-Tallied idx attempts [] h = (refl, refl)
  try_bindings-Tallied idx attempts (b ∷ rest) h =
      let key = binding_key specialist_id b.node_id in
      let asked = is_routable key (net.asked_at idx) h in
      let a = is_routable-Accounts key (net.asked_at idx) h in
      let skipped = try_bindings-Tallied (idx + 1) attempts rest asked.1 in
      let called =
        after_call-Tallied (net.call idx b model) idx attempts b
          (λ f. try_bindings net finish specialist_id model (idx + 1) (attempts + 1) rest f)
          (try_bindings-Tallied (idx + 1) (attempts + 1) rest) asked.1 in
      if_routable-cases (Tallied attempts h) asked
        (λ g. try_bindings net finish specialist_id model (idx + 1) attempts rest g)
        (λ g.
          after_call net finish specialist_id model (net.call idx b model) idx (attempts + 1) b
            (λ f. try_bindings net finish specialist_id model (idx + 1) (attempts + 1) rest f) g)
        (omega (arith, a.0, skipped.0), omega (arith, a.1, skipped.1))
        (omega (arith, a.0, called.0), omega (arith, a.1, called.1))

-- The outcomes that an answer stands for.
abbrev pub outcomes_of : ChatResponse → ℕ
outcomes_of (http_error code) = 0
outcomes_of unknown_specialist = 1
outcomes_of (punt_response code attempts) = attempts
outcomes_of (forwarded b idx attempts code) = attempts

abbrev pub punts_of : ChatResponse → ℕ
punts_of (punt_response code attempts) = 1
punts_of _ = 0

-- The counts agree with the answer.
abbrev pub Accounted : RouterRuntimeHealth → ChatResponse × RouterRuntimeHealth → Type 0
Accounted h r = Accounts (outcomes_of r.0) (punts_of r.0) h r.1

respond-Accounted :
    (h g : RouterRuntimeHealth) (t : Tried) → Tallied 0 h (t, g) → Accounted h (respond (t, g))
unfolding record_punt
respond-Accounted h g (exhausted n) t = (omega (arith, t.0), omega (arith, t.1))
respond-Accounted h g (answered b idx n code) t = (omega (arith, t.0), omega (arith, t.1))

module _ (c : Settings) (net : Network) (now : ℕ) (s : RegistrySnapshot) (h : RouterRuntimeHealth)
    (completes : (idx : ℕ) → net.completes idx ≡ true) where
  finish_for-Accounts :
      (stream : Bool) (idx : ℕ) (key : String) (code : ℕ) (g : RouterRuntimeHealth)
      → Accounts 1 0 g (finish_for net stream idx key code g)
  finish_for-Accounts true idx key code g =
      settle_stream-Accounts net idx key code g (completes idx)
  finish_for-Accounts false idx key code g = settle-Accounts net idx key code g

  -- Where no stream is interrupted, the counts of the runtime health grow by what the answer says: by
  -- one outcome for each node that was tried, by one for a specialist that is not known, and by none
  -- for a request that is refused before; the punts grow by one exactly where the answer is a punt.
  pub answers_are_counted :
      (request : ChatRequest) → Accounted h (chat_completions c net now request s h)
  unfolding chat_completions
  answers_are_counted request =
      serve_checked-cases c net now s h (Accounted h) (record_client_error-Accounts h)
        (λ code. record_punt-Accounts h) (λ code. (omega arith, omega arith))
        (check_request c.max_request_bytes request)
        (λ specialist_id preferred stream q. respond-Accounted h _ _ (
          try_bindings-Tallied net (finish_for net stream) (finish_for-Accounts stream)
            specialist_id (rewrite_model specialist_id specialist_id s) 0 0
            (take c.max_fallback_attempts (chain now specialist_id preferred s h)) h))
