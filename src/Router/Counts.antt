-- ===== src/Router/Counts.antt =====
-- What each call of mesh/runtime_health.py adds to its counts, and the end of an answer in
-- mesh/router_app.py.
use slancha_mesh.Common.{
  ℕ, ◌+◌, String, true, false, ◌≡◌, inl, inr, arith, Bool-cases, leb, ltb, ltb→lt, ltb→ge,
}
use slancha_mesh.Common.Int.{pos}
use slancha_mesh.RuntimeHealth.{
  RouterRuntimeHealth, is_routable, record_success, record_failure, record_client_error,
  record_punt,
}
use slancha_mesh.RuntimeHealth.Trace.{routable, success, failure, apply}
use slancha_mesh.RuntimeHealth.Report.{tally, apply-Counted}
use slancha_mesh.Router.Attempts.{Network, settle, settle_stream, http_class}

-- The outcomes that the runtime health has counted, of whatever kind.
abbrev pub outcomes : RouterRuntimeHealth → ℕ
outcomes h = h.requests_succeeded + h.requests_failed + h.client_errors

-- So many more outcomes, and so many more punts.
abbrev pub Accounts : ℕ → ℕ → RouterRuntimeHealth → RouterRuntimeHealth → Type 0
Accounts n p h g = (outcomes g ≡ outcomes h + n) × (g.punts ≡ h.punts + p)

pub is_routable-Accounts :
    (key : String) (now : ℕ) (h : RouterRuntimeHealth) → Accounts 0 0 h (is_routable key now h).1
unfolding apply tally
is_routable-Accounts key now h =
    let a = apply-Counted now (routable key) h in (omega (arith, a.0, a.1, a.2), omega (arith, a.3))

record_success-Accounts :
    (key : String) (latency_ms now : ℕ) (h : RouterRuntimeHealth)
    → Accounts 1 0 h (record_success key (pos latency_ms) now h)
unfolding apply tally
record_success-Accounts key latency_ms now h =
    let a = apply-Counted now (success key (pos latency_ms)) h in
    (omega (arith, a.0, a.1, a.2), omega (arith, a.3))

pub record_failure-Accounts :
    (key failure_class : String) (now : ℕ) (h : RouterRuntimeHealth)
    → Accounts 1 0 h (record_failure key failure_class now h)
unfolding apply tally
record_failure-Accounts key failure_class now h =
    let a = apply-Counted now (failure key failure_class) h in
    (omega (arith, a.0, a.1, a.2), omega (arith, a.3))

pub record_client_error-Accounts :
    (h : RouterRuntimeHealth) → Accounts 1 0 h (record_client_error h)
unfolding record_client_error
record_client_error-Accounts h = (omega arith, omega arith)

pub record_punt-Accounts : (h : RouterRuntimeHealth) → Accounts 0 1 h (record_punt h)
unfolding record_punt
record_punt-Accounts h = (omega arith, omega arith)

module _ (net : Network) (idx : ℕ) (key : String) (code : ℕ) (h : RouterRuntimeHealth) where
  pub settle-Accounts : Accounts 1 0 h (settle net idx key code h)
  unfolding settle
  settle-Accounts = elim (Bool-cases (leb 500 code)) [
    | inl e ↦ rw e (record_failure-Accounts key (http_class code) (net.recorded_at idx) h)
    | inr e ↦ elim (Bool-cases (leb 400 code)) [
      | inl f ↦ rw (e, f) (record_client_error-Accounts h)
      | inr f ↦ rw (e, f) (record_success-Accounts key (net.latency_ms idx) (net.recorded_at idx) h)
    ]
  ]

  pub settle_stream-Accounts :
      net.completes idx ≡ true → Accounts 1 0 h (settle_stream net idx key code h)
  unfolding settle_stream
  settle_stream-Accounts c = elim (Bool-cases (ltb code 400)) [
    | inl e ↦
        let low : leb 400 code ≡ false = ground (arith, ltb→lt code 400 e) in
        let lower : leb 500 code ≡ false = ground (arith, ltb→lt code 400 e) in
        rw (c, e, low, lower)
          (record_success-Accounts key (net.latency_ms idx) (net.recorded_at idx) h)
    | inr e ↦
        let high : leb 400 code ≡ true = ground (arith, ltb→ge code 400 e) in
        elim (Bool-cases (leb 500 code)) [
          | inl f ↦
              rw (c, e, f) (record_failure-Accounts key (http_class code) (net.recorded_at idx) h)
          | inr f ↦ rw (c, e, f, high) (record_client_error-Accounts h)
        ]
  ]
