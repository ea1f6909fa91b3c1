-- ===== src/RuntimeHealth/Samples.antt =====
-- Small runs of the circuit breakers, and the theorems at them.
use slancha_mesh.Common.{
  ◌+◌, ℕ, String, ◌≡◌, ◌≢◌, refl, false, some, none, List, [], ◌∷◌, arith, eq_iff,
}
use slancha_mesh.Common.Int.{pos}
use slancha_mesh.Common.Dict.{lookup, insert}
use slancha_mesh.RuntimeHealth.{
  closed, half_open, BindingState, RouterRuntimeHealth, binding_key, is_routable, record_success,
  record_failure, prefix_chars,
}
use slancha_mesh.RuntimeHealth.Bounds.{IsValid}
use slancha_mesh.RuntimeHealth.Report.{
  snapshot, tally, is_success, is_failure, is_client_error, is_punt, reported,
  snapshot_counts_calls,
}
use slancha_mesh.RuntimeHealth.Trace.{Call, routable, failure, client_error, run}
use slancha_mesh.RuntimeHealth.Refinement.{ask, fail, view, shut, methods-refine}
use slancha_mesh.RuntimeHealth.Isolation.{Spares, methods-Spares}
use slancha_mesh.RuntimeHealth.Probe.{half_open_stays}

-- Two failures open a circuit, and after a cooldown of 30 it lets one probe through.
abbrev start : RouterRuntimeHealth
start = record {
  failure_threshold = 2;
  cooldown_s = 30;
  max_bindings = 2;
  bindings = [];
  requests_succeeded = 0;
  requests_failed = 0;
  client_errors = 0;
  punts = 0;
}

abbrev calls : List (ℕ × Call)
calls = (100, failure "a" "timeout") ∷ (101, failure "a" "timeout") ∷ (140, routable "a") ∷ []

abbrev tripped_state : BindingState
tripped_state = record {
  state = half_open;
  consecutive_failures = 2;
  opened_at = some 101;
  last_touched = 140;
  last_success_at = none;
  last_latency_ms = none;
  last_failure_class = "timeout";
}

abbrev probing : RouterRuntimeHealth
probing = record start { bindings = ("a", tripped_state) ∷ []; requests_failed = 2 }

run-calls : run calls start ≡ probing
unfolding run is_routable record_failure prefix_chars lookup insert
run-calls = refl

probing-IsValid : IsValid probing
unfolding lookup
probing-IsValid = record {
  threshold_pos = omega arith;
  cooldown_pos = omega arith;
  max_pos = omega arith;
  bounded = omega arith;
  distinct = (refl, tt);
  coherent = ((refl, omega arith), tt);
}

methods-refine_example :
    (((is_routable "a" 150 probing).0, view (lookup "a" (is_routable "a" 150 probing).1.bindings))
      ≡ ask 30 150 (view (lookup "a" probing.bindings)))
    × (view (lookup "a" (record_failure "a" "http_503" 150 probing).bindings)
        ≡ fail 2 150 (view (lookup "a" probing.bindings)))
    × (view (lookup "a" (record_success "a" (pos 7) 150 probing).bindings) ≡ shut 0)
methods-refine_example = methods-refine "a" "http_503" (pos 7) 150 probing probing-IsValid

b_ne_a : ◌≢◌ {A = String} "b" "a"
b_ne_a = ground (arith, eq_iff "b" "a")

methods-Spares_example :
    Spares "b" "a" probing (is_routable "b" 150 probing).1
    × Spares "b" "a" probing (record_failure "b" "timeout" 150 probing)
    × Spares "b" "a" probing (record_success "b" (pos 7) 150 probing)
methods-Spares_example = methods-Spares "b" "a" "timeout" (pos 7) 150 probing b_ne_a

abbrev later_calls : List (ℕ × Call)
later_calls = (150, client_error) ∷ (160, routable "a") ∷ []

half_open_stays_example : (is_routable "a" 1000000 (run later_calls probing)).0 ≡ false
unfolding lookup
half_open_stays_example =
    half_open_stays "a" later_calls probing 1000000 (tripped_state, refl, refl) (tt, (refl, tt))

abbrev closed_state : BindingState
closed_state = record tripped_state { state = closed; opened_at = none; last_touched = 150 }

binding_key_sample : binding_key "code" "spark:11434" ≡ "code@spark:11434"
unfolding binding_key
binding_key_sample = refl

snapshot_counts_calls_example :
    ((snapshot (run calls start)).requests_succeeded ≡ 0 + tally is_success calls)
    × ((snapshot (run calls start)).requests_failed ≡ 0 + tally is_failure calls)
    × ((snapshot (run calls start)).client_errors ≡ 0 + tally is_client_error calls)
    × ((snapshot (run calls start)).punts ≡ 0 + tally is_punt calls)
    × (lookup "a" (snapshot (run calls start)).bindings
        ≡ reported (lookup "a" (run calls start).bindings))
snapshot_counts_calls_example = snapshot_counts_calls calls start "a"
