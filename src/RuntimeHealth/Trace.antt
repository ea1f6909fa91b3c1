-- ===== src/RuntimeHealth/Trace.antt =====
-- Sequences of calls of the methods of mesh/runtime_health.py, each with the time of its clock read.
-- The lock makes every concurrent run one such sequence.
use slancha_mesh.Common.{
  ℕ, ◌+◌, ◌≤◌, String, ◌≡◌, refl, true, false, Option, none, some, List, [], ◌∷◌, arith, Bool-cases,
  inl, inr, subst, sym, length, leb, leb→gt, leb→le, ◌∙◌, ◌||◌, ap,
}
use slancha_mesh.Common.Int.{ℤ}
use slancha_mesh.Common.Dict.{lookup, IsDistinct, AllValues}
use slancha_mesh.RuntimeHealth.{
  Circuit, closed, opened, half_open, BindingState, RouterRuntimeHealth, state_for, is_routable,
  record_success, record_failure, record_client_error, record_punt, failed, succeeded, touch_or_new,
  cooled_down, probe, is_half_open, init, initialised,
}
use slancha_mesh.RuntimeHealth.Bounds.{
  Coherent, IsCoherent, IsValid, state_for-Held, store-IsValid, probe-IsValid,
}

pub data Call : Type 0 where
  routable : String → Call
  success : String → ℤ → Call
  failure : String → String → Call
  client_error punt : Call

-- The state after a call at a time.
unfoldable pub apply : Call → ℕ → RouterRuntimeHealth → RouterRuntimeHealth
apply (routable key) now h = (is_routable key now h).1
apply (success key latency_ms) now h = record_success key latency_ms now h
apply (failure key failure_class) now h = record_failure key failure_class now h
apply client_error now h = record_client_error h
apply punt now h = record_punt h

unfoldable pub run : List (ℕ × Call) → RouterRuntimeHealth → RouterRuntimeHealth
unfolding apply
run [] h = h
run ((now, call) ∷ rest) h = run rest (apply call now h)

one_more_failure :
    (c : Circuit) (n threshold : ℕ) (at : Option ℕ)
    → Coherent threshold c n at
    → is_half_open c || leb threshold (n + 1) ≡ false
    → Coherent threshold c (n + 1) at
one_more_failure closed n threshold at h t = (leb→gt threshold (n + 1) t, h.1)
one_more_failure opened n threshold at h t = (h.0, omega (arith, h.1))
one_more_failure half_open n threshold at h t = cc

enough :
    (c : Circuit) (n threshold : ℕ) (at : Option ℕ)
    → Coherent threshold c n at
    → is_half_open c || leb threshold (n + 1) ≡ true
    → threshold ≤ n + 1
enough closed n threshold at h t = leb→le threshold (n + 1) t
enough opened n threshold at h t = leb→le threshold (n + 1) t
enough half_open n threshold at h t = omega (arith, h.1)

failed-IsCoherent :
    (threshold now : ℕ) (failure_class : String) (s : BindingState)
    → IsCoherent threshold s
    → IsCoherent threshold (failed threshold failure_class now s)
failed-IsCoherent threshold now failure_class s c =
    elim (Bool-cases (is_half_open s.state || leb threshold (s.consecutive_failures + 1))) [
      | inl t ↦ rw t (refl, enough s.state s.consecutive_failures threshold s.opened_at c t)
      | inr t ↦ rw t (one_more_failure s.state s.consecutive_failures threshold s.opened_at c t)
    ]

is_routable-IsValid :
    (key : String) (now : ℕ) (h : RouterRuntimeHealth)
    → IsValid h
    → IsValid (is_routable key now h).1
unfolding is_routable
is_routable-IsValid key now h v =
    let held = state_for-Held key now h v in
    let (s, h') = state_for key now h in
    probe-IsValid s.state key now s h' refl held.valid held.found
      (subst (λ t. IsCoherent t s) (sym held.same_threshold) held.coherent)

record_success-IsValid :
    (key : String) (latency_ms : ℤ) (now : ℕ) (h : RouterRuntimeHealth)
    → IsValid h
    → IsValid (record_success key latency_ms now h)
unfolding record_success
record_success-IsValid key latency_ms now h v =
    let held = state_for-Held key now h v in
    let (s, h') = state_for key now h in
    let stored =
      store-IsValid key (succeeded latency_ms now s) s held.valid held.found
        (held.valid.threshold_pos, refl) in
    record {
      threshold_pos = stored.threshold_pos;
      cooldown_pos = stored.cooldown_pos;
      max_pos = stored.max_pos;
      bounded = stored.bounded;
      distinct = stored.distinct;
      coherent = stored.coherent;
    }

record_failure-IsValid :
    (key failure_class : String) (now : ℕ) (h : RouterRuntimeHealth)
    → IsValid h
    → IsValid (record_failure key failure_class now h)
unfolding record_failure
record_failure-IsValid key failure_class now h v =
    let held = state_for-Held key now h v in
    let (s, h') = state_for key now h in
    let c =
      failed-IsCoherent h'.failure_threshold now failure_class s
        (subst (λ t. IsCoherent t s) (sym held.same_threshold) held.coherent) in
    let stored =
      store-IsValid key (failed h'.failure_threshold failure_class now s) s held.valid held.found
        c in
    record {
      threshold_pos = stored.threshold_pos;
      cooldown_pos = stored.cooldown_pos;
      max_pos = stored.max_pos;
      bounded = stored.bounded;
      distinct = stored.distinct;
      coherent = stored.coherent;
    }

pub apply-IsValid :
    (c : Call) (now : ℕ) (h : RouterRuntimeHealth) → IsValid h → IsValid (apply c now h)
unfolding apply record_client_error record_punt
apply-IsValid (routable key) now h v = is_routable-IsValid key now h v
apply-IsValid (success key latency_ms) now h v = record_success-IsValid key latency_ms now h v
apply-IsValid (failure key failure_class) now h v = record_failure-IsValid key failure_class now h v
apply-IsValid client_error now h v = record {
  threshold_pos = v.threshold_pos;
  cooldown_pos = v.cooldown_pos;
  max_pos = v.max_pos;
  bounded = v.bounded;
  distinct = v.distinct;
  coherent = v.coherent;
}
apply-IsValid punt now h v = record {
  threshold_pos = v.threshold_pos;
  cooldown_pos = v.cooldown_pos;
  max_pos = v.max_pos;
  bounded = v.bounded;
  distinct = v.distinct;
  coherent = v.coherent;
}

pub run-IsValid :
    (calls : List (ℕ × Call)) (h : RouterRuntimeHealth) → IsValid h → IsValid (run calls h)
unfolding run
run-IsValid [] h v = v
run-IsValid ((now, c) ∷ rest) h v = run-IsValid rest (apply c now h) (apply-IsValid c now h v)

abbrev fresh : ℕ → ℕ → ℕ → RouterRuntimeHealth
fresh failure_threshold cooldown_s max_bindings = record {
  failure_threshold = failure_threshold;
  cooldown_s = cooldown_s;
  max_bindings = max_bindings;
  bindings = [];
  requests_succeeded = 0;
  requests_failed = 0;
  client_errors = 0;
  punts = 0;
}

init_cases :
    (a c m : ℕ) (h : RouterRuntimeHealth)
    → init a c m ≡ initialised h
    → (1 ≤ a) × (1 ≤ c) × (1 ≤ m) × (h ≡ fresh a c m)
unfolding init
init_cases a c m h e = ground arith

fresh-IsValid : (a c m : ℕ) → 1 ≤ a → 1 ≤ c → 1 ≤ m → IsValid (fresh a c m)
fresh-IsValid a c m ha hc hm = record {
  threshold_pos = ha;
  cooldown_pos = hc;
  max_pos = hm;
  bounded = omega arith;
  distinct = tt;
  coherent = tt;
}

-- The parameters that `__init__` sets and no method changes.
abbrev pub SameConfig : RouterRuntimeHealth → RouterRuntimeHealth → Type 0
SameConfig h g =
    (h.failure_threshold ≡ g.failure_threshold)
    × (h.cooldown_s ≡ g.cooldown_s)
    × (h.max_bindings ≡ g.max_bindings)

pub touch_or_new-SameConfig :
    (o : Option BindingState) (key : String) (now : ℕ) (h : RouterRuntimeHealth)
    → SameConfig (touch_or_new o key now h).1 h
unfolding touch_or_new
touch_or_new-SameConfig none key now h = (refl, refl, refl)
touch_or_new-SameConfig (some s) key now h = (refl, refl, refl)

probe-SameConfig :
    (c : Circuit) (key : String) (now : ℕ) (s : BindingState) (h : RouterRuntimeHealth)
    → SameConfig (probe c key now s h).1 h
unfolding probe
probe-SameConfig closed key now s h = (refl, refl, refl)
probe-SameConfig half_open key now s h = (refl, refl, refl)
probe-SameConfig opened key now s h = elim (Bool-cases (cooled_down h now s.opened_at)) [
  | inl t ↦ rw t (refl, refl, refl)
  | inr t ↦ rw t (refl, refl, refl)
]

pub apply-SameConfig : (c : Call) (now : ℕ) (h : RouterRuntimeHealth) → SameConfig (apply c now h) h
unfolding apply is_routable record_success record_failure record_client_error record_punt
apply-SameConfig (routable key) now h =
    let t = touch_or_new-SameConfig (lookup key h.bindings) key now h in
    let (s, h') = state_for key now h in
    let p = probe-SameConfig s.state key now s h' in (p.0 ∙ t.0, p.1 ∙ t.1, p.2 ∙ t.2)
apply-SameConfig (success key latency_ms) now h =
    touch_or_new-SameConfig (lookup key h.bindings) key now h
apply-SameConfig (failure key failure_class) now h =
    touch_or_new-SameConfig (lookup key h.bindings) key now h
apply-SameConfig client_error now h = (refl, refl, refl)
apply-SameConfig punt now h = (refl, refl, refl)

run-SameConfig : (calls : List (ℕ × Call)) (h : RouterRuntimeHealth) → SameConfig (run calls h) h
unfolding run
run-SameConfig [] h = (refl, refl, refl)
run-SameConfig ((now, c) ∷ rest) h =
    let r = run-SameConfig rest (apply c now h) in
    let a = apply-SameConfig c now h in (r.0 ∙ a.0, r.1 ∙ a.1, r.2 ∙ a.2)

-- After `__init__` has accepted its parameters and any calls have been made at any times, no more
-- than `max_bindings` keys are tracked, no key twice, and in every binding a closed circuit is below
-- the failure threshold and has no opening time, and an open or half-open one has an opening time and has
-- reached the threshold.
pub run-bounded :
    (failure_threshold cooldown_s max_bindings : ℕ) (h : RouterRuntimeHealth)
    (calls : List (ℕ × Call))
    → init failure_threshold cooldown_s max_bindings ≡ initialised h
    → (length (run calls h).bindings ≤ max_bindings)
      × IsDistinct (run calls h).bindings
      × AllValues (IsCoherent failure_threshold) (run calls h).bindings
run-bounded failure_threshold cooldown_s max_bindings h calls e =
    let (ha, hc, hm, eh) = init_cases failure_threshold cooldown_s max_bindings h e in
    let valid : IsValid h =
      subst IsValid (sym eh) (fresh-IsValid failure_threshold cooldown_s max_bindings ha hc hm) in
    let v = run-IsValid calls h valid in
    let same = run-SameConfig calls h in
    let limit : (run calls h).max_bindings ≡ max_bindings = same.2 ∙ ap (λ g. g.max_bindings) eh in
    let threshold : (run calls h).failure_threshold ≡ failure_threshold =
      same.0 ∙ ap (λ g. g.failure_threshold) eh in
    (
      subst (λ n. length (run calls h).bindings ≤ n) limit v.bounded,
      v.distinct,
      subst (λ n. AllValues (IsCoherent n) (run calls h).bindings) threshold v.coherent,
    )
