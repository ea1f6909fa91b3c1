-- ===== src/RuntimeHealth/Report.antt =====
-- The `snapshot` of mesh/runtime_health.py: what it reports of the calls and the bindings.
use slancha_mesh.Common.{
  ℕ, suc, ◌+◌, String, ◌≡◌, refl, ◌∙◌, true, false, Bool, Option, none, some, List, [], ◌∷◌, arith,
  if◌then◌else◌, ◌==◌, Bool-cases, inl, inr,
}
use slancha_mesh.Common.Dict.{Assoc, lookup}
use slancha_mesh.RuntimeHealth.{
  Circuit, closed, opened, half_open, BindingState, RouterRuntimeHealth, is_closed, touch_or_new,
  probe, cooled_down, is_routable, record_success, record_failure, record_client_error, record_punt,
  state_for,
}
use slancha_mesh.RuntimeHealth.Trace.{
  Call, routable, success, failure, client_error, punt, apply, run,
}

pub record BindingReport : Type 0 where
  pub state : Circuit
  pub consecutive_failures : ℕ
  pub last_success_at : Option ℕ
  pub last_latency_ms : Option ℕ
  pub last_failure_class : String

pub record HealthSnapshot : Type 0 where
  pub open_circuits : ℕ
  pub requests_succeeded : ℕ
  pub requests_failed : ℕ
  pub client_errors : ℕ
  pub punts : ℕ
  pub bindings : Assoc BindingReport

abbrev pub report : BindingState → BindingReport
report s = record {
  state = s.state;
  consecutive_failures = s.consecutive_failures;
  last_success_at = s.last_success_at;
  last_latency_ms = s.last_latency_ms;
  last_failure_class = s.last_failure_class;
}

unfoldable pub reports : Assoc BindingState → Assoc BindingReport
reports [] = []
reports ((k, s) ∷ m) = (k, report s) ∷ reports m

unfoldable pub count_open : Assoc BindingState → ℕ
count_open [] = 0
count_open ((k, s) ∷ m) = if is_closed s.state then count_open m else suc (count_open m)

unfoldable pub snapshot : RouterRuntimeHealth → HealthSnapshot
unfolding reports count_open
snapshot h = record {
  open_circuits = count_open h.bindings;
  requests_succeeded = h.requests_succeeded;
  requests_failed = h.requests_failed;
  client_errors = h.client_errors;
  punts = h.punts;
  bindings = reports h.bindings;
}

-- How often a kind of call stands in a run.
unfoldable pub tally : (Call → Bool) → List (ℕ × Call) → ℕ
tally p [] = 0
tally p ((now, c) ∷ calls) = let more = tally p calls in if p c then suc more else more

abbrev pub is_success : Call → Bool
is_success (success _ _) = true
is_success _ = false

abbrev pub is_failure : Call → Bool
is_failure (failure _ _) = true
is_failure _ = false

abbrev pub is_client_error : Call → Bool
is_client_error client_error = true
is_client_error _ = false

abbrev pub is_punt : Call → Bool
is_punt punt = true
is_punt _ = false

abbrev SameCounts : RouterRuntimeHealth → RouterRuntimeHealth → Type 0
SameCounts h g =
    (h.requests_succeeded ≡ g.requests_succeeded)
    × (h.requests_failed ≡ g.requests_failed)
    × (h.client_errors ≡ g.client_errors)
    × (h.punts ≡ g.punts)

touch_or_new-SameCounts :
    (o : Option BindingState) (key : String) (now : ℕ) (h : RouterRuntimeHealth)
    → SameCounts (touch_or_new o key now h).1 h
unfolding touch_or_new
touch_or_new-SameCounts none key now h = (refl, refl, refl, refl)
touch_or_new-SameCounts (some s) key now h = (refl, refl, refl, refl)

probe-SameCounts :
    (c : Circuit) (key : String) (now : ℕ) (s : BindingState) (h : RouterRuntimeHealth)
    → SameCounts (probe c key now s h).1 h
unfolding probe
probe-SameCounts closed key now s h = (refl, refl, refl, refl)
probe-SameCounts half_open key now s h = (refl, refl, refl, refl)
probe-SameCounts opened key now s h = elim (Bool-cases (cooled_down h now s.opened_at)) [
  | inl t ↦ rw t (refl, refl, refl, refl)
  | inr t ↦ rw t (refl, refl, refl, refl)
]

-- The counts after a call.
abbrev Counted : List (ℕ × Call) → RouterRuntimeHealth → RouterRuntimeHealth → Type 0
Counted calls h g =
    (g.requests_succeeded ≡ h.requests_succeeded + tally is_success calls)
    × (g.requests_failed ≡ h.requests_failed + tally is_failure calls)
    × (g.client_errors ≡ h.client_errors + tally is_client_error calls)
    × (g.punts ≡ h.punts + tally is_punt calls)

pub apply-Counted :
    (now : ℕ) (c : Call) (h : RouterRuntimeHealth) → Counted ((now, c) ∷ []) h (apply c now h)
unfolding apply is_routable record_success record_failure record_client_error record_punt tally
apply-Counted now (routable key) h =
    let t = touch_or_new-SameCounts (lookup key h.bindings) key now h in
    let (s, h') = state_for key now h in
    let p = probe-SameCounts s.state key now s h' in
    (
      omega (arith, p.0 ∙ t.0),
      omega (arith, p.1 ∙ t.1),
      omega (arith, p.2 ∙ t.2),
      omega (arith, p.3 ∙ t.3),
    )
apply-Counted now (success key latency_ms) h =
    let t = touch_or_new-SameCounts (lookup key h.bindings) key now h in
    (omega (arith, t.0), omega (arith, t.1), omega (arith, t.2), omega (arith, t.3))
apply-Counted now (failure key failure_class) h =
    let t = touch_or_new-SameCounts (lookup key h.bindings) key now h in
    (omega (arith, t.0), omega (arith, t.1), omega (arith, t.2), omega (arith, t.3))
apply-Counted now client_error h = (omega arith, omega arith, omega arith, omega arith)
apply-Counted now punt h = (omega arith, omega arith, omega arith, omega arith)

tally-cons :
    (p : Call → Bool) (now : ℕ) (c : Call) (calls : List (ℕ × Call))
    → tally p ((now, c) ∷ calls) ≡ tally p ((now, c) ∷ []) + tally p calls
unfolding tally
tally-cons p now c calls = ground arith

run-Counted : (calls : List (ℕ × Call)) (h : RouterRuntimeHealth) → Counted calls h (run calls h)
unfolding run tally
run-Counted [] h = (omega arith, omega arith, omega arith, omega arith)
run-Counted ((now, c) ∷ calls) h =
    let a = apply-Counted now c h in
    let r = run-Counted calls (apply c now h) in
    (
      omega (arith, a.0, r.0, tally-cons is_success now c calls),
      omega (arith, a.1, r.1, tally-cons is_failure now c calls),
      omega (arith, a.2, r.2, tally-cons is_client_error now c calls),
      omega (arith, a.3, r.3, tally-cons is_punt now c calls),
    )

abbrev pub reported : Option BindingState → Option BindingReport
reported none = none
reported (some s) = some (report s)

reports-lookup :
    (key : String) (m : Assoc BindingState) → lookup key (reports m) ≡ reported (lookup key m)
unfolding reports lookup
reports-lookup key [] = refl
reports-lookup key ((k, s) ∷ m) = elim (Bool-cases (k == key)) [
  | inl e ↦ rw e refl
  | inr e ↦ rw e (reports-lookup key m)
]

-- After any run, the snapshot's counts have grown by the numbers of the calls of each kind, however
-- often bindings were evicted, and it reports the binding of each key that is tracked and of no
-- other.
pub snapshot_counts_calls :
    (calls : List (ℕ × Call)) (h : RouterRuntimeHealth) (key : String)
    → ((snapshot (run calls h)).requests_succeeded ≡ h.requests_succeeded + tally is_success calls)
      × ((snapshot (run calls h)).requests_failed ≡ h.requests_failed + tally is_failure calls)
      × ((snapshot (run calls h)).client_errors ≡ h.client_errors + tally is_client_error calls)
      × ((snapshot (run calls h)).punts ≡ h.punts + tally is_punt calls)
      × (lookup key (snapshot (run calls h)).bindings
          ≡ reported (lookup key (run calls h).bindings))
unfolding snapshot
snapshot_counts_calls calls h key =
    let r = run-Counted calls h in (r.0, r.1, r.2, r.3, reports-lookup key (run calls h).bindings)
