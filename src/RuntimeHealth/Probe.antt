-- ===== src/RuntimeHealth/Probe.antt =====
-- The probe of a circuit that has cooled down in mesh/runtime_health.py: one request, whose outcome
-- has to be recorded.
use mathlib.Core.Bool.{false≢true}
use slancha_mesh.Common.{
  List, [], ◌∷◌, All, All-mono, some-injective, ℕ, String, ◌≡◌, refl, true, false, Option, none,
  some, arith, Bool-cases, inl, inr, subst, sym, ◌∙◌, ap, is_some, ◌≢◌, ◌==◌, eq_iff,
}
use slancha_mesh.Common.Int.{pos}
use slancha_mesh.Common.Dict.{lookup, has, insert, Assoc, lookup-insert, lookup-insert_self}
use slancha_mesh.RuntimeHealth.{
  Circuit, closed, opened, half_open, BindingState, RouterRuntimeHealth, state_for, is_routable,
  record_success, record_failure, record_client_error, record_punt, failed, succeeded, probe,
  touch_or_new, cooled_down,
}
use slancha_mesh.RuntimeHealth.Trace.{
  Call, routable, success, failure, client_error, punt, apply, run,
}
use slancha_mesh.RuntimeHealth.Isolation.{Spares, methods-Spares}

-- The circuit of the key is half open.
abbrev pub IsProbing : String → RouterRuntimeHealth → Type 0
IsProbing key h = (s : BindingState) × (lookup key h.bindings ≡ some s) × (s.state ≡ half_open)

-- The call records no outcome for the key, and asks or records only for tracked keys.
abbrev pub IsQuiet : String → RouterRuntimeHealth → Call → Type 0
IsQuiet key h (routable j) = has j h.bindings ≡ true
IsQuiet key h (success j _) = (j ≢ key) × (has j h.bindings ≡ true)
IsQuiet key h (failure j _) = (j ≢ key) × (has j h.bindings ≡ true)
IsQuiet key h client_error = Unit
IsQuiet key h punt = Unit

-- `g` tracks what `h` tracks.
abbrev Tracks : RouterRuntimeHealth → RouterRuntimeHealth → Type 0
Tracks h g = (j : String) → has j h.bindings ≡ true → has j g.bindings ≡ true

has-insert :
    (k j : String) (s : BindingState) (m : Assoc BindingState)
    → has j m ≡ true
    → has j (insert k s m) ≡ true
has-insert k j s m h = ap (λ o. is_some o) (lookup-insert k j s m) ∙ ground (arith)

touch_or_new-Tracks :
    (o : Option BindingState) (k : String) (now : ℕ) (h : RouterRuntimeHealth)
    → lookup k h.bindings ≡ o
    → has k h.bindings ≡ true
    → Tracks h (touch_or_new o k now h).1
unfolding touch_or_new
touch_or_new-Tracks none k now h e t = absurd (false≢true (subst (λ o. is_some o ≡ true) e t))
touch_or_new-Tracks (some s) k now h e t =
    λ j. has-insert k j (record s { last_touched = now }) h.bindings

probe-Tracks :
    (c : Circuit) (k : String) (now : ℕ) (s : BindingState) (h : RouterRuntimeHealth)
    → Tracks h (probe c k now s h).1
unfolding probe
probe-Tracks closed k now s h = λ j t. t
probe-Tracks half_open k now s h = λ j t. t
probe-Tracks opened k now s h = elim (Bool-cases (cooled_down h now s.opened_at)) [
  | inl e ↦ λ j t. rw e (has-insert k j (record s { state = half_open }) h.bindings t)
  | inr e ↦ λ j t. rw e t
]

apply-Tracks :
    (c : Call) (now : ℕ) (key : String) (h : RouterRuntimeHealth)
    → IsQuiet key h c
    → Tracks h (apply c now h)
unfolding apply is_routable record_success record_failure record_client_error record_punt
apply-Tracks (routable k) now key h q = λ j t.
    let (s, h') = state_for k now h in
    probe-Tracks s.state k now s h' j (touch_or_new-Tracks (lookup k h.bindings) k now h refl q j t)
apply-Tracks (success k latency_ms) now key h q = λ j t.
    let (s, h') = state_for k now h in
    has-insert k j (succeeded latency_ms now s) h'.bindings
      (touch_or_new-Tracks (lookup k h.bindings) k now h refl q.1 j t)
apply-Tracks (failure k failure_class) now key h q = λ j t.
    let (s, h') = state_for k now h in
    has-insert k j (failed h'.failure_threshold failure_class now s) h'.bindings
      (touch_or_new-Tracks (lookup k h.bindings) k now h refl q.1 j t)
apply-Tracks client_error now key h q = λ j t. t
apply-Tracks punt now key h q = λ j t. t

IsQuiet-Tracks :
    (key : String) (h g : RouterRuntimeHealth) (c : Call)
    → Tracks h g
    → IsQuiet key h c
    → IsQuiet key g c
IsQuiet-Tracks key h g (routable j) t q = t j q
IsQuiet-Tracks key h g (success j _) t q = (q.0, t j q.1)
IsQuiet-Tracks key h g (failure j _) t q = (q.0, t j q.1)
IsQuiet-Tracks key h g client_error t q = tt
IsQuiet-Tracks key h g punt t q = tt

Spares-IsProbing :
    (k key : String) (h g : RouterRuntimeHealth)
    → Spares k key h g
    → has k h.bindings ≡ true
    → IsProbing key h
    → IsProbing key g
Spares-IsProbing k key h g (inl e) t (s, l, p) = (s, e ∙ l, p)
Spares-IsProbing k key h g (inr (_, e, _)) t p =
    absurd (false≢true (subst (λ o. is_some o ≡ true) e t))

-- The request that finds its own key half open is refused and changes no circuit.
refused :
    (o : Option BindingState) (key : String) (now : ℕ) (h : RouterRuntimeHealth)
    → lookup key h.bindings ≡ o
    → IsProbing key h
    → ((probe
          (touch_or_new o key now h).0.state
          key
          now
          (touch_or_new o key now h).0
          (touch_or_new o key now h).1).0
        ≡ false)
      × IsProbing key
          (probe
            (touch_or_new o key now h).0.state
            key
            now
            (touch_or_new o key now h).0
            (touch_or_new o key now h).1).1
unfolding touch_or_new
refused none key now h e (s, l, p) = cc
refused (some w) key now h e (s, l, p) =
    let same : w.state ≡ half_open =
      ap (λ (x : BindingState). x.state) (some-injective w s (sym e ∙ l)) ∙ p in
    let touched : BindingState = record w { state = half_open; last_touched = now } in
    rw same (unfold probe in (refl, (touched, lookup-insert_self key touched h.bindings, refl)))

apply-IsProbing :
    (c : Call) (now : ℕ) (key : String) (h : RouterRuntimeHealth)
    → IsQuiet key h c
    → IsProbing key h
    → IsProbing key (apply c now h)
unfolding apply record_client_error record_punt
apply-IsProbing (routable k) now key h q p = elim (Bool-cases (k == key)) [
  | inl e ↦
      subst (λ j. IsProbing key (is_routable j now h).1) (sym ((eq_iff k key).0 e))
        (unfold is_routable in (refused (lookup key h.bindings) key now h refl p).1)
  | inr e ↦
      Spares-IsProbing k key h (is_routable k now h).1
        (methods-Spares k key "" (pos 0) now h (ground (arith, eq_iff k key))).0 q p
]
apply-IsProbing (success k latency_ms) now key h q p =
    Spares-IsProbing k key h (record_success k latency_ms now h)
      (methods-Spares k key "" latency_ms now h q.0).2 q.1 p
apply-IsProbing (failure k failure_class) now key h q p =
    Spares-IsProbing k key h (record_failure k failure_class now h)
      (methods-Spares k key failure_class (pos 0) now h q.0).1 q.1 p
apply-IsProbing client_error now key h q p = p
apply-IsProbing punt now key h q p = p

-- Every call of the list is quiet.
abbrev pub AllQuiet : String → RouterRuntimeHealth → List (ℕ × Call) → Type 0
AllQuiet key h calls = All (λ c. IsQuiet key h c.1) calls

-- While a circuit is half open, no sequence of calls that records no outcome for its key, and that
-- asks and records only for tracked keys, lets another request through to it, at any time: there is
-- one probe at most, and a probe that ends in a client error, which `record_client_error` counts
-- without its key, leaves the key refused with no further time limit.
pub half_open_stays :
    (key : String) (calls : List (ℕ × Call)) (h : RouterRuntimeHealth) (now : ℕ)
    → IsProbing key h
    → AllQuiet key h calls
    → (is_routable key now (run calls h)).0 ≡ false
unfolding run
half_open_stays key [] h now p q =
    unfold is_routable in (refused (lookup key h.bindings) key now h refl p).0
half_open_stays key ((t, c) ∷ rest) h now p q =
    half_open_stays key rest (apply c t h) now (apply-IsProbing c t key h q.0 p) (
      All-mono (λ d. IsQuiet key h d.1) (λ d. IsQuiet key (apply c t h) d.1)
        (λ d. IsQuiet-Tracks key h (apply c t h) d.1 (apply-Tracks c t key h q.0)) rest q.1)
