-- ===== src/RuntimeHealth/Refinement.antt =====
-- What one key of mesh/runtime_health.py promises: a circuit breaker of three states, whatever the
-- other keys do. The map of bindings, its timestamps and its eviction are the implementation.
use slancha_mesh.Common.{
  ℕ, ◌+◌, ◌-◌, String, ◌≡◌, refl, Bool, true, false, Option, none, some, arith, Bool-cases, inl,
  inr, subst, sym, ◌∙◌, ap, leb, if◌then◌else◌, ◌||◌, is_some, get_or,
}
use slancha_mesh.Common.Int.{ℤ}
use slancha_mesh.Common.Dict.{lookup, insert, lookup-insert_self}
use slancha_mesh.RuntimeHealth.{
  Circuit, closed, opened, half_open, BindingState, RouterRuntimeHealth, state_for, is_routable,
  record_success, record_failure, failed, succeeded, probe, is_half_open, touch_or_new, cooled_down,
  peek_routable, peek_known, peek_state,
}
use slancha_mesh.RuntimeHealth.Bounds.{Coherent, IsCoherent, IsValid, state_for-Held}
use slancha_mesh.RuntimeHealth.Trace.{SameConfig, touch_or_new-SameConfig}

-- `shut n` lets requests through after n failures in a row; `tripped t` has refused them since t;
-- `probing` waits for the outcome of its one request.
pub data Breaker : Type 0 where
  shut : ℕ → Breaker
  tripped : ℕ → Breaker
  probing : Breaker

abbrev pub breaker : Circuit → ℕ → Option ℕ → Breaker
breaker closed n at = shut n
breaker opened n at = tripped (get_or at 0)
breaker half_open n at = probing

-- An untracked key is a closed circuit with no failure.
abbrev pub view : Option BindingState → Breaker
view none = shut 0
view (some s) = breaker s.state s.consecutive_failures s.opened_at

-- `ask` is a request for the route, at a time.
abbrev pub ask : ℕ → ℕ → Breaker → Bool × Breaker
ask cooldown now (shut n) = (true, shut n)
ask cooldown now (tripped t) =
    if leb cooldown (now - t) then (true, probing) else (false, tripped t)
ask cooldown now probing = (false, probing)

abbrev pub fail : ℕ → ℕ → Breaker → Breaker
fail threshold now (shut n) = if leb threshold (n + 1) then tripped now else shut (n + 1)
fail threshold now (tripped t) = tripped now
fail threshold now probing = tripped now

touch_or_new-view :
    (o : Option BindingState) (key : String) (now : ℕ) (h : RouterRuntimeHealth)
    → view (some (touch_or_new o key now h).0) ≡ view o
unfolding touch_or_new
touch_or_new-view none key now h = refl
touch_or_new-view (some s) key now h = refl

-- A test on a time that is there.
cooled_down-some :
    (h : RouterRuntimeHealth) (now : ℕ) (at : Option ℕ)
    → is_some at ≡ true
    → cooled_down h now at ≡ leb h.cooldown_s (now - get_or at 0)
cooled_down-some h now none e = cc
cooled_down-some h now (some t) e = refl

probe-ask :
    (c : Circuit) (key : String) (now : ℕ) (s : BindingState) (h : RouterRuntimeHealth)
    → c ≡ s.state
    → lookup key h.bindings ≡ some s
    → Coherent h.failure_threshold c s.consecutive_failures s.opened_at
    → ((probe c key now s h).0, view (lookup key (probe c key now s h).1.bindings))
      ≡ ask h.cooldown_s now (breaker c s.consecutive_failures s.opened_at)
unfolding probe
probe-ask closed key now s h e l c =
    ap (λ o. (true, view o)) l
    ∙ ap (λ x. (true, breaker x s.consecutive_failures s.opened_at)) (sym e)
probe-ask half_open key now s h e l c =
    ap (λ o. (false, view o)) l
    ∙ ap (λ x. (false, breaker x s.consecutive_failures s.opened_at)) (sym e)
probe-ask opened key now s h e l c =
    elim (Bool-cases (leb h.cooldown_s (now - get_or s.opened_at 0))) [
      | inl t ↦
          rw (cooled_down-some h now s.opened_at c.0 ∙ t)
            (rw (lookup-insert_self key (record s { state = half_open }) h.bindings) (rw t refl))
      | inr t ↦ rw (cooled_down-some h now s.opened_at c.0 ∙ t) (
          rw t (
            ap (λ o. (false, view o)) l
            ∙ ap (λ x. (false, breaker x s.consecutive_failures s.opened_at)) (sym e)))
    ]

fail-failed :
    (c : Circuit) (threshold now n : ℕ) (at : Option ℕ)
    → Coherent threshold c n at
    → (if is_half_open c || leb threshold (n + 1) then tripped now else breaker c (n + 1) at)
      ≡ fail threshold now (breaker c n at)
fail-failed closed threshold now n at h = refl
fail-failed opened threshold now n at h = ground (arith, h.1)
fail-failed half_open threshold now n at h = refl

view-failed :
    (threshold now : ℕ) (failure_class : String) (s : BindingState)
    → IsCoherent threshold s
    → view (some (failed threshold failure_class now s)) ≡ fail threshold now (view (some s))
view-failed threshold now failure_class s c =
    go (is_half_open s.state || leb threshold (s.consecutive_failures + 1)) refl
    ∙ fail-failed s.state threshold now s.consecutive_failures s.opened_at c
  where
    go :
        (b : Bool)
        → is_half_open s.state || leb threshold (s.consecutive_failures + 1) ≡ b
        → view (some (failed threshold failure_class now s)) ≡ (
            if is_half_open s.state || leb threshold (s.consecutive_failures + 1)
            then tripped now
            else breaker s.state (s.consecutive_failures + 1) s.opened_at)
    go true e = rw e refl
    go false e = rw e refl

-- On a valid map, and on any key, tracked or not: `is_routable` answers and moves the key's circuit
-- as `ask` does, `record_failure` moves it as `fail` does, and `record_success` shuts it with no
-- failure counted.
pub methods-refine :
    (key failure_class : String) (latency_ms : ℤ) (now : ℕ) (h : RouterRuntimeHealth)
    → IsValid h
    → (((is_routable key now h).0, view (lookup key (is_routable key now h).1.bindings))
        ≡ ask h.cooldown_s now (view (lookup key h.bindings)))
      × (view (lookup key (record_failure key failure_class now h).bindings)
          ≡ fail h.failure_threshold now (view (lookup key h.bindings)))
      × (view (lookup key (record_success key latency_ms now h).bindings) ≡ shut 0)
unfolding is_routable record_failure record_success
methods-refine key failure_class latency_ms now h v =
    let held = state_for-Held key now h v in
    let (s, h') = state_for key now h in
    let same : SameConfig h' h = touch_or_new-SameConfig (lookup key h.bindings) key now h in
    let before : view (some s) ≡ view (lookup key h.bindings) =
      touch_or_new-view (lookup key h.bindings) key now h in
    let c : IsCoherent h'.failure_threshold s =
      subst (λ t. IsCoherent t s) (sym held.same_threshold) held.coherent in
    (
      probe-ask s.state key now s h' refl held.found c
          ∙ ap (λ n. ask n now (view (some s))) same.1
          ∙ ap (ask h.cooldown_s now) before,
      ap view (lookup-insert_self key (failed h'.failure_threshold failure_class now s) h'.bindings)
          ∙ view-failed h'.failure_threshold now failure_class s c
          ∙ ap (λ n. fail n now (view (some s))) held.same_threshold
          ∙ ap (fail h.failure_threshold now) before,
      ap view (lookup-insert_self key (succeeded latency_ms now s) h'.bindings),
    )

cooled_down-SameConfig :
    (h g : RouterRuntimeHealth) (now : ℕ) (at : Option ℕ)
    → h.cooldown_s ≡ g.cooldown_s
    → cooled_down h now at ≡ cooled_down g now at
cooled_down-SameConfig h g now none e = refl
cooled_down-SameConfig h g now (some t) e = ap (λ n. leb n (now - t)) e

peek-probe :
    (c : Circuit) (key : String) (now : ℕ) (s : BindingState) (h g : RouterRuntimeHealth)
    → h.cooldown_s ≡ g.cooldown_s
    → peek_state c now s.opened_at h ≡ (probe c key now s g).0
unfolding probe peek_state
peek-probe closed key now s h g e = refl
peek-probe half_open key now s h g e = refl
peek-probe opened key now s h g e = cooled_down-SameConfig h g now s.opened_at e ∙ ground arith

peek_known-probe :
    (o : Option BindingState) (key : String) (now : ℕ) (h : RouterRuntimeHealth)
    → peek_known o now h
      ≡ (probe
          (touch_or_new o key now h).0.state
          key
          now
          (touch_or_new o key now h).0
          (touch_or_new o key now h).1).0
unfolding peek_known touch_or_new
peek_known-probe none key now h = unfold probe in refl
peek_known-probe (some s) key now h =
    peek-probe s.state key now (record s { last_touched = now }) h
      (record h { bindings = insert key (record s { last_touched = now }) h.bindings }) refl

-- `peek_routable`, which changes nothing, gives the answer that `is_routable` would give at the same
-- time, on every key and in every state.
peek_routable-eq-is_routable :
    (key : String) (now : ℕ) (h : RouterRuntimeHealth)
    → peek_routable key now h ≡ (is_routable key now h).0
unfolding peek_routable is_routable
peek_routable-eq-is_routable key now h = peek_known-probe (lookup key h.bindings) key now h
