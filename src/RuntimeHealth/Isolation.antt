-- ===== src/RuntimeHealth/Isolation.antt =====
-- How a call on one key of mesh/runtime_health.py touches the bindings of the other keys.
use slancha_mesh.Common.{
  ℕ, ◌≤◌, String, ◌≡◌, refl, Option, none, some, arith, Bool-cases, inl, inr, ◌∙◌, leb, leb→le, ◌⊎◌,
  ◌≢◌, ◌==◌, eq_iff, length,
}
use slancha_mesh.Common.Int.{ℤ}
use slancha_mesh.Common.Dict.{lookup, insert, Assoc, lookup-insert, lookup-remove}
use slancha_mesh.RuntimeHealth.{
  Circuit, closed, opened, half_open, BindingState, RouterRuntimeHealth, state_for, is_routable,
  record_success, record_failure, failed, succeeded, probe, store, touch_or_new, cooled_down,
  make_room, evict, drop_key, victim, new_binding,
}

drop_key-lookup :
    (o : Option String) (j : String) (m : Assoc BindingState)
    → (lookup j (drop_key o m) ≡ lookup j m) ⊎ (lookup j (drop_key o m) ≡ none)
unfolding drop_key
drop_key-lookup none j m = inl refl
drop_key-lookup (some k) j m = elim (Bool-cases (k == j)) [
  | inl e ↦ inr (lookup-remove k j m ∙ rw e refl)
  | inr e ↦ inl (lookup-remove k j m ∙ rw e refl)
]

-- What a call on `key` may do to another key j.
abbrev pub Spares : String → String → RouterRuntimeHealth → RouterRuntimeHealth → Type 0
Spares key j h g =
    (lookup j g.bindings ≡ lookup j h.bindings)
    ⊎ ((lookup j g.bindings ≡ none)
        × (lookup key h.bindings ≡ none)
        × (h.max_bindings ≤ length h.bindings))

pub lookup-insert_ne :
    (k j : String) (s : BindingState) (m : Assoc BindingState)
    → k ≢ j
    → lookup j (insert k s m) ≡ lookup j m
lookup-insert_ne k j s m ne = lookup-insert k j s m ∙ ground (arith, eq_iff k j)

touch_or_new-Spares :
    (o : Option BindingState) (key j : String) (now : ℕ) (h : RouterRuntimeHealth)
    → lookup key h.bindings ≡ o
    → key ≢ j
    → Spares key j h (touch_or_new o key now h).1
unfolding touch_or_new make_room evict
touch_or_new-Spares (some s) key j now h e ne =
    inl (lookup-insert_ne key j (record s { last_touched = now }) h.bindings ne)
touch_or_new-Spares none key j now h e ne =
    elim (Bool-cases (leb h.max_bindings (length h.bindings))) [
      | inl t ↦ rw t (elim (drop_key-lookup (victim h.bindings) j h.bindings) [
        | inl same ↦ inl (lookup-insert_ne key j (new_binding now) _ ne ∙ same)
        | inr gone ↦ inr (
          lookup-insert_ne key j (new_binding now) _ ne ∙ gone,
          e,
          leb→le h.max_bindings (length h.bindings) t,
        )
      ])
      | inr t ↦ rw t (inl (lookup-insert_ne key j (new_binding now) h.bindings ne))
    ]

Spares-trans :
    (key j : String) (h g f : RouterRuntimeHealth)
    → Spares key j h g
    → lookup j f.bindings ≡ lookup j g.bindings
    → Spares key j h f
Spares-trans key j h g f (inl a) e = inl (e ∙ a)
Spares-trans key j h g f (inr (a, b, c)) e = inr (e ∙ a, b, c)

probe-other :
    (c : Circuit) (key j : String) (now : ℕ) (s : BindingState) (h : RouterRuntimeHealth)
    → key ≢ j
    → lookup j (probe c key now s h).1.bindings ≡ lookup j h.bindings
unfolding probe
probe-other closed key j now s h ne = refl
probe-other half_open key j now s h ne = refl
probe-other opened key j now s h ne = elim (Bool-cases (cooled_down h now s.opened_at)) [
  | inl t ↦ rw t (lookup-insert_ne key j (record s { state = half_open }) h.bindings ne)
  | inr t ↦ rw t refl
]

-- A call on one key leaves the binding of every other key as it was, or evicts it; it evicts only
-- where its own key was not tracked and the map was full.
pub methods-Spares :
    (key j failure_class : String) (latency_ms : ℤ) (now : ℕ) (h : RouterRuntimeHealth)
    → key ≢ j
    → Spares key j h (is_routable key now h).1
      × Spares key j h (record_failure key failure_class now h)
      × Spares key j h (record_success key latency_ms now h)
unfolding is_routable record_failure record_success
methods-Spares key j failure_class latency_ms now h ne =
    let touched : Spares key j h (state_for key now h).1 =
      touch_or_new-Spares (lookup key h.bindings) key j now h refl ne in
    let (s, h') = state_for key now h in
    let failed' = failed h'.failure_threshold failure_class now s in
    let succeeded' = succeeded latency_ms now s in
    (
      Spares-trans key j h h' (probe s.state key now s h').1 touched
          (probe-other s.state key j now s h' ne),
      Spares-trans key j h h' (store key failed' h') touched
          (lookup-insert_ne key j failed' h'.bindings ne),
      Spares-trans key j h h' (store key succeeded' h') touched
          (lookup-insert_ne key j succeeded' h'.bindings ne),
    )
