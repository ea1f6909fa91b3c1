-- ===== src/Select/Meets.antt =====
-- What it means for a route to meet a preference of mesh/select.py, and that `_pref_filter` keeps
-- the routes that do.
use slancha_mesh.Common.{
  ℕ, ◌≤◌, String, ◌≡◌, refl, sym, Bool, true, false, Option, none, some, List, [], ◌∷◌, arith, ltb,
  ltb→ge, ◌==◌, eq_iff, any, all, any-In, Bool-cases, Option-cases, inl, inr, In, All,
  some-injective, subst,
}
use slancha_mesh.Common.Dict.{Assoc, lookup}
use slancha_mesh.Models.{SpecialistCard, Route}
use slancha_mesh.Select.Pref.{
  PrefVector, is_capability, passes_capability_gate, DropReason, latency_drop, cost_drop, gate_drop,
  capability_drop, streaming_drop, context_drop, or_drop, route_drop, sifted, pref_filter,
}

-- A measured latency is at most the limit, where there is one.
abbrev pub LatencyOk : Option ℕ → Option ℕ → Type 0
LatencyOk none p95 = Unit
LatencyOk (some limit) none = Unit
LatencyOk (some limit) (some p95) = p95 ≤ limit

abbrev pub CostOk : Option ℕ → ℕ → Type 0
CostOk none cents = Unit
CostOk (some limit) cents = cents ≤ limit

-- The specialist is in the catalog and has the capability.
abbrev pub Can : Option SpecialistCard → String → Type 0
Can card c = (sc : SpecialistCard) × (card ≡ some sc) × In c sc.capabilities

abbrev pub CapableOk : Option (List String) → Option SpecialistCard → Type 0
CapableOk none card = Unit
CapableOk (some required) card = All (Can card) required

abbrev pub StreamOk : Option Bool → Option SpecialistCard → Type 0
StreamOk none card = Unit
StreamOk (some wanted) card = wanted ≡ true → Can card "streaming"

-- The specialist is in the catalog and its window is large enough.
abbrev pub ContextOk : Option ℕ → Option SpecialistCard → Type 0
ContextOk none card = Unit
ContextOk (some window) card =
    (sc : SpecialistCard) × (card ≡ some sc) × (window ≤ sc.context_window)

-- The route meets the hard limits and the requirements of the preference.
pub record Meets {F : Type 0} (pref : PrefVector F) (card : Option SpecialistCard) (r : Route)
    : Type 0 where
  pub latency : LatencyOk pref.max_latency_ms_p95 r.p95_latency_ms
  pub cost : CostOk pref.max_cost_cents r.cost_estimate_cents
  pub capable : CapableOk pref.require_capabilities card
  pub streams : StreamOk pref.require_streaming card
  pub context : ContextOk pref.min_context_window card

-- A test that drops says nothing exactly when the condition holds.
abbrev Decides : Option DropReason → Type 0 → Type 0
Decides drop P = (drop ≡ none → P) × (P → drop ≡ none)

latency_drop-Decides :
    (limit p95 : Option ℕ) → Decides (latency_drop limit p95) (LatencyOk limit p95)
unfolding latency_drop
latency_drop-Decides none p95 = (λ e. tt, λ h. refl)
latency_drop-Decides (some limit) none = (λ e. tt, λ h. refl)
latency_drop-Decides (some limit) (some p95) = elim (Bool-cases (ltb limit p95)) [
  | inl t ↦ rw t (λ e. absurd (ground (arith, e)), λ h. absurd (ground (arith, h, t)))
  | inr t ↦ rw t (λ e. ltb→ge limit p95 t, λ h. refl)
]

cost_drop-Decides :
    (limit : Option ℕ) (cents : ℕ) → Decides (cost_drop limit cents) (CostOk limit cents)
unfolding cost_drop
cost_drop-Decides none cents = (λ e. tt, λ h. refl)
cost_drop-Decides (some limit) cents = elim (Bool-cases (ltb limit cents)) [
  | inl t ↦ rw t (λ e. absurd (ground (arith, e)), λ h. absurd (ground (arith, h, t)))
  | inr t ↦ rw t (λ e. ltb→ge limit cents t, λ h. refl)
]

is_capability-In : (have : List String) (c : String) → is_capability have c ≡ true → In c have
is_capability-In have c e =
    let (h, i, same) = any-In (λ h. h == c) have e in subst (λ x. In x have) ((eq_iff h c).0 same) i

In-is_capability : (have : List String) (c : String) → In c have → is_capability have c ≡ true
unfolding any
In-is_capability [] c i = absurd (ground (arith, i))
In-is_capability (h ∷ have) c (inl same) = rw ((eq_iff h c).1 same) refl
In-is_capability (h ∷ have) c (inr i) =
    let more = In-is_capability have c i in
    elim (Bool-cases (h == c)) [ inl t ↦ rw t refl | inr t ↦ rw t more ]

all-All :
    (sc : SpecialistCard) (required : List String)
    → all (is_capability sc.capabilities) required ≡ true
    → All (Can (some sc)) required
unfolding all
all-All sc [] e = tt
all-All sc (c ∷ required) e = elim (Bool-cases (is_capability sc.capabilities c)) [
  | inl t ↦ ((sc, refl, is_capability-In sc.capabilities c t), all-All sc required (rw t at e))
  | inr t ↦ absurd (ground (arith, rw t at e))
]

All-all :
    (sc : SpecialistCard) (required : List String)
    → All (Can (some sc)) required
    → all (is_capability sc.capabilities) required ≡ true
unfolding all
All-all sc [] h = refl
All-all sc (c ∷ required) h =
    let (x, same, i) = h.0 in
    let here : In c sc.capabilities =
      subst (λ y. In c y.capabilities) (sym (some-injective sc x same)) i in
    rw (In-is_capability sc.capabilities c here, All-all sc required h.1) refl

gate_drop-Decides :
    (card : Option SpecialistCard) (c : String) (required : List String)
    → Decides (gate_drop card (c ∷ required)) (All (Can card) (c ∷ required))
unfolding gate_drop passes_capability_gate
gate_drop-Decides none c required =
    (λ e. absurd (ground (arith, e)), λ h. let (x, same, i) = h.0 in absurd (ground (arith, same)))
gate_drop-Decides (some sc) c required =
    elim (Bool-cases (all (is_capability sc.capabilities) (c ∷ required))) [
      | inl t ↦ rw t (λ e. all-All sc (c ∷ required) t, λ h. refl)
      | inr t ↦ rw t (
        λ e. absurd (ground (arith, e)),
        λ h. absurd (ground (arith, t, All-all sc (c ∷ required) h)),
      )
    ]

capability_drop-Decides :
    (required : Option (List String)) (card : Option SpecialistCard)
    → Decides (capability_drop required card) (CapableOk required card)
unfolding capability_drop
capability_drop-Decides none card = (λ e. tt, λ h. refl)
capability_drop-Decides (some []) card = (λ e. tt, λ h. refl)
capability_drop-Decides (some (c ∷ required)) card = gate_drop-Decides card c required

streaming_drop-Decides :
    (wanted : Option Bool) (card : Option SpecialistCard)
    → Decides (streaming_drop wanted card) (StreamOk wanted card)
unfolding streaming_drop
streaming_drop-Decides none card = (λ e. tt, λ h. refl)
streaming_drop-Decides (some false) card = (λ e f. absurd (ground (arith, f)), λ h. refl)
streaming_drop-Decides (some true) card =
    let (sound, complete) = gate_drop-Decides card "streaming" [] in
    (λ e f. (sound e).0, λ h. complete (h refl, tt))

context_drop-Decides :
    (window : Option ℕ) (card : Option SpecialistCard)
    → Decides (context_drop window card) (ContextOk window card)
unfolding context_drop
context_drop-Decides none card = (λ e. tt, λ h. refl)
context_drop-Decides (some window) none = (
  λ e. absurd (ground (arith, e)),
  λ h. let (x, same, large) = h in absurd (ground (arith, same)),
)
context_drop-Decides (some window) (some sc) = elim (Bool-cases (ltb sc.context_window window)) [
  | inl t ↦ rw t (
    λ e. absurd (ground (arith, e)),
    λ h.
        let (x, same, large) = h in
        let enough : window ≤ sc.context_window =
          subst (λ y. window ≤ y.context_window) (sym (some-injective sc x same)) large in
        absurd (ground (arith, t, enough)),
  )
  | inr t ↦ rw t (λ e. (sc, refl, ltb→ge sc.context_window window t), λ h. refl)
]

or_drop-Decides :
    (a b : Option DropReason) (P Q : Type 0)
    → Decides a P
    → Decides b Q
    → Decides (or_drop a b) (P × Q)
unfolding or_drop
or_drop-Decides none b P Q f g = (λ e. (f.0 refl, g.0 e), λ h. g.1 h.1)
or_drop-Decides (some reason) b P Q f g =
    (λ e. absurd (ground (arith, e)), λ h. absurd (ground (arith, f.1 h.0)))

module _ {F : Type 0} (pref : PrefVector F) where
  -- The filter drops a route exactly when it does not meet the preference.
  pub route_drop-Decides :
      (card : Option SpecialistCard) (r : Route)
      → Decides (route_drop pref card r) (Meets pref card r)
  unfolding route_drop
  route_drop-Decides card r =
      let (sound, complete) =
        or_drop-Decides _ _ _ _ (latency_drop-Decides pref.max_latency_ms_p95 r.p95_latency_ms) (
          or_drop-Decides _ _ _ _ (cost_drop-Decides pref.max_cost_cents r.cost_estimate_cents) (
            or_drop-Decides _ _ _ _ (capability_drop-Decides pref.require_capabilities card) (
              or_drop-Decides _ _ _ _ (streaming_drop-Decides pref.require_streaming card)
                (context_drop-Decides pref.min_context_window card)))) in
      (
        λ e.
            let (l, (c, (k, (s, w)))) = sound e in
            record { latency = l; cost = c; capable = k; streams = s; context = w },
        λ h. complete (h.latency, (h.cost, (h.capable, (h.streams, h.context)))),
      )

  module _ (catalog : Assoc SpecialistCard) where
    abbrev pub MeetsIn : Route → Type 0
    MeetsIn r = Meets pref (lookup r.specialist_id catalog) r

    pub pref_filter_sound :
        (P : Route → Type 0) (routes : List Route)
        → All P routes
        → All (λ r. P r × MeetsIn r) (pref_filter routes catalog pref).0
    unfolding pref_filter sifted
    pref_filter_sound P [] h = tt
    pref_filter_sound P (r ∷ routes) h =
        let more = pref_filter_sound P routes h.1 in
        let card = lookup r.specialist_id catalog in
        elim (Option-cases (route_drop pref card r)) [
          | inl e ↦ rw (pref_filter, e) ((h.0, (route_drop-Decides card r).0 e), more)
          | inr (reason, e) ↦ rw (pref_filter, e) more
        ]

    pub pref_filter_complete :
        (r : Route) (routes : List Route)
        → In r routes
        → MeetsIn r
        → In r (pref_filter routes catalog pref).0
    unfolding pref_filter sifted
    pref_filter_complete r [] i m = i
    pref_filter_complete r (x ∷ routes) i m =
        elim (Option-cases (route_drop pref (lookup x.specialist_id catalog) x)) [
          | inl e ↦
              rw (pref_filter, e)
                (elim i [ inl same ↦ inl same | inr j ↦ inr (pref_filter_complete r routes j m) ])
          | inr (reason, e) ↦
              rw (pref_filter, e)
                (elim i [
                  | inl same ↦
                      let dropped_not =
                        (route_drop-Decides (lookup x.specialist_id catalog) x).1
                          (subst MeetsIn (sym same) m) in
                      absurd (ground (arith, e, dropped_not))
                  | inr j ↦ pref_filter_complete r routes j m
                ])
        ]
