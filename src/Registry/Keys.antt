-- ===== src/Registry/Keys.antt =====
-- The keys in the log of mesh/registry.py: which one a restart pins to a node, and what a compaction
-- leaves of them.
use slancha_mesh.Common.{
  String, ◌≡◌, refl, sym, ap, ◌∙◌, true, false, Option, none, some, List, [], ◌∷◌, ◌++◌, arith,
  if◌then◌else◌, ◌==◌, eq_iff, get_or, Bool-cases, Option-cases, inl, inr,
}
use slancha_mesh.Common.Dict.{Assoc, lookup, set_default, lookup-insert}
use slancha_mesh.Registry.State.{
  HeartbeatEvent, Event, heartbeat, node_left, allocation, quality_observation, pin_first, repin,
  truthy,
}
use slancha_mesh.Registry.Compaction.{beats_in, drop_superseded}

-- A key that counts as one: not None and not "".
abbrev pub real : Option String → Option String
real key = if truthy key then key else none

-- What one event says of the key of a node; `none` where it is no heartbeat of the node.
abbrev pub key_in : String → Event → Option (Option String)
key_in n (heartbeat ev) = if ev.heartbeat.node_id == n then some ev.public_key_b64 else none
key_in n (node_left _ _ _) = none
key_in n (allocation _ _ _) = none
key_in n (quality_observation _) = none

abbrev pub first_of : {A : Type 0} → Option A → Option A → Option A
first_of none b = b
first_of (some a) b = some a

-- The first real key of the node's heartbeats.
unfoldable pub first_key : String → List Event → Option String
first_key n [] = none
first_key n (ev ∷ rest) = first_of (real (get_or (key_in n ev) none)) (first_key n rest)

-- The key of the node's last heartbeat; `none` where it has no heartbeat.
unfoldable pub last_key : String → List Event → Option (Option String)
last_key n [] = none
last_key n (ev ∷ rest) = first_of (last_key n rest) (key_in n ev)

unfoldable pub repin_all : List Event → Assoc String → Assoc String
unfolding repin
repin_all [] pins = pins
repin_all (ev ∷ rest) pins = repin_all rest (repin ev pins)

first_of_assoc :
    {A : Type 0} (a b c : Option A) → first_of (first_of a b) c ≡ first_of a (first_of b c)
first_of_assoc none b c = refl
first_of_assoc (some a) b c = refl

pub first_of-none : {A : Type 0} (a : Option A) → first_of a none ≡ a
first_of-none none = refl
first_of-none (some a) = refl

lookup-set_default :
    (k j v : String) (m : Assoc String)
    → lookup j (set_default k v m) ≡ first_of (lookup j m) (if k == j then some v else none)
lookup-set_default k j v m = elim (Option-cases (lookup k m)) [
  | inl e ↦ rw e (
      lookup-insert k j v m ∙ elim (Bool-cases (k == j)) [
        | inl t ↦ rw (t, ap (λ x. lookup x m) (sym ((eq_iff k j).0 t)) ∙ e) refl
        | inr t ↦ rw t (sym (first_of-none (lookup j m)))
      ])
  | inr (w, e) ↦ rw e (elim (Bool-cases (k == j)) [
    | inl t ↦ rw (ap (λ x. lookup x m) (sym ((eq_iff k j).0 t)) ∙ e) refl
    | inr t ↦ rw t (sym (first_of-none (lookup j m)))
  ])
]

pin_first-key :
    (n node_id : String) (key : Option String) (pins : Assoc String)
    → lookup n (pin_first node_id key pins)
      ≡ first_of (lookup n pins) (real (get_or (if node_id == n then some key else none) none))
unfolding pin_first
pin_first-key n node_id none pins = elim (Bool-cases (node_id == n)) [
  | inl t ↦ rw t (sym (first_of-none (lookup n pins)))
  | inr t ↦ rw t (sym (first_of-none (lookup n pins)))
]
pin_first-key n node_id (some key) pins = elim (Bool-cases (key == "")) [
  | inl e ↦ elim (Bool-cases (node_id == n)) [
    | inl t ↦ rw (e, t) (rw e (sym (first_of-none (lookup n pins))))
    | inr t ↦ rw (e, t) (sym (first_of-none (lookup n pins)))
  ]
  | inr e ↦ rw e (
      lookup-set_default node_id n key pins
      ∙ elim (Bool-cases (node_id == n)) [ inl t ↦ rw t (rw e refl) | inr t ↦ rw t refl ])
]

repin-key :
    (n : String) (ev : Event) (pins : Assoc String)
    → lookup n (repin ev pins) ≡ first_of (lookup n pins) (real (get_or (key_in n ev) none))
unfolding repin
repin-key n (heartbeat ev) pins = pin_first-key n ev.heartbeat.node_id ev.public_key_b64 pins
repin-key n (node_left _ _ _) pins = sym (first_of-none (lookup n pins))
repin-key n (allocation _ _ _) pins = sym (first_of-none (lookup n pins))
repin-key n (quality_observation _) pins = sym (first_of-none (lookup n pins))

-- A restart pins the first real key of each node's heartbeats, over the pins that are there.
pub repin_all-first_key :
    (n : String) (events : List Event) (pins : Assoc String)
    → lookup n (repin_all events pins) ≡ first_of (lookup n pins) (first_key n events)
unfolding repin_all first_key
repin_all-first_key n [] pins = sym (first_of-none (lookup n pins))
repin_all-first_key n (ev ∷ rest) pins =
    repin_all-first_key n rest (repin ev pins)
    ∙ ap (λ o. first_of o (first_key n rest)) (repin-key n ev pins)
    ∙ first_of_assoc (lookup n pins) (real (get_or (key_in n ev) none)) (first_key n rest)

pub first_key-append :
    (n : String) (events : List Event) (ev : Event)
    → first_key n (events ++ ev ∷ [])
      ≡ first_of (first_key n events) (real (get_or (key_in n ev) none))
unfolding first_key
first_key-append n [] ev = first_of-none (real (get_or (key_in n ev) none))
first_key-append n (x ∷ rest) ev =
    ap (first_of (real (get_or (key_in n x) none))) (first_key-append n rest ev)
    ∙ sym (first_of_assoc (real (get_or (key_in n x) none)) (first_key n rest) _)

pub last_key-append :
    (n : String) (events : List Event) (ev : Event)
    → last_key n (events ++ ev ∷ []) ≡ first_of (key_in n ev) (last_key n events)
unfolding last_key
last_key-append n [] ev = sym (first_of-none (key_in n ev))
last_key-append n (x ∷ rest) ev =
    ap (λ o. first_of o (key_in n x)) (last_key-append n rest ev)
    ∙ first_of_assoc (key_in n ev) (last_key n rest) (key_in n x)

-- A node without heartbeats has no key.
quiet-last_key :
    (n : String) (events : List Event) → beats_in n events ≡ false → last_key n events ≡ none
unfolding beats_in last_key
quiet-last_key n [] h = refl
quiet-last_key n (heartbeat ev ∷ rest) h = ground (arith, quiet-last_key n rest)
quiet-last_key n (node_left _ _ _ ∷ rest) h = rw (quiet-last_key n rest h) refl
quiet-last_key n (allocation _ _ _ ∷ rest) h = rw (quiet-last_key n rest h) refl
quiet-last_key n (quality_observation _ ∷ rest) h = rw (quiet-last_key n rest h) refl

-- A node with a heartbeat has a last one.
beaten-last_key :
    (n : String) (events : List Event)
    → beats_in n events ≡ true
    → (key : Option String) × (last_key n events ≡ some key)
unfolding beats_in last_key
beaten-last_key n [] h = absurd (ground (arith, h))
beaten-last_key n (heartbeat ev ∷ rest) h = elim (Bool-cases (beats_in n rest)) [
  | inl e ↦ let (k, p) = beaten-last_key n rest e in (k, rw p refl)
  | inr e ↦
      let here : (ev.heartbeat.node_id == n) ≡ true = ground (arith, h, e) in
      (ev.public_key_b64, rw (quiet-last_key n rest e, here) refl)
]
beaten-last_key n (node_left _ _ _ ∷ rest) h =
    let (k, p) = beaten-last_key n rest h in (k, rw p refl)
beaten-last_key n (allocation _ _ _ ∷ rest) h =
    let (k, p) = beaten-last_key n rest h in (k, rw p refl)
beaten-last_key n (quality_observation _ ∷ rest) h =
    let (k, p) = beaten-last_key n rest h in (k, rw p refl)

-- A superseded heartbeat is not the last one.
last_key-superseded :
    (n : String) (ev : HeartbeatEvent) (rest : List Event)
    → beats_in ev.heartbeat.node_id rest ≡ true
    → last_key n (heartbeat ev ∷ rest) ≡ last_key n rest
unfolding last_key
last_key-superseded n ev rest again = elim (Bool-cases (ev.heartbeat.node_id == n)) [
  | inl t ↦
      let there = ap (λ x. beats_in x rest) (sym ((eq_iff ev.heartbeat.node_id n).0 t)) ∙ again in
      let (k, p) = beaten-last_key n rest there in rw p refl
  | inr t ↦ rw t (first_of-none (last_key n rest))
]

-- Dropping superseded heartbeats keeps the key of each node's last one.
pub last_key-drop_superseded :
    (n : String) (events : List Event) → last_key n (drop_superseded events) ≡ last_key n events
unfolding last_key drop_superseded
last_key-drop_superseded n [] = refl
last_key-drop_superseded n (heartbeat ev ∷ rest) =
    elim (Bool-cases (beats_in ev.heartbeat.node_id rest)) [
      | inl e ↦ rw e (last_key-drop_superseded n rest ∙ sym (last_key-superseded n ev rest e))
      | inr e ↦
          rw e (ap (λ o. first_of o (key_in n (heartbeat ev))) (last_key-drop_superseded n rest))
    ]
last_key-drop_superseded n (node_left _ _ _ ∷ rest) =
    ap (λ o. first_of o none) (last_key-drop_superseded n rest)
last_key-drop_superseded n (allocation _ _ _ ∷ rest) =
    ap (λ o. first_of o none) (last_key-drop_superseded n rest)
last_key-drop_superseded n (quality_observation _ ∷ rest) =
    ap (λ o. first_of o none) (last_key-drop_superseded n rest)

-- One heartbeat that nothing supersedes.
first_key-kept :
    (n : String) (ev : HeartbeatEvent) (rest : List Event)
    → beats_in ev.heartbeat.node_id rest ≡ false
    → first_key n (drop_superseded rest) ≡ real (get_or (last_key n rest) none)
    → first_of (real (get_or (key_in n (heartbeat ev)) none)) (first_key n (drop_superseded rest))
      ≡ real (get_or (first_of (last_key n rest) (key_in n (heartbeat ev))) none)
first_key-kept n ev rest quiet ih = elim (Bool-cases (ev.heartbeat.node_id == n)) [
  | inl t ↦
      let silent : last_key n rest ≡ none =
        quiet-last_key n rest
          (ap (λ x. beats_in x rest) (sym ((eq_iff ev.heartbeat.node_id n).0 t)) ∙ quiet) in
      rw (t, ih, silent) (first_of-none (real ev.public_key_b64))
  | inr t ↦ rw t (ih ∙ ap (λ o. real (get_or o none)) (sym (first_of-none (last_key n rest))))
]

-- Without superseded heartbeats, the first key of a node is that of its last heartbeat.
pub first_key-drop_superseded :
    (n : String) (events : List Event)
    → first_key n (drop_superseded events) ≡ real (get_or (last_key n events) none)
unfolding last_key first_key drop_superseded
first_key-drop_superseded n [] = refl
first_key-drop_superseded n (heartbeat ev ∷ rest) =
    elim (Bool-cases (beats_in ev.heartbeat.node_id rest)) [
      | inl e ↦ rw e (
          first_key-drop_superseded n rest
          ∙ ap (λ o. real (get_or o none)) (sym (last_key-superseded n ev rest e)))
      | inr e ↦ rw e (first_key-kept n ev rest e (first_key-drop_superseded n rest))
    ]
first_key-drop_superseded n (node_left _ _ _ ∷ rest) =
    first_key-drop_superseded n rest
    ∙ ap (λ o. real (get_or o none)) (sym (first_of-none (last_key n rest)))
first_key-drop_superseded n (allocation _ _ _ ∷ rest) =
    first_key-drop_superseded n rest
    ∙ ap (λ o. real (get_or o none)) (sym (first_of-none (last_key n rest)))
first_key-drop_superseded n (quality_observation _ ∷ rest) =
    first_key-drop_superseded n rest
    ∙ ap (λ o. real (get_or o none)) (sym (first_of-none (last_key n rest)))
