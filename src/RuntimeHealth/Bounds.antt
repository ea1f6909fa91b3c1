-- ===== src/RuntimeHealth/Bounds.antt =====
-- What every method of mesh/runtime_health.py keeps: the bound on the tracked bindings, and the
-- relation of each circuit's state to its counter and its opening time.
use slancha_mesh.Common.{
  some-injective, subst, sym, leb→le, ℕ, ◌+◌, ◌≤◌, ◌<◌, String, ◌≡◌, refl, true, false, Option,
  none, some, List, [], ◌∷◌, arith, is_some, length, is_empty, All, All-mono, Bool-cases, inl, inr,
  eq_iff, leb, leb→gt,
}
use slancha_mesh.Common.Dict.{
  Assoc, lookup, has, IsDistinct, AllValues, AllValues-insert, AllValues-remove, IsDistinct-insert,
  IsDistinct-remove, length-insert_present, length-insert_le, length-remove_present,
  lookup-insert_self, AllValues-lookup,
}
use slancha_mesh.RuntimeHealth.{
  Circuit, closed, opened, half_open, BindingState, RouterRuntimeHealth, new_binding, min_from,
  min_key, closed_candidates, all_candidates, store, cooled_down, precedes, is_closed, drop_key,
  make_room, touch_or_new, candidates, victim, evict, state_for, probe,
}

-- A closed circuit is below the threshold and has no opening time; any other has one, and has
-- reached the threshold.
abbrev pub Coherent : ℕ → Circuit → ℕ → Option ℕ → Type 0
Coherent threshold closed n at = (n < threshold) × (at ≡ none)
Coherent threshold opened n at = (is_some at ≡ true) × (threshold ≤ n)
Coherent threshold half_open n at = (is_some at ≡ true) × (threshold ≤ n)

abbrev pub IsCoherent : ℕ → BindingState → Type 0
IsCoherent threshold s = Coherent threshold s.state s.consecutive_failures s.opened_at

pub record IsValid (h : RouterRuntimeHealth) : Type 0 where
  pub threshold_pos : 1 ≤ h.failure_threshold
  pub cooldown_pos : 1 ≤ h.cooldown_s
  pub max_pos : 1 ≤ h.max_bindings
  pub bounded : length h.bindings ≤ h.max_bindings
  pub distinct : IsDistinct h.bindings
  pub coherent : AllValues (IsCoherent h.failure_threshold) h.bindings

-- Candidates are keys of the map.
abbrev IsKey : Assoc BindingState → ℕ × String → Type 0
IsKey m c = has c.1 m ≡ true

IsKey-cons :
    (k : String) (s : BindingState) (m : Assoc BindingState) (c : ℕ × String)
    → IsKey m c
    → IsKey ((k, s) ∷ m) c
unfolding lookup
IsKey-cons k s m c h = ground arith

IsKey-self :
    (k : String) (s : BindingState) (m : Assoc BindingState) (t : ℕ) → IsKey ((k, s) ∷ m) (t, k)
unfolding lookup
IsKey-self k s m t = ground (arith, (eq_iff k k).1 refl)

IsKey-rest :
    (k : String) (s : BindingState) (m : Assoc BindingState) (cs : List (ℕ × String))
    → All (IsKey m) cs
    → All (IsKey ((k, s) ∷ m)) cs
IsKey-rest k s m = All-mono (IsKey m) (IsKey ((k, s) ∷ m)) (IsKey-cons k s m)

closed_candidates-IsKey : (m : Assoc BindingState) → All (IsKey m) (closed_candidates m)
unfolding closed_candidates
closed_candidates-IsKey [] = tt
closed_candidates-IsKey ((k, s) ∷ m) =
    let rest = IsKey-rest k s m (closed_candidates m) (closed_candidates-IsKey m) in
    elim (Bool-cases (is_closed s.state)) [
      | inl e ↦ rw e (IsKey-self k s m s.last_touched, rest)
      | inr e ↦ rw e rest
    ]

all_candidates-IsKey : (m : Assoc BindingState) → All (IsKey m) (all_candidates m)
unfolding all_candidates
all_candidates-IsKey [] = tt
all_candidates-IsKey ((k, s) ∷ m) =
    (IsKey-self k s m s.last_touched, IsKey-rest k s m (all_candidates m) (all_candidates-IsKey m))

-- What holds of every candidate holds of the least.
pub min_from_ind {κ} :
    (P : ℕ × String → Type κ) (best : ℕ × String) (cs : List (ℕ × String))
    → P best
    → All P cs
    → P (min_from best cs)
unfolding min_from
min_from_ind P best [] p h = p
min_from_ind P best (c ∷ cs) p h = elim (Bool-cases (precedes c best)) [
  | inl e ↦ rw e (min_from_ind P c cs h.0 h.1)
  | inr e ↦ rw e (min_from_ind P best cs p h.1)
]

min_key-IsKey :
    (m : Assoc BindingState) (cs : List (ℕ × String)) {k : String}
    → All (IsKey m) cs
    → min_key cs ≡ some k
    → has k m ≡ true
min_key-IsKey m [] h e = cc
min_key-IsKey m (c ∷ cs) h e =
    subst (λ j. has j m ≡ true) (some-injective _ _ e) (min_from_ind (IsKey m) c cs h.0 h.1)

candidates-IsKey : (m : Assoc BindingState) → All (IsKey m) (candidates m)
unfolding candidates
candidates-IsKey m = elim (Bool-cases (is_empty (closed_candidates m))) [
  | inl e ↦ rw e (all_candidates-IsKey m)
  | inr e ↦ rw e (closed_candidates-IsKey m)
]

candidates-ne-nil : (m : Assoc BindingState) → 1 ≤ length m → is_empty (candidates m) ≡ false
unfolding candidates
candidates-ne-nil [] h = elim h [ ]
candidates-ne-nil ((k, s) ∷ m) h = elim (Bool-cases (is_empty (closed_candidates ((k, s) ∷ m)))) [
  | inl e ↦ rw e (unfold all_candidates in refl)
  | inr e ↦ rw e e
]

min_key_lem : (cs : List (ℕ × String)) → is_empty cs ≡ false → (k : String) × (min_key cs ≡ some k)
min_key_lem [] h = cc
min_key_lem (c ∷ cs) h = ((min_from c cs).1, refl)

drop_key-lt :
    (m : Assoc BindingState) (k : String) (o : Option BindingState)
    → lookup k m ≡ o
    → has k m ≡ true
    → length (drop_key (some k) m) + 1 ≤ length m
unfolding drop_key
drop_key-lt m k none l h = ground arith
drop_key-lt m k (some s) l h = length-remove_present k s m l

-- A full map is not empty, so there is a key to evict, and the map gets shorter.
evict-lt : (m : Assoc BindingState) → 1 ≤ length m → length (evict m) + 1 ≤ length m
unfolding evict
evict-lt m pos =
    let (k, e) = min_key_lem (candidates m) (candidates-ne-nil m pos) in
    let e' : victim m ≡ some k = unfold victim in e in
    subst (λ o. length (drop_key o m) + 1 ≤ length m) (sym e')
      (drop_key-lt m k (lookup k m) refl (min_key-IsKey m (candidates m) (candidates-IsKey m) e))

make_room-le :
    (n : ℕ) (m : Assoc BindingState) → 1 ≤ n → length m ≤ n → length (make_room n m) + 1 ≤ n
unfolding make_room
make_room-le n m pos h = elim (Bool-cases (leb n (length m))) [
  | inl e ↦ rw e (omega (arith, evict-lt m, leb→le n (length m) e))
  | inr e ↦ rw e (omega (arith, leb→gt n (length m) e))
]

module _ (threshold : ℕ) where
  drop_key-IsCoherent :
      (o : Option String) (m : Assoc BindingState)
      → AllValues (IsCoherent threshold) m
      → AllValues (IsCoherent threshold) (drop_key o m)
  unfolding drop_key
  drop_key-IsCoherent none m h = h
  drop_key-IsCoherent (some k) m h = AllValues-remove (IsCoherent threshold) k m h

drop_key-IsDistinct :
    (o : Option String) (m : Assoc BindingState) → IsDistinct m → IsDistinct (drop_key o m)
unfolding drop_key
drop_key-IsDistinct none m h = h
drop_key-IsDistinct (some k) m h = IsDistinct-remove k m h

make_room-lem :
    (t n : ℕ) (m : Assoc BindingState)
    → IsDistinct m
    → AllValues (IsCoherent t) m
    → IsDistinct (make_room n m) × AllValues (IsCoherent t) (make_room n m)
unfolding make_room evict
make_room-lem t n m d c = elim (Bool-cases (leb n (length m))) [
  | inl e ↦ rw e (drop_key-IsDistinct (victim m) m d, drop_key-IsCoherent t (victim m) m c)
  | inr e ↦ rw e (d, c)
]

-- A write of a coherent state to a key that is there keeps validity.
pub store-IsValid :
    (key : String) (s w : BindingState) {h : RouterRuntimeHealth}
    → IsValid h
    → lookup key h.bindings ≡ some w
    → IsCoherent h.failure_threshold s
    → IsValid (store key s h)
store-IsValid key s w {h} v e c = record {
  threshold_pos = v.threshold_pos;
  cooldown_pos = v.cooldown_pos;
  max_pos = v.max_pos;
  bounded = omega (arith, length-insert_present key s w h.bindings e, v.bounded);
  distinct = IsDistinct-insert key s h.bindings v.distinct;
  coherent = AllValues-insert (IsCoherent h.failure_threshold) key s h.bindings c v.coherent;
}

-- What `_state_for` hands out: a valid map that holds the state, which is coherent.
pub record Held (key : String) (threshold : ℕ) (r : BindingState × RouterRuntimeHealth)
    : Type 0 where
  pub valid : IsValid r.1
  pub found : lookup key r.1.bindings ≡ some r.0
  pub coherent : IsCoherent threshold r.0
  pub same_threshold : r.1.failure_threshold ≡ threshold

touch_or_new-Held :
    (o : Option BindingState) (key : String) (now : ℕ) (h : RouterRuntimeHealth)
    → lookup key h.bindings ≡ o
    → IsValid h
    → Held key h.failure_threshold (touch_or_new o key now h)
unfolding touch_or_new
touch_or_new-Held (some s) key now h e v =
    let c = AllValues-lookup (IsCoherent h.failure_threshold) key h.bindings v.coherent e in
    record {
      valid = store-IsValid key (record s { last_touched = now }) s v e c;
      found = lookup-insert_self key _ h.bindings;
      coherent = c;
      same_threshold = refl;
    }
touch_or_new-Held none key now h e v =
    let room = make_room-lem h.failure_threshold h.max_bindings h.bindings v.distinct v.coherent in
    let kept = make_room h.max_bindings h.bindings in
    let c : IsCoherent h.failure_threshold (new_binding now) = (v.threshold_pos, refl) in
    record {
      valid = record {
        threshold_pos = v.threshold_pos;
        cooldown_pos = v.cooldown_pos;
        max_pos = v.max_pos;
        bounded = omega (
          arith,
          length-insert_le key (new_binding now) kept,
          make_room-le h.max_bindings h.bindings v.max_pos v.bounded,
        );
        distinct = IsDistinct-insert key (new_binding now) kept room.0;
        coherent =
            AllValues-insert (IsCoherent h.failure_threshold) key (new_binding now) kept c room.1;
      };
      found = lookup-insert_self key (new_binding now) kept;
      coherent = c;
      same_threshold = refl;
    }

pub state_for-Held :
    (key : String) (now : ℕ) (h : RouterRuntimeHealth)
    → IsValid h
    → Held key h.failure_threshold (state_for key now h)
unfolding state_for
state_for-Held key now h v = touch_or_new-Held (lookup key h.bindings) key now h refl v

pub probe-IsValid :
    (c : Circuit) (key : String) (now : ℕ) (s : BindingState) (h : RouterRuntimeHealth)
    → s.state ≡ c
    → IsValid h
    → lookup key h.bindings ≡ some s
    → IsCoherent h.failure_threshold s
    → IsValid (probe c key now s h).1
unfolding probe
probe-IsValid closed key now s h e v l c = v
probe-IsValid half_open key now s h e v l c = v
probe-IsValid opened key now s h e v l c = elim (Bool-cases (cooled_down h now s.opened_at)) [
  | inl t ↦ rw t (
      store-IsValid key (record s { state = half_open }) s v l
        (subst (λ x. Coherent h.failure_threshold x s.consecutive_failures s.opened_at) e c))
  | inr t ↦ rw t v
]
