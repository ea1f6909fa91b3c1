-- ===== src/RuntimeHealth/Eviction.antt =====
-- Which binding mesh/runtime_health.py gives up for a new key.
use mathlib.Core.Bool.{Bool, false≢true}
use slancha_mesh.Common.{
  ℕ, ◌≤◌, String, ◌≡◌, refl, true, false, some, none, List, [], ◌∷◌, arith, Bool-cases, inl, inr,
  subst, ap, ◌∙◌, All, All-mono, some-injective, eq_iff, eq_refl, ◌==◌, if◌then◌else◌,
}
use slancha_mesh.Common.Dict.{Assoc, lookup, IsDistinct}
use slancha_mesh.RuntimeHealth.{
  Circuit, closed, opened, half_open, BindingState, min_from, precedes, is_closed,
  closed_candidates, candidates, victim,
}
use slancha_mesh.RuntimeHealth.Bounds.{min_from_ind}

-- The candidate is a closed binding of the map, with its time.
abbrev IsClosedOf : Assoc BindingState → ℕ × String → Type 0
IsClosedOf m c =
    (w : BindingState) × (lookup c.1 m ≡ some w) × (w.state ≡ closed) × (w.last_touched ≡ c.0)

is_closed→closed : (c : Circuit) → is_closed c ≡ true → c ≡ closed
is_closed→closed closed h = refl
is_closed→closed opened h = cc
is_closed→closed half_open h = cc

IsClosedOf-cons :
    (k : String) (s : BindingState) (m : Assoc BindingState) (c : ℕ × String)
    → lookup k m ≡ none
    → IsClosedOf m c
    → IsClosedOf ((k, s) ∷ m) c
unfolding lookup
IsClosedOf-cons k s m c fresh (w, l, h, t) =
    (w, ground (arith, eq_iff k c.1, ap (λ j. lookup j m)), h, t)

closed_candidates-IsClosedOf :
    (m : Assoc BindingState) → IsDistinct m → All (IsClosedOf m) (closed_candidates m)
unfolding closed_candidates
closed_candidates-IsClosedOf [] d = tt
closed_candidates-IsClosedOf ((k, s) ∷ m) d =
    let rest =
      All-mono (IsClosedOf m) (IsClosedOf ((k, s) ∷ m)) (λ c. IsClosedOf-cons k s m c d.0)
        (closed_candidates m) (closed_candidates-IsClosedOf m d.1) in
    elim (Bool-cases (is_closed s.state)) [
      | inl e ↦
          rw e ((s, unfold lookup in rw (eq_refl k) refl, is_closed→closed s.state e, refl), rest)
      | inr e ↦ rw e rest
    ]

closed_candidates-parts :
    (Q : ℕ × String → Type 0) (k : String) (w : BindingState) (m : Assoc BindingState) (b : Bool)
    → is_closed w.state ≡ b
    → All Q (closed_candidates ((k, w) ∷ m))
    → (b ≡ true → Q (w.last_touched, k)) × All Q (closed_candidates m)
unfolding closed_candidates
closed_candidates-parts Q k w m true e h = let h' = rw e at h in (λ _. h'.0, h'.1)
closed_candidates-parts Q k w m false e h = (λ t. absurd (false≢true t), rw e at h)

-- What holds of all closed candidates holds of a closed binding.
closed_candidates-mem :
    (Q : ℕ × String → Type 0) (j : String) (s : BindingState) (m : Assoc BindingState)
    → All Q (closed_candidates m)
    → lookup j m ≡ some s
    → is_closed s.state ≡ true
    → Q (s.last_touched, j)
unfolding lookup
closed_candidates-mem Q j s [] h l c = cc
closed_candidates-mem Q j s ((k, w) ∷ m) h l c =
    let parts = closed_candidates-parts Q k w m (is_closed w.state) refl h in
    elim (Bool-cases (k == j)) [
      | inl e ↦
          let same : w ≡ s = some-injective w s (rw e at l) in
          subst (λ x. Q (x, j)) (ap (λ (x : BindingState). x.last_touched) same)
            (subst (λ x. Q (w.last_touched, x)) ((eq_iff k j).0 e)
              (parts.0 (ap (λ (x : BindingState). is_closed x.state) same ∙ c)))
      | inr e ↦ closed_candidates-mem Q j s m parts.1 (rw e at l) c
    ]

least-le :
    (best c : ℕ × String)
    → ((if precedes c best then c else best).0 ≤ best.0)
      × ((if precedes c best then c else best).0 ≤ c.0)
least-le (t, k) (u, j) = ground arith

min_from-le :
    (best : ℕ × String) (cs : List (ℕ × String))
    → ((min_from best cs).0 ≤ best.0) × All (λ c. (min_from best cs).0 ≤ c.0) cs
unfolding min_from
min_from-le best [] = (omega arith, tt)
min_from-le best (c ∷ cs) =
    let least = if precedes c best then c else best in
    let (below_best, below_c) = least-le best c in
    let r = min_from-le least cs in
    (omega (arith, r.0, below_best), (omega (arith, r.0, below_c), r.1))

-- The least of the closed candidates, where there is one.
least_closed :
    (m : Assoc BindingState) (cs : List (ℕ × String)) (j : String) (s : BindingState)
    → closed_candidates m ≡ cs
    → All (IsClosedOf m) cs
    → ((Q : ℕ × String → Type 0) → All Q cs → Q (s.last_touched, j))
    → (k : String) × (w : BindingState) × (victim m ≡ some k)
      × (lookup k m ≡ some w)
      × (w.state ≡ closed)
      × (w.last_touched ≤ s.last_touched)
unfolding victim candidates
least_closed m [] j s e h mem = absurd (mem (λ _. ⊥) tt)
least_closed m (c ∷ cs) j s e h mem =
    let least = min_from c cs in
    let (w, l, st, t) = min_from_ind (IsClosedOf m) c cs h.0 h.1 in
    let below : least.0 ≤ s.last_touched = mem (λ x. least.0 ≤ x.0) (min_from-le c cs) in
    (least.1, w, rw e refl, l, st, omega arith)

-- While a closed binding is tracked, the binding that is given up for a new key is a closed one, and
-- none of the closed ones was touched before it: open and half-open circuits stay.
victim_is_oldest_closed :
    (m : Assoc BindingState) (j : String) (s : BindingState)
    → IsDistinct m
    → lookup j m ≡ some s
    → s.state ≡ closed
    → (k : String) × (w : BindingState) × (victim m ≡ some k)
      × (lookup k m ≡ some w)
      × (w.state ≡ closed)
      × (w.last_touched ≤ s.last_touched)
victim_is_oldest_closed m j s d l c =
    least_closed m (closed_candidates m) j s refl (closed_candidates-IsClosedOf m d)
      (λ Q h. closed_candidates-mem Q j s m h l (ap is_closed c))
