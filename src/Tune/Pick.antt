-- ===== src/Tune/Pick.antt =====
-- Which experiment of the queue is picked.
use slancha_mesh.Common.{
  ℕ, zero, suc, ◌+◌, ◌-◌, ◌≤◌, ◌≡◌, refl, ap, sym, ◌⊎◌, inl, inr, true, false, Option, none, some,
  some-injective, List, [], ◌∷◌, arith, ltb→ge, Bool-cases, subst,
}
use slancha_mesh.Common.Int.{ℤ, ltb_ℤ, ◌≤ℤ◌}
use slancha_mesh.Tune.Loop.{
  Experiment, is_pending, priority_of, better, pick_from, index_of, pick_pending, get_elem?,
}

-- The experiment of an index, where the first has the index `i`.
abbrev At : ℕ → List Experiment → ℕ → Experiment → Type 0
At i [] k s = false ≡ true
At i (x ∷ specs) k s = ((i ≡ k) × (x ≡ s)) ⊎ At (suc i) specs k s

At-bound : (i : ℕ) (specs : List Experiment) (k : ℕ) (s : Experiment) → At i specs k s → i ≤ k
At-bound i [] k s h = absurd (ground (arith, h))
At-bound i (x ∷ specs) k s (inl (e, _)) = omega arith
At-bound i (x ∷ specs) k s (inr h) = omega (arith, At-bound (suc i) specs k s h)

-- What the loop over the queue returns.
abbrev IsFirstSmallest : ℕ → List Experiment → ℕ → ℤ → Type 0
IsFirstSmallest i specs k p =
    (s : Experiment) × At i specs k s
    × (is_pending s ≡ true)
    × (priority_of s ≡ p)
    × ((m : ℕ) (x : Experiment)
        → At i specs m x
        → is_pending x ≡ true
        → (ltb_ℤ p (priority_of x) ≡ true) ⊎ ((p ≤ℤ priority_of x) × (k ≤ m)))

abbrev IsPick : ℕ → List Experiment → Option (ℕ × ℤ) → Type 0
IsPick i specs none = (m : ℕ) (x : Experiment) → At i specs m x → is_pending x ≡ false
IsPick i specs (some (k, p)) = IsFirstSmallest i specs k p

not-pending : {P : Type 0} (x : Experiment) → is_pending x ≡ false → is_pending x ≡ true → P
not-pending x h k = cc

skip-IsPick :
    (i : ℕ) (x : Experiment) (specs : List Experiment) (later : Option (ℕ × ℤ))
    → is_pending x ≡ false
    → IsPick (suc i) specs later
    → IsPick i (x ∷ specs) later
skip-IsPick i x specs none e h = λ m y there. elim there [
  | inl (_, same) ↦ subst (λ z. is_pending z ≡ false) same e
  | inr further ↦ h m y further
]
skip-IsPick i x specs (some (k, p)) e (s, at, pending, same, least) = (
  s,
  inr at,
  pending,
  same,
  λ m y there yes_pending. elim there [
    | inl (_, eq) ↦ not-pending y (subst (λ z. is_pending z ≡ false) eq e) yes_pending
    | inr further ↦ least m y further yes_pending
  ],
)

join-IsPick :
    (i : ℕ) (x : Experiment) (specs : List Experiment) (later : Option (ℕ × ℤ))
    → is_pending x ≡ true
    → IsPick (suc i) specs later
    → IsPick i (x ∷ specs) (some (better (i, priority_of x) later))
join-IsPick i x specs none e h = (
  x,
  inl (refl, refl),
  e,
  refl,
  λ m y there yes_pending. elim there [
    | inl (eq, same) ↦
        inr (
          subst (λ (z : Experiment). priority_of x ≤ℤ priority_of z) same (omega arith),
          omega arith,
        )
    | inr further ↦ not-pending y (h m y further) yes_pending
  ],
)
join-IsPick i x specs (some (j, q)) e (s, at, pending, same, least) =
    elim (Bool-cases (ltb_ℤ q (priority_of x))) [
      | inl smaller ↦ rw smaller (
        s,
        inr at,
        pending,
        same,
        λ m y there yes_pending. elim there [
          | inl (_, eq) ↦
              inl (subst (λ (z : Experiment). ltb_ℤ q (priority_of z) ≡ true) eq smaller)
          | inr further ↦ least m y further yes_pending
        ],
      )
      | inr not_smaller ↦
          let le : priority_of x ≤ℤ q = ltb→ge _ _ not_smaller in
          rw not_smaller (
            x,
            inl (refl, refl),
            e,
            refl,
            λ m y there yes_pending. elim there [
              | inl (eq, eq_x) ↦ inr (
                subst (λ (z : Experiment). priority_of x ≤ℤ priority_of z) eq_x (omega arith),
                omega arith,
              )
              | inr further ↦ elim (least m y further yes_pending) [
                | inl lt ↦ inl (ground (arith, le, lt))
                | inr (le_y, _) ↦
                    inr (omega arith, omega (arith, At-bound (suc i) specs m y further))
              ]
            ],
          )
    ]

pick_from-IsPick : (i : ℕ) (specs : List Experiment) → IsPick i specs (pick_from i specs)
unfolding pick_from
pick_from-IsPick i [] = λ m x h. absurd (ground (arith, h))
pick_from-IsPick i (x ∷ specs) =
    let later : IsPick (suc i) specs (pick_from (suc i) specs) = pick_from-IsPick (suc i) specs in
    elim (Bool-cases (is_pending x)) [
      | inl e ↦ rw e (join-IsPick i x specs _ e later)
      | inr e ↦ rw e (skip-IsPick i x specs _ e later)
    ]

At-get_elem? :
    (i : ℕ) (specs : List Experiment) (k : ℕ) (s : Experiment)
    → At i specs k s
    → get_elem? specs (k - i) ≡ some s
unfolding get_elem?
At-get_elem? i [] k s h = absurd (ground (arith, h))
At-get_elem? i (x ∷ specs) k s (inl (e, same)) =
    let zero_off : k - i ≡ 0 = omega arith in rw zero_off (ap (λ y. some y) same)
At-get_elem? i (x ∷ specs) k s (inr h) =
    let bound = At-bound (suc i) specs k s h in
    let step : k - i ≡ suc (k - suc i) = omega (arith, bound) in
    rw step (At-get_elem? (suc i) specs k s h)

get_elem?-At :
    (i : ℕ) (specs : List Experiment) (m : ℕ) (s : Experiment)
    → get_elem? specs m ≡ some s
    → At i specs (i + m) s
unfolding get_elem?
get_elem?-At i [] m s h = cc
get_elem?-At i (x ∷ specs) zero s h = inl (omega arith, some-injective _ _ h)
get_elem?-At i (x ∷ specs) (suc m) s h =
    inr (subst (λ k. At (suc i) specs k s) (omega arith) (get_elem?-At (suc i) specs m s h))

-- The pick of a queue: a pending experiment that no pending one precedes, by priority and then by
-- the place in the queue.
abbrev pub IsBest : List Experiment → ℕ → Experiment → Type 0
IsBest specs idx s =
    (get_elem? specs idx ≡ some s)
    × (is_pending s ≡ true)
    × ((m : ℕ) (x : Experiment)
        → get_elem? specs m ≡ some x
        → is_pending x ≡ true
        → (ltb_ℤ (priority_of s) (priority_of x) ≡ true)
          ⊎ ((priority_of s ≤ℤ priority_of x) × (idx ≤ m)))

IsBest-of :
    (specs : List Experiment) (found : Option (ℕ × ℤ))
    → IsPick 0 specs found
    → (((idx : ℕ) × (s : Experiment) × (index_of found ≡ some idx) × IsBest specs idx s)
        ⊎ ((index_of found ≡ none)
            × ((m : ℕ) (x : Experiment) → get_elem? specs m ≡ some x → is_pending x ≡ false)))
IsBest-of specs none h =
    inr (
      refl,
      λ m x e. h m x (subst (λ k. At 0 specs k x) (omega arith) (get_elem?-At 0 specs m x e)),
    )
IsBest-of specs (some (k, p)) (s, at, pending, same, least) = inl (
  k,
  s,
  refl,
  (
    subst (λ n. get_elem? specs n ≡ some s) (omega arith) (At-get_elem? 0 specs k s at),
    pending,
    λ m x e yes_pending.
        subst (λ q. (ltb_ℤ q (priority_of x) ≡ true) ⊎ ((q ≤ℤ priority_of x) × (k ≤ m))) (sym same)
          (least m x (subst (λ n. At 0 specs n x) (omega arith) (get_elem?-At 0 specs m x e))
            yes_pending),
  ),
)

-- Either an experiment is picked, and it is pending and the first in the queue of those pending with
-- the smallest priority number, or none is picked and none is pending.
pub pick_pending-cases :
    (specs : List Experiment)
    → ((idx : ℕ) × (s : Experiment) × (pick_pending specs ≡ some idx) × IsBest specs idx s)
      ⊎ ((pick_pending specs ≡ none)
          × ((m : ℕ) (x : Experiment) → get_elem? specs m ≡ some x → is_pending x ≡ false))
unfolding pick_pending
pick_pending-cases specs = IsBest-of specs (pick_from 0 specs) (pick_from-IsPick 0 specs)
