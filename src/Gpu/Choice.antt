-- ===== src/Gpu/Choice.antt =====
-- What `pick_best_node` of mesh/gpu/cluster.py chooses.
use slancha_mesh.Common.{
  ℕ, ◌≤◌, String, ◌≡◌, ◌≢◌, refl, ap, true, false, Option, none, some, List, [], ◌∷◌, arith, ltb,
  ltb→ge, Bool-cases, Option-cases, inl, inr, All, All-mono, All-In, In, subst, map, all, ◌⊎◌,
}
use slancha_mesh.Common.Dict.{Assoc}
use slancha_mesh.Common.Sort.{
  sort_by, All-sort_by, In-sort_by, IsSorted, IsKeyOrder, sort_by-IsSorted,
}
use slancha_mesh.Gpu.Placement.{
  NodeGpuView, ClusterGpuView, free_gb_after_reservations, contains, Rejection, memory_rejection,
  rejection, score, exceeds, better, sift, choose, pick_best_node,
}

better-IsKeyOrder : IsKeyOrder better
better-IsKeyOrder = record {
  asymm = λ a b e. ground (arith, e);
  not_before_trans = λ a b c e f. ground (arith, e, f);
}

self_not_better : (n : NodeGpuView) → better n n ≡ false
self_not_better n = ground arith

-- The views of the nodes.
abbrev pub views : Assoc NodeGpuView → List NodeGpuView
views nodes = map (λ (e : String × NodeGpuView). e.1) nodes

module _ (gb : ℕ) (tags avoid : List String) where
  abbrev pub Passes : NodeGpuView → Type 0
  Passes n = rejection gb tags avoid n ≡ none

  sift_sound :
      (nodes : Assoc NodeGpuView) (rejected : Assoc Rejection)
      → All (λ n. In n (views nodes) × Passes n) (sift gb tags avoid nodes rejected).0
  unfolding sift
  sift_sound [] rejected = tt
  sift_sound ((k, n) ∷ rest) rejected = elim (Option-cases (rejection gb tags avoid n)) [
    | inl e ↦
        rw (sift, e)
          (
            (inl refl, e),
            All-mono _ _ (λ m x. (inr x.0, x.1)) (sift gb tags avoid rest rejected).0
                (sift_sound rest rejected),
          )
    | inr (why, e) ↦ rw (sift, e) (All-mono _ _ (λ m x. (inr x.0, x.1)) _ (sift_sound rest _))
  ]

  sift_complete :
      (nodes : Assoc NodeGpuView) (rejected : Assoc Rejection) (n : NodeGpuView)
      → In n (views nodes)
      → Passes n
      → In n (sift gb tags avoid nodes rejected).0
  unfolding sift
  sift_complete [] rejected n i p = i
  sift_complete ((k, m) ∷ rest) rejected n i p = elim (Option-cases (rejection gb tags avoid m)) [
    | inl e ↦
        rw (sift, e) (elim i [ inl s ↦ inl s | inr j ↦ inr (sift_complete rest rejected n j p) ])
    | inr (why, e) ↦
        rw (sift, e)
          (elim i [
            | inl s ↦ absurd (ground (arith, p, e, ap (rejection gb tags avoid) s))
            | inr j ↦ sift_complete rest _ n j p
          ])
  ]

-- A choice of the best: a node of the view that no filter rejects, and that no other such node
-- exceeds in score.
abbrev pub IsBest : List NodeGpuView → ℕ → List String → List String → NodeGpuView → Type 0
IsBest nodes gb tags avoid n =
    In n nodes
    × Passes gb tags avoid n
    × ((m : NodeGpuView)
        → In m nodes
        → Passes gb tags avoid m
        → exceeds (score m) (score n) ≡ false)

choose-cases :
    (nodes sorted : List NodeGpuView) (rejected : Assoc Rejection) (gb : ℕ)
    (tags avoid : List String)
    → All (λ n. In n nodes × Passes gb tags avoid n) sorted
    → ((n : NodeGpuView) → In n nodes → Passes gb tags avoid n → In n sorted)
    → IsSorted better sorted
    → (((choose sorted rejected).chosen_node_id ≡ none)
        × ((n : NodeGpuView) → In n nodes → rejection gb tags avoid n ≢ none))
      ⊎ ((n : NodeGpuView) × ((choose sorted rejected).chosen_node_id ≡ some n.node_id)
          × ((choose sorted rejected).fit_score ≡ some (score n))
          × IsBest nodes gb tags avoid n)
unfolding choose
choose-cases nodes [] rejected gb tags avoid all_ok every order =
    inl (refl, λ n i p. ground (arith, every n i p))
choose-cases nodes (best ∷ others) rejected gb tags avoid all_ok every order = inr (
  best,
  refl,
  refl,
  (
    all_ok.0.0,
    all_ok.0.1,
    λ m i p. elim (every m i p) [
      | inl s ↦ subst (λ x. better x best ≡ false) s (self_not_better best)
      | inr j ↦ All-In (λ y. better y best ≡ false) m others order.0 j
    ],
  ),
)

-- On any view, either no node is chosen and every node is rejected by a filter, or the chosen node
-- is of the view, passes every filter (not avoided, all tags, known memory, and enough of it free
-- beside what is used and reserved), its score is returned, and no node that passes exceeds it.
pub pick_best_node-cases :
    (view : ClusterGpuView) (gb : ℕ) (tags avoid : List String)
    → (((pick_best_node view gb tags avoid).chosen_node_id ≡ none)
        × ((n : NodeGpuView) → In n (views view.nodes) → rejection gb tags avoid n ≢ none))
      ⊎ ((n : NodeGpuView) × ((pick_best_node view gb tags avoid).chosen_node_id ≡ some n.node_id)
          × ((pick_best_node view gb tags avoid).fit_score ≡ some (score n))
          × IsBest (views view.nodes) gb tags avoid n)
unfolding pick_best_node
pick_best_node-cases view gb tags avoid =
    let candidates = (sift gb tags avoid view.nodes []).0 in
    choose-cases (views view.nodes) (sort_by better candidates) (sift gb tags avoid view.nodes []).1
      gb tags avoid
      (All-sort_by better (λ n. In n (views view.nodes) × Passes gb tags avoid n) candidates
        (sift_sound gb tags avoid view.nodes []))
      (λ n i p. In-sort_by better n candidates (sift_complete gb tags avoid view.nodes [] n i p))
      (sort_by-IsSorted better better-IsKeyOrder candidates)

memory_rejection-none :
    (o : Option ℕ) (gb : ℕ)
    → memory_rejection o gb ≡ none
    → (free : ℕ) × (o ≡ some free) × (gb ≤ free)
unfolding memory_rejection
memory_rejection-none none gb e = absurd (ground (arith, e))
memory_rejection-none (some free) gb e = elim (Bool-cases (ltb free gb)) [
  | inl t ↦ absurd (ground (arith, rw t at e))
  | inr t ↦ (free, refl, ltb→ge free gb t)
]

-- A node that the filters let pass is not avoided, has every required tag, and has the requested
-- memory free beside the larger of what is used and what is reserved.
passing_node_has_memory :
    (n : NodeGpuView) (gb : ℕ) (tags avoid : List String)
    → rejection gb tags avoid n ≡ none
    → (contains avoid n.node_id ≡ false)
      × (all (contains n.hardware_tags) tags ≡ true)
      × ((free : ℕ) × (free_gb_after_reservations n ≡ some free) × (gb ≤ free))
unfolding rejection
passing_node_has_memory n gb tags avoid p = elim (Bool-cases (contains avoid n.node_id)) [
  | inl e ↦ absurd (ground (arith, rw e at p))
  | inr e ↦ elim (Bool-cases (all (contains n.hardware_tags) tags)) [
    | inl t ↦ (e, t, memory_rejection-none (free_gb_after_reservations n) gb (rw (e, t) at p))
    | inr t ↦ absurd (ground (arith, rw (e, t) at p))
  ]
]
