-- ===== src/Allocator/Sound.antt =====
-- The invariant of the allocator's loops: what is suggested can run, and no node is forgotten.
use slancha_mesh.Common.{
  ◌+◌, ◌*◌, ◌≤◌, String, ◌≡◌, ap, sym, ◌∙◌, true, Option, none, some, List, [], ◌∷◌, arith, ◌⊎◌,
  inl, inr, keep, All, All-mono, In, Bool-cases, subst, ◌==◌, not, eq_iff,
}
use slancha_mesh.Common.Dict.{Assoc, insert, has}
use slancha_mesh.Common.DictEntries.{has-insert, has-insert_self}
use slancha_mesh.Models.{NodeProbe, SpecialistCard, NodeSuggestion}
use slancha_mesh.Allocator.Score.{effective_vram_gb}
use slancha_mesh.Allocator.Fits.{Fits}
use slancha_mesh.Allocator.Ranking.{Runs}

module _ (nodes : List NodeProbe) (catalog : List SpecialistCard) where
  -- A primary that the node can run; none only where it can run nothing of the catalog.
  abbrev pub PrimaryOf : NodeProbe → Option SpecialistCard → Type 0
  PrimaryOf node none = All (λ c. ¬ Fits c node) catalog
  PrimaryOf node (some spec) = Runs catalog node spec

  -- A specialist beside the primary, on a node that has the memory for both.
  abbrev pub Coexists : String → Option SpecialistCard → SpecialistCard → Type 0
  Coexists id primary spec =
      (p : SpecialistCard) × (primary ≡ some p)
      × (m : NodeProbe) × In m nodes
      × (m.node_id ≡ id)
      × Runs catalog m spec
      × (2 * p.runtime_gb ≤ effective_vram_gb m)
      × (p.runtime_gb + spec.runtime_gb ≤ effective_vram_gb m)

  abbrev pub Placed : {S : Type 0} → String → NodeSuggestion S → Type 0
  Placed id s =
      (n : NodeProbe) × In n nodes
      × (n.node_id ≡ id)
      × PrimaryOf n s.primary
      × All (Runs catalog n) s.alternates
      × All (Coexists id s.primary) s.secondaries

  -- Every node is in the list of those to come or has a suggestion.
  abbrev pub Waiting : {S : Type 0} → List NodeProbe → Assoc S → Type 0
  Waiting rest m = All (λ n. In n rest ⊎ (has n.node_id m ≡ true)) nodes

  pub Waiting-insert :
      {S : Type 0} (rest : List NodeProbe) (id : String) (s : S) (m : Assoc S)
      → Waiting rest m
      → Waiting rest (insert id s m)
  Waiting-insert rest id s m =
      All-mono (λ n. In n rest ⊎ (has n.node_id m ≡ true))
        (λ n. In n rest ⊎ (has n.node_id (insert id s m) ≡ true))
        (λ n h. elim h [ inl i ↦ inl i | inr e ↦ inr (has-insert id n.node_id s m e) ]) nodes

  -- The first node of those to come gets its suggestion.
  pub Waiting-next :
      {S : Type 0} (node : NodeProbe) (rest : List NodeProbe) (s : S) (m : Assoc S)
      → Waiting (node ∷ rest) m
      → Waiting rest (insert node.node_id s m)
  Waiting-next node rest s m =
      All-mono (λ n. In n (node ∷ rest) ⊎ (has n.node_id m ≡ true))
        (λ n. In n rest ⊎ (has n.node_id (insert node.node_id s m) ≡ true))
        (λ n h. elim h [
          | inl (inl e) ↦ inr (
              subst (λ k. has k (insert node.node_id s m) ≡ true)
                (ap (λ (x : NodeProbe). x.node_id) e) (has-insert_self node.node_id s m))
          | inl (inr i) ↦ inl i
          | inr e ↦ inr (has-insert node.node_id n.node_id s m e)
        ])
        nodes

  keep_others :
      (id : String) (n : NodeProbe) (rest : List NodeProbe)
      → In n rest
      → (n.node_id ≡ id) ⊎ In n (keep (λ x. not (x.node_id == id)) rest)
  unfolding keep
  keep_others id n [] h = absurd (ground (arith, h))
  keep_others id n (x ∷ rest) (inl e) = elim (Bool-cases (x.node_id == id)) [
    | inl t ↦ inl (sym (ap (λ (y : NodeProbe). y.node_id) e) ∙ (eq_iff x.node_id id).0 t)
    | inr t ↦ rw t (inr (inl e))
  ]
  keep_others id n (x ∷ rest) (inr i) = elim (keep_others id n rest i) [
    | inl e ↦ inl e
    | inr j ↦ elim (Bool-cases (x.node_id == id)) [
      | inl t ↦ rw t (inr j)
      | inr t ↦ rw t (inr (inr j))
    ]
  ]

  -- A node gets its suggestion, and all of its id leave the list.
  pub Waiting-keep :
      {S : Type 0} (id : String) (rest : List NodeProbe) (s : S) (m : Assoc S)
      → Waiting rest m
      → Waiting (keep (λ x. not (x.node_id == id)) rest) (insert id s m)
  Waiting-keep id rest s m =
      All-mono (λ n. In n rest ⊎ (has n.node_id m ≡ true))
        (λ n.
          In n (keep (λ x. not (x.node_id == id)) rest) ⊎ (has n.node_id (insert id s m) ≡ true))
        (λ n h. elim h [
          | inl i ↦ elim (keep_others id n rest i) [
            | inl e ↦
                inr (subst (λ k. has k (insert id s m) ≡ true) (sym e) (has-insert_self id s m))
            | inr j ↦ inl j
          ]
          | inr e ↦ inr (has-insert id n.node_id s m e)
        ])
        nodes

  pub Waiting-none :
      {S : Type 0} (m : Assoc S) → Waiting [] m → All (λ n. has n.node_id m ≡ true) nodes
  Waiting-none m =
      All-mono (λ n. In n [] ⊎ (has n.node_id m ≡ true)) (λ n. has n.node_id m ≡ true)
        (λ n h. elim h [ inl i ↦ absurd (ground (arith, i)) | inr e ↦ e ]) nodes
