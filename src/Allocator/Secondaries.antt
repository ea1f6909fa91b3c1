-- ===== src/Allocator/Secondaries.antt =====
-- A second specialist on a node leaves the suggestions sound.
use slancha_mesh.Common.{
  ℕ, ◌-◌, ◌*◌, ◌≤◌, String, ◌≡◌, refl, ◌∙◌, Bool, true, Option, none, some, List, [], ◌∷◌, arith,
  inl, inr, keep, All, All-from, In, Bool-cases, Option-cases, subst, ◌==◌, eq_iff, leb, ltb,
  ltb→ge,
}
use slancha_mesh.Common.Dict.{Assoc, insert}
use slancha_mesh.Common.DictEntries.{AllEntries, AllEntries-insert}
use slancha_mesh.Common.Floats.{Floats, IsOrdered}
use slancha_mesh.Models.{NodeProbe, SpecialistCard, NodeSuggestion}
use slancha_mesh.Allocator.Score.{FitScore, minus_inf, finite, Coverage, effective_vram_gb}
use slancha_mesh.Allocator.Place.{Allocation, Scored, rank_specs_for_node}
use slancha_mesh.Allocator.Tiers.{
  node_by_id, may_coexist, first_finite, second_for, fill_secondaries,
}
use slancha_mesh.Allocator.Ranking.{Judged, rank-Judged, PickRuns}
use slancha_mesh.Allocator.Sound.{Placed, Coexists, Waiting-insert}
use slancha_mesh.Allocator.Each.{IsUpTo}

-- The node that is looked up is one of the list, under its id.
abbrev Found : List NodeProbe → String → Option NodeProbe → Type 0
Found nodes id none = Unit
Found nodes id (some m) = In m nodes × (m.node_id ≡ id)

node_by_id-Found :
    (nodes : List NodeProbe) (id : String) (rest : List NodeProbe) (found : Option NodeProbe)
    → All (λ n. In n nodes) rest
    → Found nodes id found
    → Found nodes id (node_by_id id rest found)
unfolding node_by_id
node_by_id-Found nodes id [] found i h = h
node_by_id-Found nodes id (n ∷ rest) found i h = elim (Bool-cases (n.node_id == id)) [
  | inl e ↦ rw e (node_by_id-Found nodes id rest (some n) i.1 (i.0, (eq_iff n.node_id id).0 e))
  | inr e ↦ rw e (node_by_id-Found nodes id rest found i.1 h)
]

keep_sound :
    (p : SpecialistCard → Bool) (c : SpecialistCard) (cards : List SpecialistCard)
    → In c (keep p cards)
    → In c cards × (p c ≡ true)
unfolding keep
keep_sound p c [] h = absurd (ground (arith, h))
keep_sound p c (x ∷ cards) h = elim (Bool-cases (p x)) [
  | inl e ↦ elim (rw e at h) [
    | inl same ↦ (inl same, subst (λ y. p y ≡ true) same e)
    | inr i ↦ (inr (keep_sound p c cards i).0, (keep_sound p c cards i).1)
  ]
  | inr e ↦ let i = keep_sound p c cards (rw e at h) in (inr i.0, i.1)
]

may_coexist-room :
    (coverage : Coverage) (primary s : SpecialistCard) (room : ℕ)
    → may_coexist coverage primary room s ≡ true
    → s.runtime_gb ≤ room
may_coexist-room coverage primary s room h = ground (arith, h)

module _ (fl : Floats) (catalog : List SpecialistCard) (node : NodeProbe) where
  first_finite-Runs :
      (ranked : List (Scored fl))
      → All (Judged fl catalog node) ranked
      → PickRuns fl catalog node (first_finite fl ranked)
  unfolding first_finite
  first_finite-Runs [] h = tt
  first_finite-Runs ((minus_inf, spec) ∷ rest) h = first_finite-Runs rest h.1
  first_finite-Runs ((finite x, spec) ∷ rest) h = h.0

module _ (fl : Floats) (o : IsOrdered fl) (nodes : List NodeProbe)
    (catalog : List SpecialistCard) where
  open fl use {F}

  -- What is attached to a suggestion that is sound is sound.
  attach-IsUpTo :
      (rest : List NodeProbe) (id : String) (s : NodeSuggestion (FitScore F))
      (spec : SpecialistCard) (a : Allocation F) (coverage : Coverage)
      → Placed nodes catalog id s
      → Coexists nodes catalog id s.primary spec
      → IsUpTo fl o nodes catalog rest a
      → IsUpTo fl o nodes catalog rest (record a {
        coverage = coverage;
        suggestions = insert id (record s { secondaries = spec ∷ [] }) a.suggestions;
      })
  attach-IsUpTo rest id s spec a coverage (n, i, e, primary, alternates, _) c h = record {
    placed =
        AllEntries-insert (Placed nodes catalog) _ _ _ (n, i, e, primary, alternates, (c, tt))
          h.placed;
    waiting = Waiting-insert nodes catalog rest id _ _ h.waiting;
  }

  second_for-IsUpTo :
      (rest : List NodeProbe) (id : String) (s : NodeSuggestion (FitScore F))
      (primary : Option SpecialistCard) (found : Option NodeProbe) (a : Allocation F)
      → s.primary ≡ primary
      → Found nodes id found
      → Placed nodes catalog id s
      → IsUpTo fl o nodes catalog rest a
      → IsUpTo fl o nodes catalog rest (second_for fl catalog id s primary found a)
        × ((second_for fl catalog id s primary found a).remaining ≡ a.remaining)
  unfolding second_for
  second_for-IsUpTo rest id s none found a e there placed h = (h, refl)
  second_for-IsUpTo rest id s (some p) none a e there placed h = (h, refl)
  second_for-IsUpTo rest id s (some p) (some m) a e there placed h =
      let memory = effective_vram_gb m in
      let pool = keep (may_coexist a.coverage p (memory - p.runtime_gb)) catalog in
      let ranked = rank_specs_for_node fl m pool a.coverage in
      let runs : PickRuns fl pool m (first_finite fl ranked) =
        first_finite-Runs fl pool m ranked
          (rank-Judged fl pool m a.coverage pool (All-from (λ c. In c pool) pool (λ c i. i))) in
      elim (Bool-cases (leb memory 0)) [
        | inl small ↦ rw small (h, refl)
        | inr large ↦ rw large (elim (Bool-cases (ltb memory (2 * p.runtime_gb))) [
          | inl over ↦ rw over (h, refl)
          | inr under ↦ rw under (elim (Option-cases (first_finite fl ranked)) [
            | inl nothing ↦ rw nothing (h, refl)
            | inr ((x, spec), picked) ↦
                let (i, fits) = subst (PickRuns fl pool m) picked runs in
                let (listed, may) = keep_sound _ spec catalog i in
                let room : spec.runtime_gb ≤ memory - p.runtime_gb =
                  may_coexist-room a.coverage p spec _ may in
                let twice : 2 * p.runtime_gb ≤ memory = ltb→ge _ _ under in
                rw picked (
                  attach-IsUpTo rest id s spec a _ placed
                      (p, e, m, there.0, there.1, (listed, fits), twice, omega (arith, room, twice))
                      h,
                  refl,
                )
          ])
        ])
      ]

  pub fill_secondaries-IsUpTo :
      (rest : List NodeProbe) (entries : Assoc (NodeSuggestion (FitScore F))) (a : Allocation F)
      → AllEntries (Placed nodes catalog) entries
      → IsUpTo fl o nodes catalog rest a
      → IsUpTo fl o nodes catalog rest (fill_secondaries fl nodes catalog entries a)
        × ((fill_secondaries fl nodes catalog entries a).remaining ≡ a.remaining)
  unfolding fill_secondaries
  fill_secondaries-IsUpTo rest [] a p h = (h, refl)
  fill_secondaries-IsUpTo rest ((id, s) ∷ entries) a p h =
      let everyone = All-from (λ n. In n nodes) nodes (λ n i. i) in
      let there = node_by_id-Found nodes id nodes none everyone tt in
      let (h', same) = second_for-IsUpTo rest id s s.primary _ a refl there p.0 h in
      let (h'', same') = fill_secondaries-IsUpTo rest entries _ p.1 h' in (h'', same' ∙ same)
