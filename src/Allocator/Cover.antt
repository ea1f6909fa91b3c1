-- ===== src/Allocator/Cover.antt =====
-- The greedy loop of the allocator: it ends, and picks what can run.
use slancha_mesh.Common.{All-keep}
use slancha_mesh.Common.{
  ℕ, zero, suc, ◌≤◌, ◌<◌, String, ◌≡◌, refl, ap, true, Option, none, some, List, [], ◌∷◌, arith,
  inl, inr, keep, any, All, All-In, All-from, In, Bool-cases, ◌==◌, not, length, is_empty, ◌||◌,
  length-keep, some-injective, Option-cases, subst,
}
use slancha_mesh.Common.DictEntries.{AllEntries-insert}
use slancha_mesh.Common.Floats.{Floats, IsOrdered}
use slancha_mesh.Models.{NodeProbe, SpecialistCard}
use slancha_mesh.Allocator.Score.{minus_inf, finite, Coverage}
use slancha_mesh.Allocator.Place.{
  Allocation, Scored, Pick, rank_specs_for_node, is_one_of, discard, first_eligible, improve,
  best_pair, assign, cover_domains, is_other,
}
use slancha_mesh.Allocator.Ranking.{Runs, rank-Judged, others-Runs, PickRuns, first_eligible-Runs}
use slancha_mesh.Allocator.Sound.{Placed, Waiting-keep}
use slancha_mesh.Allocator.Each.{IsUpTo, ranked-Judged}

discard-length-le : (d : String) (names : List String) → length (discard d names) ≤ length names
discard-length-le d names = length-keep (λ n. not (n == d)) names

-- A set gets smaller by the element that is taken out of it.
length-discard :
    (d : String) (names : List String)
    → is_one_of names d ≡ true
    → length (discard d names) < length names
unfolding any keep
length-discard d [] h = cc
length-discard d (n ∷ names) h = ground (arith, length-discard d names, discard-length-le d names)

module _ (fl : Floats) where
  open fl use {F}

  first_eligible-domain :
      (uncovered : List String) (ranked : List (Scored fl)) {x : F} {spec : SpecialistCard}
      → first_eligible fl uncovered ranked ≡ some (x, spec)
      → is_one_of uncovered spec.domain ≡ true
  unfolding first_eligible
  first_eligible-domain uncovered [] h = cc
  first_eligible-domain uncovered ((minus_inf, s) ∷ rest) h = first_eligible-domain uncovered rest h
  first_eligible-domain uncovered ((finite y, s) ∷ rest) {x} {spec} h =
      elim (Bool-cases (is_one_of uncovered s.domain)) [
        | inl e ↦
            let same : (y, s) ≡ (x, spec) = some-injective _ _ (rw e at h) in
            rw (← ap (λ (p : F × SpecialistCard). p.1) same) e
        | inr e ↦ first_eligible-domain uncovered rest (rw e at h)
      ]

module _ (fl : Floats) (nodes : List NodeProbe) (candidates : List SpecialistCard)
    (uncovered : List String) where
  open fl use {F}

  -- A pick that is worth making.
  abbrev pub Serves : Option (Pick fl) → Type 0
  Serves none = Unit
  Serves (some (x, node, spec)) =
      In node nodes × Runs candidates node spec × (is_one_of uncovered spec.domain ≡ true)

  improve-Serves :
      (node : NodeProbe) (found : Option (F × SpecialistCard)) (best : Option (Pick fl))
      → In node nodes
      → PickRuns fl candidates node found
      → ((x : F) (spec : SpecialistCard)
          → found ≡ some (x, spec)
          → is_one_of uncovered spec.domain ≡ true)
      → Serves best
      → Serves (improve fl node found best)
  unfolding improve
  improve-Serves node none best i runs covers h = h
  improve-Serves node (some (x, spec)) none i runs covers h = (i, runs, covers x spec refl)
  improve-Serves node (some (x, spec)) (some (y, m, s)) i runs covers h =
      elim (Bool-cases (fl.lt y x)) [ inl e ↦ rw e (i, runs, covers x spec refl) | inr e ↦ rw e h ]

  pub best_pair-Serves :
      (coverage : Coverage) (rest : List NodeProbe) (best : Option (Pick fl))
      → All (λ n. In n nodes) rest
      → Serves best
      → Serves (best_pair fl candidates uncovered coverage rest best)
  unfolding best_pair
  best_pair-Serves coverage [] best i h = h
  best_pair-Serves coverage (node ∷ rest) best i h = best_pair-Serves coverage rest _ i.1 (
      improve-Serves node _ best i.0
        (first_eligible-Runs fl candidates node uncovered _ (
          rank-Judged fl candidates node coverage candidates
            (All-from (λ c. In c candidates) candidates (λ c m. m))))
        (λ x spec e.
          first_eligible-domain fl uncovered (rank_specs_for_node fl node candidates coverage) e)
        h)

module _ (fl : Floats) (o : IsOrdered fl) (nodes : List NodeProbe)
    (catalog candidates : List SpecialistCard) (within : All (λ c. In c catalog) candidates) where
  open fl use {F}

  -- Between two rounds: the list holds nodes of the cluster, and all others have a suggestion.
  pub record IsOpen (a : Allocation F) : Type 0 where
    pub listed : All (λ n. In n nodes) a.remaining
    pub up_to : IsUpTo fl o nodes catalog a.remaining a

  assign-IsOpen :
      (x : F) (node : NodeProbe) (spec : SpecialistCard) (a : Allocation F)
      → In node nodes
      → Runs catalog node spec
      → IsOpen a
      → IsOpen (assign fl catalog (x, node, spec) a)
  unfolding assign
  assign-IsOpen x node spec a i runs h = record {
    listed = All-keep (λ n. In n nodes) (λ n. not (n.node_id == node.node_id)) a.remaining h.listed;
    up_to = record {
      placed =
          AllEntries-insert (Placed nodes catalog) _ _ _
            (
              node,
              i,
              refl,
              runs,
              others-Runs fl catalog node 3 (is_other spec) _
                  (ranked-Judged fl o nodes catalog node _),
              tt,
            )
            h.up_to.placed;
      waiting = Waiting-keep nodes catalog node.node_id a.remaining _ _ h.up_to.waiting;
    };
  }

  -- The loop ends, since each round covers a domain, and leaves the suggestions sound.
  pub cover_domains-returns :
      (fuel : ℕ) (uncovered : List String) (a : Allocation F)
      → length uncovered < fuel
      → IsOpen a
      → (b : Allocation F) × (cover_domains fl fuel catalog candidates uncovered a ≡ some b)
        × IsOpen b
  unfolding cover_domains
  cover_domains-returns zero uncovered a lt h = elim lt [ ]
  cover_domains-returns (suc fuel) uncovered a lt h =
      let best = best_pair fl candidates uncovered a.coverage a.remaining none in
      let good : Serves fl nodes candidates uncovered best =
        best_pair-Serves fl nodes candidates uncovered a.coverage a.remaining none h.listed tt in
      elim (Bool-cases (is_empty a.remaining || is_empty uncovered)) [
        | inl e ↦ (a, rw e refl, h)
        | inr e ↦ elim (Option-cases best) [
          | inl none_left ↦ (a, rw (e, none_left) refl, h)
          | inr ((x, node, spec), found) ↦
              let (i, runs, covers) = subst (Serves fl nodes candidates uncovered) found good in
              let runs' : Runs catalog node spec =
                (All-In (λ c. In c catalog) spec candidates within runs.0, runs.1) in
              let (b, returns, open_b) =
                cover_domains-returns fuel (discard spec.domain uncovered)
                  (assign fl catalog (x, node, spec) a)
                  (omega (arith, length-discard spec.domain uncovered covers))
                  (assign-IsOpen x node spec a i runs' h) in
              (b, rw (e, found) returns, open_b)
        ]
      ]
