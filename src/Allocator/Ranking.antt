-- ===== src/Allocator/Ranking.antt =====
-- What the ranking of a catalog for a node holds, and what is picked from it.
use slancha_mesh.Common.{All-keep, All-take}
use slancha_mesh.Common.{
  ℕ, String, ◌≡◌, refl, ap, sym, Bool, true, false, Option, none, some, List, [], ◌∷◌, map, arith,
  inl, inr, keep, take, All, All-from, All-In, In, Bool-cases, ◌==◌,
}
use slancha_mesh.Common.Sort.{sort_by, All-sort_by, In-sort_by, IsSorted, sort_by-IsSorted}
use slancha_mesh.Common.Floats.{Floats, IsOrdered}
use slancha_mesh.Models.{NodeProbe, SpecialistCard}
use slancha_mesh.Allocator.Score.{FitScore, minus_inf, finite, model_fit_score, Coverage}
use slancha_mesh.Allocator.Place.{
  Scored, score_lt, higher, scored, rank_specs_for_node, eligible, first_eligible, is_one_of,
}
use slancha_mesh.Allocator.Tiers.{head_finite, first_in_domain, chosen_or}
use slancha_mesh.Allocator.Fits.{Fits, Fits-finite, Fits-minus_inf}

-- A specialist of the catalog that the node can run.
abbrev pub Runs : List SpecialistCard → NodeProbe → SpecialistCard → Type 0
Runs catalog node spec = In spec catalog × Fits spec node

module _ (fl : Floats) (catalog : List SpecialistCard) (node : NodeProbe) where
  open fl use {F}

  -- An entry is a specialist of the catalog, with a score exactly where it fits the node.
  abbrev pub Judged : Scored fl → Type 0
  Judged (minus_inf, spec) = In spec catalog × (¬ Fits spec node)
  Judged (finite x, spec) = Runs catalog node spec

  judged :
      (coverage : Coverage) (spec : SpecialistCard) (s : FitScore F)
      → In spec catalog
      → model_fit_score fl spec node coverage ≡ s
      → Judged (s, spec)
  judged coverage spec minus_inf i e = (i, Fits-minus_inf fl spec node coverage e)
  judged coverage spec (finite x) i e = (i, Fits-finite fl spec node coverage e)

  map-Judged :
      (coverage : Coverage) (cards : List SpecialistCard)
      → All (λ c. In c catalog) cards
      → All Judged (map (scored fl node coverage) cards)
  map-Judged coverage [] h = tt
  map-Judged coverage (c ∷ cards) h = (judged coverage c _ h.0 refl, map-Judged coverage cards h.1)

  pub rank-Judged :
      (coverage : Coverage) (cards : List SpecialistCard)
      → All (λ c. In c catalog) cards
      → All Judged (rank_specs_for_node fl node cards coverage)
  unfolding rank_specs_for_node
  rank-Judged coverage cards h =
      All-sort_by (higher fl) Judged (map (scored fl node coverage) cards)
        (map-Judged coverage cards h)

  -- What stands in the list of alternates.
  pub eligible-Runs :
      (ranked : List (Scored fl)) → All Judged ranked → All (Runs catalog node) (eligible fl ranked)
  unfolding eligible
  eligible-Runs [] h = tt
  eligible-Runs ((minus_inf, spec) ∷ rest) h = eligible-Runs rest h.1
  eligible-Runs ((finite x, spec) ∷ rest) h = (h.0, eligible-Runs rest h.1)

  pub alternates-Runs :
      (n : ℕ) (ranked : List (Scored fl))
      → All Judged ranked
      → All (Runs catalog node) (take n (eligible fl ranked))
  alternates-Runs n ranked h = All-take (Runs catalog node) n _ (eligible-Runs ranked h)

  pub others-Runs :
      (n : ℕ) (p : SpecialistCard → Bool) (ranked : List (Scored fl))
      → All Judged ranked
      → All (Runs catalog node) (take n (keep p (eligible fl ranked)))
  others-Runs n p ranked h =
      All-take (Runs catalog node) n _ (All-keep (Runs catalog node) p _ (eligible-Runs ranked h))

  -- The entry that is picked, if there is one.
  abbrev pub PickRuns : Option (F × SpecialistCard) → Type 0
  PickRuns none = Unit
  PickRuns (some (x, spec)) = Runs catalog node spec

  pub first_eligible-Runs :
      (uncovered : List String) (ranked : List (Scored fl))
      → All Judged ranked
      → PickRuns (first_eligible fl uncovered ranked)
  unfolding first_eligible
  first_eligible-Runs uncovered [] h = tt
  first_eligible-Runs uncovered ((minus_inf, spec) ∷ rest) h =
      first_eligible-Runs uncovered rest h.1
  first_eligible-Runs uncovered ((finite x, spec) ∷ rest) h =
      elim (Bool-cases (is_one_of uncovered spec.domain)) [
        | inl e ↦ rw e h.0
        | inr e ↦ rw e (first_eligible-Runs uncovered rest h.1)
      ]

  pub first_in_domain-Runs :
      (domain : String) (ranked : List (Scored fl))
      → All Judged ranked
      → PickRuns (first_in_domain fl domain ranked)
  unfolding first_in_domain
  first_in_domain-Runs domain [] h = tt
  first_in_domain-Runs domain ((minus_inf, spec) ∷ rest) h = first_in_domain-Runs domain rest h.1
  first_in_domain-Runs domain ((finite x, spec) ∷ rest) h =
      elim (Bool-cases (spec.domain == domain)) [
        | inl e ↦ rw e h.0
        | inr e ↦ rw e (first_in_domain-Runs domain rest h.1)
      ]

  pub head_finite-Runs :
      (ranked : List (Scored fl)) → All Judged ranked → PickRuns (head_finite fl ranked)
  unfolding head_finite
  head_finite-Runs [] h = tt
  head_finite-Runs ((minus_inf, spec) ∷ rest) h = tt
  head_finite-Runs ((finite x, spec) ∷ rest) h = h.0

  pub chosen_or-Runs :
      (a b : Option (F × SpecialistCard)) → PickRuns a → PickRuns b → PickRuns (chosen_or fl a b)
  chosen_or-Runs none b pa pb = pb
  chosen_or-Runs (some c) b pa pb = pa

module _ (fl : Floats) (o : IsOrdered fl) where
  open fl use {F}

  higher-asymm : (a b : Scored fl) → higher fl a b ≡ true → higher fl b a ≡ false
  higher-asymm (minus_inf, _) (minus_inf, _) h = cc
  higher-asymm (minus_inf, _) (finite y, _) h = cc
  higher-asymm (finite x, _) (minus_inf, _) h = refl
  higher-asymm (finite x, _) (finite y, _) h = o.asymm y x h

  not_higher_trans :
      (a b c : Scored fl) → higher fl b a ≡ false → higher fl c b ≡ false → higher fl c a ≡ false
  not_higher_trans (minus_inf, _) (minus_inf, _) (minus_inf, _) h k = refl
  not_higher_trans (minus_inf, _) (minus_inf, _) (finite z, _) h k = k
  not_higher_trans (minus_inf, _) (finite y, _) (minus_inf, _) h k = refl
  not_higher_trans (minus_inf, _) (finite y, _) (finite z, _) h k = cc
  not_higher_trans (finite x, _) (minus_inf, _) (minus_inf, _) h k = refl
  not_higher_trans (finite x, _) (minus_inf, _) (finite z, _) h k = cc
  not_higher_trans (finite x, _) (finite y, _) (minus_inf, _) h k = refl
  not_higher_trans (finite x, _) (finite y, _) (finite z, _) h k = o.not_lt_trans x y z h k

  pub rank-IsSorted :
      (node : NodeProbe) (catalog : List SpecialistCard) (coverage : Coverage)
      → IsSorted (higher fl) (rank_specs_for_node fl node catalog coverage)
  unfolding rank_specs_for_node
  rank-IsSorted node catalog coverage =
      sort_by-IsSorted (higher fl)
        (record { asymm = higher-asymm; not_before_trans = not_higher_trans }) _

  not_lt-minus_inf : (s : FitScore F) → score_lt fl minus_inf s ≡ false → s ≡ minus_inf
  not_lt-minus_inf minus_inf h = refl
  not_lt-minus_inf (finite x) h = cc

  all_minus_inf :
      (ranked : List (Scored fl))
      → IsSorted (higher fl) ranked
      → head_finite fl ranked ≡ none
      → (e : Scored fl) → In e ranked
      → e.0 ≡ minus_inf
  unfolding head_finite
  all_minus_inf [] sorted h e i = absurd (ground (arith, i))
  all_minus_inf ((finite x, spec) ∷ rest) sorted h e i = cc
  all_minus_inf ((minus_inf, spec) ∷ rest) sorted h e (inl same) = sym (ap (λ y. y.0) same)
  all_minus_inf ((minus_inf, spec) ∷ rest) sorted h e (inr i) =
      not_lt-minus_inf e.0 (All-In (λ y. score_lt fl minus_inf y.0 ≡ false) e rest sorted.0 i)

  In-scored :
      (node : NodeProbe) (coverage : Coverage) (c : SpecialistCard) (cards : List SpecialistCard)
      → In c cards
      → In (scored fl node coverage c) (map (scored fl node coverage) cards)
  In-scored node coverage c [] h = absurd (ground (arith, h))
  In-scored node coverage c (x ∷ cards) (inl e) = inl (ap (scored fl node coverage) e)
  In-scored node coverage c (x ∷ cards) (inr h) = inr (In-scored node coverage c cards h)

  -- Where the best score is -inf, the node can run nothing of the catalog.
  pub none-Fits :
      (node : NodeProbe) (catalog : List SpecialistCard) (coverage : Coverage)
      → head_finite fl (rank_specs_for_node fl node catalog coverage) ≡ none
      → All (λ c. ¬ Fits c node) catalog
  unfolding rank_specs_for_node
  none-Fits node catalog coverage h =
      All-from (λ c. ¬ Fits c node) catalog
        (λ c i. Fits-minus_inf fl c node coverage (
          all_minus_inf (sort_by (higher fl) (map (scored fl node coverage) catalog))
            (rank-IsSorted node catalog coverage) h (scored fl node coverage c)
            (In-sort_by (higher fl) _ _ (In-scored node coverage c catalog i))))
