-- ===== src/Allocator/Place.antt =====
-- The loops of mesh/allocator.py that place specialists on nodes. The texts of the rationales are
-- left out.
use slancha_mesh.Common.{
  ℕ, zero, suc, String, Bool, true, false, Option, none, some, List, [], ◌∷◌, map, if◌then◌else◌,
  ◌==◌, ◌||◌, not, any, keep, take, is_empty,
}
use slancha_mesh.Common.Dict.{Assoc, insert}
use slancha_mesh.Common.Sort.{sort_by}
use slancha_mesh.Common.Floats.{Floats}
use slancha_mesh.Models.{NodeProbe, SpecialistCard, NodeSuggestion}
use slancha_mesh.Allocator.Score.{FitScore, minus_inf, finite, model_fit_score, Coverage, cover}

-- What the loops read and write.
pub record Allocation (F : Type 0) : Type 0 where
  pub remaining : List NodeProbe
  pub coverage : Coverage
  pub suggestions : Assoc (NodeSuggestion (FitScore F))

abbrev pub is_one_of : List String → String → Bool
is_one_of names d = any (λ n. n == d) names

-- A set of domains as a list; only membership and emptiness are read.
abbrev pub domains_of : List SpecialistCard → List String
domains_of cards = map (λ c. c.domain) cards

abbrev pub discard : String → List String → List String
discard d names = keep (λ n. not (n == d)) names

abbrev pub is_other : SpecialistCard → SpecialistCard → Bool
is_other spec s = not (s.specialist_id == spec.specialist_id)

module _ (fl : Floats) where
  open fl use {F, lt}

  abbrev pub Scored : Type 0
  Scored = FitScore F × SpecialistCard

  abbrev pub score_lt : FitScore F → FitScore F → Bool
  score_lt minus_inf minus_inf = false
  score_lt minus_inf (finite y) = true
  score_lt (finite x) minus_inf = false
  score_lt (finite x) (finite y) = lt x y

  abbrev pub higher : Scored → Scored → Bool
  higher a b = score_lt b.0 a.0

  abbrev pub scored : NodeProbe → Coverage → SpecialistCard → Scored
  scored node coverage spec = (model_fit_score fl spec node coverage, spec)

  unfoldable pub rank_specs_for_node : NodeProbe → List SpecialistCard → Coverage → List Scored
  rank_specs_for_node node catalog coverage = sort_by higher (map (scored node coverage) catalog)

  -- [s for sc, s in ranked if sc > -inf]
  unfoldable pub eligible : List Scored → List SpecialistCard
  eligible [] = []
  eligible ((minus_inf, spec) ∷ rest) = eligible rest
  eligible ((finite x, spec) ∷ rest) = spec ∷ eligible rest

  abbrev pub no_fit : String → NodeSuggestion (FitScore F)
  no_fit node_id = record {
    node_id = node_id;
    primary = none;
    secondaries = [];
    alternates = [];
    sticky = false;
    fit_score = minus_inf;
  }

  abbrev pub hosting :
      String → SpecialistCard → F → List SpecialistCard → NodeSuggestion (FitScore F)
  hosting node_id spec score alternates = record {
    node_id = node_id;
    primary = some spec;
    secondaries = [];
    alternates = alternates;
    sticky = false;
    fit_score = finite score;
  }

  -- The first entry with a score whose domain is still uncovered.
  unfoldable pub first_eligible : List String → List Scored → Option (F × SpecialistCard)
  first_eligible uncovered [] = none
  first_eligible uncovered ((minus_inf, spec) ∷ rest) = first_eligible uncovered rest
  first_eligible uncovered ((finite x, spec) ∷ rest) =
      if is_one_of uncovered spec.domain then some (x, spec) else first_eligible uncovered rest

  abbrev pub Pick : Type 0
  Pick = F × NodeProbe × SpecialistCard

  -- `if best is None or sc > best[0]: best = (sc, node, spec)`
  unfoldable pub improve : NodeProbe → Option (F × SpecialistCard) → Option Pick → Option Pick
  improve node none best = best
  improve node (some (x, spec)) none = some (x, node, spec)
  improve node (some (x, spec)) (some (y, m, s)) =
      if lt y x then some (x, node, spec) else some (y, m, s)

  unfoldable pub best_pair :
      List SpecialistCard → List String → Coverage → List NodeProbe → Option Pick → Option Pick
  unfolding improve first_eligible rank_specs_for_node
  best_pair candidates uncovered coverage [] best = best
  best_pair candidates uncovered coverage (node ∷ nodes) best =
      best_pair candidates uncovered coverage nodes (
        improve node (first_eligible uncovered (rank_specs_for_node node candidates coverage)) best)

  unfoldable pub assign : List SpecialistCard → Pick → Allocation F → Allocation F
  unfolding rank_specs_for_node eligible cover
  assign catalog (x, node, spec) a =
      let coverage = cover spec.domain node.node_id a.coverage in
      let ranked = rank_specs_for_node node catalog coverage in
      record {
        remaining = keep (λ n. not (n.node_id == node.node_id)) a.remaining;
        coverage = coverage;
        suggestions =
            insert node.node_id
              (hosting node.node_id spec x (take 3 (keep (is_other spec) (eligible ranked))))
              a.suggestions;
      }

  -- `while remaining and uncovered`, with fuel; `none` means that the fuel ran out.
  unfoldable pub cover_domains :
      ℕ
      → List SpecialistCard
      → List SpecialistCard
      → List String
      → Allocation F
      → Option (Allocation F)
  unfolding best_pair assign
  cover_domains zero catalog candidates uncovered a = none
  cover_domains (suc fuel) catalog candidates uncovered a =
      if is_empty a.remaining || is_empty uncovered
      then some a
      else elim (best_pair candidates uncovered a.coverage a.remaining none) [
        | none ↦ some a
        | some (x, node, spec) ↦
            cover_domains fuel catalog candidates (discard spec.domain uncovered)
              (assign catalog (x, node, spec) a)
      ]

  -- The node's best specialist, or none where the best score is -inf.
  unfoldable pub place_ranked : NodeProbe → List Scored → Allocation F → Allocation F
  unfolding eligible cover
  place_ranked node [] a = record a {
    suggestions = insert node.node_id (no_fit node.node_id) a.suggestions;
  }
  place_ranked node ((minus_inf, spec) ∷ rest) a = record a {
    suggestions = insert node.node_id (no_fit node.node_id) a.suggestions;
  }
  place_ranked node ((finite x, spec) ∷ rest) a = record a {
    coverage = cover spec.domain node.node_id a.coverage;
    suggestions =
        insert node.node_id (hosting node.node_id spec x (take 3 (eligible rest))) a.suggestions;
  }

  -- The loop of `best_per_machine`, which is also the last one of `full_set`.
  unfoldable pub place_each : List SpecialistCard → List NodeProbe → Allocation F → Allocation F
  unfolding place_ranked rank_specs_for_node
  place_each catalog [] a = a
  place_each catalog (node ∷ nodes) a =
      place_each catalog nodes (place_ranked node (rank_specs_for_node node catalog a.coverage) a)
