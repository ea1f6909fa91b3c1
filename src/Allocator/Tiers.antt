-- ===== src/Allocator/Tiers.antt =====
-- The default strategy of mesh/allocator.py, by tiers, and `allocate_cluster`. A share of the traffic
-- is counted in thousandths.
use slancha_mesh.Common.{
  ℕ, suc, ◌-◌, ◌*◌, String, Bool, Option, none, some, List, [], ◌∷◌, ltb, leb, eqb, if◌then◌else◌,
  ◌==◌, ◌&&◌, ◌||◌, not, keep, take, length, is_empty,
}
use slancha_mesh.Common.Dict.{Assoc, insert, has}
use slancha_mesh.Common.Floats.{Floats}
use slancha_mesh.Models.{NodeProbe, SpecialistCard, NodeSuggestion}
use slancha_mesh.Allocator.Score.{FitScore, minus_inf, finite, Coverage, cover, effective_vram_gb}
use slancha_mesh.Allocator.Place.{
  Allocation, is_one_of, domains_of, Scored, rank_specs_for_node, eligible, is_other, no_fit,
  hosting, cover_domains, place_each,
}

abbrev pub tier_1_domains : List String
tier_1_domains = "math" ∷ "code" ∷ "general" ∷ "reasoning" ∷ []

abbrev pub tier_2_domains : List String
tier_2_domains = "multilingual" ∷ "tool_use" ∷ "summarization" ∷ []

abbrev pub tier_3_domains : List String
tier_3_domains = "vision" ∷ "embeddings" ∷ "image_gen" ∷ "whisper" ∷ []

unfoldable pub domain_tier : String → ℕ
domain_tier domain =
    if is_one_of tier_1_domains domain
    then 1
    else if is_one_of tier_2_domains domain
    then 2
    else if is_one_of tier_3_domains domain
    then 3
    else 2

abbrev pub in_tier : ℕ → List SpecialistCard → List SpecialistCard
in_tier tier catalog = keep (λ c. eqb (domain_tier c.domain) tier) catalog

-- The domains with at least 5% of the traffic.
unfoldable pub hot_domains : Assoc ℕ → List String
hot_domains [] = []
hot_domains ((domain, share) ∷ rest) =
    let more = hot_domains rest in if leb 50 share then domain ∷ more else more

-- The first domain with the largest share.
unfoldable pub heaviest : Assoc ℕ → String → ℕ → String
heaviest [] domain share = domain
heaviest ((d, s) ∷ rest) domain share =
    heaviest rest (if ltb share s then d else domain) (if ltb share s then s else share)

unfoldable pub heavy_domain : Assoc ℕ → String
unfolding heaviest
heavy_domain [] = "general"
heavy_domain ((d, s) ∷ rest) = heaviest rest d s

-- {n.node_id: n for n in nodes}.get(node_id): the last node of that id.
unfoldable pub node_by_id : String → List NodeProbe → Option NodeProbe → Option NodeProbe
node_by_id node_id [] found = found
node_by_id node_id (n ∷ nodes) found =
    node_by_id node_id nodes (if n.node_id == node_id then some n else found)

-- A specialist that may run beside a primary in the memory that the primary leaves.
abbrev pub may_coexist : Coverage → SpecialistCard → ℕ → SpecialistCard → Bool
may_coexist coverage primary remaining_mem s =
    (is_one_of tier_1_domains s.domain || is_one_of tier_2_domains s.domain)
    && not (has s.domain coverage)
    && is_other primary s
    && leb s.runtime_gb remaining_mem

module _ (fl : Floats) where
  open fl use {F}

  unfoldable pub fill :
      List SpecialistCard → List SpecialistCard → Allocation F → Option (Allocation F)
  unfolding cover_domains
  fill catalog candidates a =
      let uncovered = keep (λ d. not (has d a.coverage)) (domains_of candidates) in
      cover_domains fl (suc (length uncovered)) catalog candidates uncovered a

  -- The first entry with a score.
  unfoldable pub first_finite : List (Scored fl) → Option (F × SpecialistCard)
  first_finite [] = none
  first_finite ((minus_inf, spec) ∷ rest) = first_finite rest
  first_finite ((finite x, spec) ∷ rest) = some (x, spec)

  abbrev attach :
      String
      → NodeSuggestion (FitScore F)
      → Option (F × SpecialistCard)
      → Allocation F
      → Allocation F
  attach node_id sugg none a = a
  attach node_id sugg (some (x, spec)) a = record a {
    coverage = cover spec.domain node_id a.coverage;
    suggestions = insert node_id (record sugg { secondaries = spec ∷ [] }) a.suggestions;
  }

  -- One round of the loop over the suggestions, with the primary and the node that it found.
  unfoldable pub second_for :
      List SpecialistCard
      → String
      → NodeSuggestion (FitScore F)
      → Option SpecialistCard
      → Option NodeProbe
      → Allocation F
      → Allocation F
  unfolding rank_specs_for_node first_finite cover effective_vram_gb
  second_for catalog node_id sugg none found a = a
  second_for catalog node_id sugg (some primary) none a = a
  second_for catalog node_id sugg (some primary) (some node) a =
      let eff_mem = effective_vram_gb node in
      if leb eff_mem 0
      then a
      else if ltb eff_mem (2 * primary.runtime_gb)
      then a
      else let candidates =
          keep (may_coexist a.coverage primary (eff_mem - primary.runtime_gb)) catalog in
        attach node_id sugg (first_finite (rank_specs_for_node fl node candidates a.coverage)) a

  unfoldable pub fill_secondaries :
      List NodeProbe
      → List SpecialistCard
      → Assoc (NodeSuggestion (FitScore F))
      → Allocation F
      → Allocation F
  unfolding second_for node_by_id
  fill_secondaries nodes catalog [] a = a
  fill_secondaries nodes catalog ((node_id, sugg) ∷ rest) a =
      fill_secondaries nodes catalog rest
        (second_for catalog node_id sugg sugg.primary (node_by_id node_id nodes none) a)

  -- The first entry with a score in the heavy domain.
  unfoldable pub first_in_domain : String → List (Scored fl) → Option (F × SpecialistCard)
  first_in_domain domain [] = none
  first_in_domain domain ((minus_inf, spec) ∷ rest) = first_in_domain domain rest
  first_in_domain domain ((finite x, spec) ∷ rest) =
      if spec.domain == domain then some (x, spec) else first_in_domain domain rest

  -- ranked[0], where its score is not -inf.
  unfoldable pub head_finite : List (Scored fl) → Option (F × SpecialistCard)
  head_finite [] = none
  head_finite ((minus_inf, spec) ∷ rest) = none
  head_finite ((finite x, spec) ∷ rest) = some (x, spec)

  abbrev pub chosen_or :
      Option (F × SpecialistCard) → Option (F × SpecialistCard) → Option (F × SpecialistCard)
  chosen_or none other = other
  chosen_or (some c) other = some c

  unfoldable pub place_replica :
      NodeProbe → List (Scored fl) → Option (F × SpecialistCard) → Allocation F → Allocation F
  unfolding eligible cover
  place_replica node ranked none a = record a {
    suggestions = insert node.node_id (no_fit fl node.node_id) a.suggestions;
  }
  place_replica node ranked (some (x, spec)) a = record a {
    coverage = cover spec.domain node.node_id a.coverage;
    suggestions =
        insert node.node_id
          (hosting fl node.node_id spec x (take 3 (keep (is_other spec) (eligible fl ranked))))
          a.suggestions;
  }

  unfoldable pub promote_replicas :
      String → List SpecialistCard → List NodeProbe → Allocation F → Allocation F
  unfolding place_replica first_in_domain head_finite rank_specs_for_node
  promote_replicas domain catalog [] a = a
  promote_replicas domain catalog (node ∷ nodes) a =
      let ranked = rank_specs_for_node fl node catalog a.coverage in
      promote_replicas domain catalog nodes (
        place_replica node ranked (chosen_or (first_in_domain domain ranked) (head_finite ranked))
          a)

  -- A node with no suggestion is recorded as one that hosts nothing.
  unfoldable pub record_missing : List NodeProbe → Allocation F → Allocation F
  record_missing [] a = a
  record_missing (node ∷ nodes) a = record_missing nodes (
      if has node.node_id a.suggestions
      then a
      else record a { suggestions = insert node.node_id (no_fit fl node.node_id) a.suggestions })

  -- What follows the three tiers.
  unfoldable pub after_tiers :
      List NodeProbe → List SpecialistCard → Assoc ℕ → Allocation F → Allocation F
  unfolding fill_secondaries promote_replicas record_missing heavy_domain
  after_tiers nodes catalog traffic_mix a =
      let b = fill_secondaries nodes catalog a.suggestions a in
      record_missing nodes (promote_replicas (heavy_domain traffic_mix) catalog b.remaining b)

  infixl 5 ◌>>=◌
  abbrev ◌>>=◌ :
      Option (Allocation F) → (Allocation F → Option (Allocation F)) → Option (Allocation F)
  none >>= f = none
  some a >>= f = f a

  abbrev pub start : List NodeProbe → Allocation F
  start nodes = record { remaining = nodes; coverage = []; suggestions = [] }

  -- The third tier is filled for the domains with traffic only.
  unfoldable pub fill_hot : List SpecialistCard → List String → Allocation F → Option (Allocation F)
  unfolding fill domain_tier
  fill_hot catalog hot a =
      if is_empty hot
      then some a
      else fill catalog
          (keep (λ c. is_one_of hot c.domain && is_one_of tier_3_domains c.domain)
            (in_tier 3 catalog))
          a

  unfoldable pub allocate_tiered :
      List NodeProbe → List SpecialistCard → Assoc ℕ → Option (Allocation F)
  unfolding fill fill_hot after_tiers domain_tier hot_domains
  allocate_tiered nodes catalog traffic_mix = do
    a ← fill catalog (in_tier 1 catalog) (start nodes)
    b ← fill catalog (in_tier 2 catalog) a
    c ← fill_hot catalog (hot_domains traffic_mix) b
    some (after_tiers nodes catalog traffic_mix c)

  unfoldable pub allocate_full_set : List NodeProbe → List SpecialistCard → Option (Allocation F)
  unfolding cover_domains place_each
  allocate_full_set nodes catalog = do
    let uncovered = domains_of catalog
    a ← cover_domains fl (suc (length uncovered)) catalog catalog uncovered (start nodes)
    some (place_each fl catalog a.remaining a)

-- Which strategy is asked for.
pub data Strategy : Type 0 where
  best_per_machine full_set tiered : Strategy

-- The suggestions; `none` would mean that a loop ran out of fuel.
module _ (fl : Floats) where
  unfoldable pub allocate :
      List NodeProbe → List SpecialistCard → Assoc ℕ → Strategy → Option (Allocation fl.F)
  unfolding allocate_tiered allocate_full_set place_each
  allocate nodes catalog traffic_mix best_per_machine =
      some (place_each fl catalog nodes (start fl nodes))
  allocate nodes catalog traffic_mix full_set = allocate_full_set fl nodes catalog
  allocate nodes catalog traffic_mix tiered = allocate_tiered fl nodes catalog traffic_mix

  abbrev pub suggestions_of :
      Option (Allocation fl.F) → Option (Assoc (NodeSuggestion (FitScore fl.F)))
  suggestions_of none = none
  suggestions_of (some a) = some a.suggestions

  unfoldable pub allocate_cluster :
      List NodeProbe
      → List SpecialistCard
      → Assoc ℕ
      → Strategy
      → Option (Assoc (NodeSuggestion (FitScore fl.F)))
  unfolding allocate
  allocate_cluster nodes catalog traffic_mix strategy =
      suggestions_of (allocate nodes catalog traffic_mix strategy)
