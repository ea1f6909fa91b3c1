-- ===== src/Allocator/Suggested.antt =====
-- What `allocate_cluster` of mesh/allocator.py suggests, for every strategy.
use slancha_mesh.Common.{All-keep}
use slancha_mesh.Common.{
  ℕ, suc, String, ◌≡◌, refl, ap, sym, ◌∙◌, true, some, List, [], arith, ◌⊎◌, inl, inr, keep, All,
  All-from, In, Bool-cases, subst, is_empty, length, some-injective, not,
}
use slancha_mesh.Common.Dict.{Assoc, has, lookup}
use slancha_mesh.Common.DictEntries.{AllEntries, AllEntries-lookup}
use slancha_mesh.Common.Floats.{Floats, IsOrdered}
use slancha_mesh.Models.{NodeProbe, SpecialistCard, NodeSuggestion}
use slancha_mesh.Allocator.Score.{FitScore}
use slancha_mesh.Allocator.Place.{Allocation, domains_of}
use slancha_mesh.Allocator.Tiers.{
  Strategy, best_per_machine, full_set, tiered, in_tier, hot_domains, fill, fill_hot, after_tiers,
  allocate_tiered, allocate_full_set, allocate, suggestions_of, allocate_cluster, start,
  heavy_domain, fill_secondaries, promote_replicas,
}
use slancha_mesh.Allocator.Ranking.{Runs}
use slancha_mesh.Allocator.Sound.{Placed, PrimaryOf, Coexists, Waiting-none}
use slancha_mesh.Allocator.Each.{
  IsUpTo, place_each-IsUpTo, promote_replicas-IsUpTo, record_missing_idle,
}
use slancha_mesh.Allocator.Cover.{cover_domains-returns}
use slancha_mesh.Allocator.Secondaries.{fill_secondaries-IsUpTo}

module _ (fl : Floats) (o : IsOrdered fl) (nodes : List NodeProbe)
    (catalog : List SpecialistCard) where
  open fl use {F}

  everyone : All (λ n. In n nodes) nodes
  everyone = All-from (λ n. In n nodes) nodes (λ n i. i)

  start-IsUpTo : IsUpTo fl o nodes catalog nodes (start fl nodes)
  start-IsUpTo = record {
    placed = tt;
    waiting =
        All-from (λ n. In n nodes ⊎ (has n.node_id (start fl nodes).suggestions ≡ true)) nodes
          (λ n i. inl i);
  }

  -- The state between two loops, whatever the candidates.
  abbrev IsBetween : Allocation F → Type 0
  IsBetween a = All (λ n. In n nodes) a.remaining × IsUpTo fl o nodes catalog a.remaining a

  fill-returns :
      (candidates : List SpecialistCard) (a : Allocation F)
      → All (λ c. In c catalog) candidates
      → IsBetween a
      → (b : Allocation F) × (fill fl catalog candidates a ≡ some b) × IsBetween b
  unfolding fill
  fill-returns candidates a within (listed, up_to) =
      let uncovered = keep (λ d. not (has d a.coverage)) (domains_of candidates) in
      let (b, returns, open_b) =
        cover_domains-returns fl o nodes catalog candidates within (suc (length uncovered))
          uncovered a (omega arith) (record { listed = listed; up_to = up_to }) in
      (b, returns, (open_b.listed, open_b.up_to))

  whole : All (λ c. In c catalog) catalog
  whole = All-from (λ c. In c catalog) catalog (λ c i. i)

  in_tier-within : (tier : ℕ) → All (λ c. In c catalog) (in_tier tier catalog)
  in_tier-within tier = All-keep (λ c. In c catalog) _ catalog whole

  fill_hot-returns :
      (hot : List String) (a : Allocation F)
      → IsBetween a
      → (b : Allocation F) × (fill_hot fl catalog hot a ≡ some b) × IsBetween b
  unfolding fill_hot
  fill_hot-returns hot a h = elim (Bool-cases (is_empty hot)) [
    | inl e ↦ (a, rw e refl, h)
    | inr e ↦ rw e (fill-returns _ a (All-keep (λ c. In c catalog) _ _ (in_tier-within 3)) h)
  ]

  after_tiers-IsUpTo :
      (traffic_mix : Assoc ℕ) (a : Allocation F)
      → IsBetween a
      → IsUpTo fl o nodes catalog [] (after_tiers fl nodes catalog traffic_mix a)
  unfolding after_tiers
  after_tiers-IsUpTo traffic_mix a (listed, up_to) =
      let (with_seconds, same) =
        fill_secondaries-IsUpTo fl o nodes catalog a.remaining a.suggestions a up_to.placed up_to in
      let b = fill_secondaries fl nodes catalog a.suggestions a in
      let c = promote_replicas fl (heavy_domain traffic_mix) catalog b.remaining b in
      let promoted : IsUpTo fl o nodes catalog [] c =
        promote_replicas-IsUpTo fl o nodes catalog (heavy_domain traffic_mix) b.remaining b
          (subst (All (λ n. In n nodes)) (sym same) listed)
          (subst (λ rest. IsUpTo fl o nodes catalog rest b) (sym same) with_seconds) in
      rw
        (record_missing_idle fl o nodes catalog nodes c
          (Waiting-none nodes catalog c.suggestions promoted.waiting))
        promoted

  allocate-returns :
      (traffic_mix : Assoc ℕ) (strategy : Strategy)
      → (a : Allocation F) × (allocate fl nodes catalog traffic_mix strategy ≡ some a)
        × IsUpTo fl o nodes catalog [] a
  unfolding allocate allocate_full_set allocate_tiered
  allocate-returns traffic_mix best_per_machine =
      (_, refl, place_each-IsUpTo fl o nodes catalog nodes _ everyone start-IsUpTo)
  allocate-returns traffic_mix full_set =
      let (a, returns, open_a) =
        cover_domains-returns fl o nodes catalog catalog whole (suc (length (domains_of catalog)))
          (domains_of catalog) (start fl nodes) (omega arith)
          (record { listed = everyone; up_to = start-IsUpTo }) in
      (
        _,
        rw returns refl,
        place_each-IsUpTo fl o nodes catalog a.remaining a open_a.listed open_a.up_to,
      )
  allocate-returns traffic_mix tiered =
      let (a, ra, ha) =
        fill-returns (in_tier 1 catalog) (start fl nodes) (in_tier-within 1)
          (everyone, start-IsUpTo) in
      let (b, rb, hb) = fill-returns (in_tier 2 catalog) a (in_tier-within 2) ha in
      let (c, rc, hc) = fill_hot-returns (hot_domains traffic_mix) b hb in
      (_, rw (ra, rb, rc) refl, after_tiers-IsUpTo traffic_mix c hc)

module _ (fl : Floats) (o : IsOrdered fl) (nodes : List NodeProbe) (catalog : List SpecialistCard)
    (traffic_mix : Assoc ℕ) (strategy : Strategy) where
  -- If the order of scores is one, then under every strategy the loops of the allocator end, and the
  -- result has a suggestion for each node that was given.
  pub allocate_cluster_returns :
      (suggestions : Assoc (NodeSuggestion (FitScore fl.F))) × (allocate_cluster fl nodes catalog
          traffic_mix strategy
        ≡ some suggestions)
      × All (λ n. has n.node_id suggestions ≡ true) nodes
  unfolding allocate_cluster
  allocate_cluster_returns =
      let (a, returns, done) = allocate-returns fl o nodes catalog traffic_mix strategy in
      (
        a.suggestions,
        ap (suggestions_of fl) returns,
        Waiting-none nodes catalog a.suggestions done.waiting,
      )

  result-Placed :
      (id : String) (suggestions : Assoc (NodeSuggestion (FitScore fl.F)))
      (s : NodeSuggestion (FitScore fl.F))
      → allocate_cluster fl nodes catalog traffic_mix strategy ≡ some suggestions
      → lookup id suggestions ≡ some s
      → Placed nodes catalog id s
  unfolding allocate_cluster
  result-Placed id suggestions s result listed =
      let (a, returns, done) = allocate-returns fl o nodes catalog traffic_mix strategy in
      let same : a.suggestions ≡ suggestions =
        some-injective _ _ (sym (ap (suggestions_of fl) returns) ∙ result) in
      AllEntries-lookup (Placed nodes catalog) id suggestions
        (subst (AllEntries (Placed nodes catalog)) same done.placed) listed

  -- If the order of scores is one, then under every strategy a suggestion is for a node that was
  -- given: its primary and its alternates are specialists of the catalog whose backend, storage,
  -- memory and FP4 requirements the node meets, and it has no primary only if the node meets the
  -- requirements of no specialist of the catalog.
  pub suggestions_are_runnable :
      (id : String) (suggestions : Assoc (NodeSuggestion (FitScore fl.F)))
      (s : NodeSuggestion (FitScore fl.F))
      → allocate_cluster fl nodes catalog traffic_mix strategy ≡ some suggestions
      → lookup id suggestions ≡ some s
      → (n : NodeProbe) × In n nodes
        × (n.node_id ≡ id)
        × PrimaryOf nodes catalog n s.primary
        × All (Runs catalog n) s.alternates
  suggestions_are_runnable id suggestions s result listed =
      let (n, i, e, primary, alternates, _) = result-Placed id suggestions s result listed in
      (n, i, e, primary, alternates)

  -- If the order of scores is one, then under every strategy a secondary specialist of a suggestion
  -- stands beside a primary, is one of the catalog whose requirements a node of that id meets, the
  -- primary takes at most half of the node's memory, and the two together at most all of it.
  pub secondaries_share_memory :
      (id : String) (suggestions : Assoc (NodeSuggestion (FitScore fl.F)))
      (s : NodeSuggestion (FitScore fl.F))
      → allocate_cluster fl nodes catalog traffic_mix strategy ≡ some suggestions
      → lookup id suggestions ≡ some s
      → All (Coexists nodes catalog id s.primary) s.secondaries
  secondaries_share_memory id suggestions s result listed =
      let (n, i, e, primary, alternates, secondaries) =
        result-Placed id suggestions s result listed in
      secondaries
