-- ===== src/Registry/Ranked.antt =====
-- Which routes `build_ranked_routes` of mesh/registry.py lists under which key.
use mathlib.Core.List.{append-nil}
use slancha_mesh.Common.{
  String, ◌≡◌, refl, sym, ap, ◌∙◌, true, Option, none, some, List, [], ◌∷◌, ◌++◌, arith,
  if◌then◌else◌, ◌==◌, eq_iff, eq_refl, get_or, Bool-cases, inl, inr, subst, All, All-append,
  All-mono, All-from, In, In-append_left, In-append_right, All-In, ◌↔◌,
}
use slancha_mesh.Common.Dict.{Assoc, lookup, lookup-insert}
use slancha_mesh.Common.Sort.{sort_by, All-sort_by, In-sort_by}
use slancha_mesh.Models.{
  DifficultyTier, tier_name, is_healthy, SpecialistCard, NodeBinding, Route, RegistrySnapshot,
}
use slancha_mesh.Registry.Replay.{
  route_key, route_of, healthy_routes, route_before, extend_at, rank_tiers, rank_specialist,
  rank_all, build_ranked_routes,
}

-- The routes under a key.
abbrev pub routes_at : String → Assoc (List Route) → List Route
routes_at key m = get_or (lookup key m) []

routes_at-extend_at :
    (key j : String) (routes : List Route) (m : Assoc (List Route))
    → routes_at j (extend_at key routes m) ≡ routes_at j m ++ (if key == j then routes else [])
unfolding extend_at
routes_at-extend_at key j [] m = elim (Bool-cases (key == j)) [
  | inl e ↦ rw e (sym (append-nil (routes_at j m)))
  | inr e ↦ rw e (sym (append-nil (routes_at j m)))
]
routes_at-extend_at key j (r ∷ routes) m =
    ap (λ o. get_or o []) (lookup-insert key j (routes_at key m ++ r ∷ routes) m)
    ∙ elim (Bool-cases (key == j)) [
      | inl e ↦ rw e (ap (λ x. routes_at x m ++ r ∷ routes) ((eq_iff key j).0 e))
      | inr e ↦ rw e (sym (append-nil (routes_at j m)))
    ]

-- A route stands for a healthy binding.
abbrev Stands : String → List NodeBinding → Route → Type 0
Stands sid bindings route =
    (b : NodeBinding) × In b bindings × (is_healthy b.health ≡ true) × (route ≡ route_of sid b)

healthy_routes_sound :
    (sid : String) (bindings : List NodeBinding)
    → All (Stands sid bindings) (healthy_routes sid bindings)
unfolding healthy_routes
healthy_routes_sound sid [] = tt
healthy_routes_sound sid (b ∷ rest) =
    let more =
      All-mono (Stands sid rest) (Stands sid (b ∷ rest)) (λ route (c, i, h, e). (c, inr i, h, e))
        (healthy_routes sid rest) (healthy_routes_sound sid rest) in
    elim (Bool-cases (is_healthy b.health)) [
      | inl e ↦ rw e ((b, inl refl, e, refl), more)
      | inr e ↦ rw e more
    ]

healthy_routes_complete :
    (sid : String) (b : NodeBinding) (bindings : List NodeBinding)
    → In b bindings
    → is_healthy b.health ≡ true
    → In (route_of sid b) (healthy_routes sid bindings)
unfolding healthy_routes
healthy_routes_complete sid b [] i h = i
healthy_routes_complete sid b (c ∷ rest) (inl e) h =
    rw (ap (λ (x : NodeBinding). is_healthy x.health) e ∙ h) (inl (ap (route_of sid) e))
healthy_routes_complete sid b (c ∷ rest) (inr i) h =
    let more = healthy_routes_complete sid b rest i h in
    elim (Bool-cases (is_healthy c.health)) [ inl e ↦ rw e (inr more) | inr e ↦ rw e more ]

-- A predicate of a key and a route holds of all that is listed.
abbrev Listed : (String → Route → Type 0) → Assoc (List Route) → Type 0
Listed P m = (key : String) → All (P key) (routes_at key m)

-- The routes that one tier of a specialist contributes.
abbrev tier_routes : String → List NodeBinding → List Route
tier_routes sid bindings = sort_by route_before (healthy_routes sid bindings)

Listed-extend_at :
    (P : String → Route → Type 0) (key : String) (routes : List Route) (m : Assoc (List Route))
    → All (P key) routes
    → Listed P m
    → Listed P (extend_at key routes m)
Listed-extend_at P key routes m new h j =
    subst (All (P j)) (sym (routes_at-extend_at key j routes m)) (
      All-append (P j) (routes_at j m) _ (h j) (elim (Bool-cases (key == j)) [
        | inl e ↦ rw e (subst (λ x. All (P x) routes) ((eq_iff key j).0 e) new)
        | inr e ↦ rw e tt
      ]))

-- Extending keeps what is listed.
extend_at-keeps :
    (j key : String) (r : Route) (routes : List Route) (m : Assoc (List Route))
    → In r (routes_at j m)
    → In r (routes_at j (extend_at key routes m))
extend_at-keeps j key r routes m i =
    subst (In r) (sym (routes_at-extend_at key j routes m)) (In-append_left r (routes_at j m) _ i)

extend_at-adds :
    (key : String) (r : Route) (routes : List Route) (m : Assoc (List Route))
    → In r routes
    → In r (routes_at key (extend_at key routes m))
extend_at-adds key r routes m i =
    subst (In r) (sym (routes_at-extend_at key key routes m ∙ rw (eq_refl key) refl))
      (In-append_right r (routes_at key m) routes i)

module _ (sid : String) (card : SpecialistCard) (bindings : List NodeBinding) where
  Listed-rank_tiers :
      (P : String → Route → Type 0) (tiers : List DifficultyTier) (m : Assoc (List Route))
      → All
          (λ tier. All (P (route_key card.domain (tier_name tier))) (tier_routes sid bindings))
          tiers
      → Listed P m
      → Listed P (rank_tiers sid card bindings tiers m)
  unfolding rank_tiers
  Listed-rank_tiers P [] m new h = h
  Listed-rank_tiers P (tier ∷ tiers) m new h = Listed-rank_tiers P tiers _ new.1 (
      Listed-extend_at P (route_key card.domain (tier_name tier)) (tier_routes sid bindings) m new.0
        h)

  rank_tiers-keeps :
      (j : String) (r : Route) (tiers : List DifficultyTier) (m : Assoc (List Route))
      → In r (routes_at j m)
      → In r (routes_at j (rank_tiers sid card bindings tiers m))
  unfolding rank_tiers
  rank_tiers-keeps j r [] m i = i
  rank_tiers-keeps j r (tier ∷ tiers) m i =
      rank_tiers-keeps j r tiers _ (
        extend_at-keeps j (route_key card.domain (tier_name tier)) r (tier_routes sid bindings) m i)

  rank_tiers-adds :
      (tier : DifficultyTier) (r : Route) (tiers : List DifficultyTier) (m : Assoc (List Route))
      → In tier tiers
      → In r (tier_routes sid bindings)
      → In r (
          routes_at (route_key card.domain (tier_name tier)) (rank_tiers sid card bindings tiers m))
  unfolding rank_tiers
  rank_tiers-adds tier r [] m i new = absurd (ground (arith, i))
  rank_tiers-adds tier r (t ∷ tiers) m (inl e) new = rank_tiers-keeps _ r tiers _ (
      subst
        (λ x. In r (
          routes_at (route_key card.domain (tier_name x))
            (extend_at (route_key card.domain (tier_name t)) (tier_routes sid bindings) m)))
        e (extend_at-adds (route_key card.domain (tier_name t)) r (tier_routes sid bindings) m new))
  rank_tiers-adds tier r (t ∷ tiers) m (inr i) new = rank_tiers-adds tier r tiers _ i new

module _ (catalog : Assoc SpecialistCard) where
  -- A route that a specialist's bindings offer under a key.
  abbrev pub Offers : String → List NodeBinding → String → Route → Type 0
  Offers sid bindings key route =
      (card : SpecialistCard) × (tier : DifficultyTier) × (lookup sid catalog ≡ some card)
      × In tier card.difficulty_tiers
      × (key ≡ route_key card.domain (tier_name tier))
      × Stands sid bindings route

  rank_specialist_sound :
      (P : String → Route → Type 0) (sid : String) (bindings : List NodeBinding)
      (o : Option SpecialistCard) (m : Assoc (List Route))
      → lookup sid catalog ≡ o
      → ((key : String) (route : Route) → Offers sid bindings key route → P key route)
      → Listed P m
      → Listed P (rank_specialist o sid bindings m)
  unfolding rank_specialist
  rank_specialist_sound P sid bindings none m e f h = h
  rank_specialist_sound P sid bindings (some card) m e f h =
      Listed-rank_tiers sid card bindings P card.difficulty_tiers m
        (All-from
          (λ tier. All (P (route_key card.domain (tier_name tier))) (tier_routes sid bindings))
          card.difficulty_tiers
          (λ tier i.
            All-sort_by route_before (P (route_key card.domain (tier_name tier)))
              (healthy_routes sid bindings)
              (All-mono (Stands sid bindings) (P (route_key card.domain (tier_name tier)))
                (λ route s. f _ route (card, tier, e, i, refl, s)) (healthy_routes sid bindings)
                (healthy_routes_sound sid bindings))))
        h

  rank_all_sound :
      (P : String → Route → Type 0) (specs : Assoc (List NodeBinding)) (m : Assoc (List Route))
      → ((sid : String) (bindings : List NodeBinding)
          → In (sid, bindings) specs
          → (key : String) (route : Route) → Offers sid bindings key route
          → P key route)
      → Listed P m
      → Listed P (rank_all catalog specs m)
  unfolding rank_all
  rank_all_sound P [] m f h = h
  rank_all_sound P ((sid, bindings) ∷ rest) m f h =
      rank_all_sound P rest _ (λ s b i. f s b (inr i))
        (rank_specialist_sound P sid bindings (lookup sid catalog) m refl
          (f sid bindings (inl refl)) h)

  rank_specialist-keeps :
      (j : String) (r : Route) (o : Option SpecialistCard) (sid : String)
      (bindings : List NodeBinding) (m : Assoc (List Route))
      → In r (routes_at j m)
      → In r (routes_at j (rank_specialist o sid bindings m))
  unfolding rank_specialist
  rank_specialist-keeps j r none sid bindings m i = i
  rank_specialist-keeps j r (some card) sid bindings m i =
      rank_tiers-keeps sid card bindings j r card.difficulty_tiers m i

  rank_all-keeps :
      (j : String) (r : Route) (specs : Assoc (List NodeBinding)) (m : Assoc (List Route))
      → In r (routes_at j m)
      → In r (routes_at j (rank_all catalog specs m))
  unfolding rank_all
  rank_all-keeps j r [] m i = i
  rank_all-keeps j r ((sid, bindings) ∷ rest) m i =
      rank_all-keeps j r rest _ (rank_specialist-keeps j r (lookup sid catalog) sid bindings m i)

  rank_specialist-adds :
      (key : String) (r : Route) (sid : String) (bindings : List NodeBinding)
      (m : Assoc (List Route))
      → Offers sid bindings key r
      → In r (routes_at key (rank_specialist (lookup sid catalog) sid bindings m))
  unfolding rank_specialist
  rank_specialist-adds key r sid bindings m (card, tier, found, i, at, (b, ib, hb, same)) =
      rw (found, at)
        (rank_tiers-adds sid card bindings tier r card.difficulty_tiers m i (
          In-sort_by route_before r (healthy_routes sid bindings) (
            subst (λ x. In x (healthy_routes sid bindings)) (sym same)
              (healthy_routes_complete sid b bindings ib hb))))

  rank_all_complete :
      (key : String) (r : Route) (sid : String) (bindings : List NodeBinding)
      (specs : Assoc (List NodeBinding)) (m : Assoc (List Route))
      → In (sid, bindings) specs
      → Offers sid bindings key r
      → In r (routes_at key (rank_all catalog specs m))
  unfolding rank_all
  rank_all_complete key r sid bindings [] m i o = absurd (ground (arith, i))
  rank_all_complete key r sid bindings ((s, bs) ∷ rest) m (inl e) o = rank_all-keeps key r rest _ (
      subst
        (λ (x : String × List NodeBinding).
          In r (routes_at key (rank_specialist (lookup x.0 catalog) x.0 x.1 m)))
        (sym e) (rank_specialist-adds key r sid bindings m o))
  rank_all_complete key r sid bindings ((s, bs) ∷ rest) m (inr i) o =
      rank_all_complete key r sid bindings rest _ i o

-- The routes listed under a key, however many, are those that the healthy bindings of the
-- catalogued specialists offer: one for each tier of the card whose key it is.
pub ranked_routes_iff :
    (s : RegistrySnapshot) (key : String) (route : Route)
    → In route (routes_at key (build_ranked_routes s)) ↔ (
        (sid : String) × (bindings : List NodeBinding) × In (sid, bindings) s.specialists
        × Offers s.catalog sid bindings key route)
unfolding build_ranked_routes lookup
ranked_routes_iff s key route = (
  All-In _ route (routes_at key (build_ranked_routes s)) (
      rank_all_sound s.catalog
        (λ k r.
          (sid : String) × (bindings : List NodeBinding) × In (sid, bindings) s.specialists
          × Offers s.catalog sid bindings k r)
        s.specialists [] (λ sid bindings i k r o. (sid, bindings, i, o)) (λ k. tt) key),
  λ (sid, bindings, i, o). rank_all_complete s.catalog key route sid bindings s.specialists [] i o,
)
