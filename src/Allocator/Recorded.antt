-- ===== src/Allocator/Recorded.antt =====
-- The allocation that `run_allocator` of mesh/registry.py records, with `allocate_cluster` of
-- mesh/allocator.py as the allocator.
use slancha_mesh.Common.{
  ℕ, String, ◌≡◌, refl, ap, sym, ◌∙◌, subst, true, Option, none, some, List, [], ◌∷◌, ◌++◌, arith,
  inl, inr, Bool-cases, All, All-mono, In, Option-cases, some-injective, ◌==◌, is_some,
}
use slancha_mesh.Common.Dict.{Assoc, lookup, has}
use slancha_mesh.Common.Floats.{Floats, IsOrdered}
use slancha_mesh.Models.{NodeProbe, SpecialistCard, NodeSuggestion}
use slancha_mesh.Registry.State.{allocation, Env, MeshRegistry}
use slancha_mesh.Registry.Ingest.{
  Outcome, done, raised, latest_hardware, values, record_event, recorded, run_allocator,
}
use slancha_mesh.Registry.Keeps.{record_event-events}
use slancha_mesh.Allocator.Score.{FitScore}
use slancha_mesh.Allocator.Tiers.{Strategy, allocate_cluster}
use slancha_mesh.Allocator.Sound.{PrimaryOf}
use slancha_mesh.Allocator.Suggested.{allocate_cluster_returns, suggestions_are_runnable}

abbrev pub primary_id : Option SpecialistCard → Option String
primary_id none = none
primary_id (some card) = some card.specialist_id

module _ {S : Type 0} where
  -- {nid: s.primary.specialist_id if s.primary else None}
  unfoldable pub primary_ids : Assoc (NodeSuggestion S) → Assoc (Option String)
  primary_ids [] = []
  primary_ids ((node_id, s) ∷ rest) = (node_id, primary_id s.primary) ∷ primary_ids rest

  abbrev primary_at : Option (NodeSuggestion S) → Option (Option String)
  primary_at none = none
  primary_at (some s) = some (primary_id s.primary)

  primary_ids-lookup :
      (node_id : String) (m : Assoc (NodeSuggestion S))
      → lookup node_id (primary_ids m) ≡ primary_at (lookup node_id m)
  unfolding primary_ids lookup
  primary_ids-lookup node_id [] = refl
  primary_ids-lookup node_id ((k, s) ∷ m) = elim (Bool-cases (k == node_id)) [
    | inl e ↦ rw e refl
    | inr e ↦ rw e (primary_ids-lookup node_id m)
  ]

  primary_ids-has :
      (node_id : String) (m : Assoc (NodeSuggestion S))
      → has node_id m ≡ true
      → has node_id (primary_ids m) ≡ true
  primary_ids-has node_id m h = elim (Option-cases (lookup node_id m)) [
    | inl e ↦ absurd (ground (arith, h, e))
    | inr (s, e) ↦ ap is_some (primary_ids-lookup node_id m ∙ ap primary_at e)
  ]

module _ (fl : Floats) (traffic_mix : Assoc ℕ) (strategy : Strategy) where
  -- The allocator returns a dictionary wherever the order of scores is one.
  abbrev pub primaries_of : Option (Assoc (NodeSuggestion (FitScore fl.F))) → Assoc (Option String)
  primaries_of none = []
  primaries_of (some suggestions) = primary_ids suggestions

  -- The call of the allocator in `run_allocator`.
  unfoldable pub suggest : List NodeProbe → List SpecialistCard → Assoc (Option String)
  unfolding allocate_cluster primary_ids
  suggest nodes catalog = primaries_of (allocate_cluster fl nodes catalog traffic_mix strategy)

  module _ (nodes : List NodeProbe) (catalog : List SpecialistCard) where
    -- A node of the id can run a specialist of the catalog with that id, or none if there is no id.
    abbrev pub RunsIds : String → Option String → Type 0
    RunsIds node_id primary =
        (n : NodeProbe) × In n nodes
        × (n.node_id ≡ node_id)
        × (card : Option SpecialistCard) × (primary_id card ≡ primary)
        × PrimaryOf nodes catalog n card

    suggest-runs :
        IsOrdered fl
        → (node_id : String) (primary : Option String)
        → lookup node_id (suggest nodes catalog) ≡ some primary
        → RunsIds node_id primary
    unfolding suggest
    suggest-runs o node_id primary listed =
        let (m, returns, all) = allocate_cluster_returns fl o nodes catalog traffic_mix strategy in
        let found : lookup node_id (primary_ids m) ≡ some primary =
          subst (λ r. lookup node_id (primaries_of r) ≡ some primary) returns listed in
        let here = sym (primary_ids-lookup node_id m) ∙ found in
        elim (Option-cases (lookup node_id m)) [
          | inl e ↦ absurd (ground (arith, here, e))
          | inr (s, e) ↦
              let (n, i, same, runs, alternates) =
                suggestions_are_runnable fl o nodes catalog traffic_mix strategy node_id m s returns
                  e in
              (
                n,
                i,
                same,
                s.primary,
                some-injective (primary_id s.primary) primary (sym (ap primary_at e) ∙ here),
                runs,
              )
        ]

    suggest-all : IsOrdered fl → All (λ n. has n.node_id (suggest nodes catalog) ≡ true) nodes
    unfolding suggest
    suggest-all o =
        let (m, returns, all) = allocate_cluster_returns fl o nodes catalog traffic_mix strategy in
        subst (λ r. All (λ n. has n.node_id (primaries_of r) ≡ true) nodes) (sym returns)
          (All-mono (λ n. has n.node_id m ≡ true) (λ n. has n.node_id (primary_ids m) ≡ true)
            (λ n h. primary_ids-has n.node_id m h) nodes all)

abbrev outcome_of : {A : Type 0} → Outcome A → Option A
outcome_of (done a) = some a
outcome_of (raised e) = none

recorded-done :
    {D A : Type 0} (a b : A) (o : Option (MeshRegistry D)) (before after : MeshRegistry D)
    → recorded a o before ≡ (done b, after)
    → (a ≡ b) × (o ≡ some after)
recorded-done a b none before after e =
    absurd (ground (arith, ap (λ r. is_some (outcome_of r.0)) e))
recorded-done a b (some r) before after e =
    (some-injective a b (ap (λ x. outcome_of x.0) e), ap (λ x. some x.1) e)

-- If the order of scores is one and `run_allocator` returns with `allocate_cluster` as its allocator:
-- it has appended its result to the log; every node whose hardware stands in the log has an entry
-- in it; and an entry names a specialist of the catalog whose requirements a node of that id meets
-- by its latest hardware, or none, if such a node meets the requirements of no specialist.
pub allocations_are_runnable :
    {J D : Type 0} (fl : Floats) (traffic_mix : Assoc ℕ) (strategy : Strategy) (env : Env J D)
    (now : ℕ) (name : String) (r after : MeshRegistry D) (result : Assoc (Option String))
    → IsOrdered fl
    → run_allocator env (suggest fl traffic_mix strategy) now name r ≡ (done result, after)
    → (after.events ≡ r.events ++ allocation now name result ∷ [])
      × All (λ n. has n.node_id result ≡ true) (values (latest_hardware r.events []))
      × ((node_id : String) (primary : Option String)
          → lookup node_id result ≡ some primary
          → RunsIds fl traffic_mix strategy
              (values (latest_hardware r.events []))
              (values r.catalog)
              node_id
              primary)
unfolding run_allocator
allocations_are_runnable fl traffic_mix strategy env now name r after result o e =
    let nodes = values (latest_hardware r.events []) in
    let cards = values r.catalog in
    let suggested = suggest fl traffic_mix strategy nodes cards in
    let (same, stored) =
      recorded-done suggested result (record_event env (allocation now name suggested) r) r after
        e in
    (
      record_event-events env (allocation now name suggested) r after stored
          ∙ ap (λ x. r.events ++ allocation now name x ∷ []) same,
      subst (λ x. All (λ n. has n.node_id x ≡ true) nodes) same
          (suggest-all fl traffic_mix strategy nodes cards o),
      λ node_id primary listed.
          suggest-runs fl traffic_mix strategy nodes cards o node_id primary
            (subst (λ x. lookup node_id x ≡ some primary) (sym same) listed),
    )
