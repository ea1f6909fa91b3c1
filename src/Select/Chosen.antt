-- ===== src/Select/Chosen.antt =====
-- What `select_mesh_route` of mesh/select.py chooses.
use slancha_mesh.Common.{
  ℕ, ◌-◌, ◌≤◌, String, ◌≡◌, refl, sym, ap, ◌∙◌, Bool, true, false, none, some, List, [], ◌∷◌, arith,
  ◌&&◌, is_empty, ltb→ge, keep, In-keep, Bool-cases, inl, inr, ◌⊎◌, All, All-from, All-In, In,
  subst, some-injective,
}
use slancha_mesh.Common.Sort.{
  sort_by, All-sort_by, In-sort_by, IsSorted, IsKeyOrder, sort_by-IsSorted,
}
use slancha_mesh.Models.{healthy, Route, RegistrySnapshot}
use slancha_mesh.Registry.State.{HeartbeatEvent, MeshRegistry}
use slancha_mesh.Registry.Replay.{build_ranked_routes, snapshot, route_key}
use slancha_mesh.Registry.Snapshots.{standing}
use slancha_mesh.Registry.Ranked.{routes_at}
use slancha_mesh.Registry.Fresh.{ranked_routes_are_alive}
use slancha_mesh.Select.Text.{lower, strip}
use slancha_mesh.Select.Route.{
  ClassifierSignals, domain_for_signals, within_budget, filter_routes, ranked_or_built,
  fall_through, candidate_routes, MeshSelectionResult, lighter, selection, select_mesh_route,
}

lighter-IsKeyOrder : (route_class : String) → IsKeyOrder (lighter route_class)
lighter-IsKeyOrder route_class = record {
  asymm = λ a b e. ground (arith, e);
  not_before_trans = λ a b c e f. ground (arith, e, f);
}

self_not_lighter : (route_class : String) (r : Route) → lighter route_class r r ≡ false
self_not_lighter route_class r = ground arith

pub keep_routes :
    (p : Route → Bool) (whole rows : List Route)
    → All (λ r. In r whole) rows
    → All (λ r. In r whole × (p r ≡ true)) (keep p rows)
unfolding keep
keep_routes p whole [] h = tt
keep_routes p whole (r ∷ rows) h = elim (Bool-cases (p r)) [
  | inl e ↦ rw e ((h.0, e), keep_routes p whole rows h.1)
  | inr e ↦ rw e (keep_routes p whole rows h.1)
]

-- The candidates of a request.
abbrev pub candidates_of : ClassifierSignals → RegistrySnapshot → List Route
candidates_of signals s =
    candidate_routes (domain_for_signals signals) (strip (lower signals.difficulty)) s

-- The best of the candidates within the budgets.
abbrev pub IsLightest : ClassifierSignals → List Route → ℕ → Route → Type 0
IsLightest signals candidates max_queue_ms r =
    In r candidates
    × (within_budget signals.route_class max_queue_ms r ≡ true)
    × ((m : Route)
        → In m candidates
        → within_budget signals.route_class max_queue_ms m ≡ true
        → lighter signals.route_class m r ≡ false)

-- The results with no route and with a route.
abbrev pub FellThrough : MeshSelectionResult → String → Type 0
FellThrough res cloud =
    (res.node_id ≡ none) × (res.model ≡ cloud) × (res.fallback_chain ≡ (cloud, none) ∷ [])

abbrev pub Serves : MeshSelectionResult → Route → Type 0
Serves res r =
    (res.specialist_id ≡ some r.specialist_id)
    × (res.node_id ≡ some r.node_id)
    × (res.node_url ≡ r.node_url)
    × (res.queue_ms_estimated ≡ r.estimated_queue_ms)

selection-cases :
    (signals : ClassifierSignals) (candidates sorted : List Route) (s : RegistrySnapshot)
    (max_queue_ms : ℕ) (cloud : String)
    → All (λ r. In r candidates × (within_budget signals.route_class max_queue_ms r ≡ true)) sorted
    → ((r : Route)
        → In r candidates
        → within_budget signals.route_class max_queue_ms r ≡ true
        → In r sorted)
    → IsSorted (lighter signals.route_class) sorted
    → (FellThrough (selection sorted s cloud) cloud
        × All (λ r. within_budget signals.route_class max_queue_ms r ≡ false) candidates)
      ⊎ ((r : Route) × Serves (selection sorted s cloud) r
          × IsLightest signals candidates max_queue_ms r)
unfolding selection
selection-cases signals candidates [] s max_queue_ms cloud within every order = inl (
  (refl, refl, refl),
  All-from (λ r. within_budget signals.route_class max_queue_ms r ≡ false) candidates
      (λ r i. elim (Bool-cases (within_budget signals.route_class max_queue_ms r)) [
        | inl e ↦ absurd (ground (arith, every r i e))
        | inr e ↦ e
      ]),
)
selection-cases signals candidates (primary ∷ others) s max_queue_ms cloud within every order =
    inr (
      primary,
      (refl, refl, refl, refl),
      (
        within.0.0,
        within.0.1,
        λ m i e. elim (every m i e) [
          | inl same ↦
              subst (λ x. lighter signals.route_class x primary ≡ false) same
                (self_not_lighter signals.route_class primary)
          | inr j ↦ All-In (λ y. lighter signals.route_class y primary ≡ false) m others order.0 j
        ],
      ),
    )

-- For any request and snapshot, either no candidate is within the budgets and the cloud model is
-- returned with no node, or the result is a candidate within the budgets of queue and, for an
-- interactive request, of latency, and no other candidate within them has a better score.
pub select_mesh_route-cases :
    (signals : ClassifierSignals) (s : RegistrySnapshot) (max_queue_ms : ℕ) (cloud : String)
    → (FellThrough (select_mesh_route signals s max_queue_ms cloud) cloud
        × All
            (λ r. within_budget signals.route_class max_queue_ms r ≡ false)
            (candidates_of signals s))
      ⊎ ((r : Route) × Serves (select_mesh_route signals s max_queue_ms cloud) r
          × IsLightest signals (candidates_of signals s) max_queue_ms r)
unfolding select_mesh_route filter_routes
select_mesh_route-cases signals s max_queue_ms cloud =
    let candidates = candidates_of signals s in
    let p = within_budget signals.route_class max_queue_ms in
    let filtered = filter_routes candidates signals.route_class max_queue_ms in
    selection-cases signals candidates (sort_by (lighter signals.route_class) filtered) s
      max_queue_ms cloud
      (All-sort_by (lighter signals.route_class) (λ r. In r candidates × (p r ≡ true)) filtered
        (keep_routes p candidates candidates
          (All-from (λ r. In r candidates) candidates (λ r i. i))))
      (λ r i e. In-sort_by (lighter signals.route_class) r filtered (In-keep p r candidates i e))
      (sort_by-IsSorted (lighter signals.route_class) (lighter-IsKeyOrder signals.route_class)
        filtered)

fall_through-In :
    (P : Type 0) (test : Bool) (r : Route) (others candidates : List Route)
    → (In r others → P)
    → (In r candidates → P)
    → In r (fall_through test others candidates)
    → P
unfolding fall_through
fall_through-In P test r others candidates f g i = elim (Bool-cases (is_empty candidates && test)) [
  | inl e ↦ f (rw e at i)
  | inr e ↦ g (rw e at i)
]

-- A candidate is listed under some key.
candidate-listed :
    (domain difficulty : String) (s : RegistrySnapshot) (r : Route) (P : Type 0)
    → ((key : String) → In r (routes_at key (ranked_or_built s)) → P)
    → In r (candidate_routes domain difficulty s)
    → P
unfolding candidate_routes
candidate-listed domain difficulty s r P f i =
    fall_through-In P _ r _ _ (f (route_key "general" difficulty))
      (fall_through-In P _ r _ _ (f (route_key domain "hard")) (
        fall_through-In P _ r _ _ (f (route_key domain "medium"))
          (f (route_key domain difficulty))))
      i

snapshot-built :
    {D : Type 0} (now : ℕ) (r : MeshRegistry D)
    → ranked_or_built (snapshot now r) ≡ build_ranked_routes (snapshot now r)
unfolding snapshot
snapshot-built now r = refl

-- Where a request is routed on a snapshot of the registry, the node that is returned stands in the
-- registry's log: its last heartbeat is followed by no departure, reports the node as healthy, and
-- is at most five minutes old; and the estimated queue is within the budget.
pub selected_node_is_alive :
    {D : Type 0} (signals : ClassifierSignals) (now : ℕ) (r : MeshRegistry D) (max_queue_ms : ℕ)
    (cloud node : String)
    → (select_mesh_route signals (snapshot now r) max_queue_ms cloud).node_id ≡ some node
    → (ev : HeartbeatEvent) × (standing node r.events ≡ some ev)
      × (now - ev.ts ≤ 300000000)
      × (ev.heartbeat.health ≡ healthy)
      × ((select_mesh_route signals (snapshot now r) max_queue_ms cloud).queue_ms_estimated
          ≤ max_queue_ms)
selected_node_is_alive signals now r max_queue_ms cloud node e =
    elim (select_mesh_route-cases signals (snapshot now r) max_queue_ms cloud) [
      | inl (fell, all_over) ↦ absurd (ground (arith, e, fell.0))
      | inr (route, serves, best) ↦
          let same : route.node_id ≡ node = some-injective route.node_id node (sym serves.1 ∙ e) in
          let (ev, there, age, ok) =
            candidate-listed (domain_for_signals signals) (strip (lower signals.difficulty))
              (snapshot now r) route
              ((ev : HeartbeatEvent) × (standing route.node_id r.events ≡ some ev)
                × (now - ev.ts ≤ 300000000)
                × (ev.heartbeat.health ≡ healthy))
              (λ key i.
                ranked_routes_are_alive now r key route
                  (subst (λ m. In route (routes_at key m)) (snapshot-built now r) i))
              best.0 in
          (
            ev,
            ap (λ n. standing n r.events) (sym same) ∙ there,
            age,
            ok,
            subst (λ q. q ≤ max_queue_ms) (sym serves.3)
                (ltb→ge max_queue_ms route.estimated_queue_ms (ground (arith, best.1))),
          )
    ]
