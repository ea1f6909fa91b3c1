-- ===== src/Registry/Fresh.antt =====
-- Why a route that mesh/registry.py ranks leads to a live node.
use slancha_mesh.Common.{
  ℕ, ◌≤◌, ◌-◌, String, ◌≡◌, refl, sym, ap, ◌∙◌, true, some, List, [], ◌∷◌, arith, ◌==◌, get_or,
  Bool-cases, inl, inr, ltb, ltb→ge, subst, In, All, All-append, All-In,
}
use slancha_mesh.Common.Dict.{Assoc, lookup, has, IsDistinct, IsDistinct-insert}
use slancha_mesh.Common.DictKeys.{lookup-In}
use slancha_mesh.Models.{
  HealthState, healthy, degraded, draining, training, unreachable, is_healthy, SpecialistCard,
  LoadedModel, NodeBinding, Route,
}
use slancha_mesh.Registry.State.{HeartbeatEvent, MeshRegistry}
use slancha_mesh.Registry.Replay.{
  node_unreachable_after, effective_health, append_at, Built, nothing_built, add_models, add_node,
  build, build_ranked_routes, snapshot, nothing_replayed, replay_events,
}
use slancha_mesh.Registry.Views.{log-IsReplayed, bindings_at, bindings_for, specialists-snapshot}
use slancha_mesh.Registry.Snapshots.{standing, latest-standing}
use slancha_mesh.Registry.Ranked.{routes_at, ranked_routes_iff}

-- The specialists of a snapshot stand once each.
module _ (now : ℕ) (urls : Assoc String) (catalog : Assoc SpecialistCard) where
  add_models-IsDistinct :
      (n : String) (ev : HeartbeatEvent) (lms : List LoadedModel) (b : Built)
      → IsDistinct b.specialists
      → IsDistinct (add_models now urls catalog n ev lms b).specialists
  unfolding add_models append_at
  add_models-IsDistinct n ev [] b d = d
  add_models-IsDistinct n ev (lm ∷ rest) b d =
      add_models-IsDistinct n ev rest _ (IsDistinct-insert lm.specialist_id _ b.specialists d)

  add_node-IsDistinct :
      (left : Assoc (Unit {0})) (n : String) (ev : HeartbeatEvent) (b : Built)
      → IsDistinct b.specialists
      → IsDistinct (add_node now urls catalog left n ev b).specialists
  unfolding add_node
  add_node-IsDistinct left n ev b d = elim (Bool-cases (has n left)) [
    | inl e ↦ rw e d
    | inr e ↦ rw e (add_models-IsDistinct n ev ev.heartbeat.loaded_models _ d)
  ]

  build-IsDistinct :
      (left : Assoc (Unit {0})) (latest : Assoc HeartbeatEvent) (b : Built)
      → IsDistinct b.specialists
      → IsDistinct (build now urls catalog left latest b).specialists
  unfolding build
  build-IsDistinct left [] b d = d
  build-IsDistinct left ((n, ev) ∷ rest) b d =
      build-IsDistinct left rest _ (add_node-IsDistinct left n ev b d)

-- A binding of a replay is healthy only where the node's heartbeat says so and is not older than
-- five minutes.
abbrev pub Alive : ℕ → HeartbeatEvent → Type 0
Alive now ev = (now - ev.ts ≤ 300000000) × (ev.heartbeat.health ≡ healthy)

is_healthy→healthy : (h : HealthState) → is_healthy h ≡ true → h ≡ healthy
is_healthy→healthy healthy e = refl
is_healthy→healthy degraded e = absurd (ground (arith, e))
is_healthy→healthy draining e = absurd (ground (arith, e))
is_healthy→healthy training e = absurd (ground (arith, e))
is_healthy→healthy unreachable e = absurd (ground (arith, e))

effective_health-Alive :
    (now : ℕ) (ev : HeartbeatEvent) → is_healthy (effective_health now ev) ≡ true → Alive now ev
effective_health-Alive now ev h = elim (Bool-cases (ltb node_unreachable_after (now - ev.ts))) [
  | inl e ↦ absurd (ground (arith, rw e at h))
  | inr e ↦ (ltb→ge node_unreachable_after (now - ev.ts) e, is_healthy→healthy _ (rw e at h))
]

-- What a binding among those of one specialist comes from.
abbrev Source : ℕ → Assoc HeartbeatEvent → NodeBinding → Type 0
Source now latest b =
    (ev : HeartbeatEvent) × (lookup b.node_id latest ≡ some ev)
    × (b.health ≡ effective_health now ev)

module _ (now : ℕ) (urls : Assoc String) (catalog : Assoc SpecialistCard)
    (whole : Assoc HeartbeatEvent) where
  bindings_at-Source :
      (sid n : String) (ev : HeartbeatEvent) (lms : List LoadedModel)
      → lookup n whole ≡ some ev
      → All (Source now whole) (bindings_at now urls catalog sid n ev lms)
  bindings_at-Source sid n ev [] h = tt
  bindings_at-Source sid n ev (lm ∷ rest) h =
      let more = bindings_at-Source sid n ev rest h in
      elim (Bool-cases (lm.specialist_id == sid)) [
        | inl e ↦ rw e ((ev, h, refl), more)
        | inr e ↦ rw e more
      ]

  flat-Source :
      (sid : String) (part : Assoc HeartbeatEvent)
      → ((n : String) (ev : HeartbeatEvent) → In (n, ev) part → lookup n whole ≡ some ev)
      → All (Source now whole) (bindings_for now urls catalog sid part)
  flat-Source sid [] f = tt
  flat-Source sid ((n, ev) ∷ rest) f =
      All-append (Source now whole)
        (bindings_at now urls catalog sid n ev ev.heartbeat.loaded_models)
        (bindings_for now urls catalog sid rest)
        (bindings_at-Source sid n ev ev.heartbeat.loaded_models (f n ev (inl refl)))
        (flat-Source sid rest (λ m e i. f m e (inr i)))

snapshot-IsDistinct :
    {D : Type 0} (now : ℕ) (r : MeshRegistry D) → IsDistinct (snapshot now r).specialists
unfolding snapshot
snapshot-IsDistinct now r =
    let seen = replay_events r.events nothing_replayed in
    build-IsDistinct now r.node_urls r.catalog seen.left seen.latest nothing_built tt

-- Every binding of a snapshot comes from the standing heartbeat of its node.
snapshot-Source :
    {D : Type 0} (now : ℕ) (r : MeshRegistry D) (sid : String) (bindings : List NodeBinding)
    (b : NodeBinding)
    → In (sid, bindings) (snapshot now r).specialists
    → In b bindings
    → Source now (replay_events r.events nothing_replayed).latest b
snapshot-Source now r sid bindings b i ib =
    let latest = (replay_events r.events nothing_replayed).latest in
    let found = lookup-In sid bindings (snapshot now r).specialists (snapshot-IsDistinct now r) i in
    let all =
      flat-Source now r.node_urls r.catalog latest sid latest
        (λ n ev. lookup-In n ev latest (log-IsReplayed r.events).distinct) in
    let listed = ap (λ o. get_or o []) (sym found) ∙ specialists-snapshot now r sid in
    All-In (Source now latest) b (bindings_for now r.node_urls r.catalog sid latest) all
      (subst (In b) listed ib)

-- Every route that the registry ranks leads to a node that stands in the log: its last heartbeat is
-- followed by no departure, reports the node as healthy, and is at most five minutes old.
pub ranked_routes_are_alive :
    {D : Type 0} (now : ℕ) (r : MeshRegistry D) (key : String) (route : Route)
    → In route (routes_at key (build_ranked_routes (snapshot now r)))
    → (ev : HeartbeatEvent) × (standing route.node_id r.events ≡ some ev)
      × (now - ev.ts ≤ 300000000)
      × (ev.heartbeat.health ≡ healthy)
ranked_routes_are_alive now r key route i =
    let (sid, bindings, ib, (card, tier, found, it, at, (b, inb, hb, same))) =
      (ranked_routes_iff (snapshot now r) key route).0 i in
    let (ev, there, health) = snapshot-Source now r sid bindings b ib inb in
    let (age, ok) = effective_health-Alive now ev (ap is_healthy (sym health) ∙ hb) in
    (
      ev,
      sym (latest-standing route.node_id r.events)
          ∙ ap (λ (x : Route). lookup x.node_id (replay_events r.events nothing_replayed).latest)
              same
          ∙ there,
      age,
      ok,
    )
