-- ===== src/Registry/Replay.antt =====
-- `snapshot` and `build_ranked_routes` of mesh/registry.py: the replay of the log into what the router
-- reads.
use Prim.Native.String.{◌++◌ as append}
use slancha_mesh.Common.{
  ℕ, zero, suc, ◌-◌, ◌*◌, String, Bool, Option, none, some, List, [], ◌∷◌, ◌++◌, map, ltb, get_or,
  if◌then◌else◌, ◌||◌, ◌&&◌, eqb,
}
use slancha_mesh.Common.Dict.{Assoc, lookup, insert, remove, has}
use slancha_mesh.Common.Sort.{sort_by}
use slancha_mesh.Models.{
  DifficultyTier, tier_name, HealthState, unreachable, is_healthy, SpecialistCard, LoadedModel,
  NodeSummary, NodeBinding, Route, RegistrySnapshot,
}
use slancha_mesh.Registry.State.{
  HeartbeatEvent, Event, heartbeat, node_left, allocation, quality_observation, MeshRegistry,
  truthy,
}

-- NODE_UNREACHABLE_AFTER, five minutes in microseconds.
abbrev pub node_unreachable_after : ℕ
node_unreachable_after = 300000000

-- The loop's `latest` and `left`.
pub record Replayed : Type 0 where
  pub latest : Assoc HeartbeatEvent
  pub left : Assoc (Unit {0})

abbrev pub nothing_replayed : Replayed
nothing_replayed = record { latest = []; left = [] }

unfoldable pub replay_step : Event → Replayed → Replayed
replay_step (heartbeat ev) s = record {
  latest = insert ev.heartbeat.node_id ev s.latest;
  left = remove ev.heartbeat.node_id s.left;
}
replay_step (node_left _ node_id _) s = record {
  latest = remove node_id s.latest;
  left = insert node_id tt s.left;
}
replay_step (allocation _ _ _) s = s
replay_step (quality_observation _) s = s

unfoldable pub replay_events : List Event → Replayed → Replayed
unfolding replay_step
replay_events [] s = s
replay_events (ev ∷ rest) s = replay_events rest (replay_step ev s)

-- `a or b` on optional texts.
abbrev pub or_text : Option String → Option String → Option String
or_text a b = if truthy a then a else b

-- The health that the snapshot reports of a node.
abbrev pub effective_health : ℕ → HeartbeatEvent → HealthState
effective_health now ev =
    if ltb node_unreachable_after (now - ev.ts) then unreachable else ev.heartbeat.health

abbrev pub effective_url : Assoc String → String → HeartbeatEvent → Option String
effective_url urls node_id ev = or_text ev.node_url (lookup node_id urls)

abbrev pub summary_of : ℕ → Assoc String → String → HeartbeatEvent → NodeSummary
summary_of now urls node_id ev =
    let hb = ev.heartbeat in
    record {
      node_id = node_id;
      friendly_name = hb.hardware.friendly_name;
      health = effective_health now ev;
      last_seen = ev.ts;
      loaded_specialist_ids = map (λ (lm : LoadedModel). lm.specialist_id) hb.loaded_models;
      queue_depth = hb.util.queue_depth;
      p95_latency_ms_60s = hb.util.p95_latency_ms_60s;
      node_url = effective_url urls node_id ev;
    }

abbrev pub binding_of : ℕ → Assoc String → String → HeartbeatEvent → LoadedModel → NodeBinding
binding_of now urls node_id ev lm = record {
  node_id = node_id;
  specialist_id = lm.specialist_id;
  health = effective_health now ev;
  queue_depth = ev.heartbeat.util.queue_depth;
  p95_latency_ms_60s = ev.heartbeat.util.p95_latency_ms_60s;
  node_url = or_text lm.node_url (effective_url urls node_id ev);
  last_seen = ev.ts;
}

-- d.setdefault(key, []).append(v)
unfoldable pub append_at {ℓ} : {V : Type ℓ} → String → V → Assoc (List V) → Assoc (List V)
append_at key v m = insert key (get_or (lookup key m) [] ++ v ∷ []) m

-- The three dictionaries that the loop over `latest` fills.
pub record Built : Type 0 where
  pub nodes : Assoc NodeSummary
  pub specialists : Assoc (List NodeBinding)
  pub coverage : Assoc (List String)

abbrev pub nothing_built : Built
nothing_built = record { nodes = []; specialists = []; coverage = [] }

-- `if card is not None: coverage.setdefault(card.domain, []).append(node_id)`
unfoldable pub cover : Option SpecialistCard → String → Assoc (List String) → Assoc (List String)
unfolding append_at
cover none node_id coverage = coverage
cover (some card) node_id coverage = append_at card.domain node_id coverage

-- The loop over the loaded models of one node.
unfoldable pub add_models :
    ℕ
    → Assoc String
    → Assoc SpecialistCard
    → String
    → HeartbeatEvent
    → List LoadedModel
    → Built
    → Built
unfolding append_at cover
add_models now urls catalog node_id ev [] b = b
add_models now urls catalog node_id ev (lm ∷ rest) b =
    add_models now urls catalog node_id ev rest (record b {
      specialists = append_at lm.specialist_id (binding_of now urls node_id ev lm) b.specialists;
      coverage = cover (lookup lm.specialist_id catalog) node_id b.coverage;
    })

-- One round of the loop over `latest`.
unfoldable pub add_node :
    ℕ
    → Assoc String
    → Assoc SpecialistCard
    → Assoc (Unit {0})
    → String
    → HeartbeatEvent
    → Built
    → Built
unfolding add_models
add_node now urls catalog left node_id ev b =
    if has node_id left
    then b
    else add_models now urls catalog node_id ev ev.heartbeat.loaded_models
        (record b { nodes = insert node_id (summary_of now urls node_id ev) b.nodes })

unfoldable pub build :
    ℕ
    → Assoc String
    → Assoc SpecialistCard
    → Assoc (Unit {0})
    → Assoc HeartbeatEvent
    → Built
    → Built
unfolding add_node
build now urls catalog left [] b = b
build now urls catalog left ((node_id, ev) ∷ rest) b =
    build now urls catalog left rest (add_node now urls catalog left node_id ev b)

unfoldable pub snapshot : {D : Type 0} → ℕ → MeshRegistry D → RegistrySnapshot
unfolding replay_events build
snapshot now r =
    let seen = replay_events r.events nothing_replayed in
    let built = build now r.node_urls r.catalog seen.left seen.latest nothing_built in
    record {
      snapshot_ts = now;
      nodes = built.nodes;
      specialists = built.specialists;
      coverage = built.coverage;
      ranked_routes = [];
      catalog = r.catalog;
    }

-- f"{card.domain}|{tier}"
abbrev pub route_key : String → String → String
route_key domain difficulty = append domain (append "|" difficulty)

abbrev pub route_of : String → NodeBinding → Route
route_of spec_id b = record {
  specialist_id = spec_id;
  node_id = b.node_id;
  node_url = b.node_url;
  estimated_queue_ms = b.queue_depth * 500;
  p95_latency_ms = b.p95_latency_ms_60s;
  cost_estimate_cents = 0;
}

unfoldable pub healthy_routes : String → List NodeBinding → List Route
healthy_routes spec_id [] = []
healthy_routes spec_id (b ∷ bindings) =
    let rest = healthy_routes spec_id bindings in
    if is_healthy b.health then route_of spec_id b ∷ rest else rest

-- `p95_latency_ms or 99999`, where a latency of 0 is as good as none.
abbrev pub p95_or : ℕ → Option ℕ → ℕ
p95_or d none = d
p95_or d (some zero) = d
p95_or d (some (suc n)) = suc n

-- The order of the sort keys `(estimated_queue_ms, p95_latency_ms or 99999)`.
abbrev pub route_before : Route → Route → Bool
route_before a b =
    ltb a.estimated_queue_ms b.estimated_queue_ms
    || eqb a.estimated_queue_ms b.estimated_queue_ms
      && ltb (p95_or 99999 a.p95_latency_ms) (p95_or 99999 b.p95_latency_ms)

-- ranked.setdefault(key, []).extend(routes), made only for routes that are not empty
unfoldable pub extend_at : String → List Route → Assoc (List Route) → Assoc (List Route)
extend_at key [] m = m
extend_at key (r ∷ routes) m = insert key (get_or (lookup key m) [] ++ r ∷ routes) m

unfoldable pub rank_tiers :
    String
    → SpecialistCard
    → List NodeBinding
    → List DifficultyTier
    → Assoc (List Route)
    → Assoc (List Route)
unfolding healthy_routes extend_at
rank_tiers spec_id card bindings [] ranked = ranked
rank_tiers spec_id card bindings (tier ∷ tiers) ranked = rank_tiers spec_id card bindings tiers (
    extend_at (route_key card.domain (tier_name tier))
      (sort_by route_before (healthy_routes spec_id bindings)) ranked)

-- `if card is None: continue`
unfoldable pub rank_specialist :
    Option SpecialistCard → String → List NodeBinding → Assoc (List Route) → Assoc (List Route)
unfolding rank_tiers
rank_specialist none spec_id bindings ranked = ranked
rank_specialist (some card) spec_id bindings ranked =
    rank_tiers spec_id card bindings card.difficulty_tiers ranked

unfoldable pub rank_all :
    Assoc SpecialistCard → Assoc (List NodeBinding) → Assoc (List Route) → Assoc (List Route)
unfolding rank_specialist
rank_all catalog [] ranked = ranked
rank_all catalog ((spec_id, bindings) ∷ rest) ranked =
    rank_all catalog rest (rank_specialist (lookup spec_id catalog) spec_id bindings ranked)

unfoldable pub build_ranked_routes : RegistrySnapshot → Assoc (List Route)
unfolding rank_all
build_ranked_routes s = rank_all s.catalog s.specialists []
