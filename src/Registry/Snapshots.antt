-- ===== src/Registry/Snapshots.antt =====
-- `snapshot` of mesh/registry.py as a function of what the log last says of each node, and what a
-- compaction of the log leaves of it.
use mathlib.Core.List.{Perm}
use slancha_mesh.Common.{
  Option-cases, ℕ, String, ◌≡◌, refl, sym, ap, ◌∙◌, Option, none, some, List, [], ◌∷◌,
  if◌then◌else◌, ◌==◌, get_or, Bool-cases, inl, inr,
}
use slancha_mesh.Common.Dict.{lookup, lookup-insert, lookup-remove}
use slancha_mesh.Common.DictPerm.{flat-perm}
use slancha_mesh.EventStore.{EventEnvelope}
use slancha_mesh.Registry.State.{
  HeartbeatEvent, Event, heartbeat, node_left, allocation, quality_observation, Env, MeshRegistry,
}
use slancha_mesh.Registry.Compact.{
  compact_events, encode_all, replaced, compact_store, compact_heartbeats,
}
use slancha_mesh.Registry.Replay.{Replayed, nothing_replayed, replay_step, replay_events, snapshot}
use slancha_mesh.Registry.Preserved.{replay-compact_events}
use slancha_mesh.Registry.Views.{
  log-IsReplayed, bindings_at, summary_or, nodes-snapshot, specialists-snapshot,
}

-- What one event says of a node: nothing, that it beat, or (`some none`) that it left.
abbrev word : String → Event → Option (Option HeartbeatEvent)
word n (heartbeat ev) = if ev.heartbeat.node_id == n then some (some ev) else none
word n (node_left _ k _) = if k == n then some none else none
word n (allocation _ _ _) = none
word n (quality_observation _) = none

-- A later word counts.
abbrev later : {A : Type 0} → Option A → Option A → Option A
later none earlier = earlier
later (some a) earlier = some a

-- The last word of the log on a node.
unfoldable pub last_word : String → List Event → Option (Option HeartbeatEvent)
last_word n [] = none
last_word n (ev ∷ rest) = later (last_word n rest) (word n ev)

-- The heartbeat that a node stands by: its last, unless it left after it.
abbrev pub standing : String → List Event → Option HeartbeatEvent
standing n events = get_or (last_word n events) none

later-get_or : {A : Type 0} (a b : Option A) (d : A) → get_or a (get_or b d) ≡ get_or (later a b) d
later-get_or none b d = refl
later-get_or (some x) b d = refl

replay_step-word :
    (n : String) (ev : Event) (s : Replayed)
    → lookup n (replay_step ev s).latest ≡ get_or (word n ev) (lookup n s.latest)
unfolding replay_step
replay_step-word n (heartbeat ev) s =
    lookup-insert ev.heartbeat.node_id n ev s.latest
    ∙ elim (Bool-cases (ev.heartbeat.node_id == n)) [ inl e ↦ rw e refl | inr e ↦ rw e refl ]
replay_step-word n (node_left _ k _) s =
    lookup-remove k n s.latest
    ∙ elim (Bool-cases (k == n)) [ inl e ↦ rw e refl | inr e ↦ rw e refl ]
replay_step-word n (allocation _ _ _) s = refl
replay_step-word n (quality_observation _) s = refl

replay_events-last_word :
    (n : String) (events : List Event) (s : Replayed)
    → lookup n (replay_events events s).latest ≡ get_or (last_word n events) (lookup n s.latest)
unfolding replay_events last_word
replay_events-last_word n [] s = refl
replay_events-last_word n (ev ∷ rest) s =
    replay_events-last_word n rest (replay_step ev s)
    ∙ ap (get_or (last_word n rest)) (replay_step-word n ev s)
    ∙ later-get_or (last_word n rest) (word n ev) (lookup n s.latest)

pub latest-standing :
    (n : String) (events : List Event)
    → lookup n (replay_events events nothing_replayed).latest ≡ standing n events
unfolding lookup
latest-standing n events = replay_events-last_word n events nothing_replayed

-- For every node, the snapshot holds the summary of the node's last heartbeat in the log where no
-- departure of the node follows it, and holds no entry for any other node.
pub snapshot_has_standing_nodes :
    {D : Type 0} (now : ℕ) (r : MeshRegistry D) (n : String)
    → lookup n (snapshot now r).nodes ≡ summary_or now r.node_urls n (standing n r.events) none
snapshot_has_standing_nodes now r n =
    nodes-snapshot now r n
    ∙ ap (λ o. summary_or now r.node_urls n o none) (latest-standing n r.events)

-- The compaction changes neither the catalog nor the addresses.
compact_store-keeps :
    {J D : Type 0} (f : Option (D → List (EventEnvelope J) → Option D)) (env : Env J D)
    (r : MeshRegistry D)
    → ((compact_store f env r).1.events ≡ r.events)
      × ((compact_store f env r).1.node_urls ≡ r.node_urls)
      × ((compact_store f env r).1.catalog ≡ r.catalog)
unfolding compact_store replaced
compact_store-keeps none env r = (refl, refl, refl)
compact_store-keeps (some f) env r =
    elim (Option-cases (f r.store (encode_all env r.uuids_drawn r.events))) [
      | inl e ↦ rw e (refl, refl, refl)
      | inr (d, e) ↦ rw e (refl, refl, refl)
    ]

pub compact_heartbeats-keeps :
    {J D : Type 0} (env : Env J D) (r : MeshRegistry D)
    → ((compact_heartbeats env r).1.events ≡ compact_events r.events)
      × ((compact_heartbeats env r).1.node_urls ≡ r.node_urls)
      × ((compact_heartbeats env r).1.catalog ≡ r.catalog)
unfolding compact_heartbeats
compact_heartbeats-keeps env r =
    compact_store-keeps env.store.compact env (record r { events = compact_events r.events })

-- Two registries whose logs replay to the same heartbeats show the same nodes, and the same bindings
-- for each specialist up to their order.
abbrev pub SameSnapshot : {D : Type 0} → ℕ → MeshRegistry D → MeshRegistry D → Type 0
SameSnapshot now r s =
    (n : String)
    → (lookup n (snapshot now r).nodes ≡ lookup n (snapshot now s).nodes)
      × Perm (get_or (lookup n (snapshot now r).specialists) [])
          (get_or (lookup n (snapshot now s).specialists) [])

snapshot-same :
    {D : Type 0} (now : ℕ) (r s : MeshRegistry D)
    → ((n : String)
        → lookup n (replay_events r.events nothing_replayed).latest
          ≡ lookup n (replay_events s.events nothing_replayed).latest)
    → r.node_urls ≡ s.node_urls
    → r.catalog ≡ s.catalog
    → SameSnapshot now r s
snapshot-same now r s same urls cards n = (
  nodes-snapshot now r n
      ∙ ap (λ o. summary_or now r.node_urls n o none) (same n)
      ∙ ap
          (λ u. summary_or now u n (lookup n (replay_events s.events nothing_replayed).latest) none)
          urls
      ∙ sym (nodes-snapshot now s n),
  rw (specialists-snapshot now r n, specialists-snapshot now s n, urls, cards)
      (flat-perm (λ k ev. bindings_at now s.node_urls s.catalog n k ev ev.heartbeat.loaded_models)
        (replay_events r.events nothing_replayed).latest
        (replay_events s.events nothing_replayed).latest (log-IsReplayed r.events).distinct
        (log-IsReplayed s.events).distinct same),
)

-- A compaction of the registry's log and store, and one in which the store raises, changes no node of the snapshot, and changes the
-- bindings listed for a specialist at most in their order.
pub compact_heartbeats-SameSnapshot :
    {J D : Type 0} (env : Env J D) (now : ℕ) (r : MeshRegistry D)
    → SameSnapshot now (compact_heartbeats env r).1 r
compact_heartbeats-SameSnapshot env now r =
    let kept = compact_heartbeats-keeps env r in
    snapshot-same now (compact_heartbeats env r).1 r
      (λ n.
        ap (λ l. lookup n (replay_events l nothing_replayed).latest) kept.0
        ∙ (replay-compact_events r.events n).0)
      kept.1 kept.2
