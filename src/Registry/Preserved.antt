-- ===== src/Registry/Preserved.antt =====
-- What the readers of mesh/registry.py see of a log does not change when it is compacted, up to the
-- order of its nodes.
use slancha_mesh.Common.{
  String, ◌≡◌, refl, sym, ap, true, false, List, [], ◌∷◌, arith, ◌==◌, eq_iff, Bool-cases, inl, inr,
}
use slancha_mesh.Common.Dict.{Assoc, lookup, insert, remove, lookup-insert, lookup-remove}
use slancha_mesh.Models.{NodeProbe}
use slancha_mesh.Registry.State.{
  HeartbeatEvent, Event, heartbeat, node_left, allocation, quality_observation,
}
use slancha_mesh.Registry.Compact.{compact_events}
use slancha_mesh.Registry.Ingest.{latest_hardware}
use slancha_mesh.Registry.Replay.{Replayed, nothing_replayed, replay_step, replay_events}
use slancha_mesh.Registry.Compaction.{beats_in, drop_superseded, compact_events-eq-drop_superseded}

module _ {V : Type 0} where
  -- The dictionaries agree on what the rest of the log does not write anew.
  abbrev Agree : List Event → Assoc V → Assoc V → Type 0
  Agree rest a b = (n : String) → beats_in n rest ≡ false → lookup n a ≡ lookup n b

  Agree-insert :
      (ev : HeartbeatEvent) (v : V) (rest : List Event) (a b : Assoc V)
      → Agree (heartbeat ev ∷ rest) a b
      → Agree rest (insert ev.heartbeat.node_id v a) (insert ev.heartbeat.node_id v b)
  unfolding beats_in
  Agree-insert ev v rest a b h j quiet =
      simp lookup-insert (elim (Bool-cases (ev.heartbeat.node_id == j)) [
        | inl e ↦ rw e refl
        | inr e ↦ rw e (h j (rw e quiet))
      ])

  Agree-remove :
      (ev : HeartbeatEvent) (rest : List Event) (a b : Assoc V)
      → Agree (heartbeat ev ∷ rest) a b
      → Agree rest (remove ev.heartbeat.node_id a) (remove ev.heartbeat.node_id b)
  unfolding beats_in
  Agree-remove ev rest a b h j quiet =
      simp lookup-remove (elim (Bool-cases (ev.heartbeat.node_id == j)) [
        | inl e ↦ rw e refl
        | inr e ↦ rw e (h j (rw e quiet))
      ])

  -- A heartbeat that is superseded writes only what the rest of the log writes anew.
  Agree-insert_superseded :
      (ev : HeartbeatEvent) (v : V) (rest : List Event) (a b : Assoc V)
      → beats_in ev.heartbeat.node_id rest ≡ true
      → Agree (heartbeat ev ∷ rest) a b
      → Agree rest (insert ev.heartbeat.node_id v a) b
  unfolding beats_in
  Agree-insert_superseded ev v rest a b again h j quiet =
      simp lookup-insert
        (ground (arith, eq_iff ev.heartbeat.node_id j, ap (λ n. beats_in n rest), h j))

  Agree-remove_superseded :
      (ev : HeartbeatEvent) (rest : List Event) (a b : Assoc V)
      → beats_in ev.heartbeat.node_id rest ≡ true
      → Agree (heartbeat ev ∷ rest) a b
      → Agree rest (remove ev.heartbeat.node_id a) b
  unfolding beats_in
  Agree-remove_superseded ev rest a b again h j quiet =
      simp lookup-remove
        (ground (arith, eq_iff ev.heartbeat.node_id j, ap (λ n. beats_in n rest), h j))

  Agree-insert_at :
      (k : String) (v : V) (rest : List Event) (a b : Assoc V)
      → Agree rest a b
      → Agree rest (insert k v a) (insert k v b)
  Agree-insert_at k v rest a b h j quiet = simp lookup-insert (ground (arith, h j quiet))

  Agree-remove_at :
      (k : String) (rest : List Event) (a b : Assoc V)
      → Agree rest a b
      → Agree rest (remove k a) (remove k b)
  Agree-remove_at k rest a b h j quiet = simp lookup-remove (ground (arith, h j quiet))

-- Two replays that agree so far agree at the end, one over a log and one over its compaction.
abbrev SameReplay : Replayed → Replayed → Type 0
SameReplay a b =
    (n : String) → (lookup n a.latest ≡ lookup n b.latest) × (lookup n a.left ≡ lookup n b.left)

replay-Agree :
    (rest : List Event) (a b : Replayed)
    → Agree rest a.latest b.latest
    → Agree rest a.left b.left
    → SameReplay (replay_events rest a) (replay_events (drop_superseded rest) b)
unfolding replay_events drop_superseded beats_in
replay-Agree [] a b h g n = (h n refl, g n refl)
replay-Agree (heartbeat ev ∷ rest) a b h g n =
    let k = ev.heartbeat.node_id in
    elim (Bool-cases (beats_in k rest)) [
      | inl e ↦ rw e (
          replay-Agree rest (replay_step (heartbeat ev) a) b
            (Agree-insert_superseded ev ev rest a.latest b.latest e h)
            (Agree-remove_superseded ev rest a.left b.left e g) n)
      | inr e ↦ rw e (
          replay-Agree rest (replay_step (heartbeat ev) a) (replay_step (heartbeat ev) b)
            (Agree-insert ev ev rest a.latest b.latest h) (Agree-remove ev rest a.left b.left g) n)
    ]
replay-Agree (node_left ts k why ∷ rest) a b h g n =
    replay-Agree rest (replay_step (node_left ts k why) a) (replay_step (node_left ts k why) b)
      (Agree-remove_at k rest a.latest b.latest h) (Agree-insert_at k tt rest a.left b.left g) n
replay-Agree (allocation _ _ _ ∷ rest) a b h g n = replay-Agree rest a b h g n
replay-Agree (quality_observation _ ∷ rest) a b h g n = replay-Agree rest a b h g n

-- A compacted log replays to the same latest heartbeat of every node and the same set of nodes that
-- have left.
pub replay-compact_events :
    (events : List Event) (n : String)
    → (lookup n (replay_events (compact_events events) nothing_replayed).latest
        ≡ lookup n (replay_events events nothing_replayed).latest)
      × (lookup n (replay_events (compact_events events) nothing_replayed).left
          ≡ lookup n (replay_events events nothing_replayed).left)
replay-compact_events events n =
    let same =
      replay-Agree events nothing_replayed nothing_replayed (λ j q. refl) (λ j q. refl) n in
    rw (compact_events-eq-drop_superseded events) (sym same.0, sym same.1)

hardware-Agree :
    (rest : List Event) (a b : Assoc NodeProbe)
    → Agree rest a b
    → (n : String)
    → lookup n (latest_hardware rest a) ≡ lookup n (latest_hardware (drop_superseded rest) b)
unfolding latest_hardware drop_superseded beats_in
hardware-Agree [] a b h n = h n refl
hardware-Agree (heartbeat ev ∷ rest) a b h n =
    let k = ev.heartbeat.node_id in
    let w = ev.heartbeat.hardware in
    elim (Bool-cases (beats_in k rest)) [
      | inl e ↦
          rw e (hardware-Agree rest (insert k w a) b (Agree-insert_superseded ev w rest a b e h) n)
      | inr e ↦
          rw e (hardware-Agree rest (insert k w a) (insert k w b) (Agree-insert ev w rest a b h) n)
    ]
hardware-Agree (node_left _ _ _ ∷ rest) a b h n = hardware-Agree rest a b h n
hardware-Agree (allocation _ _ _ ∷ rest) a b h n = hardware-Agree rest a b h n
hardware-Agree (quality_observation _ ∷ rest) a b h n = hardware-Agree rest a b h n

-- The allocator reads the same hardware of every node from a compacted log.
pub latest_hardware-compact_events :
    (events : List Event) (n : String)
    → lookup n (latest_hardware (compact_events events) []) ≡ lookup n (latest_hardware events [])
latest_hardware-compact_events events n =
    rw (compact_events-eq-drop_superseded events)
      (sym (hardware-Agree events [] [] (λ j q. refl) n))
