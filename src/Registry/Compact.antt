-- ===== src/Registry/Compact.antt =====
-- `_compact_heartbeats` of mesh/registry.py, as its two passes over the log.
use slancha_mesh.Common.{
  ℕ, suc, ◌+◌, Bool, true, false, Option, none, some, List, [], ◌∷◌, if◌then◌else◌, length, ◌||◌,
  eqb,
}
use slancha_mesh.Common.Dict.{Assoc, insert}
use slancha_mesh.EventStore.{EventEnvelope}
use slancha_mesh.Registry.State.{
  Event, heartbeat, node_left, allocation, quality_observation, Env, MeshRegistry, encode,
}

-- The first pass of `_compact_heartbeats`: the index of each node's latest heartbeat.
unfoldable pub latest_hb_idx : ℕ → List Event → Assoc ℕ → Assoc ℕ
latest_hb_idx i [] idx = idx
latest_hb_idx i (heartbeat ev ∷ rest) idx =
    latest_hb_idx (suc i) rest (insert ev.heartbeat.node_id i idx)
latest_hb_idx i (node_left _ _ _ ∷ rest) idx = latest_hb_idx (suc i) rest idx
latest_hb_idx i (allocation _ _ _ ∷ rest) idx = latest_hb_idx (suc i) rest idx
latest_hb_idx i (quality_observation _ ∷ rest) idx = latest_hb_idx (suc i) rest idx

-- `i in set(idx.values())`
unfoldable pub in_values : ℕ → Assoc ℕ → Bool
in_values i [] = false
in_values i ((_, v) ∷ m) = eqb v i || in_values i m

-- The second pass: what is no heartbeat, and the heartbeats at the indices to keep.
unfoldable pub keep_indexed : ℕ → List Event → Assoc ℕ → List Event
keep_indexed i [] idx = []
keep_indexed i (heartbeat ev ∷ rest) idx =
    let kept = keep_indexed (suc i) rest idx in
    if in_values i idx then heartbeat ev ∷ kept else kept
keep_indexed i (node_left ts n why ∷ rest) idx = node_left ts n why ∷ keep_indexed (suc i) rest idx
keep_indexed i (allocation ts s m ∷ rest) idx = allocation ts s m ∷ keep_indexed (suc i) rest idx
keep_indexed i (quality_observation q ∷ rest) idx =
    quality_observation q ∷ keep_indexed (suc i) rest idx

unfoldable pub compact_events : List Event → List Event
unfolding latest_hb_idx keep_indexed in_values
compact_events events = keep_indexed 0 events (latest_hb_idx 0 events [])

unfoldable pub encode_all : {J D : Type 0} → Env J D → ℕ → List Event → List (EventEnvelope J)
encode_all env n [] = []
encode_all env n (ev ∷ rest) = encode env n ev ∷ encode_all env (suc n) rest

-- After the call of the store's `compact`: whether it returned, and the registry.
unfoldable pub replaced : {D : Type 0} → Option D → MeshRegistry D → Bool × MeshRegistry D
replaced none r = (false, r)
replaced (some store) r = (true, record r { store = store })

-- The last step of `_compact_heartbeats`, which replaces the durable log where the store can. The
-- Boolean is false where the store raises.
unfoldable pub compact_store :
    {J D : Type 0}
    → Option (D → List (EventEnvelope J) → Option D)
    → Env J D
    → MeshRegistry D
    → Bool × MeshRegistry D
unfolding encode_all replaced
compact_store none env r = (true, r)
compact_store (some compact) env r =
    replaced (compact r.store (encode_all env r.uuids_drawn r.events))
      (record r { uuids_drawn = r.uuids_drawn + length r.events })

unfoldable pub compact_heartbeats :
    {J D : Type 0} → Env J D → MeshRegistry D → Bool × MeshRegistry D
unfolding compact_events compact_store
compact_heartbeats env r =
    compact_store env.store.compact env (record r { events = compact_events r.events })
