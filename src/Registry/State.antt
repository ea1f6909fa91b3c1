-- ===== src/Registry/State.antt =====
-- mesh/registry.py: the events, their durable form, the registry's state and its start.
use slancha_mesh.Common.{
  ℕ, String, Bool, false, Option, none, some, List, [], ◌∷◌, ◌++◌, if◌then◌else◌, ◌==◌, not,
}
use slancha_mesh.Common.Dict.{Assoc, insert, set_default}
use slancha_mesh.Models.{NodeHeartbeat, SpecialistCard, ObservationSource}
use slancha_mesh.Identity.{NodeIdentityCert, VerifySignature}
use slancha_mesh.EventStore.{EventEnvelope, EventStore}

pub record HeartbeatEvent : Type 0 where
  pub ts : ℕ
  pub node_url : Option String
  pub public_key_b64 : Option String
  pub heartbeat : NodeHeartbeat

pub record QualityObservationEvent : Type 0 where
  pub ts : ℕ
  pub specialist_id : String
  pub score : ℕ
  pub sample_count : ℕ
  pub observation_source : ObservationSource

pub data Event : Type 0 where
  heartbeat : HeartbeatEvent → Event
  node_left : (ts : ℕ) (node_id reason : String) → Event
  allocation : (ts : ℕ) (strategy : String) (suggestions : Assoc (Option String)) → Event
  quality_observation : QualityObservationEvent → Event

pub data EventKind : Type 0 where
  heartbeat_kind node_left_kind allocation_kind quality_observation_kind : EventKind

abbrev pub kind_of : Event → EventKind
kind_of (heartbeat _) = heartbeat_kind
kind_of (node_left _ _ _) = node_left_kind
kind_of (allocation _ _ _) = allocation_kind
kind_of (quality_observation _) = quality_observation_kind

abbrev pub event_ts : Event → ℕ
event_ts (heartbeat ev) = ev.ts
event_ts (node_left ts _ _) = ts
event_ts (allocation ts _ _) = ts
event_ts (quality_observation ev) = ev.ts

abbrev pub kind_name : EventKind → String
kind_name heartbeat_kind = "heartbeat"
kind_name node_left_kind = "node_left"
kind_name allocation_kind = "allocation"
kind_name quality_observation_kind = "quality_observation"

-- `_EVENT_TYPES.get`
unfoldable pub event_type : String → Option EventKind
event_type kind =
    if kind == "heartbeat"
    then some heartbeat_kind
    else if kind == "node_left"
    then some node_left_kind
    else if kind == "allocation"
    then some allocation_kind
    else if kind == "quality_observation"
    then some quality_observation_kind
    else none

-- What the registry is built on and does not implement: the durable store, pydantic's JSON, the text
-- of a time, the signature check of PyNaCl, and the n-th value that `uuid4` returns.
pub record Env (J D : Type 0) : Type 0 where
  pub store : EventStore J D
  pub model_dump_json : Event → J
  pub model_validate_json : EventKind → J → Option Event
  pub isoformat : ℕ → String
  pub verify_signature : VerifySignature
  pub uuid4 : ℕ → String

pub record HeartbeatPostRequest : Type 0 where
  pub heartbeat : NodeHeartbeat
  pub node_url : Option String
  pub identity_cert : Option NodeIdentityCert

pub record MeshRegistry (D : Type 0) : Type 0 where
  pub events : List Event
  pub max_events : ℕ
  pub node_pubkeys : Assoc String
  pub require_node_identity : Bool
  pub store : D
  pub catalog : Assoc SpecialistCard
  pub node_urls : Assoc String
  pub uuids_drawn : ℕ

-- Python's truth of an optional text: None and "" are false.
abbrev pub truthy : Option String → Bool
truthy none = false
truthy (some s) = not (s == "")

unfoldable pub encode : {J D : Type 0} → Env J D → ℕ → Event → EventEnvelope J
encode env n ev = record {
  event_id = env.uuid4 n;
  kind = kind_name (kind_of ev);
  ts = env.isoformat (event_ts ev);
  payload = env.model_dump_json ev;
}

unfoldable pub decode_as : {J D : Type 0} → Env J D → Option EventKind → J → Option Event
decode_as env none payload = none
decode_as env (some kind) payload = env.model_validate_json kind payload

-- `none` is the exception of an unknown kind or of a payload that does not validate.
unfoldable pub decode : {J D : Type 0} → Env J D → EventEnvelope J → Option Event
unfolding decode_as event_type
decode env e = decode_as env (event_type e.kind) e.payload

-- `setdefault` of the key that a replayed heartbeat carries.
unfoldable pub pin_first : String → Option String → Assoc String → Assoc String
pin_first node_id none pins = pins
pin_first node_id (some key) pins = if truthy (some key) then set_default node_id key pins else pins

unfoldable pub repin : Event → Assoc String → Assoc String
unfolding pin_first
repin (heartbeat ev) pins = pin_first ev.heartbeat.node_id ev.public_key_b64 pins
repin (node_left _ _ _) pins = pins
repin (allocation _ _ _) pins = pins
repin (quality_observation _) pins = pins

-- The loop of `__init__` over the replayed envelopes.
unfoldable pub boot_replay :
    {J D : Type 0}
    → Env J D
    → List (EventEnvelope J)
    → List Event
    → Assoc String
    → Option (List Event × Assoc String)
unfolding repin
boot_replay env [] events pins = some (events, pins)
boot_replay env (e ∷ rest) events pins = elim (decode env e) [
  | none ↦ none
  | some ev ↦ boot_replay env rest (events ++ ev ∷ []) (repin ev pins)
]

unfoldable pub by_specialist_id : List SpecialistCard → Assoc SpecialistCard → Assoc SpecialistCard
by_specialist_id [] catalog = catalog
by_specialist_id (c ∷ cards) catalog = by_specialist_id cards (insert c.specialist_id c catalog)

-- `__init__`
unfoldable pub boot :
    {J D : Type 0} → Env J D → List SpecialistCard → ℕ → D → Bool → Option (MeshRegistry D)
unfolding boot_replay by_specialist_id
boot env catalog max_events store require_node_identity =
    elim (boot_replay env (env.store.replay store) [] []) [
      | none ↦ none
      | some (events, pins) ↦ some (record {
        events = events;
        max_events = max_events;
        node_pubkeys = pins;
        require_node_identity = require_node_identity;
        store = store;
        catalog = by_specialist_id catalog [];
        node_urls = [];
        uuids_drawn = 0;
      })
    ]
