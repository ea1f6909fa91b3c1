-- ===== src/Registry/Ingest.antt =====
-- The methods of `MeshRegistry` that change it, in mesh/registry.py. Each runs under the lock, so it is
-- a function of the registry's state; it returns the new state, on the paths that raise too.
use slancha_mesh.Common.{
  ℕ, ◌+◌, String, Bool, true, Option, none, some, List, [], ◌∷◌, ◌++◌, map, ltb, if◌then◌else◌,
  length, ◌==◌,
}
use slancha_mesh.Common.Dict.{Assoc, lookup, insert, has}
use slancha_mesh.Models.{NodeProbe, SpecialistCard}
use slancha_mesh.Identity.{NodeIdentityCert, verify_node_cert}
use slancha_mesh.Registry.State.{
  QualityObservationEvent, Event, heartbeat, node_left, allocation, quality_observation, Env,
  HeartbeatPostRequest, MeshRegistry, truthy, encode, by_specialist_id,
}
use slancha_mesh.Registry.Compact.{compact_heartbeats}

-- `_record`: durable first, and the read model only where the store did not raise (`none`).
unfoldable pub record_event :
    {J D : Type 0} → Env J D → Event → MeshRegistry D → Option (MeshRegistry D)
record_event env ev r = elim (env.store.append r.store (encode env r.uuids_drawn ev)) [
  | none ↦ none
  | some store ↦
      some
        (record r { store = store; events = r.events ++ ev ∷ []; uuids_drawn = r.uuids_drawn + 1 })
]

-- What a method raises.
pub data RegistryError : Type 0 where
  invalid_cert impersonation missing_cert downgrade store_failure invalid_score : RegistryError

pub data Outcome (A : Type 0) : Type 0 where
  done : A → Outcome A
  raised : RegistryError → Outcome A

-- The pin check of a certificate that verified: the key that the node may use.
unfoldable pub check_pin : Option String → String → Outcome (Option String)
check_pin none key = done (some key)
check_pin (some pinned) key = if pinned == key then done (some key) else raised impersonation

unfoldable pub check_cert :
    {J D : Type 0}
    → Env J D
    → Option NodeIdentityCert
    → String
    → MeshRegistry D
    → Outcome (Option String)
unfolding check_pin
check_cert env (some cert) node_id r =
    if verify_node_cert env.verify_signature cert node_id
    then check_pin (lookup node_id r.node_pubkeys) cert.public_key_b64
    else raised invalid_cert
check_cert env none node_id r =
    if r.require_node_identity
    then raised missing_cert
    else if has node_id r.node_pubkeys
    then raised downgrade
    else done none

-- The write of the pin.
unfoldable pub pin_key : String → Option String → Assoc String → Assoc String
pin_key node_id none pins = pins
pin_key node_id (some key) pins = insert node_id key pins

-- `if req.node_url: self._node_urls[node_id] = req.node_url`
unfoldable pub note_url : String → Option String → Assoc String → Assoc String
note_url node_id none urls = urls
note_url node_id (some url) urls = if truthy (some url) then insert node_id url urls else urls

pub record HeartbeatPostResponse : Type 0 where
  pub ack : Bool
  pub next_due_seconds : ℕ
  pub allocator_suggestion_id : Option String

abbrev pub ack_response : HeartbeatPostResponse
ack_response = record { ack = true; next_due_seconds = 5; allocator_suggestion_id = none }

-- The event that a request is recorded as, stamped with the server's time.
abbrev pub heartbeat_event : ℕ → HeartbeatPostRequest → Option String → Event
heartbeat_event now req key =
    heartbeat (record {
      ts = now;
      node_url = req.node_url;
      public_key_b64 = key;
      heartbeat = req.heartbeat;
    })

-- The answer after the log was trimmed, where the store may have raised.
abbrev pub acked :
    {D : Type 0} → Bool × MeshRegistry D → Outcome HeartbeatPostResponse × MeshRegistry D
acked x = (if x.0 then done ack_response else raised store_failure, x.1)

-- `if len(self._events) > self._max_events: self._compact_heartbeats()`
abbrev pub trimmed : {J D : Type 0} → Env J D → MeshRegistry D → Bool × MeshRegistry D
trimmed env r = if ltb r.max_events (length r.events) then compact_heartbeats env r else (true, r)

-- The end of `record_heartbeat`, after the event was recorded or the store raised.
unfoldable pub finish_heartbeat :
    {J D : Type 0}
    → Env J D
    → Option (MeshRegistry D)
    → MeshRegistry D
    → Outcome HeartbeatPostResponse × MeshRegistry D
unfolding compact_heartbeats
finish_heartbeat env none before = (raised store_failure, before)
finish_heartbeat env (some r) before = acked (trimmed env r)

-- From the outcome of `_check_node_identity` on: the pin and the address are written first.
unfoldable pub accept_heartbeat :
    {J D : Type 0}
    → Env J D
    → ℕ
    → HeartbeatPostRequest
    → Outcome (Option String)
    → MeshRegistry D
    → Outcome HeartbeatPostResponse × MeshRegistry D
unfolding pin_key note_url record_event finish_heartbeat
accept_heartbeat env now req (raised e) r = (raised e, r)
accept_heartbeat env now req (done key) r =
    let node_id = req.heartbeat.node_id in
    let noted = record r {
      node_pubkeys = pin_key node_id key r.node_pubkeys;
      node_urls = note_url node_id req.node_url r.node_urls;
    } in
    finish_heartbeat env (record_event env (heartbeat_event now req key) noted) noted

unfoldable pub record_heartbeat :
    {J D : Type 0}
    → Env J D
    → ℕ
    → HeartbeatPostRequest
    → MeshRegistry D
    → Outcome HeartbeatPostResponse × MeshRegistry D
unfolding check_cert accept_heartbeat
record_heartbeat env now req r =
    accept_heartbeat env now req (check_cert env req.identity_cert req.heartbeat.node_id r) r

-- A method that records one event and returns nothing more.
abbrev pub recorded :
    {D A : Type 0} → A → Option (MeshRegistry D) → MeshRegistry D → Outcome A × MeshRegistry D
recorded a none before = (raised store_failure, before)
recorded a (some r) before = (done a, r)

unfoldable pub record_node_left :
    {J D : Type 0}
    → Env J D
    → ℕ
    → String
    → String
    → MeshRegistry D
    → Outcome (Unit {0}) × MeshRegistry D
unfolding record_event
record_node_left env now node_id reason r =
    recorded tt (record_event env (node_left now node_id reason) r) r

unfoldable pub record_allocation :
    {J D : Type 0}
    → Env J D
    → ℕ
    → String
    → Assoc (Option String)
    → MeshRegistry D
    → Outcome (Unit {0}) × MeshRegistry D
unfolding record_event
record_allocation env now strategy suggestions r =
    recorded tt (record_event env (allocation now strategy suggestions) r) r

-- Scores are in thousandths, on a scale that ends at 5.
abbrev pub max_score : ℕ
max_score = 5000

-- The card with the observed quality, and its earlier score.
abbrev pub observed_card : QualityObservationEvent → SpecialistCard → SpecialistCard
observed_card ev card = record card {
  quality_router_observed = some ev.score;
  quality_sample_count = card.quality_sample_count + ev.sample_count;
  quality_observation_source = some ev.observation_source;
}

unfoldable pub update_card :
    {D : Type 0}
    → Option SpecialistCard
    → QualityObservationEvent
    → MeshRegistry D
    → Option ℕ × MeshRegistry D
update_card none ev r = (none, r)
update_card (some old) ev r = (
  old.quality_router_observed,
  record r { catalog = insert ev.specialist_id (observed_card ev old) r.catalog },
)

unfoldable pub after_observation :
    {D : Type 0}
    → Option (MeshRegistry D)
    → QualityObservationEvent
    → MeshRegistry D
    → Outcome (Option ℕ × QualityObservationEvent) × MeshRegistry D
unfolding update_card
after_observation none ev before = (raised store_failure, before)
after_observation (some r) ev before =
    let (prior, r') = update_card (lookup ev.specialist_id r.catalog) ev r in (done (prior, ev), r')

-- The event's own check of its score comes before the lock.
unfoldable pub record_quality_observation :
    {J D : Type 0}
    → Env J D
    → QualityObservationEvent
    → MeshRegistry D
    → Outcome (Option ℕ × QualityObservationEvent) × MeshRegistry D
unfolding record_event after_observation
record_quality_observation env ev r =
    if ltb max_score ev.score
    then (raised invalid_score, r)
    else after_observation (record_event env (quality_observation ev) r) ev r

unfoldable pub register_catalog :
    {D : Type 0} → List SpecialistCard → MeshRegistry D → MeshRegistry D
unfolding by_specialist_id
register_catalog cards r = record r { catalog = by_specialist_id cards r.catalog }

-- The hardware of each node's latest heartbeat.
unfoldable pub latest_hardware : List Event → Assoc NodeProbe → Assoc NodeProbe
latest_hardware [] found = found
latest_hardware (heartbeat ev ∷ rest) found =
    latest_hardware rest (insert ev.heartbeat.node_id ev.heartbeat.hardware found)
latest_hardware (node_left _ _ _ ∷ rest) found = latest_hardware rest found
latest_hardware (allocation _ _ _ ∷ rest) found = latest_hardware rest found
latest_hardware (quality_observation _ ∷ rest) found = latest_hardware rest found

abbrev pub values {ℓ} : {V : Type ℓ} → Assoc V → List V
values m = map (λ e. e.1) m

-- `run_allocator`, over the primaries that `allocate_cluster` suggests for nodes and a catalog. The
-- source gives the lock up between reading its inputs and recording the result; a run in which other
-- calls come between is one in which the result is recorded by `record_allocation` after them.
unfoldable pub run_allocator :
    {J D : Type 0}
    → Env J D
    → (List NodeProbe → List SpecialistCard → Assoc (Option String))
    → ℕ
    → String
    → MeshRegistry D
    → Outcome (Assoc (Option String)) × MeshRegistry D
unfolding latest_hardware record_event
run_allocator env allocate now strategy r =
    let result = allocate (values (latest_hardware r.events [])) (values r.catalog) in
    recorded result (record_event env (allocation now strategy result) r) r
