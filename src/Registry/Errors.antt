-- ===== src/Registry/Errors.antt =====
-- What `record_heartbeat` of mesh/registry.py leaves of the registry where it raises.
use slancha_mesh.Common.{
  ℕ, ◌<◌, String, subst, some-injective, ◌≡◌, refl, sym, ap, ◌∙◌, true, false, Option, none, some,
  List, [], ◌∷◌, ◌++◌, arith, ltb, ltb→lt, length, Bool-cases, Option-cases, inl, inr, ◌⊎◌,
}
use slancha_mesh.Common.Dict.{lookup}
use slancha_mesh.EventStore.{EventEnvelope}
use slancha_mesh.Registry.State.{Env, HeartbeatPostRequest, MeshRegistry, encode}
use slancha_mesh.Registry.Compact.{
  encode_all, replaced, compact_store, compact_heartbeats, compact_events,
}
use slancha_mesh.Registry.Ingest.{
  RegistryError, store_failure, Outcome, done, raised, record_heartbeat, heartbeat_event, trimmed,
  HeartbeatPostResponse,
}
use slancha_mesh.Registry.Keeps.{appended}
use slancha_mesh.Registry.Answers.{
  is_refusal, Admits, Answered, refused, not_stored, stored, noted, record_heartbeat-Answered,
}

-- The store did not take the event: the log is as it was.
abbrev pub NotTaken :
    {J D : Type 0}
    → Env J D
    → ℕ
    → HeartbeatPostRequest
    → Option String
    → MeshRegistry D
    → MeshRegistry D
    → Type 0
NotTaken env now req key r s =
    (env.store.append r.store (encode env r.uuids_drawn (heartbeat_event now req key)) ≡ none)
    × (s.events ≡ r.events)
    × (s.store ≡ r.store)

-- The store took the event and then did not compact: the log of the registry is compacted, and the
-- store holds its own with the event at its end.
abbrev pub NotCompacted :
    {J D : Type 0}
    → Env J D
    → ℕ
    → HeartbeatPostRequest
    → Option String
    → MeshRegistry D
    → MeshRegistry D
    → Type 0
NotCompacted {D} env now req key r s =
    (d : D) × (env.store.append r.store (encode env r.uuids_drawn (heartbeat_event now req key))
      ≡ some d)
    × (r.max_events < length (r.events ++ heartbeat_event now req key ∷ []))
    × (s.events ≡ compact_events (r.events ++ heartbeat_event now req key ∷ []))
    × (s.store ≡ d)

-- A check refused the heartbeat and nothing changed, or the store raised for one that was admitted,
-- in one of two ways, and the pins are those of the admitted heartbeat.
abbrev pub Leaves :
    {J D : Type 0}
    → Env J D
    → ℕ
    → HeartbeatPostRequest
    → RegistryError
    → MeshRegistry D
    → MeshRegistry D
    → Type 0
Leaves env now req e r s =
    ((is_refusal e ≡ true) × (s ≡ r))
    ⊎ ((e ≡ store_failure)
        × (s.catalog ≡ r.catalog)
        × (key : Option String) × Admits env.verify_signature req.identity_cert
            req.heartbeat.node_id (lookup req.heartbeat.node_id r.node_pubkeys) key
        × (s.node_pubkeys ≡ (noted env req key r).node_pubkeys)
        × (NotTaken env now req key r s ⊎ NotCompacted env now req key r s))

abbrev error_of : {A : Type 0} → Outcome A → Option RegistryError
error_of (done a) = none
error_of (raised e) = some e

error-injective :
    {A : Type 0} (x e : RegistryError) (o p : Outcome A)
    → o ≡ p
    → error_of o ≡ some x
    → error_of p ≡ some e
    → x ≡ e
error-injective x e o p h hx he = some-injective x e (sym hx ∙ ap error_of h ∙ he)

module _ {J D : Type 0} (env : Env J D) where
  -- A compaction in which the store raised.
  abbrev Stuck : MeshRegistry D → MeshRegistry D → Type 0
  Stuck r s =
      (s.events ≡ compact_events r.events)
      × (s.store ≡ r.store)
      × (s.catalog ≡ r.catalog)
      × (s.node_pubkeys ≡ r.node_pubkeys)

  compact_store-Stuck :
      (o : Option (D → List (EventEnvelope J) → Option D)) (r s : MeshRegistry D)
      → Stuck s r
      → (compact_store o env r).0 ≡ false
      → Stuck s (compact_store o env r).1
  unfolding compact_store replaced
  compact_store-Stuck none r s h raised_so = absurd (ground (arith, raised_so))
  compact_store-Stuck (some f) r s h raised_so =
      elim (Option-cases (f r.store (encode_all env r.uuids_drawn r.events))) [
        | inl e ↦ rw e h
        | inr (d, e) ↦ absurd (ground (arith, rw e at raised_so))
      ]

  trimmed-Stuck :
      (r : MeshRegistry D)
      → (trimmed env r).0 ≡ false
      → (r.max_events < length r.events) × Stuck r (trimmed env r).1
  unfolding compact_heartbeats
  trimmed-Stuck r raised_so = elim (Bool-cases (ltb r.max_events (length r.events))) [
    | inl t ↦ (
      ltb→lt _ _ t,
      rw t (
          compact_store-Stuck env.store.compact (record r { events = compact_events r.events }) r
            (refl, refl, refl, refl) (rw t at raised_so)),
    )
    | inr t ↦ absurd (ground (arith, rw t at raised_so))
  ]

  Answered-Leaves :
      (now : ℕ) (req : HeartbeatPostRequest) (r : MeshRegistry D) (e : RegistryError)
      {o : Outcome HeartbeatPostResponse × MeshRegistry D}
      → Answered env now req r o
      → o.0 ≡ raised e
      → Leaves env now req e r o.1
  Answered-Leaves now req r e (refused x t) h =
      inl (subst (λ y. is_refusal y ≡ true) (error-injective x e _ _ h refl refl) t, refl)
  Answered-Leaves now req r e (not_stored k a s) h =
      inr (
        sym (error-injective store_failure e _ _ h refl refl),
        refl,
        k,
        a,
        refl,
        inl (s, refl, refl),
      )
  Answered-Leaves now req r e (stored k d a s) h =
      let r' = appended env (heartbeat_event now req k) d (noted env req k r) in
      elim (Bool-cases (trimmed env r').0) [
        | inl ok ↦ absurd (ground (arith, rw ok at h))
        | inr stuck ↦
            let (over, (log, store, cards, pins)) = trimmed-Stuck r' stuck in
            inr (
              sym (error-injective store_failure e _ _ (rw stuck at h) refl refl),
              cards,
              k,
              a,
              pins,
              inr (d, s, over, log, store),
            )
      ]

-- Where `record_heartbeat` raises, either a check refused the heartbeat and the registry is as it was,
-- or the checks admitted it and the store raised. The pins are then those of the admitted heartbeat;
-- and either the store did not take the event, and the log and the store are as they were, or it did
-- not compact its log: the event stands in the store, and the log, which had grown beyond its
-- bound, has the event and is compacted.
pub record_heartbeat-Leaves :
    {J D : Type 0} (env : Env J D) (now : ℕ) (req : HeartbeatPostRequest) (r : MeshRegistry D)
    (e : RegistryError)
    → (record_heartbeat env now req r).0 ≡ raised e
    → Leaves env now req e r (record_heartbeat env now req r).1
record_heartbeat-Leaves env now req r e h =
    Answered-Leaves env now req r e (record_heartbeat-Answered env now req r) h
