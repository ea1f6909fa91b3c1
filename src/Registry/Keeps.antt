-- ===== src/Registry/Keeps.antt =====
-- Induction over the runs of the registry of mesh/registry.py: what every method keeps, every run
-- keeps.
use slancha_mesh.Common.{
  ℕ, ◌+◌, ◌≡◌, refl, Bool, true, false, Option, none, some, List, [], ◌∷◌, ◌++◌, Bool-cases,
  Option-cases, inl, inr, ltb, ◌⊎◌, ap, sym, ◌∙◌, arith, some-injective,
}
use slancha_mesh.Common.Dict.{Assoc, lookup}
use slancha_mesh.Models.{SpecialistCard}
use slancha_mesh.Registry.State.{
  QualityObservationEvent, Event, heartbeat, node_left, allocation, quality_observation, Env,
  HeartbeatPostRequest, MeshRegistry, encode,
}
use slancha_mesh.Registry.Ingest.{
  record_event, record_heartbeat, recorded, update_card, after_observation,
  record_quality_observation, register_catalog, record_node_left, record_allocation, run_allocator,
  max_score,
}
use slancha_mesh.Registry.Trace.{
  Request, beat, leave, allocated, observe, register, allocate, Allocate, perform, run,
}

abbrev pub is_beat : Event → Bool
is_beat (heartbeat _) = true
is_beat (node_left _ _ _) = false
is_beat (allocation _ _ _) = false
is_beat (quality_observation _) = false

module _ {J D : Type 0} (env : Env J D) where
  -- The registry with the event, over the store that holds it.
  abbrev pub appended : Event → D → MeshRegistry D → MeshRegistry D
  appended ev d r = record r {
    store = d;
    events = r.events ++ ev ∷ [];
    uuids_drawn = r.uuids_drawn + 1;
  }

  -- `record_event` either does not reach the read model, or adds the event at its end.
  pub record_event-cases :
      (ev : Event) (r : MeshRegistry D)
      → ((env.store.append r.store (encode env r.uuids_drawn ev) ≡ none)
          × (record_event env ev r ≡ none))
        ⊎ ((d : D) × (env.store.append r.store (encode env r.uuids_drawn ev) ≡ some d)
            × (record_event env ev r ≡ some (appended ev d r)))
  unfolding record_event
  record_event-cases ev r =
      elim (Option-cases (env.store.append r.store (encode env r.uuids_drawn ev))) [
        | inl e ↦ inl (e, rw (record_event, e) refl)
        | inr (d, e) ↦ inr (d, e, rw (record_event, e) refl)
      ]

-- An event that `record_event` takes stands at the end of the log.
pub record_event-events :
    {J D : Type 0} (env : Env J D) (ev : Event) (r after : MeshRegistry D)
    → record_event env ev r ≡ some after
    → after.events ≡ r.events ++ ev ∷ []
record_event-events env ev r after h = elim (record_event-cases env ev r) [
  | inl (_, e) ↦ absurd (ground (arith, h, e))
  | inr (d, _, e) ↦ ap (λ x. x.events) (some-injective after (appended env ev d r) (sym h ∙ e))
]

-- What each part of the methods keeps.
pub record IsKept {J D : Type 0} (env : Env J D) (P : MeshRegistry D → Type 0) : Type 0 where
  pub on_event :
      (ev : Event) (d : D) (r : MeshRegistry D)
      → is_beat ev ≡ false
      → env.store.append r.store (encode env r.uuids_drawn ev) ≡ some d
      → P r
      → P (appended env ev d r)
  pub on_catalog :
      (c : Assoc SpecialistCard) (r : MeshRegistry D) → P r → P (record r { catalog = c })
  pub on_heartbeat :
      (now : ℕ) (req : HeartbeatPostRequest) (r : MeshRegistry D)
      → P r
      → P (record_heartbeat env now req r).1

module _ {J D : Type 0} (env : Env J D) (alloc : Allocate) (P : MeshRegistry D → Type 0)
    (k : IsKept env P) where
  on_recorded :
      {A : Type 0} (a : A) (ev : Event) (r : MeshRegistry D)
      → is_beat ev ≡ false
      → P r
      → P (recorded a (record_event env ev r) r).1
  on_recorded a ev r quiet p = elim (record_event-cases env ev r) [
    | inl (_, e) ↦ rw e p
    | inr (d, s, e) ↦ rw e (k.on_event ev d r quiet s p)
  ]

  on_update_card :
      (o : Option SpecialistCard) (ev : QualityObservationEvent) (r : MeshRegistry D)
      → P r
      → P (update_card o ev r).1
  unfolding update_card
  on_update_card none ev r p = p
  on_update_card (some old) ev r p = k.on_catalog _ r p

  on_observation :
      (ev : QualityObservationEvent) (r : MeshRegistry D)
      → P r
      → P (after_observation (record_event env (quality_observation ev) r) ev r).1
  unfolding after_observation
  on_observation ev r p = elim (record_event-cases env (quality_observation ev) r) [
    | inl (_, e) ↦ rw e p
    | inr (d, s, e) ↦ rw e (
        on_update_card (lookup ev.specialist_id r.catalog) ev
          (appended env (quality_observation ev) d r)
          (k.on_event (quality_observation ev) d r refl s p))
  ]

  on_quality :
      (ev : QualityObservationEvent) (r : MeshRegistry D)
      → P r
      → P (record_quality_observation env ev r).1
  unfolding record_quality_observation
  on_quality ev r p = elim (Bool-cases (ltb max_score ev.score)) [
    | inl e ↦ rw (record_quality_observation, e) p
    | inr e ↦ rw (record_quality_observation, e) (on_observation ev r p)
  ]

  perform-keeps : (q : Request) (r : MeshRegistry D) → P r → P (perform env alloc q r)
  unfolding perform record_node_left record_allocation record_quality_observation register_catalog
      run_allocator
  perform-keeps (beat now req) r p = k.on_heartbeat now req r p
  perform-keeps (leave now n why) r p = on_recorded tt (node_left now n why) r refl p
  perform-keeps (allocated now s m) r p = on_recorded tt (allocation now s m) r refl p
  perform-keeps (observe ev) r p = on_quality ev r p
  perform-keeps (register cards) r p = k.on_catalog _ r p
  perform-keeps (allocate now s) r p = on_recorded _ (allocation now s _) r refl p

  pub run-keeps : (qs : List Request) (r : MeshRegistry D) → P r → P (run env alloc qs r)
  unfolding run
  run-keeps [] r p = p
  run-keeps (q ∷ qs) r p = run-keeps qs (perform env alloc q r) (perform-keeps q r p)
