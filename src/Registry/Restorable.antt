-- ===== src/Registry/Restorable.antt =====
-- What every run of mesh/registry.py keeps of its store: the log, and the keys that its pins stand
-- for.
use slancha_mesh.Common.{
  ℕ, String, ◌≡◌, refl, sym, ap, ◌∙◌, true, false, Option, none, some, List, [], ◌∷◌, ◌++◌, arith,
  if◌then◌else◌, ◌==◌, eq_iff, get_or, Bool-cases, inl, inr, ltb, length, ◌⊎◌,
}
use slancha_mesh.Common.Dict.{Assoc, lookup, lookup-insert}
use slancha_mesh.Identity.{NodeIdentityCert, verify_node_cert, cert_message}
use slancha_mesh.EventStore.{EventEnvelope}
use slancha_mesh.Registry.State.{
  Event, heartbeat, node_left, allocation, quality_observation, Env, HeartbeatPostRequest,
  MeshRegistry, encode,
}
use slancha_mesh.Registry.Compact.{
  encode_all, replaced, compact_store, compact_heartbeats, compact_events,
}
use slancha_mesh.Registry.Compaction.{compact_events-eq-drop_superseded}
use slancha_mesh.Registry.Ingest.{trimmed, Outcome, pin_key, HeartbeatPostResponse, heartbeat_event}
use slancha_mesh.Registry.Trace.{Request, Allocate, run}
use slancha_mesh.Registry.Keeps.{is_beat, appended, run-keeps}
use slancha_mesh.Registry.Answers.{
  Admits, Answered, refused, not_stored, stored, noted, record_heartbeat-Answered,
}
use slancha_mesh.Registry.Keys.{
  real, key_in, first_of, first_of-none, first_key, last_key, first_key-append, last_key-append,
  last_key-drop_superseded, first_key-drop_superseded,
}
use slancha_mesh.Registry.Decode.{
  IsReliable, decode_all, decode_all-append, decode-encode, decode_all-encode_all,
}

-- What a run keeps: the store holds the log, and the pins are the keys of the heartbeats in it.
pub record IsRestorable {J D : Type 0} (env : Env J D) (r : MeshRegistry D) : Type 0 where
  pub logged : decode_all env (env.store.replay r.store) ≡ some r.events
  pub first : (n : String) → first_key n r.events ≡ lookup n r.node_pubkeys
  pub last : (n : String) → get_or (last_key n r.events) none ≡ lookup n r.node_pubkeys

real-real : (key : Option String) → real (real key) ≡ real key
real-real none = refl
real-real (some key) = elim (Bool-cases (key == "")) [
  | inl e ↦ rw e refl
  | inr e ↦ rw e (rw e refl)
]

real-first_of :
    (a b : Option String) → real b ≡ b → real (first_of (real a) b) ≡ first_of (real a) b
real-first_of none b h = h
real-first_of (some key) b h = elim (Bool-cases (key == "")) [
  | inl e ↦ rw e h
  | inr e ↦ rw e (rw e refl)
]

real-first_key : (n : String) (events : List Event) → real (first_key n events) ≡ first_key n events
unfolding first_key
real-first_key n [] = refl
real-first_key n (ev ∷ rest) =
    real-first_of (get_or (key_in n ev) none) (first_key n rest) (real-first_key n rest)

quiet-key_in : (n : String) (ev : Event) → is_beat ev ≡ false → key_in n ev ≡ none
quiet-key_in n (heartbeat ev) h = absurd (ground (arith, h))
quiet-key_in n (node_left _ _ _) h = refl
quiet-key_in n (allocation _ _ _) h = refl
quiet-key_in n (quality_observation _) h = refl

module _ {J D : Type 0} (env : Env J D) (ok : IsReliable env) where
  certified_key-real :
      (c : NodeIdentityCert) (n : String)
      → verify_node_cert env.verify_signature c n ≡ true
      → real (some c.public_key_b64) ≡ some c.public_key_b64
  unfolding verify_node_cert
  certified_key-real c n h = elim (Bool-cases (c.public_key_b64 == "")) [
    | inl e ↦
        let empty : c.public_key_b64 ≡ "" = (eq_iff c.public_key_b64 "").0 e in
        let no_sig = ok.no_empty_key (cert_message c.node_id c.public_key_b64) c.signature_b64 in
        absurd (ground (arith, h, rw (← empty) at no_sig))
    | inr e ↦ rw e refl
  ]

  own_pin :
      (pinned : Option String) (k : String)
      → (pinned ≡ none) ⊎ (pinned ≡ some k)
      → first_of pinned (some k) ≡ some k
  own_pin none k h = refl
  own_pin (some p) k (inl e) = absurd (ground (arith, e))
  own_pin (some p) k (inr e) = e

  -- The pins after an admitted heartbeat, by its key.
  first-pin_key :
      (cert : Option NodeIdentityCert) (node_id n : String) (key : Option String)
      (pins : Assoc String)
      → Admits env.verify_signature cert node_id (lookup node_id pins) key
      → first_of (lookup n pins) (real (get_or (if node_id == n then some key else none) none))
        ≡ lookup n (pin_key node_id key pins)
  unfolding pin_key
  first-pin_key cert node_id n none pins a = elim (Bool-cases (node_id == n)) [
    | inl t ↦ rw t (first_of-none (lookup n pins))
    | inr t ↦ rw t (first_of-none (lookup n pins))
  ]
  first-pin_key none node_id n (some k) pins a = absurd (ground (arith, a.0))
  first-pin_key (some c) node_id n (some k) pins a = elim (Bool-cases (node_id == n)) [
    | inl t ↦
        let key : some k ≡ some c.public_key_b64 = a.0 in
        let counts : real (some k) ≡ some k =
          ap real key ∙ certified_key-real c node_id a.1 ∙ sym key in
        let pinned = ap (λ x. lookup x pins) (sym ((eq_iff node_id n).0 t)) in
        rw t (
          ap (first_of (lookup n pins)) counts
          ∙ own_pin (lookup n pins) k
              (elim a.2 [ inl free ↦ inl (pinned ∙ free) | inr same ↦ inr (pinned ∙ same) ])
          ∙ sym (lookup-insert node_id n k pins ∙ rw t refl))
    | inr t ↦
        rw t (first_of-none (lookup n pins) ∙ sym (lookup-insert node_id n k pins ∙ rw t refl))
  ]

  last-pin_key :
      (cert : Option NodeIdentityCert) (node_id n : String) (key : Option String)
      (pins : Assoc String) (last : Option (Option String))
      → Admits env.verify_signature cert node_id (lookup node_id pins) key
      → get_or last none ≡ lookup n pins
      → get_or (first_of (if node_id == n then some key else none) last) none
        ≡ lookup n (pin_key node_id key pins)
  unfolding pin_key
  last-pin_key none node_id n none pins last a h = elim (Bool-cases (node_id == n)) [
    | inl t ↦ rw t (sym (ap (λ x. lookup x pins) (sym ((eq_iff node_id n).0 t)) ∙ a.1))
    | inr t ↦ rw t h
  ]
  last-pin_key (some c) node_id n none pins last a h = absurd (ground (arith, a.0))
  last-pin_key cert node_id n (some k) pins last a h = elim (Bool-cases (node_id == n)) [
    | inl t ↦ rw t (sym (lookup-insert node_id n k pins ∙ rw t refl))
    | inr t ↦ rw t (h ∙ sym (lookup-insert node_id n k pins ∙ rw t refl))
  ]

  append-logged :
      (ev : Event) (d : D) (r : MeshRegistry D)
      → env.store.append r.store (encode env r.uuids_drawn ev) ≡ some d
      → decode_all env (env.store.replay r.store) ≡ some r.events
      → decode_all env (env.store.replay d) ≡ some (r.events ++ ev ∷ [])
  append-logged ev d r s h =
      ap (decode_all env) (ok.durable.appended r.store d (encode env r.uuids_drawn ev) s)
      ∙ decode_all-append env (env.store.replay r.store) (encode env r.uuids_drawn ev) r.events ev h
          (decode-encode env ok r.uuids_drawn ev)

  compact_store-IsRestorable :
      (o : Option (D → List (EventEnvelope J) → Option D)) (r : MeshRegistry D)
      → env.store.compact ≡ o
      → IsRestorable env r
      → IsRestorable env (compact_store o env (record r { events = compact_events r.events })).1
  unfolding compact_store replaced
  compact_store-IsRestorable none r e h = absurd (ground (arith, e, ok.compacts.1))
  compact_store-IsRestorable (some f) r e h =
      let dropped = compact_events-eq-drop_superseded r.events in
      let (d, returned) =
        ok.always_compacts f r.store (encode_all env r.uuids_drawn (compact_events r.events)) e in
      rw returned (record {
        logged =
            ap (decode_all env) (ok.durable.compacted f r.store d _ e returned)
            ∙ decode_all-encode_all env ok r.uuids_drawn (compact_events r.events);
        first = λ n.
            ap (first_key n) dropped
            ∙ first_key-drop_superseded n r.events
            ∙ ap real (h.last n ∙ sym (h.first n))
            ∙ real-first_key n r.events
            ∙ h.first n;
        last = λ n.
            ap (λ o. get_or o none) (ap (last_key n) dropped ∙ last_key-drop_superseded n r.events)
            ∙ h.last n;
      })

  trimmed-IsRestorable :
      (r : MeshRegistry D) → IsRestorable env r → IsRestorable env (trimmed env r).1
  unfolding compact_heartbeats
  trimmed-IsRestorable r h = elim (Bool-cases (ltb r.max_events (length r.events))) [
    | inl t ↦ rw t (compact_store-IsRestorable env.store.compact r refl h)
    | inr t ↦ rw t h
  ]

  -- A log that grows by one event, which leaves the pins that its key stands for.
  grown-IsRestorable :
      (ev : Event) (d : D) (r s : MeshRegistry D)
      → env.store.append r.store (encode env r.uuids_drawn ev) ≡ some d
      → IsRestorable env r
      → s.store ≡ d
      → s.events ≡ r.events ++ ev ∷ []
      → ((n : String)
          → first_of (lookup n r.node_pubkeys) (real (get_or (key_in n ev) none))
            ≡ lookup n s.node_pubkeys)
      → ((n : String)
          → get_or (first_of (key_in n ev) (last_key n r.events)) none ≡ lookup n s.node_pubkeys)
      → IsRestorable env s
  grown-IsRestorable ev d r s kept h held grown pins lasts = record {
    logged =
        ap (λ x. decode_all env (env.store.replay x)) held
        ∙ append-logged ev d r kept h.logged
        ∙ ap some (sym grown);
    first = λ n.
        ap (first_key n) grown
        ∙ first_key-append n r.events ev
        ∙ ap (λ o. first_of o (real (get_or (key_in n ev) none))) (h.first n)
        ∙ pins n;
    last = λ n.
        ap (λ l. get_or (last_key n l) none) grown
        ∙ ap (λ o. get_or o none) (last_key-append n r.events ev)
        ∙ lasts n;
  }

  Answered-IsRestorable :
      (now : ℕ) (req : HeartbeatPostRequest) (r : MeshRegistry D)
      {o : Outcome HeartbeatPostResponse × MeshRegistry D}
      → Answered env now req r o
      → IsRestorable env r
      → IsRestorable env o.1
  Answered-IsRestorable now req r (refused e t) h = h
  Answered-IsRestorable now req r (not_stored key a s) h =
      let (d, s') = ok.accepts r.store (encode env r.uuids_drawn (heartbeat_event now req key)) in
      absurd (ground (arith, s, s'))
  Answered-IsRestorable now req r (stored key d a s) h =
      let ev = heartbeat_event now req key in
      let node_id = req.heartbeat.node_id in
      trimmed-IsRestorable (appended env ev d (noted env req key r)) (
        grown-IsRestorable ev d r (appended env ev d (noted env req key r)) s h refl refl
          (λ n. first-pin_key req.identity_cert node_id n key r.node_pubkeys a)
          (λ n.
            last-pin_key req.identity_cert node_id n key r.node_pubkeys (last_key n r.events) a
              (h.last n)))

  appended-IsRestorable :
      (ev : Event) (d : D) (r : MeshRegistry D)
      → is_beat ev ≡ false
      → env.store.append r.store (encode env r.uuids_drawn ev) ≡ some d
      → IsRestorable env r
      → IsRestorable env (appended env ev d r)
  appended-IsRestorable ev d r quiet s h =
      grown-IsRestorable ev d r (appended env ev d r) s h refl refl
        (λ n. rw (quiet-key_in n ev quiet) (first_of-none (lookup n r.node_pubkeys)))
        (λ n. rw (quiet-key_in n ev quiet) (h.last n))

  pub run-IsRestorable :
      (alloc : Allocate) (qs : List Request) (r : MeshRegistry D)
      → IsRestorable env r
      → IsRestorable env (run env alloc qs r)
  run-IsRestorable alloc qs r h =
      run-keeps env alloc (IsRestorable env)
        (record {
          on_event = appended-IsRestorable;
          on_catalog = λ c s p. record { logged = p.logged; first = p.first; last = p.last };
          on_heartbeat = λ now req s p.
              Answered-IsRestorable now req s (record_heartbeat-Answered env now req s) p;
        })
        qs r h
