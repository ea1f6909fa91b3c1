-- ===== src/Registry/Pins.antt =====
-- Trust on first use: the keys that mesh/registry.py pins to nodes.
use slancha_mesh.Common.{
  ℕ, String, ◌≡◌, refl, sym, ap, ◌∙◌, true, Option, none, some, List, arith, ◌==◌, eq_iff,
  Bool-cases, Option-cases, inl, inr, ltb, length, some-injective,
}
use slancha_mesh.Common.Dict.{Assoc, lookup, lookup-insert}
use slancha_mesh.Identity.{VerifySignature, NodeIdentityCert, verify_node_cert}
use slancha_mesh.EventStore.{EventEnvelope}
use slancha_mesh.Registry.State.{Env, HeartbeatPostRequest, MeshRegistry}
use slancha_mesh.Registry.Compact.{
  encode_all, replaced, compact_store, compact_heartbeats, compact_events,
}
use slancha_mesh.Registry.Ingest.{
  Outcome, done, pin_key, record_heartbeat, HeartbeatPostResponse, trimmed,
}
use slancha_mesh.Registry.Trace.{Request, Allocate, run}
use slancha_mesh.Registry.Keeps.{run-keeps}
use slancha_mesh.Registry.Answers.{
  Admits, Answered, refused, not_stored, stored, record_heartbeat-Answered,
}

compact_store-node_pubkeys :
    {J D : Type 0} (f : Option (D → List (EventEnvelope J) → Option D)) (env : Env J D)
    (r : MeshRegistry D)
    → (compact_store f env r).1.node_pubkeys ≡ r.node_pubkeys
unfolding compact_store replaced
compact_store-node_pubkeys none env r = refl
compact_store-node_pubkeys (some f) env r =
    elim (Option-cases (f r.store (encode_all env r.uuids_drawn r.events))) [
      | inl e ↦ rw e refl
      | inr (d, e) ↦ rw e refl
    ]

pub trimmed-node_pubkeys :
    {J D : Type 0} (env : Env J D) (r : MeshRegistry D)
    → (trimmed env r).1.node_pubkeys ≡ r.node_pubkeys
unfolding compact_heartbeats
trimmed-node_pubkeys env r = elim (Bool-cases (ltb r.max_events (length r.events))) [
  | inl t ↦ rw t (
      compact_store-node_pubkeys env.store.compact env
        (record r { events = compact_events r.events }))
  | inr t ↦ rw t refl
]

-- An admitted heartbeat writes the pin that is there, if one is.
pin_key-keeps :
    (verify : VerifySignature) (cert : Option NodeIdentityCert) (node_id n key : String)
    (admitted_key : Option String) (pins : Assoc String)
    → Admits verify cert node_id (lookup node_id pins) admitted_key
    → lookup n pins ≡ some key
    → lookup n (pin_key node_id admitted_key pins) ≡ some key
unfolding pin_key
pin_key-keeps verify cert node_id n key none pins a e = e
pin_key-keeps verify none node_id n key (some k) pins a e = absurd (ground (arith, a.0))
pin_key-keeps verify (some c) node_id n key (some k) pins a e =
    lookup-insert node_id n k pins ∙ elim (Bool-cases (node_id == n)) [
      | inl t ↦
          let at_n : lookup node_id pins ≡ some key =
            ap (λ x. lookup x pins) ((eq_iff node_id n).0 t) ∙ e in
          rw t (elim a.2 [ inl free ↦ ground (arith, free, at_n) | inr same ↦ sym same ∙ at_n ])
      | inr t ↦ rw t e
    ]

abbrev HasPin : {D : Type 0} → String → String → MeshRegistry D → Type 0
HasPin n key r = lookup n r.node_pubkeys ≡ some key

Answered-HasPin :
    {J D : Type 0} (env : Env J D) (now : ℕ) (req : HeartbeatPostRequest) (r : MeshRegistry D)
    (n key : String) {o : Outcome HeartbeatPostResponse × MeshRegistry D}
    → Answered env now req r o
    → HasPin n key r
    → HasPin n key o.1
Answered-HasPin env now req r n key (refused e t) p = p
Answered-HasPin env now req r n key (not_stored k a s) p =
    pin_key-keeps env.verify_signature req.identity_cert req.heartbeat.node_id n key k
      r.node_pubkeys a p
Answered-HasPin env now req r n key (stored k d a s) p =
    ap (lookup n) (trimmed-node_pubkeys env _)
    ∙ pin_key-keeps env.verify_signature req.identity_cert req.heartbeat.node_id n key k
        r.node_pubkeys a p

-- Once a key is pinned to a node, no sequence of requests changes or removes it: not a heartbeat
-- under another key, not the node's departure, not a compaction, not a store that fails.
pub pins_survive :
    {J D : Type 0} (env : Env J D) (alloc : Allocate) (qs : List Request) (r : MeshRegistry D)
    (n key : String)
    → lookup n r.node_pubkeys ≡ some key
    → lookup n (run env alloc qs r).node_pubkeys ≡ some key
pins_survive env alloc qs r n key p =
    run-keeps env alloc (HasPin n key)
      (record {
        on_event = λ ev d s quiet e q. q;
        on_catalog = λ c s q. q;
        on_heartbeat = λ now req s q.
            Answered-HasPin env now req s n key (record_heartbeat-Answered env now req s) q;
      })
      qs r p

-- The certificate that an admitted heartbeat of a pinned node carries.
abbrev pub Certified : VerifySignature → Option NodeIdentityCert → String → String → Type 0
Certified verify cert n key =
    (c : NodeIdentityCert) × (cert ≡ some c)
    × (verify_node_cert verify c n ≡ true)
    × (c.public_key_b64 ≡ key)

Admits-Certified :
    (verify : VerifySignature) (cert : Option NodeIdentityCert) (n key : String)
    (pinned admitted_key : Option String)
    → Admits verify cert n pinned admitted_key
    → pinned ≡ some key
    → Certified verify cert n key
Admits-Certified verify none n key pinned k a e = absurd (ground (arith, a.1, e))
Admits-Certified verify (some c) n key pinned k a e =
    let same : pinned ≡ k = elim a.2 [ inl free ↦ absurd (ground (arith, free, e)) | inr s ↦ s ] in
    (c, refl, a.1, some-injective c.public_key_b64 key (sym a.0 ∙ sym same ∙ e))

Answered-Certified :
    {J D : Type 0} (env : Env J D) (now : ℕ) (req : HeartbeatPostRequest) (r : MeshRegistry D)
    (key : String) (resp : HeartbeatPostResponse)
    {o : Outcome HeartbeatPostResponse × MeshRegistry D}
    → Answered env now req r o
    → lookup req.heartbeat.node_id r.node_pubkeys ≡ some key
    → o.0 ≡ done resp
    → Certified env.verify_signature req.identity_cert req.heartbeat.node_id key
Answered-Certified env now req r key resp (refused e t) p ok = absurd (ground (arith, ok))
Answered-Certified env now req r key resp (not_stored k a s) p ok = absurd (ground (arith, ok))
Answered-Certified env now req r key resp (stored k d a s) p ok =
    Admits-Certified env.verify_signature req.identity_cert req.heartbeat.node_id key
      (lookup req.heartbeat.node_id r.node_pubkeys) k a p

-- A heartbeat for a node with a pinned key is acknowledged only where it carries a certificate of
-- that node under the pinned key whose signature verifies.
pub acknowledged_is_Certified :
    {J D : Type 0} (env : Env J D) (now : ℕ) (req : HeartbeatPostRequest) (r : MeshRegistry D)
    (key : String) (resp : HeartbeatPostResponse)
    → lookup req.heartbeat.node_id r.node_pubkeys ≡ some key
    → (record_heartbeat env now req r).0 ≡ done resp
    → Certified env.verify_signature req.identity_cert req.heartbeat.node_id key
acknowledged_is_Certified env now req r key resp p ok =
    Answered-Certified env now req r key resp (record_heartbeat-Answered env now req r) p ok
