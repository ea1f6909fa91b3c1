-- ===== src/Registry/Answers.antt =====
-- What becomes of a heartbeat that `record_heartbeat` of mesh/registry.py is called with.
use slancha_mesh.Common.{
  ℕ, String, ◌≡◌, refl, ap, Bool, true, false, Option, none, some, if◌then◌else◌, ◌==◌, eq_iff,
  is_some, Bool-cases, inl, inr, ◌⊎◌,
}
use slancha_mesh.Common.Dict.{lookup}
use slancha_mesh.Identity.{VerifySignature, NodeIdentityCert, verify_node_cert}
use slancha_mesh.Registry.State.{Env, HeartbeatPostRequest, MeshRegistry, encode}
use slancha_mesh.Registry.Ingest.{
  RegistryError, invalid_cert, impersonation, missing_cert, downgrade, store_failure, Outcome, done,
  raised, check_pin, check_cert, pin_key, note_url, finish_heartbeat, accept_heartbeat,
  record_heartbeat, heartbeat_event, HeartbeatPostResponse, acked, trimmed,
}
use slancha_mesh.Registry.Keeps.{appended, record_event-cases}

-- An error that the checks raise, and not the store.
abbrev pub is_refusal : RegistryError → Bool
is_refusal store_failure = false
is_refusal _ = true

-- What the check of a certificate says of a node with a pinned key or none: it admits no key where
-- there is no certificate and no pin, and the key of a certificate that verifies where nothing else
-- is pinned.
abbrev pub Admits :
    VerifySignature → Option NodeIdentityCert → String → Option String → Option String → Type 0
Admits verify none node_id pinned key = (key ≡ none) × (pinned ≡ none)
Admits verify (some cert) node_id pinned key =
    (key ≡ some cert.public_key_b64)
    × (verify_node_cert verify cert node_id ≡ true)
    × ((pinned ≡ none) ⊎ (pinned ≡ key))

pub data Decision (verify : VerifySignature) (cert : Option NodeIdentityCert) (node_id : String)
    (pinned : Option String) : Outcome (Option String) → Type 0 where
  admitted :
      (key : Option String)
      → Admits verify cert node_id pinned key
      → Decision verify cert node_id pinned (done key)
  refused :
      (e : RegistryError) → is_refusal e ≡ true → Decision verify cert node_id pinned (raised e)

check_pin-Decision :
    (verify : VerifySignature) (cert : NodeIdentityCert) (node_id : String) (pinned : Option String)
    → verify_node_cert verify cert node_id ≡ true
    → Decision verify (some cert) node_id pinned (check_pin pinned cert.public_key_b64)
unfolding check_pin
check_pin-Decision verify cert node_id none ok =
    admitted (some cert.public_key_b64) (refl, ok, inl refl)
check_pin-Decision verify cert node_id (some p) ok = elim (Bool-cases (p == cert.public_key_b64)) [
  | inl t ↦ rw t (
      admitted (some cert.public_key_b64)
        (refl, ok, inr (ap some ((eq_iff p cert.public_key_b64).0 t))))
  | inr t ↦ rw t (refused impersonation refl)
]

no_cert-Decision :
    (verify : VerifySignature) (node_id : String) (pinned : Option String)
    → Decision verify none node_id pinned (if is_some pinned then raised downgrade else done none)
no_cert-Decision verify node_id none = admitted none (refl, refl)
no_cert-Decision verify node_id (some p) = refused downgrade refl

module _ {J D : Type 0} (env : Env J D) where
  pub check_cert-Decision :
      (cert : Option NodeIdentityCert) (n : String) (r : MeshRegistry D)
      → Decision env.verify_signature cert n (lookup n r.node_pubkeys) (check_cert env cert n r)
  unfolding check_cert
  check_cert-Decision none n r = elim (Bool-cases r.require_node_identity) [
    | inl t ↦ rw t (refused missing_cert refl)
    | inr t ↦ rw t (no_cert-Decision env.verify_signature n (lookup n r.node_pubkeys))
  ]
  check_cert-Decision (some cert) n r =
      elim (Bool-cases (verify_node_cert env.verify_signature cert n)) [
        | inl t ↦ rw t (check_pin-Decision env.verify_signature cert n (lookup n r.node_pubkeys) t)
        | inr t ↦ rw t (refused invalid_cert refl)
      ]

  -- The registry with the pin and the address of an admitted heartbeat.
  abbrev pub noted : HeartbeatPostRequest → Option String → MeshRegistry D → MeshRegistry D
  noted req key r = record r {
    node_pubkeys = pin_key req.heartbeat.node_id key r.node_pubkeys;
    node_urls = note_url req.heartbeat.node_id req.node_url r.node_urls;
  }

-- What becomes of a heartbeat: it is refused, or the store does not take it, or it is
-- recorded, after which the store may still fail to compact its log.
pub data Answered {J D : Type 0} (env : Env J D) (now : ℕ) (req : HeartbeatPostRequest)
    (r : MeshRegistry D) : Outcome HeartbeatPostResponse × MeshRegistry D → Type 0 where
  refused : (e : RegistryError) → is_refusal e ≡ true → Answered env now req r (raised e, r)
  not_stored :
      (key : Option String)
      → Admits env.verify_signature req.identity_cert req.heartbeat.node_id
          (lookup req.heartbeat.node_id r.node_pubkeys)
          key
      → env.store.append r.store (encode env r.uuids_drawn (heartbeat_event now req key)) ≡ none
      → Answered env now req r (raised store_failure, noted env req key r)
  stored :
      (key : Option String) (d : D)
      → Admits env.verify_signature req.identity_cert req.heartbeat.node_id
          (lookup req.heartbeat.node_id r.node_pubkeys)
          key
      → env.store.append r.store (encode env r.uuids_drawn (heartbeat_event now req key)) ≡ some d
      → Answered env now req r
          (acked (trimmed env (appended env (heartbeat_event now req key) d (noted env req key r))))

module _ {J D : Type 0} (env : Env J D) where
  accept_heartbeat-Answered :
      (now : ℕ) (req : HeartbeatPostRequest) (r : MeshRegistry D) {o : Outcome (Option String)}
      → Decision env.verify_signature req.identity_cert req.heartbeat.node_id
          (lookup req.heartbeat.node_id r.node_pubkeys)
          o
      → Answered env now req r (accept_heartbeat env now req o r)
  unfolding accept_heartbeat finish_heartbeat
  accept_heartbeat-Answered now req r (refused e t) = refused e t
  accept_heartbeat-Answered now req r (admitted key a) =
      elim (record_event-cases env (heartbeat_event now req key) (noted env req key r)) [
        | inl (s, e) ↦ rw e (not_stored key a s)
        | inr (d, s, e) ↦ rw e (stored key d a s)
      ]

  pub record_heartbeat-Answered :
      (now : ℕ) (req : HeartbeatPostRequest) (r : MeshRegistry D)
      → Answered env now req r (record_heartbeat env now req r)
  unfolding record_heartbeat
  record_heartbeat-Answered now req r =
      accept_heartbeat-Answered now req r
        (check_cert-Decision env req.identity_cert req.heartbeat.node_id r)
