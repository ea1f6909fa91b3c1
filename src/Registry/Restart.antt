-- ===== src/Registry/Restart.antt =====
-- The start of mesh/registry.py after a run: what `__init__` reads back from a durable store.
use slancha_mesh.Common.{
  ℕ, String, ◌≡◌, refl, sym, ap, ◌∙◌, Bool, some, List, [], subst, some-injective,
}
use slancha_mesh.Common.Dict.{Assoc, lookup}
use slancha_mesh.Models.{SpecialistCard}
use slancha_mesh.Registry.State.{Event, Env, MeshRegistry, boot, by_specialist_id}
use slancha_mesh.Registry.Trace.{Request, Allocate, run}
use slancha_mesh.Registry.Keys.{first_key, last_key, repin_all, repin_all-first_key}
use slancha_mesh.Registry.Decode.{IsReliable, decode_all, boot_replay-decode_all}
use slancha_mesh.Registry.Restorable.{IsRestorable, run-IsRestorable}

-- What a start on a store gives: a registry with this log and these pins.
abbrev pub Restores :
    {J D : Type 0} → Env J D → List SpecialistCard → ℕ → Bool → MeshRegistry D → Type 0
Restores {D} env catalog max_events required r =
    (s : MeshRegistry D) × (boot env catalog max_events r.store required ≡ some s)
    × (s.events ≡ r.events)
    × ((n : String) → lookup n s.node_pubkeys ≡ lookup n r.node_pubkeys)

-- The registry that `__init__` builds on a log and the pins in it.
abbrev booted :
    {D : Type 0} → List SpecialistCard → ℕ → D → Bool → List Event → Assoc String → MeshRegistry D
booted catalog max_events store required events pins = record {
  events = events;
  max_events = max_events;
  node_pubkeys = pins;
  require_node_identity = required;
  store = store;
  catalog = by_specialist_id catalog [];
  node_urls = [];
  uuids_drawn = 0;
}

boot-booted :
    {J D : Type 0} (env : Env J D) (catalog : List SpecialistCard) (max_events : ℕ) (store : D)
    (required : Bool) (events : List Event)
    → decode_all env (env.store.replay store) ≡ some events
    → boot env catalog max_events store required
      ≡ some (booted catalog max_events store required events (repin_all events []))
unfolding boot
boot-booted env catalog max_events store required events h =
    rw (boot, boot_replay-decode_all env (env.store.replay store) events [] [] h) refl

fresh-logged :
    {J D : Type 0} (env : Env J D) (store : D)
    → env.store.replay store ≡ []
    → decode_all env (env.store.replay store) ≡ some []
unfolding decode_all
fresh-logged env store fresh = ap (decode_all env) fresh

fresh-IsRestorable :
    {J D : Type 0} (env : Env J D) (catalog : List SpecialistCard) (max_events : ℕ) (store : D)
    (required : Bool)
    → env.store.replay store ≡ []
    → IsRestorable env (booted catalog max_events store required [] [])
unfolding first_key last_key lookup
fresh-IsRestorable env catalog max_events store required fresh = record {
  logged = fresh-logged env store fresh;
  first = λ n. refl;
  last = λ n. refl;
}

-- A registry that starts on an empty durable store and serves any sequence of requests, compactions
-- included, can be started again from its store at the end, with the same log and the same pinned
-- key for every node. The store must accept every event, keep it, and let itself be compacted; JSON
-- must read back; no signature may verify under an empty key.
pub restart-Restores :
    {J D : Type 0} (env : Env J D)
    → IsReliable env
    → (alloc : Allocate) (catalog catalog' : List SpecialistCard) (max_events : ℕ) (required : Bool)
      (store : D) (r : MeshRegistry D) (qs : List Request)
    → env.store.replay store ≡ []
    → boot env catalog max_events store required ≡ some r
    → Restores env catalog' max_events required (run env alloc qs r)
unfolding repin_all first_key lookup
restart-Restores env ok alloc catalog catalog' max_events required store r qs fresh start =
    let empty : decode_all env (env.store.replay store) ≡ some [] = fresh-logged env store fresh in
    let begun =
      some-injective _ r
        (sym (boot-booted env catalog max_events store required [] empty) ∙ start) in
    let s = run env alloc qs r in
    let h : IsRestorable env s = run-IsRestorable env ok alloc qs r (
      subst (IsRestorable env) begun
        (fresh-IsRestorable env catalog max_events store required fresh)) in
    (
      booted catalog' max_events s.store required s.events (repin_all s.events []),
      boot-booted env catalog' max_events s.store required s.events h.logged,
      refl,
      λ n. repin_all-first_key n s.events [] ∙ h.first n,
    )
