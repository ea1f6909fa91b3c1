-- ===== src/Registry/Decode.antt =====
-- The durable form of the log of mesh/registry.py, read back: `_decode` after `_encode`.
use mathlib.Core.List.{append_assoc, append-nil}
use slancha_mesh.Common.{
  ℕ, suc, String, ◌≡◌, refl, sym, ap, ◌∙◌, false, Option, none, some, List, [], ◌∷◌, ◌++◌, arith,
  some-injective,
}
use slancha_mesh.Common.Dict.{Assoc}
use slancha_mesh.EventStore.{EventEnvelope, IsDurable}
use slancha_mesh.Registry.State.{
  Event, EventKind, heartbeat_kind, node_left_kind, allocation_kind, quality_observation_kind,
  kind_of, kind_name, event_type, Env, encode, decode_as, decode, boot_replay, repin,
}
use slancha_mesh.Registry.Compact.{encode_all}
use slancha_mesh.Registry.Keys.{repin_all}

-- What the registry relies on: the store keeps what it accepts, accepts everything and can be
-- compacted, JSON reads back what was dumped, and no signature verifies under an empty key.
pub record IsReliable {J D : Type 0} (env : Env J D) : Type 0 where
  pub durable : IsDurable env.store
  pub accepts : (d : D) (e : EventEnvelope J) → (d' : D) × (env.store.append d e ≡ some d')
  pub compacts : (f : D → List (EventEnvelope J) → Option D) × (env.store.compact ≡ some f)
  pub always_compacts :
      (f : D → List (EventEnvelope J) → Option D) (d : D) (envs : List (EventEnvelope J))
      → env.store.compact ≡ some f
      → (e : D) × (f d envs ≡ some e)
  pub reads_back :
      (ev : Event) → env.model_validate_json (kind_of ev) (env.model_dump_json ev) ≡ some ev
  pub no_empty_key : (message sig : String) → env.verify_signature "" message sig ≡ false

cons_decoded : Option Event → Option (List Event) → Option (List Event)
cons_decoded none rest = none
cons_decoded (some ev) none = none
cons_decoded (some ev) (some evs) = some (ev ∷ evs)

unfoldable pub decode_all : {J D : Type 0} → Env J D → List (EventEnvelope J) → Option (List Event)
unfolding cons_decoded
decode_all env [] = some []
decode_all env (e ∷ rest) = cons_decoded (decode env e) (decode_all env rest)

event_type-kind_name : (k : EventKind) → event_type (kind_name k) ≡ some k
unfolding event_type
event_type-kind_name heartbeat_kind = refl
event_type-kind_name node_left_kind = refl
event_type-kind_name allocation_kind = refl
event_type-kind_name quality_observation_kind = refl

module _ {J D : Type 0} (env : Env J D) where
  cons_decoded-inv :
      (o : Option Event) (p : Option (List Event)) (evs : List Event)
      → cons_decoded o p ≡ some evs
      → (ev : Event) × (rest : List Event) × (o ≡ some ev) × (p ≡ some rest) × (evs ≡ ev ∷ rest)
  unfolding cons_decoded
  cons_decoded-inv none p evs h = absurd (ground (arith, h))
  cons_decoded-inv (some ev) none evs h = absurd (ground (arith, h))
  cons_decoded-inv (some ev) (some rest) evs h =
      (ev, rest, refl, refl, sym (some-injective (ev ∷ rest) evs h))

  pub boot_replay-decode_all :
      (envs : List (EventEnvelope J)) (evs events : List Event) (pins : Assoc String)
      → decode_all env envs ≡ some evs
      → boot_replay env envs events pins ≡ some (events ++ evs, repin_all evs pins)
  unfolding boot_replay decode_all repin_all
  boot_replay-decode_all [] evs events pins h =
      let done : [] ≡ evs = some-injective [] evs h in
      rw (← done) (ap (λ l. some (l, pins)) (sym (append-nil events)))
  boot_replay-decode_all (e ∷ rest) evs events pins h =
      let (ev, more, here, there, all) =
        cons_decoded-inv (decode env e) (decode_all env rest) evs h in
      rw (boot_replay, here, all)
        (boot_replay-decode_all rest more (events ++ ev ∷ []) (repin ev pins) there
          ∙ ap (λ l. some (l, repin_all more (repin ev pins))) (append_assoc events (ev ∷ []) more))

  pub decode_all-append :
      (envs : List (EventEnvelope J)) (e : EventEnvelope J) (evs : List Event) (ev : Event)
      → decode_all env envs ≡ some evs
      → decode env e ≡ some ev
      → decode_all env (envs ++ e ∷ []) ≡ some (evs ++ ev ∷ [])
  unfolding decode_all
  decode_all-append [] e evs ev h d =
      let done : [] ≡ evs = some-injective [] evs h in rw (← done) (rw d refl)
  decode_all-append (x ∷ rest) e evs ev h d =
      let (y, more, here, there, all) =
        cons_decoded-inv (decode env x) (decode_all env rest) evs h in
      rw (here, all, decode_all-append rest e more ev there d) refl

module _ {J D : Type 0} (env : Env J D) (ok : IsReliable env) where
  pub decode-encode : (n : ℕ) (ev : Event) → decode env (encode env n ev) ≡ some ev
  unfolding decode encode decode_as
  decode-encode n ev =
      ap (λ o. decode_as env o (env.model_dump_json ev)) (event_type-kind_name (kind_of ev))
      ∙ ok.reads_back ev

  pub decode_all-encode_all :
      (n : ℕ) (evs : List Event) → decode_all env (encode_all env n evs) ≡ some evs
  unfolding decode_all encode_all
  decode_all-encode_all n [] = refl
  decode_all-encode_all n (ev ∷ rest) =
      rw (decode-encode n ev, decode_all-encode_all (suc n) rest) refl
