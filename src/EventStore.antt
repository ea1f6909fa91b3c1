-- ===== src/EventStore.antt =====
-- mesh/event_store.py: the durability seam of the registry. A store is an implementation of the
-- `EventStore` protocol over its own state D; `none` is an exception, which
-- leaves the store as it was.
use slancha_mesh.Common.{
  String, ◌∙◌, ◌≡◌, sym, ap, some-injective, Option, some, List, [], ◌∷◌, ◌++◌,
}

-- J is the JSON text of a payload, which pydantic writes and reads.
pub record EventEnvelope (J : Type 0) : Type 0 where
  pub event_id : String
  pub kind : String
  pub ts : String
  pub payload : J

-- `compact` is optional: `none` is a store without it.
pub record EventStore (J D : Type 0) : Type 0 where
  pub append : D → EventEnvelope J → Option D
  pub replay : D → List (EventEnvelope J)
  pub compact : Option (D → List (EventEnvelope J) → Option D)

-- The contract of a durable store: an append that returns has added the envelope at the end of what
-- is replayed, and a `compact` that returns has replaced the log.
pub record IsDurable {J D : Type 0} (s : EventStore J D) : Type 0 where
  pub appended :
      (d e : D) (env : EventEnvelope J)
      → s.append d env ≡ some e
      → s.replay e ≡ s.replay d ++ env ∷ []
  pub compacted :
      (f : D → List (EventEnvelope J) → Option D) (d e : D) (envs : List (EventEnvelope J))
      → s.compact ≡ some f
      → f d envs ≡ some e
      → s.replay e ≡ envs

-- `NullEventStore` keeps nothing.
abbrev pub null_event_store : {J : Type 0} → EventStore J (Unit {0})
null_event_store = record {
  append = λ d env. some d;
  replay = λ d. [];
  compact = some (λ d envs. some d);
}

-- A store that holds its log in a list.
abbrev pub list_store : {J : Type 0} → EventStore J (List (EventEnvelope J))
list_store = record {
  append = λ d env. some (d ++ env ∷ []);
  replay = λ d. d;
  compact = some (λ d envs. some envs);
}

-- The store in a list is durable.
pub list_store-IsDurable : {J : Type 0} → IsDurable (list_store {J = J})
list_store-IsDurable = record {
  appended = λ d e env h. sym (some-injective (d ++ env ∷ []) e h);
  compacted = λ f d e envs h k. sym (
      some-injective envs e (ap (λ g. g d envs) (some-injective (λ d' envs'. some envs') f h) ∙ k));
}
