-- ===== src/Registry/Views.antt =====
-- What `snapshot` of mesh/registry.py holds, node by node and specialist by specialist.
use mathlib.Core.List.{append_assoc, append-nil}
use slancha_mesh.Common.{
  ℕ, String, ◌≡◌, ◌≢◌, refl, sym, ap, ◌∙◌, Option, none, some, List, [], ◌∷◌, ◌++◌, arith,
  if◌then◌else◌, ◌==◌, eq_iff, eq_refl, Bool-cases, inl, inr, get_or,
}
use slancha_mesh.Common.Dict.{
  Assoc, lookup, insert, remove, lookup-insert, lookup-remove, IsDistinct, IsDistinct-insert,
  IsDistinct-remove,
}
use slancha_mesh.Common.DictKeys.{AllKeys, AllKeys-mono, AllKeys-insert, AllKeys-remove}
use slancha_mesh.Common.DictPerm.{flat}
use slancha_mesh.Models.{SpecialistCard, LoadedModel, NodeSummary, NodeBinding}
use slancha_mesh.Registry.State.{
  HeartbeatEvent, Event, heartbeat, node_left, allocation, quality_observation, MeshRegistry,
}
use slancha_mesh.Registry.Replay.{
  Replayed, nothing_replayed, replay_step, replay_events, summary_of, binding_of, append_at, Built,
  nothing_built, add_models, add_node, build, snapshot,
}

-- The replay holds each node once, and holds no node that has left.
pub record IsReplayed (s : Replayed) : Type 0 where
  pub distinct : IsDistinct s.latest
  pub present : AllKeys (λ k. lookup k s.left ≡ none) s.latest

replay_step-IsReplayed : (ev : Event) {s : Replayed} → IsReplayed s → IsReplayed (replay_step ev s)
unfolding replay_step
replay_step-IsReplayed (heartbeat ev) {s} h =
    let n = ev.heartbeat.node_id in
    record {
      distinct = IsDistinct-insert n ev s.latest h.distinct;
      present =
          AllKeys-insert (λ k. lookup k (remove n s.left) ≡ none) n ev s.latest
            (simp (lookup-remove, eq_refl))
            (AllKeys-mono (λ k. lookup k s.left ≡ none) (λ k. lookup k (remove n s.left) ≡ none)
              (λ k p. simp lookup-remove (ground (arith, p))) s.latest h.present);
    }
replay_step-IsReplayed (node_left ts n why) {s} h = record {
  distinct = IsDistinct-remove n s.latest h.distinct;
  present =
      AllKeys-mono (λ k. (lookup k s.left ≡ none) × (n ≢ k))
        (λ k. lookup k (insert n tt s.left) ≡ none)
        (λ k p. simp lookup-insert (ground (arith, p, eq_iff n k))) (remove n s.latest)
        (AllKeys-remove (λ k. lookup k s.left ≡ none) n s.latest h.present);
}
replay_step-IsReplayed (allocation _ _ _) h = h
replay_step-IsReplayed (quality_observation _) h = h

replay_events-IsReplayed :
    (events : List Event) (s : Replayed) → IsReplayed s → IsReplayed (replay_events events s)
unfolding replay_events
replay_events-IsReplayed [] s h = h
replay_events-IsReplayed (ev ∷ rest) s h =
    replay_events-IsReplayed rest (replay_step ev s) (replay_step-IsReplayed ev h)

pub log-IsReplayed : (events : List Event) → IsReplayed (replay_events events nothing_replayed)
log-IsReplayed events =
    replay_events-IsReplayed events nothing_replayed (record { distinct = tt; present = tt })

append_at-list :
    {V : Type 0} (k j : String) (v : V) (m : Assoc (List V))
    → get_or (lookup j (append_at k v m)) []
      ≡ get_or (lookup j m) [] ++ (if k == j then v ∷ [] else [])
unfolding append_at
append_at-list k j v m =
    ap (λ o. get_or o []) (lookup-insert k j (get_or (lookup k m) [] ++ v ∷ []) m)
    ∙ elim (Bool-cases (k == j)) [
      | inl e ↦ rw e (ap (λ x. get_or (lookup x m) [] ++ v ∷ []) ((eq_iff k j).0 e))
      | inr e ↦ rw e (sym (append-nil (get_or (lookup j m) [])))
    ]

module _ (now : ℕ) (urls : Assoc String) (catalog : Assoc SpecialistCard) where
  -- The loop over a node's models adds no node.
  nodes-add_models :
      (n : String) (ev : HeartbeatEvent) (lms : List LoadedModel) (b : Built)
      → (add_models now urls catalog n ev lms b).nodes ≡ b.nodes
  unfolding add_models
  nodes-add_models n ev [] b = refl
  nodes-add_models n ev (lm ∷ rest) b = nodes-add_models n ev rest _

  -- The bindings of one specialist among a node's models, in order.
  abbrev pub bindings_at : String → String → HeartbeatEvent → List LoadedModel → List NodeBinding
  bindings_at sid n ev [] = []
  bindings_at sid n ev (lm ∷ rest) =
      let more = bindings_at sid n ev rest in
      if lm.specialist_id == sid then binding_of now urls n ev lm ∷ more else more

  -- What the snapshot lists for a specialist, as a function of the replay.
  abbrev pub bindings_for : String → Assoc HeartbeatEvent → List NodeBinding
  bindings_for sid latest = flat (λ n ev. bindings_at sid n ev ev.heartbeat.loaded_models) latest

  specialists-add_models :
      (sid n : String) (ev : HeartbeatEvent) (lms : List LoadedModel) (b : Built)
      → get_or (lookup sid (add_models now urls catalog n ev lms b).specialists) []
        ≡ get_or (lookup sid b.specialists) [] ++ bindings_at sid n ev lms
  unfolding add_models append_at
  specialists-add_models sid n ev [] b = sym (append-nil _)
  specialists-add_models sid n ev (lm ∷ rest) b =
      specialists-add_models sid n ev rest _
      ∙ ap (λ l. l ++ bindings_at sid n ev rest)
          (append_at-list lm.specialist_id sid (binding_of now urls n ev lm) b.specialists)
      ∙ append_assoc (get_or (lookup sid b.specialists) []) _ (bindings_at sid n ev rest)
      ∙ elim (Bool-cases (lm.specialist_id == sid)) [ inl e ↦ rw e refl | inr e ↦ rw e refl ]

-- The summary that a replayed node gets, over what stands there.
abbrev pub summary_or :
    ℕ → Assoc String → String → Option HeartbeatEvent → Option NodeSummary → Option NodeSummary
summary_or now urls n none d = d
summary_or now urls n (some ev) d = some (summary_of now urls n ev)

module _ (now : ℕ) (urls : Assoc String) (catalog : Assoc SpecialistCard)
    (left : Assoc (Unit {0})) where
  -- What one round leaves for a node that has not left.
  abbrev entered : String → HeartbeatEvent → Built → Built
  entered k ev b = record b { nodes = insert k (summary_of now urls k ev) b.nodes }

  abbrev round : String → HeartbeatEvent → Built → Built
  round k ev b = add_models now urls catalog k ev ev.heartbeat.loaded_models (entered k ev b)

  add_node-present :
      (k : String) (ev : HeartbeatEvent) (b : Built)
      → lookup k left ≡ none
      → add_node now urls catalog left k ev b ≡ round k ev b
  unfolding add_node
  add_node-present k ev b e = rw e refl

  -- A node that stands here stands nowhere later.
  one_summary :
      (k n : String) (ev : HeartbeatEvent) (rest : Assoc HeartbeatEvent) (d : Option NodeSummary)
      → lookup k rest ≡ none
      → summary_or now urls n
          (lookup n rest)
          (if k == n then some (summary_of now urls k ev) else d)
        ≡ summary_or now urls n (if k == n then some ev else lookup n rest) d
  one_summary k n ev rest d absent = elim (Bool-cases (k == n)) [
    | inl e ↦
        let kn : k ≡ n = (eq_iff k n).0 e in
        rw (e, kn)
          (ap (λ o. summary_or now urls n o (some (summary_of now urls n ev)))
            (ap (λ x. lookup x rest) (sym kn) ∙ absent))
    | inr e ↦ rw e refl
  ]

  nodes-build :
      (n : String) (latest : Assoc HeartbeatEvent) (b : Built)
      → IsDistinct latest
      → AllKeys (λ k. lookup k left ≡ none) latest
      → lookup n (build now urls catalog left latest b).nodes
        ≡ summary_or now urls n (lookup n latest) (lookup n b.nodes)
  unfolding build lookup
  nodes-build n [] b d p = refl
  nodes-build n ((k, ev) ∷ rest) b d p =
      nodes-build n rest (add_node now urls catalog left k ev b) d.1 p.1
      ∙ ap (λ x. summary_or now urls n (lookup n rest) (lookup n x.nodes))
          (add_node-present k ev b p.0)
      ∙ ap (λ m. summary_or now urls n (lookup n rest) (lookup n m))
          (nodes-add_models now urls catalog k ev ev.heartbeat.loaded_models (entered k ev b))
      ∙ ap (summary_or now urls n (lookup n rest))
          (lookup-insert k n (summary_of now urls k ev) b.nodes)
      ∙ one_summary k n ev rest (lookup n b.nodes) d.0

  specialists-build :
      (sid : String) (latest : Assoc HeartbeatEvent) (b : Built)
      → AllKeys (λ k. lookup k left ≡ none) latest
      → get_or (lookup sid (build now urls catalog left latest b).specialists) []
        ≡ get_or (lookup sid b.specialists) [] ++ bindings_for now urls catalog sid latest
  unfolding build
  specialists-build sid [] b p = sym (append-nil _)
  specialists-build sid ((k, ev) ∷ rest) b p =
      specialists-build sid rest (add_node now urls catalog left k ev b) p.1
      ∙ ap (λ x. get_or (lookup sid x.specialists) [] ++ bindings_for now urls catalog sid rest)
          (add_node-present k ev b p.0)
      ∙ ap (λ l. l ++ bindings_for now urls catalog sid rest)
          (specialists-add_models now urls catalog sid k ev ev.heartbeat.loaded_models
            (entered k ev b))
      ∙ append_assoc (get_or (lookup sid b.specialists) []) _ _

pub nodes-snapshot :
    {D : Type 0} (now : ℕ) (r : MeshRegistry D) (n : String)
    → lookup n (snapshot now r).nodes
      ≡ summary_or now r.node_urls n
          (lookup n (replay_events r.events nothing_replayed).latest)
          none
unfolding snapshot lookup
nodes-snapshot now r n =
    let seen = replay_events r.events nothing_replayed in
    let ok = log-IsReplayed r.events in
    nodes-build now r.node_urls r.catalog seen.left n seen.latest nothing_built ok.distinct
      ok.present

pub specialists-snapshot :
    {D : Type 0} (now : ℕ) (r : MeshRegistry D) (sid : String)
    → get_or (lookup sid (snapshot now r).specialists) []
      ≡ bindings_for now r.node_urls r.catalog sid (replay_events r.events nothing_replayed).latest
unfolding snapshot lookup
specialists-snapshot now r sid =
    let seen = replay_events r.events nothing_replayed in
    specialists-build now r.node_urls r.catalog seen.left sid seen.latest nothing_built
      (log-IsReplayed r.events).present
