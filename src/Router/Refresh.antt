-- ===== src/Router/Refresh.antt =====
-- The cached snapshot of a router that discovers its nodes, `_RefreshingSnapshot` of
-- mesh/router_app.py. A discovery pass is an argument, with the time at which it ends. A call runs
-- with no other one in between.
use slancha_mesh.Common.{
  ℕ, ◌+◌, String, Bool, true, false, Option, none, some, List, [], ◌∷◌, ltb, leb, eqb, get_or,
  if◌then◌else◌, ◌==◌, ◌&&◌, not, any,
}
use slancha_mesh.Common.Dict.{Assoc, lookup, set_default}
use slancha_mesh.Models.{NodeBinding, NodeSummary, RegistrySnapshot, SpecialistCard}
use slancha_mesh.Router.Bindings.{DiscoveryResult, append_binding, discovery_to_snapshot}

abbrev pub same_url : Option String → Option String → Bool
same_url none none = true
same_url (some a) (some b) = a == b
same_url _ _ = false

abbrev pub listed : String → Assoc (List NodeBinding) → List NodeBinding
listed specialist_id m = get_or (lookup specialist_id m) []

-- `(sid, b.node_url) in fresh_keys`
unfoldable pub in_fresh : String → NodeBinding → RegistrySnapshot → Bool
in_fresh specialist_id b fresh =
    any (λ c. same_url c.node_url b.node_url) (listed specialist_id fresh.specialists)

unfoldable pub is_kept : ℕ → RegistrySnapshot → String → NodeBinding → Bool
unfolding in_fresh
is_kept retain_s fresh specialist_id b =
    not (in_fresh specialist_id b fresh) && not (ltb (b.last_seen + retain_s) fresh.snapshot_ts)

pub record Merged : Type 0 where
  pub bindings : Assoc (List NodeBinding)
  pub nodes : Assoc NodeSummary
  pub retained : ℕ

abbrev pub carry_node : String → Option NodeSummary → Assoc NodeSummary → Assoc NodeSummary
carry_node node_id none nodes = nodes
carry_node node_id (some summary) nodes = set_default node_id summary nodes

module _ (retain_s : ℕ) (prior fresh : RegistrySnapshot) where
  abbrev pub retain : String → NodeBinding → Merged → Merged
  retain specialist_id b m = record {
    bindings = append_binding specialist_id b m.bindings;
    nodes = carry_node b.node_id (lookup b.node_id prior.nodes) m.nodes;
    retained = m.retained + 1;
  }

  unfoldable pub retain_bindings : String → List NodeBinding → Merged → Merged
  retain_bindings specialist_id [] m = m
  retain_bindings specialist_id (b ∷ bs) m =
      retain_bindings specialist_id bs
        (if is_kept retain_s fresh specialist_id b then retain specialist_id b m else m)

  unfoldable pub retain_specialists : Assoc (List NodeBinding) → Merged → Merged
  unfolding retain_bindings
  retain_specialists [] m = m
  retain_specialists ((specialist_id, bs) ∷ rest) m =
      retain_specialists rest (retain_bindings specialist_id bs m)

  unfoldable pub merged : Merged
  unfolding retain_specialists
  merged =
      retain_specialists prior.specialists
        (record { bindings = fresh.specialists; nodes = fresh.nodes; retained = 0 })

  abbrev pub merged_snapshot : Merged → RegistrySnapshot
  merged_snapshot m =
      if eqb m.retained 0 then fresh else record fresh { nodes = m.nodes; specialists = m.bindings }

unfoldable pub merge_retaining_recent :
    ℕ → Option RegistrySnapshot → RegistrySnapshot → RegistrySnapshot
unfolding merged
merge_retaining_recent retain_s none fresh = fresh
merge_retaining_recent retain_s (some prior) fresh =
    if leb retain_s 0
    then fresh
    else merged_snapshot retain_s prior fresh (merged retain_s prior fresh)

-- One discovery pass, as it was made at a time.
pub record Pass : Type 0 where
  pub at : ℕ
  pub found : DiscoveryResult

module _ (node_id_for_url : String → String) (catalog : List SpecialistCard) (retain_s : ℕ) where
  abbrev pub fresh_snapshot : Pass → RegistrySnapshot
  fresh_snapshot p = discovery_to_snapshot node_id_for_url p.at p.found catalog

  unfoldable pub refresh_once : Pass → Option RegistrySnapshot → Option RegistrySnapshot
  unfolding merge_retaining_recent discovery_to_snapshot
  refresh_once p held = some (merge_retaining_recent retain_s held (fresh_snapshot p))

  -- `get`: the snapshot that is held, or that of a pass made now.
  unfoldable pub get : Pass → Option RegistrySnapshot → RegistrySnapshot × Option RegistrySnapshot
  unfolding discovery_to_snapshot
  get p none = (fresh_snapshot p, some (fresh_snapshot p))
  get p (some held) = (held, some held)
