-- ===== src/Gpu/Placement.antt =====
-- mesh/gpu/cluster.py: which node a workload is placed on. Memory is counted in the units of
-- Gpu/Reservations.
use slancha_mesh.Common.{
  ℕ, ◌+◌, ◌-◌, ◌*◌, max, String, Bool, false, Option, none, some, List, [], ◌∷◌, ltb, leb,
  if◌then◌else◌, ◌==◌, not, any, all, keep, length, get_or,
}
use slancha_mesh.Common.Dict.{Assoc, insert}
use slancha_mesh.Common.Sort.{sort_by}
use slancha_mesh.Gpu.Reservations.{Reservation, sum_gb}

-- The fields of mesh/gpu/probe.py's snapshot that placement reads; `proc_memory` is the list of the
-- processes' memory in MiB.
pub record GpuSnapshot : Type 0 where
  pub util_pct : Option ℕ
  pub mem_total_mib : Option ℕ
  pub proc_memory : List ℕ

unfoldable pub sum_mib : List ℕ → ℕ
sum_mib [] = 0
sum_mib (m ∷ rest) = m + sum_mib rest

unfoldable pub total_proc_memory_gb : GpuSnapshot → ℕ
unfolding sum_mib
total_proc_memory_gb s = 10 * sum_mib s.proc_memory

abbrev pub mem_total_gb : Option ℕ → Option ℕ
mem_total_gb none = none
mem_total_gb (some mib) = some (10 * mib)

pub record NodeGpuView : Type 0 where
  pub node_id : String
  pub friendly_name : String
  pub snapshot : GpuSnapshot
  pub active_reservations : List Reservation
  pub declared_total_gb : Option ℕ
  pub hardware_tags : List String

abbrev pub declared_or : Option ℕ → Option ℕ → Option ℕ
declared_or none measured = measured
declared_or (some gb) measured = some gb

abbrev pub total_gb : NodeGpuView → Option ℕ
total_gb n = declared_or n.declared_total_gb (mem_total_gb n.snapshot.mem_total_mib)

unfoldable pub held_gb : NodeGpuView → ℕ
unfolding total_proc_memory_gb sum_gb
held_gb n = max (total_proc_memory_gb n.snapshot) (sum_gb n.active_reservations)

-- The subtraction stops at 0, as the source's `max` does.
abbrev pub free_of_total : Option ℕ → ℕ → Option ℕ
free_of_total none held = none
free_of_total (some total) held = some (total - held)

unfoldable pub free_gb_after_reservations : NodeGpuView → Option ℕ
unfolding held_gb
free_gb_after_reservations n = free_of_total (total_gb n) (held_gb n)

pub record ClusterGpuView : Type 0 where
  pub snapshot_ts : ℕ
  pub nodes : Assoc NodeGpuView

abbrev pub fits : Option ℕ → ℕ → Bool
fits none gb_required = false
fits (some free) gb_required = leb gb_required free

unfoldable pub filter_nodes_by_memory : List NodeGpuView → ℕ → List NodeGpuView
unfolding free_gb_after_reservations
filter_nodes_by_memory nodes gb_required =
    keep (λ n. fits (free_gb_after_reservations n) gb_required) nodes

-- x in xs
abbrev pub contains : List String → String → Bool
contains xs x = any (λ y. y == x) xs

-- The reasons in `rejected`; the source formats them as texts, with the missing tags sorted.
pub data Rejection : Type 0 where
  avoided : Rejection
  missing_tags : List String → Rejection
  memory_unknown : Rejection
  insufficient : (free requested : ℕ) → Rejection

-- By the free memory, after the filters that come before it.
unfoldable pub memory_rejection : Option ℕ → ℕ → Option Rejection
memory_rejection none gb_requested = some memory_unknown
memory_rejection (some free) gb_requested =
    if ltb free gb_requested then some (insufficient free gb_requested) else none

-- Why a node is passed over; `none` is a candidate.
unfoldable pub rejection : ℕ → List String → List String → NodeGpuView → Option Rejection
unfolding memory_rejection free_gb_after_reservations
rejection gb_requested require_tags avoid n =
    if contains avoid n.node_id
    then some avoided
    else if not (all (contains n.hardware_tags) require_tags)
    then some (missing_tags (keep (λ t. not (contains n.hardware_tags t)) require_tags))
    else memory_rejection (free_gb_after_reservations n) gb_requested

-- A score is a headroom less a penalty.
pub record Score : Type 0 where
  pub headroom : ℕ
  pub penalty : ℕ

unfoldable pub score : NodeGpuView → Score
unfolding free_gb_after_reservations
score n = record {
  headroom = get_or (free_gb_after_reservations n) 0;
  penalty = 20480 * length n.active_reservations + 1024 * get_or n.snapshot.util_pct 0;
}

abbrev pub exceeds : Score → Score → Bool
exceeds a b = ltb (b.headroom + a.penalty) (a.headroom + b.penalty)

-- The order of `sort(key=_score, reverse=True)`.
abbrev pub better : NodeGpuView → NodeGpuView → Bool
better a b = exceeds (score a) (score b)

pub record PlacementResult : Type 0 where
  pub chosen_node_id : Option String
  pub fit_score : Option Score
  pub rejected : Assoc Rejection

-- The loop over the nodes: the candidates, and why the others are none.
unfoldable pub sift :
    ℕ
    → List String
    → List String
    → Assoc NodeGpuView
    → Assoc Rejection
    → List NodeGpuView × Assoc Rejection
sift gb_requested require_tags avoid [] rejected = ([], rejected)
sift gb_requested require_tags avoid ((_, n) ∷ rest) rejected =
    elim (rejection gb_requested require_tags avoid n) [
      | none ↦
          let (candidates, rejected') = sift gb_requested require_tags avoid rest rejected in
          (n ∷ candidates, rejected')
      | some why ↦ sift gb_requested require_tags avoid rest (insert n.node_id why rejected)
    ]

unfoldable pub choose : List NodeGpuView → Assoc Rejection → PlacementResult
choose [] rejected = record { chosen_node_id = none; fit_score = none; rejected = rejected }
choose (best ∷ others) rejected = record {
  chosen_node_id = some best.node_id;
  fit_score = some (score best);
  rejected = rejected;
}

unfoldable pub pick_best_node : ClusterGpuView → ℕ → List String → List String → PlacementResult
unfolding sift choose rejection score
pick_best_node view gb_requested require_tags avoid =
    let (candidates, rejected) = sift gb_requested require_tags avoid view.nodes [] in
    choose (sort_by better candidates) rejected
