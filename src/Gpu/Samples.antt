-- ===== src/Gpu/Samples.antt =====
-- Small directories of reservations and clusters, and the theorems at them.
use slancha_mesh.Common.{
  ℕ, String, ◌≡◌, ◌≢◌, refl, Option, none, some, List, [], ◌∷◌, eqb, if◌then◌else◌, all, any, In,
  ◌⊎◌, ◌*◌,
}
use slancha_mesh.Common.Dict.{remove}
use slancha_mesh.Common.Sort.{sort_by}
use slancha_mesh.Gpu.Reservations.{
  Reservation, holds, unreadable, malformed, Directory, KillOutcome, sent, no_permission,
  list_active,
}
use slancha_mesh.Gpu.Placement.{NodeGpuView, ClusterGpuView, rejection, score, pick_best_node}
use slancha_mesh.Gpu.Choice.{views, IsBest, pick_best_node-cases}

abbrev reservation : String → ℕ → Option ℕ → Reservation
reservation id expires pid = record {
  reservation_id = id;
  user = "ann";
  hostname = "spark";
  gb_requested = 20480;
  started_at = 10;
  expires_at = expires;
  purpose = "";
  pid = pid;
}

-- One reservation that holds, one that has expired, one whose process this user may not signal, one
-- torn file.
abbrev dir : Directory
dir =
    ("b", holds (reservation "b" 100 none))
    ∷ ("a", holds (reservation "a" 20 none))
    ∷ ("d", holds (reservation "d" 100 (some 7)))
    ∷ ("c", unreadable)
    ∷ []

abbrev kill : ℕ → KillOutcome
kill pid = if eqb pid 7 then no_permission else sent

two_are_left : list_active 50 kill dir ≡ (
  some (reservation "b" 100 none ∷ []),
  ("b", holds (reservation "b" 100 none)) ∷ ("c", unreadable) ∷ [],
)
unfolding list_active remove sort_by
two_are_left = refl

-- A file whose date is none ends the loop, after the expired one was deleted.
ended_by_a_date :
    list_active 50 kill (("b", malformed) ∷ ("a", holds (reservation "a" 20 none)) ∷ [])
    ≡ (none, ("b", malformed) ∷ [])
unfolding list_active remove sort_by
ended_by_a_date = refl

abbrev node : String → ℕ → List Reservation → NodeGpuView
node id gb reservations = record {
  node_id = id;
  friendly_name = id;
  snapshot = record { util_pct = some 10; mem_total_mib = none; proc_memory = 1024 ∷ [] };
  active_reservations = reservations;
  declared_total_gb = some (10240 * gb);
  hardware_tags = "fp4" ∷ [];
}

abbrev cluster : ClusterGpuView
cluster = record {
  snapshot_ts = 0;
  nodes =
      ("x", node "x" 8 [])
      ∷ ("y", node "y" 16 [])
      ∷ ("z", node "z" 16 (reservation "r" 9 none ∷ []))
      ∷ [];
}

placed : (pick_best_node cluster 40960 ("fp4" ∷ []) []).chosen_node_id ≡ some "y"
unfolding pick_best_node sort_by all any
placed = refl

pick_best_node-cases_example :
    (((pick_best_node cluster 40960 ("fp4" ∷ []) ("x" ∷ [])).chosen_node_id ≡ none)
      × ((n : NodeGpuView)
          → In n (views cluster.nodes)
          → rejection 40960 ("fp4" ∷ []) ("x" ∷ []) n ≢ none))
    ⊎ ((n : NodeGpuView) × ((pick_best_node cluster 40960 ("fp4" ∷ []) ("x" ∷ [])).chosen_node_id
          ≡ some n.node_id)
        × ((pick_best_node cluster 40960 ("fp4" ∷ []) ("x" ∷ [])).fit_score ≡ some (score n))
        × IsBest (views cluster.nodes) 40960 ("fp4" ∷ []) ("x" ∷ []) n)
pick_best_node-cases_example = pick_best_node-cases cluster 40960 ("fp4" ∷ []) ("x" ∷ [])
