-- ===== src/Registry/Trace.antt =====
-- A run of the registry of mesh/registry.py: the requests that its lock puts in some order.
use slancha_mesh.Common.{ℕ, String, Option, List, [], ◌∷◌}
use slancha_mesh.Common.Dict.{Assoc}
use slancha_mesh.Models.{NodeProbe, SpecialistCard}
use slancha_mesh.Registry.State.{QualityObservationEvent, Env, HeartbeatPostRequest, MeshRegistry}
use slancha_mesh.Registry.Ingest.{
  record_heartbeat, record_node_left, record_allocation, record_quality_observation,
  register_catalog, run_allocator,
}

abbrev pub Allocate : Type 0
Allocate = List NodeProbe → List SpecialistCard → Assoc (Option String)

-- One call of a method that changes the registry, with the time that its clock reads.
pub data Request : Type 0 where
  beat : (now : ℕ) → HeartbeatPostRequest → Request
  leave : (now : ℕ) (node_id reason : String) → Request
  allocated : (now : ℕ) (strategy : String) (suggestions : Assoc (Option String)) → Request
  observe : QualityObservationEvent → Request
  register : List SpecialistCard → Request
  allocate : (now : ℕ) (strategy : String) → Request

unfoldable pub perform :
    {J D : Type 0} → Env J D → Allocate → Request → MeshRegistry D → MeshRegistry D
unfolding record_heartbeat record_node_left record_allocation record_quality_observation
    register_catalog run_allocator
perform env alloc (beat now req) r = (record_heartbeat env now req r).1
perform env alloc (leave now node_id reason) r = (record_node_left env now node_id reason r).1
perform env alloc (allocated now strategy suggestions) r =
    (record_allocation env now strategy suggestions r).1
perform env alloc (observe ev) r = (record_quality_observation env ev r).1
perform env alloc (register cards) r = register_catalog cards r
perform env alloc (allocate now strategy) r = (run_allocator env alloc now strategy r).1

unfoldable pub run :
    {J D : Type 0} → Env J D → Allocate → List Request → MeshRegistry D → MeshRegistry D
unfolding perform
run env alloc [] r = r
run env alloc (q ∷ qs) r = run env alloc qs (perform env alloc q r)
