-- ===== src/Allocator/Samples.antt =====
-- A cluster of two nodes under each strategy, and the theorems at it. The scores are whole numbers.
use slancha_mesh.Common.{
  ℕ, ◌+◌, ◌*◌, ◌/◌, ◌-◌, String, ◌≡◌, refl, true, none, some, List, [], ◌∷◌, map, arith, min, max,
  Option, ◌++◌, ltb, get_or, keep, any, All, In,
}
use slancha_mesh.Common.Dict.{Assoc, lookup, insert, has}
use slancha_mesh.Common.Sort.{sort_by}
use slancha_mesh.Common.Floats.{Floats, IsOrdered}
use slancha_mesh.Models.{NodeProbe, SpecialistCard, NodeSuggestion}
use slancha_mesh.EventStore.{EventEnvelope}
use slancha_mesh.Registry.State.{Event, heartbeat, allocation, MeshRegistry}
use slancha_mesh.Registry.Ingest.{done, latest_hardware, values, record_event, run_allocator}
use slancha_mesh.Registry.Samples.{hardware, code_card, env, event_of, pinned}
use slancha_mesh.Allocator.Score.{FitScore, gb_units, chip_key, model_fit_score}
use slancha_mesh.Allocator.Place.{no_fit}
use slancha_mesh.Allocator.Tiers.{Strategy, full_set, tiered, allocate_cluster}
use slancha_mesh.Allocator.Sound.{PrimaryOf, Coexists}
use slancha_mesh.Allocator.Ranking.{Runs}
use slancha_mesh.Allocator.Recorded.{primary_ids, suggest, RunsIds, allocations_are_runnable}
use slancha_mesh.Allocator.Suggested.{
  allocate_cluster_returns, suggestions_are_runnable, secondaries_share_memory,
}

abbrev pub whole_numbers : Floats
whole_numbers = record {
  F = ℕ;
  ratio = λ n d. 1000 * n / d;
  add = λ a b. a + b;
  sub = λ a b. a - b;
  mul = λ a b. a * b / 1000;
  div = λ a b. 1000 * a / b;
  largest = max;
  smallest = min;
  log = λ a. a;
  lt = ltb;
}

pub whole_numbers-IsOrdered : IsOrdered whole_numbers
whole_numbers-IsOrdered = record {
  asymm = λ a b h. ground (arith, h);
  not_lt_trans = λ a b c h k. ground (arith, h, k);
}

abbrev spark : NodeProbe
spark = record (hardware "spark") {
  chip = "NVIDIA GB10";
  unified_memory = true;
  ram_available_gb = 128 * gb_units;
  disk_free_gb = 500 * gb_units;
}

-- A node with a full disk.
abbrev laptop : NodeProbe
laptop = record (hardware "laptop") { disk_free_gb = 0 }

abbrev nodes : List NodeProbe
nodes = spark ∷ laptop ∷ []

abbrev code : SpecialistCard
code = record code_card {
  storage_gb = 10 * gb_units;
  runtime_gb = 12 * gb_units;
  min_vram_gb = 12 * gb_units;
}

abbrev math : SpecialistCard
math = record code { specialist_id = "math"; domain = "math" }

abbrev cards : List SpecialistCard
cards = code ∷ math ∷ []

chip_of_spark : chip_key "NVIDIA GB10" ≡ "gb10"
unfolding chip_key
chip_of_spark = refl

abbrev suggested : Strategy → Assoc (NodeSuggestion (FitScore ℕ))
suggested strategy = get_or (allocate_cluster whole_numbers nodes cards [] strategy) []

abbrev on_spark : NodeSuggestion (FitScore ℕ)
on_spark = get_or (lookup "spark" (suggested tiered)) (no_fit whole_numbers "spark")

tiered_primary : on_spark.primary ≡ some code
unfolding allocate_cluster model_fit_score keep sort_by any insert lookup
tiered_primary = refl

tiered_secondary : on_spark.secondaries ≡ math ∷ []
unfolding allocate_cluster model_fit_score keep sort_by any insert lookup
tiered_secondary = refl

full_set_second_domain :
    map (λ (e : String × NodeSuggestion (FitScore ℕ)). e.1.primary) (suggested full_set)
    ≡ some code ∷ none ∷ []
unfolding allocate_cluster model_fit_score keep sort_by any insert lookup
full_set_second_domain = refl

result : allocate_cluster whole_numbers nodes cards [] tiered ≡ some (suggested tiered)
unfolding allocate_cluster model_fit_score keep sort_by any insert lookup
result = refl

listed : lookup "spark" (suggested tiered) ≡ some on_spark
unfolding allocate_cluster model_fit_score keep sort_by any insert lookup
listed = refl

allocate_cluster_returns_example :
    (suggestions : Assoc (NodeSuggestion (FitScore ℕ))) × (allocate_cluster whole_numbers nodes
        cards [] full_set
      ≡ some suggestions)
    × All (λ n. has n.node_id suggestions ≡ true) nodes
allocate_cluster_returns_example =
    allocate_cluster_returns whole_numbers whole_numbers-IsOrdered nodes cards [] full_set

suggestions_are_runnable_example :
    (n : NodeProbe) × In n nodes
    × (n.node_id ≡ "spark")
    × PrimaryOf nodes cards n on_spark.primary
    × All (Runs cards n) on_spark.alternates
suggestions_are_runnable_example =
    suggestions_are_runnable whole_numbers whole_numbers-IsOrdered nodes cards [] tiered "spark"
      (suggested tiered) on_spark result listed

secondaries_share_memory_example :
    All (Coexists nodes cards "spark" on_spark.primary) on_spark.secondaries
secondaries_share_memory_example =
    secondaries_share_memory whole_numbers whole_numbers-IsOrdered nodes cards [] tiered "spark"
      (suggested tiered) on_spark result listed

-- A registry whose log has a heartbeat of spark.
abbrev with_spark : MeshRegistry (List (EventEnvelope Event))
with_spark = record pinned {
  events =
      heartbeat (record (event_of "spark" 90 0) {
        heartbeat = record (event_of "spark" 90 0).heartbeat { hardware = spark };
      })
      ∷ [];
  catalog = ("code", code) ∷ [];
}

abbrev primaries : Assoc (Option String)
primaries = ("spark", some "code") ∷ []

abbrev allocated : MeshRegistry (List (EventEnvelope Event))
allocated = (run_allocator env (suggest whole_numbers [] tiered) 200 "tiered" with_spark).1

spark_gets_code :
    run_allocator env (suggest whole_numbers [] tiered) 200 "tiered" with_spark
    ≡ (done primaries, allocated)
unfolding run_allocator suggest latest_hardware record_event primary_ids allocate_cluster
    model_fit_score keep sort_by any insert lookup
spark_gets_code = refl

allocations_are_runnable_example :
    (allocated.events ≡ with_spark.events ++ allocation 200 "tiered" primaries ∷ [])
    × All (λ n. has n.node_id primaries ≡ true) (values (latest_hardware with_spark.events []))
    × ((node_id : String) (primary : Option String)
        → lookup node_id primaries ≡ some primary
        → RunsIds whole_numbers [] tiered
            (values (latest_hardware with_spark.events []))
            (values with_spark.catalog)
            node_id
            primary)
allocations_are_runnable_example =
    allocations_are_runnable whole_numbers [] tiered env 200 "tiered" with_spark allocated primaries
      whole_numbers-IsOrdered spark_gets_code
