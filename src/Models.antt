-- ===== src/Models.antt =====
-- mesh/models.py: the frozen records that the registry, the router and the allocator exchange.
-- Of each record the model holds the fields that the modelled code reads or writes. Times are
-- microseconds, the resolution of `datetime`; sizes, rates and latencies are whole numbers of a
-- fixed unit.
use slancha_mesh.Common.{ℕ, String, Bool, true, false, Option, List}
use slancha_mesh.Common.Dict.{Assoc}

pub data DifficultyTier : Type 0 where
  easy medium hard : DifficultyTier

-- The text of the literal.
abbrev pub tier_name : DifficultyTier → String
tier_name easy = "easy"
tier_name medium = "medium"
tier_name hard = "hard"

pub data Backend : Type 0 where
  vllm llamacpp ollama mlx hf_transformers external : Backend

pub data HealthState : Type 0 where
  healthy degraded draining training unreachable : HealthState

abbrev pub is_healthy : HealthState → Bool
is_healthy healthy = true
is_healthy _ = false

abbrev pub is_unreachable : HealthState → Bool
is_unreachable unreachable = true
is_unreachable _ = false

pub data ObservationSource : Type 0 where
  synthetic shadow_traffic real_traffic : ObservationSource

pub record NodeProbe : Type 0 where
  pub node_id : String
  pub friendly_name : String
  pub chip : String
  pub cuda_capability : Option String
  pub ram_available_gb : ℕ
  pub vram_available_gb : Option ℕ
  pub unified_memory : Bool
  pub memory_bandwidth_gbs : Option ℕ
  pub rtt_to_master_ms : Option ℕ
  pub available_backends : List Backend
  pub disk_free_gb : ℕ

pub data KvArch : Type 0 where
  mha gqa mqa mla sliding_window : KvArch

pub record SpecialistCard : Type 0 where
  pub model_id : String
  pub specialist_id : String
  pub domain : String
  pub difficulty_tiers : List DifficultyTier
  pub required_backend : Backend
  pub requires_fp4 : Bool
  pub storage_gb : ℕ
  pub runtime_gb : ℕ
  pub min_vram_gb : ℕ
  pub context_window : ℕ
  pub n_layers : ℕ
  pub estimated_tps_at : Assoc ℕ
  pub n_kv_heads : Option ℕ
  pub head_dim : Option ℕ
  pub kv_dtype_bytes : Option ℕ
  pub kv_arch : Option KvArch
  pub active_params_gb : Option ℕ
  pub ollama_tag : Option String
  pub served_model_name : Option String
  pub capabilities : List String
  pub quality_router_observed : Option ℕ
  pub quality_node_self_reported : Option ℕ
  pub quality_observation_source : Option ObservationSource
  pub quality_sample_count : ℕ

-- What the allocator tells a node to host. The type of the fit score is the allocator's.
pub record NodeSuggestion (S : Type 0) : Type 0 where
  pub node_id : String
  pub primary : Option SpecialistCard
  pub secondaries : List SpecialistCard
  pub alternates : List SpecialistCard
  pub sticky : Bool
  pub fit_score : S

pub record LoadedModel : Type 0 where
  pub specialist_id : String
  pub model_id : String
  pub node_url : Option String

pub record NodeUtilization : Type 0 where
  pub gpu_util_pct : ℕ
  pub queue_depth : ℕ
  pub p95_latency_ms_60s : Option ℕ

pub record NodeHeartbeat : Type 0 where
  pub node_id : String
  pub ts : ℕ
  pub hardware : NodeProbe
  pub loaded_models : List LoadedModel
  pub util : NodeUtilization
  pub health : HealthState

pub record NodeSummary : Type 0 where
  pub node_id : String
  pub friendly_name : String
  pub health : HealthState
  pub last_seen : ℕ
  pub loaded_specialist_ids : List String
  pub queue_depth : ℕ
  pub p95_latency_ms_60s : Option ℕ
  pub node_url : Option String

pub record NodeBinding : Type 0 where
  pub node_id : String
  pub specialist_id : String
  pub health : HealthState
  pub queue_depth : ℕ
  pub p95_latency_ms_60s : Option ℕ
  pub node_url : Option String
  pub last_seen : ℕ

pub record Route : Type 0 where
  pub specialist_id : String
  pub node_id : String
  pub node_url : Option String
  pub estimated_queue_ms : ℕ
  pub p95_latency_ms : Option ℕ
  pub cost_estimate_cents : ℕ

pub record RegistrySnapshot : Type 0 where
  pub snapshot_ts : ℕ
  pub nodes : Assoc NodeSummary
  pub specialists : Assoc (List NodeBinding)
  pub coverage : Assoc (List String)
  pub ranked_routes : Assoc (List Route)
  pub catalog : Assoc SpecialistCard
