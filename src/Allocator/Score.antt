-- ===== src/Allocator/Score.antt =====
-- How well a specialist fits a node, `model_fit_score` of mesh/allocator.py. Memory and storage are
-- counted in units of 1/10240 GB, the width of a cached number in eighths of a byte; the rest of the
-- score is computed in floating point.
use text.Mathlib.Text.{starts_with}
use slancha_mesh.Common.{
  ℕ, suc, ◌-◌, ◌*◌, min, String, Bool, true, false, Option, none, some, List, [], ◌∷◌, ltb, eqb,
  if◌then◌else◌, ◌==◌, ◌&&◌, ◌||◌, not, any, length, get_or,
}
use slancha_mesh.Common.Dict.{Assoc, lookup, insert}
use slancha_mesh.Common.Floats.{Floats}
use slancha_mesh.Models.{
  Backend, vllm, llamacpp, ollama, mlx, hf_transformers, external, KvArch, mha, gqa, mqa, mla,
  sliding_window, NodeProbe, SpecialistCard,
}
use slancha_mesh.Select.Text.{lower}

abbrev pub gb_units : ℕ
gb_units = 10240

-- The subtraction stops at 0, as the source's `max` does.
unfoldable pub effective_vram_gb : NodeProbe → ℕ
effective_vram_gb node =
    if node.unified_memory
    then node.ram_available_gb - 8 * gb_units
    else get_or node.vram_available_gb (node.ram_available_gb - 4 * gb_units)

abbrev pub representative_ctx_tokens : ℕ
representative_ctx_tokens = 8192

-- Whether the cache of this architecture is estimated.
abbrev pub has_kv_formula : Option KvArch → Bool
has_kv_formula none = false
has_kv_formula (some mla) = false
has_kv_formula (some sliding_window) = false
has_kv_formula (some mha) = true
has_kv_formula (some gqa) = true
has_kv_formula (some mqa) = true

-- The product, where the card has the geometry.
unfoldable pub kv_product : Bool → Option ℕ → Option ℕ → ℕ → ℕ → ℕ
kv_product true (some n_kv_heads) (some head_dim) n_layers dtype_bytes =
    2 * n_layers * n_kv_heads * head_dim * dtype_bytes
kv_product true (some n_kv_heads) none n_layers dtype_bytes = 0
kv_product true none head_dim n_layers dtype_bytes = 0
kv_product false n_kv_heads head_dim n_layers dtype_bytes = 0

-- In eighths of a byte; two bytes where the card does not say.
unfoldable pub kv_bytes_per_token : SpecialistCard → ℕ
unfolding kv_product
kv_bytes_per_token spec =
    kv_product (has_kv_formula spec.kv_arch) spec.n_kv_heads spec.head_dim spec.n_layers
      (get_or spec.kv_dtype_bytes 16)

-- `needle in text`
unfoldable pub is_in_text : String → String → Bool
is_in_text needle String.[] = starts_with "" needle
is_in_text needle (String.◌∷◌ c s) = starts_with (String.◌∷◌ c s) needle || is_in_text needle s

-- The catalog's key of a chip.
unfoldable pub chip_key : String → String
unfolding is_in_text lower
chip_key name =
    let chip = lower name in
    if is_in_text "gb10" chip
    then "gb10"
    else if is_in_text "m4 pro" chip || is_in_text "m4pro" chip
    then "m4_pro"
    else if is_in_text "m3 ultra" chip || is_in_text "m3ultra" chip
    then "m3_ultra"
    else if is_in_text "l40" chip
    then "l40"
    else ""

unfoldable pub same_backend : Backend → Backend → Bool
same_backend vllm vllm = true
same_backend llamacpp llamacpp = true
same_backend ollama ollama = true
same_backend mlx mlx = true
same_backend hf_transformers hf_transformers = true
same_backend external external = true
same_backend _ _ = false

-- node.cuda_capability in {"10.0", "12.0", "12.1"}
abbrev pub is_blackwell : Option String → Bool
is_blackwell none = false
is_blackwell (some capability) =
    capability == "10.0" || capability == "12.0" || capability == "12.1"

-- The ids of the nodes that host each domain; `add` of a Python set.
abbrev pub Coverage : Type 0
Coverage = Assoc (List String)

abbrev pub add_to_set : String → List String → List String
add_to_set x xs = if any (λ y. y == x) xs then xs else x ∷ xs

-- coverage.setdefault(domain, set()).add(node_id)
unfoldable pub cover : String → String → Coverage → Coverage
cover domain node_id coverage =
    insert domain (add_to_set node_id (get_or (lookup domain coverage) [])) coverage

-- A score is -inf or a floating-point number.
pub data FitScore (F : Type 0) : Type 0 where
  minus_inf : FitScore F
  finite : F → FitScore F

module _ (fl : Floats) where
  open fl use {F, ratio, add, sub, mul, div, largest, smallest, log}

  abbrev whole : ℕ → F
  whole n = ratio n 1

  abbrev gb : ℕ → F
  gb n = ratio n gb_units

  unfoldable pub decode_bytes_gb : SpecialistCard → ℕ → F
  unfolding kv_bytes_per_token
  decode_bytes_gb spec ctx_tokens =
      add (largest (gb (get_or spec.active_params_gb spec.runtime_gb)) (ratio 1 10))
        (ratio (kv_bytes_per_token spec * ctx_tokens) 8000000000)

  -- The rate by bandwidth, where it is known and not 0, or else by the catalog's table.
  unfoldable pub estimated_tps : SpecialistCard → NodeProbe → F
  unfolding decode_bytes_gb chip_key
  estimated_tps spec node =
      let bandwidth = get_or node.memory_bandwidth_gbs 0 in
      if ltb 0 bandwidth
      then largest (whole 1) (
          div (whole bandwidth)
            (decode_bytes_gb spec (min representative_ctx_tokens spec.context_window)))
      else whole (get_or (lookup (chip_key node.chip) spec.estimated_tps_at) 20)

  unfoldable pub coverage_score : ℕ → F
  coverage_score hosting = if eqb hosting 0 then whole 3 else ratio 1 (suc hosting)

  -- The weighted sum of coverage, throughput, headroom and network position.
  unfoldable pub soft_score : SpecialistCard → NodeProbe → Coverage → F
  unfolding estimated_tps coverage_score effective_vram_gb
  soft_score spec node coverage =
      let headroom_gb = sub (gb (effective_vram_gb node)) (gb spec.runtime_gb) in
      let headroom_score =
        smallest (div headroom_gb (largest (gb spec.runtime_gb) (ratio 1 10))) (whole 2) in
      let throughput_score =
        div (log (largest (estimated_tps spec node) (whole 1))) (log (whole 50)) in
      let covering = coverage_score (length (get_or (lookup spec.domain coverage) [])) in
      let rtt = whole (get_or node.rtt_to_master_ms 0) in
      let network_score = largest (ratio 1 2) (sub (whole 1) (div rtt (whole 100))) in
      add
        (add (add (mul (whole 2) covering) (mul (ratio 3 2) throughput_score))
          (mul (ratio 1 2) headroom_score))
        (mul (ratio 3 10) network_score)

  -- The hard filters, then the soft score.
  unfoldable pub model_fit_score : SpecialistCard → NodeProbe → Coverage → FitScore F
  unfolding soft_score same_backend
  model_fit_score spec node coverage =
      if not (any (λ b. same_backend b spec.required_backend) node.available_backends)
      then minus_inf
      else if ltb node.disk_free_gb spec.storage_gb
      then minus_inf
      else if ltb (effective_vram_gb node) spec.min_vram_gb
      then minus_inf
      else if spec.requires_fp4 && not (is_blackwell node.cuda_capability)
      then minus_inf
      else finite (soft_score spec node coverage)
