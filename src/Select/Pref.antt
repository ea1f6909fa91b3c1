-- ===== src/Select/Pref.antt =====
-- The preferences that `select_mesh_route_with_pref` of mesh/select.py takes, and its filter. Limits
-- and latencies are whole numbers. Where the source formats a text for a reader, the model keeps
-- what goes into it.
use slancha_mesh.Common.{
  ℕ, String, Bool, true, false, Option, none, some, List, [], ◌∷◌, ltb, if◌then◌else◌, ◌==◌, any,
  all,
}
use slancha_mesh.Common.Dict.{Assoc, lookup}
use slancha_mesh.Common.Floats.{Floats}
use slancha_mesh.Models.{SpecialistCard, Route}

pub record PrefVector (F : Type 0) : Type 0 where
  pub max_cost_cents : Option ℕ
  pub max_latency_ms_p95 : Option ℕ
  pub max_ttft_ms : Option ℕ
  pub min_throughput_tps : Option ℕ
  pub quality_weight : Option F
  pub require_capabilities : Option (List String)
  pub require_streaming : Option Bool
  pub allow_fallbacks : Option Bool
  pub min_context_window : Option ℕ

-- The keys of the ceiling's dictionary that are read.
pub record AdminCeiling (F : Type 0) : Type 0 where
  pub max_cost_cents : Option ℕ
  pub max_latency_ms_p95 : Option ℕ
  pub max_ttft_ms : Option ℕ
  pub quality_weight_min : Option F

-- A preference under the limit of a key.
unfoldable pub capped : Option ℕ → Option ℕ → Option ℕ
capped none cur = cur
capped (some limit) none = some limit
capped (some limit) (some cur) = if ltb limit cur then some limit else some cur

module _ (fl : Floats) where
  -- A weight under the floor of the ceiling.
  unfoldable pub floored : Option fl.F → Option fl.F → Option fl.F
  floored none cur = cur
  floored (some least) none = some least
  floored (some least) (some cur) = if fl.lt cur least then some least else some cur

  unfoldable pub clamp_pref_with_ceiling : PrefVector fl.F → AdminCeiling fl.F → PrefVector fl.F
  unfolding capped floored
  clamp_pref_with_ceiling pref ceiling = record pref {
    max_cost_cents = capped ceiling.max_cost_cents pref.max_cost_cents;
    max_latency_ms_p95 = capped ceiling.max_latency_ms_p95 pref.max_latency_ms_p95;
    max_ttft_ms = capped ceiling.max_ttft_ms pref.max_ttft_ms;
    quality_weight = floored ceiling.quality_weight_min pref.quality_weight;
  }

  -- `if admin_ceiling: pref = ...`
  abbrev pub clamped : PrefVector fl.F → Option (AdminCeiling fl.F) → PrefVector fl.F
  clamped pref none = pref
  clamped pref (some ceiling) = clamp_pref_with_ceiling pref ceiling

-- The two errors of `_reject_unsupported_pref`.
pub data UnsupportedPref : Type 0 where
  max_ttft_unsupported : UnsupportedPref
  min_throughput_unsupported : UnsupportedPref

unfoldable pub unsupported : Option ℕ → Option ℕ → Option UnsupportedPref
unsupported (some ttft) tps = some max_ttft_unsupported
unsupported none (some tps) = some min_throughput_unsupported
unsupported none none = none

abbrev pub reject_unsupported_pref : {F : Type 0} → PrefVector F → Option UnsupportedPref
reject_unsupported_pref pref = unsupported pref.max_ttft_ms pref.min_throughput_tps

abbrev pub is_capability : List String → String → Bool
is_capability have c = any (λ h. h == c) have

unfoldable pub passes_capability_gate : Option SpecialistCard → List String → Bool
passes_capability_gate none required = false
passes_capability_gate (some card) required = all (is_capability card.capabilities) required

-- Why a route is dropped.
pub data DropReason : Type 0 where
  over_latency : (p95 limit : ℕ) → DropReason
  over_cost : (cents limit : ℕ) → DropReason
  missing_capability : List String → DropReason
  small_context : ℕ → DropReason

unfoldable pub latency_drop : Option ℕ → Option ℕ → Option DropReason
latency_drop none p95 = none
latency_drop (some limit) none = none
latency_drop (some limit) (some p95) = if ltb limit p95 then some (over_latency p95 limit) else none

unfoldable pub cost_drop : Option ℕ → ℕ → Option DropReason
cost_drop none cents = none
cost_drop (some limit) cents = if ltb limit cents then some (over_cost cents limit) else none

unfoldable pub gate_drop : Option SpecialistCard → List String → Option DropReason
unfolding passes_capability_gate
gate_drop card required =
    if passes_capability_gate card required then none else some (missing_capability required)

unfoldable pub capability_drop : Option (List String) → Option SpecialistCard → Option DropReason
capability_drop none card = none
capability_drop (some []) card = none
capability_drop (some (c ∷ required)) card = gate_drop card (c ∷ required)

unfoldable pub streaming_drop : Option Bool → Option SpecialistCard → Option DropReason
streaming_drop none card = none
streaming_drop (some false) card = none
streaming_drop (some true) card = gate_drop card ("streaming" ∷ [])

unfoldable pub context_drop : Option ℕ → Option SpecialistCard → Option DropReason
context_drop none card = none
context_drop (some window) none = some (small_context window)
context_drop (some window) (some card) =
    if ltb card.context_window window then some (small_context window) else none

-- The first reason, as the loop goes to the next route on it.
unfoldable pub or_drop : Option DropReason → Option DropReason → Option DropReason
or_drop (some reason) later = some reason
or_drop none later = later

unfoldable pub route_drop :
    {F : Type 0} → PrefVector F → Option SpecialistCard → Route → Option DropReason
unfolding or_drop latency_drop cost_drop capability_drop streaming_drop context_drop
route_drop pref card r = or_drop (latency_drop pref.max_latency_ms_p95 r.p95_latency_ms) (
    or_drop (cost_drop pref.max_cost_cents r.cost_estimate_cents) (
      or_drop (capability_drop pref.require_capabilities card) (
        or_drop (streaming_drop pref.require_streaming card)
          (context_drop pref.min_context_window card))))

-- The survivors and the drops, with a route in front of them.
unfoldable pub sifted :
    Option DropReason
    → Route
    → List Route × List (Route × DropReason)
    → List Route × List (Route × DropReason)
sifted none r (survivors, drops) = (r ∷ survivors, drops)
sifted (some reason) r (survivors, drops) = (survivors, (r, reason) ∷ drops)

unfoldable pub pref_filter :
    {F : Type 0}
    → List Route
    → Assoc SpecialistCard
    → PrefVector F
    → List Route × List (Route × DropReason)
unfolding sifted route_drop
pref_filter [] catalog pref = ([], [])
pref_filter (r ∷ routes) catalog pref =
    sifted (route_drop pref (lookup r.specialist_id catalog) r) r (pref_filter routes catalog pref)
