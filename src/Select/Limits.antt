-- ===== src/Select/Limits.antt =====
-- The limits of a preference and of an administrator in `select_mesh_route_with_pref` of
-- mesh/select.py.
use slancha_mesh.Common.{
  ℕ, ◌≤◌, String, ◌≡◌, ◌≢◌, refl, sym, ap, ◌∙◌, false, Option, none, some, arith, ltb, Bool-cases,
  Option-cases, inl, inr, ◌⊎◌, All, All-mono, subst, some-injective,
}
use slancha_mesh.Common.Floats.{Floats, IsOrdered}
use slancha_mesh.Models.{Route, RegistrySnapshot}
use slancha_mesh.Select.Route.{ClassifierSignals, MeshSelectionResult, model_id_for}
use slancha_mesh.Select.Chosen.{Serves}
use slancha_mesh.Select.Pref.{
  PrefVector, AdminCeiling, capped, clamp_pref_with_ceiling, reject_unsupported_pref,
}
use slancha_mesh.Select.Weigh.{
  DecisionReason, PrefOutcome, unsupported_pref, selected, select_mesh_route_with_pref,
}
use slancha_mesh.Select.Meets.{LatencyOk, CostOk}
use slancha_mesh.Select.Best.{IsAcceptable}
use slancha_mesh.Select.Preferred.{IsEntry, IsResult, select_mesh_route_with_pref-cases}

capped-cases :
    (limit cur : ℕ)
    → ((capped (some limit) (some cur) ≡ some limit) × (limit ≤ cur))
      ⊎ ((capped (some limit) (some cur) ≡ some cur) × (cur ≤ limit))
unfolding capped
capped-cases limit cur = elim (Bool-cases (ltb limit cur)) [
  | inl t ↦ inl (rw t refl, ground (arith, t))
  | inr t ↦ inr (rw t refl, ground (arith, t))
]

capped_cost :
    (limit cur : Option ℕ) (cents : ℕ)
    → CostOk (capped limit cur) cents
    → CostOk limit cents × CostOk cur cents
unfolding capped
capped_cost none cur cents h = (tt, h)
capped_cost (some limit) none cents h = (h, tt)
capped_cost (some limit) (some cur) cents h = elim (capped-cases limit cur) [
  | inl (e, le) ↦
      let below : cents ≤ limit = subst (λ o. CostOk o cents) e h in
      (below, omega (arith, below, le))
  | inr (e, le) ↦
      let below : cents ≤ cur = subst (λ o. CostOk o cents) e h in (omega (arith, below, le), below)
]

-- A limit on a measured latency is one on a number.
measured : (limit : Option ℕ) (p95 : ℕ) → LatencyOk limit (some p95) → CostOk limit p95
measured none p95 h = tt
measured (some limit) p95 h = h

capped_latency :
    (limit cur p95 : Option ℕ)
    → LatencyOk (capped limit cur) p95
    → LatencyOk limit p95 × LatencyOk cur p95
unfolding capped
capped_latency none cur p95 h = (tt, h)
capped_latency (some limit) none p95 h = (h, tt)
capped_latency (some limit) (some cur) none h = (tt, tt)
capped_latency (some limit) (some cur) (some p95) h =
    capped_cost (some limit) (some cur) p95 (measured (capped (some limit) (some cur)) p95 h)

module _ (fl : Floats) (signals : ClassifierSignals) (s : RegistrySnapshot) (max_queue_ms : ℕ)
    (pref : PrefVector fl.F) (ceiling : AdminCeiling fl.F) where
  -- A candidate within the budgets that meets the preference as the client gave it, and the limits of
  -- the ceiling on latency and cost.
  abbrev pub IsLimited : Route → Type 0
  IsLimited r =
      IsAcceptable fl signals s max_queue_ms pref r
      × LatencyOk ceiling.max_latency_ms_p95 r.p95_latency_ms
      × CostOk ceiling.max_cost_cents r.cost_estimate_cents

  clamped-IsLimited :
      (r : Route)
      → IsAcceptable fl signals s max_queue_ms (clamp_pref_with_ceiling fl pref ceiling) r
      → IsLimited r
  unfolding clamp_pref_with_ceiling
  clamped-IsLimited r (i, within, meets) =
      let (lc, lp) =
        capped_latency ceiling.max_latency_ms_p95 pref.max_latency_ms_p95 r.p95_latency_ms
          meets.latency in
      let (cc, cp) =
        capped_cost ceiling.max_cost_cents pref.max_cost_cents r.cost_estimate_cents meets.cost in
      (
        (
          i,
          within,
          record {
            latency = lp;
            cost = cp;
            capable = meets.capable;
            streams = meets.streams;
            context = meets.context;
          },
        ),
        lc,
        cc,
      )

  -- A cloud model that the client accepts, or the model and node of such a candidate.
  abbrev pub IsLimitedEntry : String → String × Option String → Type 0
  IsLimitedEntry cloud entry =
      ((entry ≡ (cloud, none)) × (pref.allow_fallbacks ≢ some false))
      ⊎ ((r : Route) × (entry ≡ (model_id_for r s, some r.node_id)) × IsLimited r)

  module _ (cloud : String) where
    entry-IsLimited :
        (entry : String × Option String)
        → IsEntry fl signals s max_queue_ms cloud (clamp_pref_with_ceiling fl pref ceiling) entry
        → IsLimitedEntry cloud entry
    unfolding clamp_pref_with_ceiling
    entry-IsLimited entry (inl cloudy) = inl cloudy
    entry-IsLimited entry (inr (r, same, ok)) = inr (r, same, clamped-IsLimited r ok)

    -- What the theorem below says of a result.
    abbrev pub KeepsLimits : MeshSelectionResult → Type 0
    KeepsLimits res =
        All (IsLimitedEntry cloud) res.fallback_chain
        × ((res.node_id ≡ none) ⊎ ((r : Route) × Serves res r × IsLimited r))

    result-KeepsLimits :
        (discount : fl.F) (answer : MeshSelectionResult × DecisionReason fl.F)
        → IsResult fl signals s max_queue_ms cloud discount
            (clamp_pref_with_ceiling fl pref ceiling)
            answer
        → KeepsLimits answer.0
    result-KeepsLimits discount answer (entries, found) = (
      All-mono _ (IsLimitedEntry cloud) entry-IsLimited answer.0.fallback_chain entries,
      elim found [
        | inl nothing ↦ inl nothing.0
        | inr (r, serves, model, winner, best) ↦ inr (r, serves, clamped-IsLimited r best.0)
      ],
    )

abbrev result_of : {F : Type 0} → PrefOutcome F → Option MeshSelectionResult
result_of (unsupported_pref error) = none
result_of (selected res why) = some res

-- If the order of scores is one and `select_mesh_route_with_pref` returns a result for a preference
-- and a ceiling, then the result is no node, or a candidate within the budgets that meets the
-- preference as the client gave it and the ceiling's limits on latency and cost; and every entry of
-- the fallback chain is the cloud model, where the client does not refuse fallbacks, or the model
-- and node of such a candidate.
pub results_keep_limits :
    (fl : Floats) (signals : ClassifierSignals) (s : RegistrySnapshot) (max_queue_ms : ℕ)
    (discount : fl.F) (round_4 : fl.F → fl.F) (cloud : String) (pref : PrefVector fl.F)
    (ceiling : AdminCeiling fl.F) (preset : Option String) (res : MeshSelectionResult)
    (why : Option (DecisionReason fl.F))
    → IsOrdered fl
    → select_mesh_route_with_pref fl round_4 signals s
        (some pref)
        max_queue_ms
        cloud
        (some ceiling)
        discount
        preset
      ≡ selected res why
    → KeepsLimits fl signals s max_queue_ms pref ceiling cloud res
unfolding select_mesh_route_with_pref
results_keep_limits fl signals s max_queue_ms discount round_4 cloud pref ceiling preset res why o
      returned =
    elim (Option-cases (reject_unsupported_pref pref)) [
      | inr (error, e) ↦ absurd (ground (arith, rw e at (ap result_of returned)))
      | inl supported ↦
          let (answer, same, kept) =
            select_mesh_route_with_pref-cases fl signals s max_queue_ms discount round_4 cloud pref
              (some ceiling) preset o supported in
          subst (KeepsLimits fl signals s max_queue_ms pref ceiling cloud)
            (some-injective answer.0 res (ap result_of (sym same ∙ returned)))
            (result-KeepsLimits fl signals s max_queue_ms pref ceiling cloud discount answer kept)
    ]
