-- ===== src/Select/Preferred.antt =====
-- What `select_mesh_route_with_pref` of mesh/select.py chooses under a preference and a ceiling.
use slancha_mesh.Common.{
  ℕ, String, ◌≡◌, ◌≢◌, refl, Bool, true, false, Option, none, some, List, [], ◌∷◌, arith, inl, inr,
  ◌⊎◌, All, All-In, All-map, All-append, In, subst,
}
use slancha_mesh.Common.Floats.{Floats, IsOrdered}
use slancha_mesh.Models.{Route, RegistrySnapshot}
use slancha_mesh.Select.Route.{ClassifierSignals, MeshSelectionResult, model_id_for}
use slancha_mesh.Select.Chosen.{Serves}
use slancha_mesh.Select.Pref.{
  PrefVector, AdminCeiling, clamped, reject_unsupported_pref, DropReason,
}
use slancha_mesh.Select.Weigh.{
  DecisionReason, Scored, selected, cloud_entry, scored_route, pref_selection, select_by_pref,
  select_mesh_route_with_pref,
}
use slancha_mesh.Select.Best.{
  IsAcceptable, IsPreferred, ranked, IsScored, ranked-IsScored, In-ranked, head-IsPreferred,
}

module _ (fl : Floats) (signals : ClassifierSignals) (s : RegistrySnapshot) (max_queue_ms : ℕ)
    (cloud : String) where
  -- The cloud model, unless fallbacks are refused, or the model and node of an acceptable route.
  abbrev pub IsEntry : PrefVector fl.F → String × Option String → Type 0
  IsEntry pref entry =
      ((entry ≡ (cloud, none)) × (pref.allow_fallbacks ≢ some false))
      ⊎ ((r : Route) × (entry ≡ (model_id_for r s, some r.node_id))
          × IsAcceptable fl signals s max_queue_ms pref r)

  -- No route is acceptable, and the result names the cloud model and no node.
  abbrev pub FoundNone : PrefVector fl.F → MeshSelectionResult → Type 0
  FoundNone pref res =
      (res.node_id ≡ none)
      × (res.model ≡ cloud)
      × (res.specialist_id ≡ none)
      × ((r : Route) → ¬ IsAcceptable fl signals s max_queue_ms pref r)

  -- The result is a preferred route.
  abbrev pub Found : fl.F → PrefVector fl.F → MeshSelectionResult → DecisionReason fl.F → Type 0
  Found discount pref res why =
      (r : Route) × Serves res r
      × (res.model ≡ model_id_for r s)
      × (why.winner ≡ r.specialist_id)
      × IsPreferred fl signals s max_queue_ms discount pref r

  abbrev pub IsResult : fl.F → PrefVector fl.F → MeshSelectionResult × DecisionReason fl.F → Type 0
  IsResult discount pref answer =
      All (IsEntry pref) answer.0.fallback_chain
      × (FoundNone pref answer.0 ⊎ Found discount pref answer.0 answer.1)

  cloud_entry-IsEntry :
      (pref : PrefVector fl.F) (allowed : Option Bool)
      → pref.allow_fallbacks ≡ allowed
      → All (IsEntry pref) (cloud_entry allowed cloud)
  cloud_entry-IsEntry pref none e = (inl (refl, λ f. absurd (ground (arith, e, f))), tt)
  cloud_entry-IsEntry pref (some true) e = (inl (refl, λ f. absurd (ground (arith, e, f))), tt)
  cloud_entry-IsEntry pref (some false) e = tt

  module _ (discount : fl.F) (round_4 : fl.F → fl.F) (pref : PrefVector fl.F)
      (preset : Option String) where
    pref_selection-IsResult :
        IsOrdered fl
        → (drops : List (Route × DropReason)) (sorted : List (Scored fl.F))
        → ranked fl signals s max_queue_ms discount pref ≡ sorted
        → IsResult discount pref (pref_selection fl round_4 sorted drops s pref cloud preset)
    unfolding pref_selection
    pref_selection-IsResult o drops [] e = (
      cloud_entry-IsEntry pref pref.allow_fallbacks refl,
      inl (
        refl,
        refl,
        refl,
        λ r ok.
            let i : In (scored_route fl s.catalog pref discount r) [] =
              subst (In (scored_route fl s.catalog pref discount r)) e
                (In-ranked fl signals s max_queue_ms discount pref r ok) in
            absurd (ground (arith, i)),
      ),
    )
    pref_selection-IsResult o drops (w ∷ losers) e =
        let scored =
          subst (All (IsScored fl signals s max_queue_ms discount pref)) e
            (ranked-IsScored fl signals s max_queue_ms discount pref) in
        (
          All-append (IsEntry pref) _ (cloud_entry pref.allow_fallbacks cloud)
              (All-map _ (IsEntry pref) losers
                (λ l i. inr (l.route, refl, (All-In _ l losers scored.1 i).0)))
              (cloud_entry-IsEntry pref pref.allow_fallbacks refl),
          inr (
            w.route,
            (refl, refl, refl, refl),
            refl,
            refl,
            head-IsPreferred fl signals s max_queue_ms discount pref o w losers e,
          ),
        )

    pub select_by_pref-IsResult :
        IsOrdered fl
        → IsResult discount pref
            (select_by_pref fl round_4 signals s pref max_queue_ms cloud discount preset)
    unfolding select_by_pref
    select_by_pref-IsResult o = pref_selection-IsResult o _ _ refl

-- If the order of scores is one and the preference has no unsupported field, a result is returned.
-- Every entry of its fallback chain is the cloud model, where fallbacks are not refused, or the
-- model and node of a candidate within the budgets that meets the preference under the ceiling.
-- Either no candidate does, and the result is the cloud model and no node, or the result is such a
-- candidate, and no other has a higher score.
pub select_mesh_route_with_pref-cases :
    (fl : Floats) (signals : ClassifierSignals) (s : RegistrySnapshot) (max_queue_ms : ℕ)
    (discount : fl.F) (round_4 : fl.F → fl.F) (cloud : String) (pref : PrefVector fl.F)
    (ceiling : Option (AdminCeiling fl.F)) (preset : Option String)
    → IsOrdered fl
    → reject_unsupported_pref pref ≡ none
    → (answer : MeshSelectionResult × DecisionReason fl.F) × (select_mesh_route_with_pref fl round_4
          signals s
          (some pref)
          max_queue_ms
          cloud
          ceiling
          discount
          preset
        ≡ selected answer.0 (some answer.1))
      × IsResult fl signals s max_queue_ms cloud discount (clamped fl pref ceiling) answer
unfolding select_mesh_route_with_pref
select_mesh_route_with_pref-cases fl signals s max_queue_ms discount round_4 cloud pref ceiling
      preset o supported =
    (
      select_by_pref fl round_4 signals s (clamped fl pref ceiling) max_queue_ms cloud discount
          preset,
      rw supported refl,
      select_by_pref-IsResult fl signals s max_queue_ms cloud discount round_4
          (clamped fl pref ceiling) preset o,
    )
