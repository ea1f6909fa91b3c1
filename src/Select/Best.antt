-- ===== src/Select/Best.antt =====
-- The routes that `select_mesh_route_with_pref` of mesh/select.py sorts by score.
use slancha_mesh.Common.{
  ℕ, ◌≡◌, refl, true, false, List, ◌∷◌, map, In-keep, Bool-cases, inl, inr, All, All-from, All-In,
  All-mono, All-map, In, In-map, subst,
}
use slancha_mesh.Common.Dict.{lookup}
use slancha_mesh.Common.Floats.{Floats, IsOrdered}
use slancha_mesh.Common.Sort.{
  sort_by, All-sort_by, In-sort_by, IsSorted, IsKeyOrder, sort_by-IsSorted,
}
use slancha_mesh.Models.{Route, RegistrySnapshot}
use slancha_mesh.Select.Route.{ClassifierSignals, within_budget, filter_routes}
use slancha_mesh.Select.Chosen.{candidates_of, keep_routes}
use slancha_mesh.Select.Pref.{PrefVector, pref_filter}
use slancha_mesh.Select.Weigh.{Scored, pref_score, scored_route, outscores}
use slancha_mesh.Select.Meets.{MeetsIn, pref_filter_sound, pref_filter_complete}

module _ (fl : Floats) (signals : ClassifierSignals) (s : RegistrySnapshot) (max_queue_ms : ℕ) where
  -- A candidate within the budgets that meets the preference.
  abbrev pub IsAcceptable : PrefVector fl.F → Route → Type 0
  IsAcceptable pref r =
      In r (candidates_of signals s)
      × (within_budget signals.route_class max_queue_ms r ≡ true)
      × MeetsIn pref s.catalog r

  module _ (discount : fl.F) where
    abbrev pub score_of : PrefVector fl.F → Route → fl.F
    score_of pref r = pref_score fl r (lookup r.specialist_id s.catalog) pref discount

    -- An acceptable route that no acceptable route has a higher score than.
    abbrev pub IsPreferred : PrefVector fl.F → Route → Type 0
    IsPreferred pref r =
        IsAcceptable pref r
        × ((m : Route) → IsAcceptable pref m → fl.lt (score_of pref r) (score_of pref m) ≡ false)

    module _ (pref : PrefVector fl.F) where
      abbrev base : List Route
      base = filter_routes (candidates_of signals s) signals.route_class max_queue_ms

      abbrev pub ranked : List (Scored fl.F)
      ranked =
          sort_by (outscores fl)
            (map (scored_route fl s.catalog pref discount) (pref_filter base s.catalog pref).0)

      -- A scored route that is acceptable, with its own score.
      abbrev pub IsScored : Scored fl.F → Type 0
      IsScored x = IsAcceptable pref x.route × (x.score ≡ score_of pref x.route)

      survivors-IsAcceptable : All (IsAcceptable pref) (pref_filter base s.catalog pref).0
      unfolding filter_routes
      survivors-IsAcceptable =
          let candidates = candidates_of signals s in
          All-mono _ (IsAcceptable pref) (λ r h. (h.0.0, h.0.1, h.1)) _
            (pref_filter_sound pref s.catalog _ base (
              keep_routes (within_budget signals.route_class max_queue_ms) candidates candidates
                (All-from (λ r. In r candidates) candidates (λ r i. i))))

      pub ranked-IsScored : All IsScored ranked
      unfolding scored_route
      ranked-IsScored =
          let passed = (pref_filter base s.catalog pref).0 in
          All-sort_by (outscores fl) IsScored _ (
            All-map (scored_route fl s.catalog pref discount) IsScored passed
              (λ r i. (All-In (IsAcceptable pref) r passed survivors-IsAcceptable i, refl)))

      pub In-ranked :
          (m : Route) → IsAcceptable pref m → In (scored_route fl s.catalog pref discount m) ranked
      unfolding filter_routes
      In-ranked m (i, within, meets) =
          In-sort_by (outscores fl) (scored_route fl s.catalog pref discount m) _ (
            In-map (scored_route fl s.catalog pref discount) m _
              (pref_filter_complete pref s.catalog m base (In-keep _ m _ i within) meets))

      outscores-IsKeyOrder : IsOrdered fl → IsKeyOrder (outscores fl)
      outscores-IsKeyOrder o = record {
        asymm = λ a b e. o.asymm b.score a.score e;
        not_before_trans = λ a b c e f. o.not_lt_trans a.score b.score c.score e f;
      }

      not_below_self : IsOrdered fl → (a : fl.F) → fl.lt a a ≡ false
      not_below_self o a = elim (Bool-cases (fl.lt a a)) [ inl e ↦ o.asymm a a e | inr e ↦ e ]

      pub head-IsPreferred :
          IsOrdered fl
          → (w : Scored fl.F) (losers : List (Scored fl.F)) → ranked ≡ w ∷ losers
          → IsPreferred pref w.route
      unfolding scored_route
      head-IsPreferred o w losers e =
          let all_scored = subst (All IsScored) e ranked-IsScored in
          let sorted =
            subst (IsSorted (outscores fl)) e
              (sort_by-IsSorted (outscores fl) (outscores-IsKeyOrder o) _) in
          let (acceptable, own) = all_scored.0 in
          (
            acceptable,
            λ m ok.
                let beaten : fl.lt w.score (score_of pref m) ≡ false =
                  elim (subst (In (scored_route fl s.catalog pref discount m)) e (In-ranked m ok)) [
                    | inl same ↦
                        subst (λ x. fl.lt w.score x.score ≡ false) same (not_below_self o w.score)
                    | inr j ↦ All-In (λ y. outscores fl y w ≡ false) _ losers sorted.0 j
                  ] in
                subst (λ x. fl.lt x (score_of pref m) ≡ false) own beaten,
          )
