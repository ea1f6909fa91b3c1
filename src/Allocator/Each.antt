-- ===== src/Allocator/Each.antt =====
-- The loops of the allocator that give every node left a suggestion.
use slancha_mesh.Common.{
  String, ◌≡◌, refl, true, Option, none, some, List, [], ◌∷◌, All, All-from, In,
}
use slancha_mesh.Common.Dict.{has}
use slancha_mesh.Common.DictEntries.{AllEntries, AllEntries-insert}
use slancha_mesh.Common.Floats.{Floats, IsOrdered}
use slancha_mesh.Models.{NodeProbe, SpecialistCard}
use slancha_mesh.Allocator.Score.{minus_inf, finite, Coverage}
use slancha_mesh.Allocator.Place.{
  Allocation, Scored, rank_specs_for_node, place_ranked, place_each, is_other,
}
use slancha_mesh.Allocator.Tiers.{
  head_finite, chosen_or, place_replica, promote_replicas, record_missing,
}
use slancha_mesh.Allocator.Fits.{Fits}
use slancha_mesh.Allocator.Ranking.{
  Judged, rank-Judged, alternates-Runs, others-Runs, PickRuns, first_in_domain-Runs,
  head_finite-Runs, chosen_or-Runs, none-Fits,
}
use slancha_mesh.Allocator.Sound.{Placed, Waiting, Waiting-next}

module _ (fl : Floats) (o : IsOrdered fl) (nodes : List NodeProbe)
    (catalog : List SpecialistCard) where
  open fl use {F}

  whole_catalog : All (λ c. In c catalog) catalog
  whole_catalog = All-from (λ c. In c catalog) catalog (λ c i. i)

  pub ranked-Judged :
      (node : NodeProbe) (coverage : Coverage)
      → All (Judged fl catalog node) (rank_specs_for_node fl node catalog coverage)
  ranked-Judged node coverage = rank-Judged fl catalog node coverage catalog whole_catalog

  -- The loop has dealt with all but the nodes of `rest`.
  pub record IsUpTo (rest : List NodeProbe) (a : Allocation F) : Type 0 where
    pub placed : AllEntries (Placed nodes catalog) a.suggestions
    pub waiting : Waiting nodes catalog rest a.suggestions

  place_ranked-IsUpTo :
      (node : NodeProbe) (rest : List NodeProbe) (ranked : List (Scored fl)) (a : Allocation F)
      → In node nodes
      → All (Judged fl catalog node) ranked
      → (head_finite fl ranked ≡ none → All (λ c. ¬ Fits c node) catalog)
      → IsUpTo (node ∷ rest) a
      → IsUpTo rest (place_ranked fl node ranked a)
  unfolding place_ranked head_finite
  place_ranked-IsUpTo node rest [] a i judged nothing h = record {
    placed =
        AllEntries-insert (Placed nodes catalog) _ _ _ (node, i, refl, nothing refl, tt, tt)
          h.placed;
    waiting = Waiting-next nodes catalog node rest _ _ h.waiting;
  }
  place_ranked-IsUpTo node rest ((minus_inf, spec) ∷ ranked) a i judged nothing h = record {
    placed =
        AllEntries-insert (Placed nodes catalog) _ _ _ (node, i, refl, nothing refl, tt, tt)
          h.placed;
    waiting = Waiting-next nodes catalog node rest _ _ h.waiting;
  }
  place_ranked-IsUpTo node rest ((finite x, spec) ∷ ranked) a i judged nothing h = record {
    placed =
        AllEntries-insert (Placed nodes catalog) _ _ _
          (node, i, refl, judged.0, alternates-Runs fl catalog node 3 ranked judged.1, tt) h.placed;
    waiting = Waiting-next nodes catalog node rest _ _ h.waiting;
  }

  -- After the loop every node of the cluster has a suggestion.
  pub place_each-IsUpTo :
      (rest : List NodeProbe) (a : Allocation F)
      → All (λ n. In n nodes) rest
      → IsUpTo rest a
      → IsUpTo [] (place_each fl catalog rest a)
  unfolding place_each
  place_each-IsUpTo [] a i h = h
  place_each-IsUpTo (node ∷ rest) a i h = place_each-IsUpTo rest _ i.1 (
      place_ranked-IsUpTo node rest _ a i.0 (ranked-Judged node a.coverage)
        (none-Fits fl o node catalog a.coverage) h)

  chosen-none : (c d : Option (F × SpecialistCard)) → chosen_or fl c d ≡ none → d ≡ none
  chosen-none none d h = h
  chosen-none (some x) d h = cc

  place_replica-IsUpTo :
      (node : NodeProbe) (rest : List NodeProbe) (ranked : List (Scored fl))
      (choice : Option (F × SpecialistCard)) (a : Allocation F)
      → In node nodes
      → All (Judged fl catalog node) ranked
      → PickRuns fl catalog node choice
      → (choice ≡ none → All (λ c. ¬ Fits c node) catalog)
      → IsUpTo (node ∷ rest) a
      → IsUpTo rest (place_replica fl node ranked choice a)
  unfolding place_replica
  place_replica-IsUpTo node rest ranked none a i judged runs nothing h = record {
    placed =
        AllEntries-insert (Placed nodes catalog) _ _ _ (node, i, refl, nothing refl, tt, tt)
          h.placed;
    waiting = Waiting-next nodes catalog node rest _ _ h.waiting;
  }
  place_replica-IsUpTo node rest ranked (some (x, spec)) a i judged runs nothing h = record {
    placed =
        AllEntries-insert (Placed nodes catalog) _ _ _
          (node, i, refl, runs, others-Runs fl catalog node 3 (is_other spec) ranked judged, tt)
          h.placed;
    waiting = Waiting-next nodes catalog node rest _ _ h.waiting;
  }

  pub promote_replicas-IsUpTo :
      (domain : String) (rest : List NodeProbe) (a : Allocation F)
      → All (λ n. In n nodes) rest
      → IsUpTo rest a
      → IsUpTo [] (promote_replicas fl domain catalog rest a)
  unfolding promote_replicas
  promote_replicas-IsUpTo domain [] a i h = h
  promote_replicas-IsUpTo domain (node ∷ rest) a i h =
      let judged = ranked-Judged node a.coverage in
      promote_replicas-IsUpTo domain rest _ i.1 (
        place_replica-IsUpTo node rest _ _ a i.0 judged
          (chosen_or-Runs fl catalog node _ _ (first_in_domain-Runs fl catalog node domain _ judged)
            (head_finite-Runs fl catalog node _ judged))
          (λ e. none-Fits fl o node catalog a.coverage (chosen-none _ _ e)) h)

  -- The last loop finds nothing to do.
  pub record_missing_idle :
      (rest : List NodeProbe) (a : Allocation F)
      → All (λ n. has n.node_id a.suggestions ≡ true) rest
      → record_missing fl rest a ≡ a
  unfolding record_missing
  record_missing_idle [] a h = refl
  record_missing_idle (node ∷ rest) a h = rw h.0 (record_missing_idle rest a h.1)
