-- ===== src/Router/Discovered.antt =====
-- What `discovery_to_snapshot` of mesh/router_app.py lists under a specialist.
use mathlib.Core.List.{append_assoc, append-nil, map-append}
use slancha_mesh.Common.{
  ℕ, String, false, ◌≡◌, refl, ap, ◌∙◌, sym, List, [], ◌∷◌, ◌++◌, inl, inr, Bool-cases, ◌==◌,
  eq_iff, eq_refl, map, if◌then◌else◌, subst,
}
use slancha_mesh.Common.Dict.{Assoc, lookup, lookup-insert, IsDistinct, IsDistinct-insert}
use slancha_mesh.Models.{NodeBinding, SpecialistCard}
use slancha_mesh.Router.Bindings.{
  DiscoveryResult, discovered_binding, append_binding, Found, add_urls, add_specialists,
  discovery_to_snapshot,
}
use slancha_mesh.Router.Refresh.{listed}

pub append_binding-same :
    (k : String) (b : NodeBinding) (m : Assoc (List NodeBinding))
    → listed k (append_binding k b m) ≡ listed k m ++ (b ∷ [])
append_binding-same k b m = simp (lookup-insert, eq_refl)

pub append_binding-other :
    (k j : String) (b : NodeBinding) (m : Assoc (List NodeBinding))
    → k == j ≡ false
    → listed j (append_binding k b m) ≡ listed j m
append_binding-other k j b m e = rw (lookup-insert k j (listed k m ++ b ∷ []) m, e) refl

-- The URLs that a pass found for a specialist.
abbrev pub urls_of : String → DiscoveryResult → List String
urls_of j [] = []
urls_of j ((k, urls) ∷ rest) = (if k == j then urls else []) ++ urls_of j rest

module _ (node_id_for_url : String → String) (now : ℕ) where
  abbrev pub binding_of : String → String → NodeBinding
  binding_of j url = discovered_binding j (node_id_for_url url) url now

  add_urls-same :
      (k : String) (urls : List String) (found : Found)
      → listed k (add_urls node_id_for_url now k urls found).0
        ≡ listed k found.0 ++ map (binding_of k) urls
  unfolding add_urls
  add_urls-same k [] found = sym (append-nil (listed k found.0))
  add_urls-same k (url ∷ urls) found =
      add_urls-same k urls _
      ∙ ap (λ r. r ++ map (binding_of k) urls) (append_binding-same k (binding_of k url) found.0)
      ∙ append_assoc (listed k found.0) (binding_of k url ∷ []) (map (binding_of k) urls)

  add_urls-other :
      (k j : String) (urls : List String) (found : Found)
      → k == j ≡ false
      → listed j (add_urls node_id_for_url now k urls found).0 ≡ listed j found.0
  unfolding add_urls
  add_urls-other k j [] found e = refl
  add_urls-other k j (url ∷ urls) found e =
      add_urls-other k j urls _ e ∙ append_binding-other k j (binding_of k url) found.0 e

  add_specialists-listed :
      (j : String) (d : DiscoveryResult) (found : Found)
      → listed j (add_specialists node_id_for_url now d found).0
        ≡ listed j found.0 ++ map (binding_of j) (urls_of j d)
  unfolding add_specialists
  add_specialists-listed j [] found = sym (append-nil (listed j found.0))
  add_specialists-listed j ((k, urls) ∷ d) found =
      let here = add_urls node_id_for_url now k urls found in
      let tail = add_specialists-listed j d here in
      elim (Bool-cases (k == j)) [
        | inl e ↦
            let same : k ≡ j = (eq_iff k j).0 e in
            let first : listed j here.0 ≡ listed j found.0 ++ map (binding_of j) urls =
              subst
                (λ x.
                  listed x (add_urls node_id_for_url now k urls found).0
                  ≡ listed x found.0 ++ map (binding_of x) urls)
                same (add_urls-same k urls found) in
            rw e (
              tail
              ∙ ap (λ r. r ++ map (binding_of j) (urls_of j d)) first
              ∙ append_assoc (listed j found.0) (map (binding_of j) urls)
                  (map (binding_of j) (urls_of j d))
              ∙ ap (λ r. listed j found.0 ++ r)
                  (sym (map-append (binding_of j) urls (urls_of j d))))
        | inr e ↦ rw e (
            tail
            ∙ ap (λ r. r ++ map (binding_of j) (urls_of j d)) (add_urls-other k j urls found e))
      ]

  -- The bindings that a pass gives a specialist: one for each URL, in their order.
  pub discovery_to_snapshot-listed :
      (j : String) (d : DiscoveryResult) (catalog : List SpecialistCard)
      → listed j (discovery_to_snapshot node_id_for_url now d catalog).specialists
        ≡ map (binding_of j) (urls_of j d)
  unfolding discovery_to_snapshot lookup
  discovery_to_snapshot-listed j d catalog = add_specialists-listed j d ([], [])

  add_urls-IsDistinct :
      (k : String) (urls : List String) (found : Found)
      → IsDistinct found.0
      → IsDistinct (add_urls node_id_for_url now k urls found).0
  unfolding add_urls
  add_urls-IsDistinct k [] found h = h
  add_urls-IsDistinct k (url ∷ urls) found h =
      add_urls-IsDistinct k urls _ (IsDistinct-insert k _ found.0 h)

  add_specialists-IsDistinct :
      (d : DiscoveryResult) (found : Found)
      → IsDistinct found.0
      → IsDistinct (add_specialists node_id_for_url now d found).0
  unfolding add_specialists
  add_specialists-IsDistinct [] found h = h
  add_specialists-IsDistinct ((k, urls) ∷ d) found h =
      add_specialists-IsDistinct d _ (add_urls-IsDistinct k urls found h)

  pub discovery_to_snapshot-IsDistinct :
      (d : DiscoveryResult) (catalog : List SpecialistCard)
      → IsDistinct (discovery_to_snapshot node_id_for_url now d catalog).specialists
  unfolding discovery_to_snapshot
  discovery_to_snapshot-IsDistinct d catalog = add_specialists-IsDistinct d ([], []) tt
