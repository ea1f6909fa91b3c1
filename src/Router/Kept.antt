-- ===== src/Router/Kept.antt =====
-- What `refresh_once` of `_RefreshingSnapshot` in mesh/router_app.py keeps.
use slancha_mesh.Common.{
  ℕ, ◌+◌, ◌≤◌, String, true, false, ◌≡◌, refl, ap, ◌∙◌, sym, subst, Option, none, some, List, [],
  ◌∷◌, ◌++◌, inl, inr, arith, Bool-cases, eq_iff, leb, ltb→ge, keep, map, In, All, All-In,
  All-append, All-keep_tested, All-map, All-mono, In-append_left, In-append_right, In-map, In-keep,
  any-In,
}
use slancha_mesh.Common.Dict.{IsDistinct}
use slancha_mesh.Models.{NodeBinding, RegistrySnapshot, SpecialistCard, healthy}
use slancha_mesh.Router.Bindings.{discovery_to_snapshot}
use slancha_mesh.Router.Refresh.{
  same_url, listed, in_fresh, is_kept, merged, merged_snapshot, merge_retaining_recent, Pass,
  fresh_snapshot,
}
use slancha_mesh.Router.Discovered.{
  urls_of, binding_of, discovery_to_snapshot-listed, discovery_to_snapshot-IsDistinct,
}
use slancha_mesh.Router.Merged.{
  merged_snapshot-listed, merged_snapshot-IsDistinct, merged_snapshot-ts,
}

same_url-some :
    (a : Option String) (b : Option String) (url : String)
    → same_url a b ≡ true
    → b ≡ some url
    → a ≡ some url
same_url-some none none url h e = e
same_url-some none (some v) url h e = absurd (ground (arith, h))
same_url-some (some u) none url h e = absurd (ground (arith, h))
same_url-some (some u) (some v) url h e = ap some ((eq_iff u v).0 h) ∙ e

module _ (node_id_for_url : String → String) (catalog : List SpecialistCard) (retain_s : ℕ) where
  abbrev pub Sound : List Pass → ℕ → String → List NodeBinding → Type 0
  Sound passes now j bs =
      All
        (λ b.
          (q : Pass) × In q passes
          × (url : String) × In url (urls_of j q.found)
          × (now ≤ q.at + retain_s)
          × (b.node_url ≡ some url)
          × (b.last_seen ≡ q.at)
          × (b.health ≡ healthy))
        bs

  abbrev pub Complete : List Pass → ℕ → String → List NodeBinding → Type 0
  Complete passes now j bs =
      (q : Pass)
      → In q passes
      → (url : String) → In url (urls_of j q.found)
      → now ≤ q.at + retain_s
      → (b : NodeBinding) × In b bs × (b.node_url ≡ some url) × (q.at ≤ b.last_seen)

  pub record IsHeld (passes : List Pass) (now : ℕ) (s : RegistrySnapshot) : Type 0 where
    pub at : s.snapshot_ts ≡ now
    pub distinct : IsDistinct s.specialists
    pub sound : (j : String) → Sound passes now j (listed j s.specialists)
    pub complete : (j : String) → Complete passes now j (listed j s.specialists)

  module _ (p : Pass) where
    fresh-listed :
        (j : String)
        → listed j (fresh_snapshot node_id_for_url catalog retain_s p).specialists
          ≡ map (binding_of node_id_for_url p.at j) (urls_of j p.found)
    fresh-listed j = discovery_to_snapshot-listed node_id_for_url p.at j p.found catalog

    fresh-Sound :
        (earlier : List Pass) (j : String)
        → Sound
            (p ∷ earlier)
            p.at
            j
            (listed j (fresh_snapshot node_id_for_url catalog retain_s p).specialists)
    fresh-Sound earlier j = subst (Sound (p ∷ earlier) p.at j) (sym (fresh-listed j)) (
        All-map (binding_of node_id_for_url p.at j) _ (urls_of j p.found)
          (λ url i. (p, inl refl, url, i, omega arith, refl, refl, refl)))

    fresh-Complete :
        (j url : String)
        → In url (urls_of j p.found)
        → (b : NodeBinding) × In b
            (listed j (fresh_snapshot node_id_for_url catalog retain_s p).specialists)
          × (b.node_url ≡ some url)
          × (p.at ≤ b.last_seen)
    fresh-Complete j url i = (
      binding_of node_id_for_url p.at j url,
      subst (In (binding_of node_id_for_url p.at j url)) (sym (fresh-listed j))
          (In-map (binding_of node_id_for_url p.at j) url (urls_of j p.found) i),
      refl,
      omega arith,
    )

    pub first-IsHeld : IsHeld (p ∷ []) p.at (fresh_snapshot node_id_for_url catalog retain_s p)
    unfolding discovery_to_snapshot
    first-IsHeld = record {
      at = refl;
      distinct = discovery_to_snapshot-IsDistinct node_id_for_url p.at p.found catalog;
      sound = fresh-Sound [];
      complete = λ j q found url i recent. elim found [
        | inl e ↦
            let (b, here, u, late) =
              fresh-Complete j url (subst (λ x. In url (urls_of j x.found)) (sym e) i) in
            (b, here, u, omega (arith, late, ap (λ (x : Pass). x.at) e))
        | inr never ↦ absurd (ground (arith, never))
      ];
    }

    module _ (earlier : List Pass) (now : ℕ) (prior : RegistrySnapshot)
        (held : IsHeld earlier now prior) (later : now ≤ p.at)
        (ordered : All (λ q. q.at ≤ p.at) earlier) where
      kept-Sound :
          (j : String)
          → Sound (p ∷ earlier) p.at j (
              keep
                (is_kept retain_s (fresh_snapshot node_id_for_url catalog retain_s p) j)
                (listed j prior.specialists))
      unfolding is_kept discovery_to_snapshot
      kept-Sound j =
          let fresh = fresh_snapshot node_id_for_url catalog retain_s p in
          All-mono _ _
            (λ b ((q, i, url, u, r, e, t, h), kept).
              let recent = ltb→ge (b.last_seen + retain_s) p.at (ground (arith, kept)) in
              (q, inr i, url, u, omega (arith, t, recent), e, t, h))
            _
            (All-keep_tested _ (is_kept retain_s fresh j) (listed j prior.specialists)
              (held.sound j))

      kept-Complete :
          (j : String) (q : Pass) (url : String)
          → In q earlier
          → In url (urls_of j q.found)
          → p.at ≤ q.at + retain_s
          → (b : NodeBinding) × In b (
              listed j (fresh_snapshot node_id_for_url catalog retain_s p).specialists
              ++ keep
                  (is_kept retain_s (fresh_snapshot node_id_for_url catalog retain_s p) j)
                  (listed j prior.specialists))
            × (b.node_url ≡ some url)
            × (q.at ≤ b.last_seen)
      unfolding is_kept in_fresh discovery_to_snapshot
      kept-Complete j q url i f recent =
          let fresh = fresh_snapshot node_id_for_url catalog retain_s p in
          let again = listed j fresh.specialists in
          let (b, here, u, late) = held.complete j q i url f (omega (arith, later, recent)) in
          elim (Bool-cases (in_fresh j b fresh)) [
            | inl e ↦
                let (c, there, same) = any-In (λ x. same_url x.node_url b.node_url) again e in
                let (r, k, v, g, n, w, t, h) = All-In _ c again (fresh-Sound [] j) there in
                let at_p : c.last_seen ≡ p.at = elim k [
                  | inl s ↦ t ∙ ap (λ (x : Pass). x.at) (sym s)
                  | inr never ↦ absurd (ground (arith, never))
                ] in
                let q_first : q.at ≤ p.at = All-In (λ x. x.at ≤ p.at) q earlier ordered i in
                (
                  c,
                  In-append_left c again _ there,
                  same_url-some c.node_url b.node_url url same u,
                  omega (arith, at_p, q_first),
                )
            | inr e ↦
                let stays : is_kept retain_s fresh j b ≡ true = ground (arith, e, recent, late) in
                (
                  b,
                  In-append_right b again _ (
                      In-keep (is_kept retain_s fresh j) b (listed j prior.specialists) here stays),
                  u,
                  late,
                )
          ]

      pub merged-IsHeld :
          1 ≤ retain_s
          → IsHeld (p ∷ earlier) p.at (
              merge_retaining_recent retain_s
                (some prior)
                (fresh_snapshot node_id_for_url catalog retain_s p))
      unfolding merge_retaining_recent discovery_to_snapshot
      merged-IsHeld positive =
          let fresh = fresh_snapshot node_id_for_url catalog retain_s p in
          let s = merged_snapshot retain_s prior fresh (merged retain_s prior fresh) in
          let merges : leb retain_s 0 ≡ false = ground (arith, positive) in
          let all = λ (j : String). merged_snapshot-listed retain_s prior fresh j held.distinct in
          rw merges (record {
            at = merged_snapshot-ts retain_s prior fresh;
            distinct =
                merged_snapshot-IsDistinct retain_s prior fresh
                  (discovery_to_snapshot-IsDistinct node_id_for_url p.at p.found catalog);
            sound = λ j. subst (Sound (p ∷ earlier) p.at j) (sym (all j)) (
                All-append _ (listed j fresh.specialists) _ (fresh-Sound earlier j) (kept-Sound j));
            complete = λ j q found url i recent. elim found [
              | inl e ↦
                  let (b, here, u, late) =
                    fresh-Complete j url (subst (λ x. In url (urls_of j x.found)) (sym e) i) in
                  (
                    b,
                    subst (In b) (sym (all j))
                        (In-append_left b (listed j fresh.specialists) _ here),
                    u,
                    omega (arith, late, ap (λ (x : Pass). x.at) e),
                  )
              | inr k ↦
                  let (b, here, u, late) = kept-Complete j q url k i recent in
                  (b, subst (In b) (sym (all j)) here, u, late)
            ];
          })
