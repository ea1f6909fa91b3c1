-- ===== src/Router/Merged.antt =====
-- What `_merge_retaining_recent` of mesh/router_app.py lists under a specialist.
use mathlib.Core.List.{append_assoc, append-nil}
use slancha_mesh.Common.{
  ℕ, ◌≤◌, String, false, ◌≡◌, refl, ap, ◌∙◌, sym, none, List, [], ◌∷◌, ◌++◌, inl, inr, arith,
  Bool-cases, ◌==◌, eq_iff, eqb, keep, subst,
}
use slancha_mesh.Common.Dict.{Assoc, lookup, IsDistinct, IsDistinct-insert}
use slancha_mesh.Models.{NodeBinding, RegistrySnapshot}
use slancha_mesh.Router.Refresh.{
  listed, is_kept, Merged, retain, retain_bindings, retain_specialists, merged, merged_snapshot,
}
use slancha_mesh.Router.Discovered.{append_binding-same, append_binding-other}

module _ (retain_s : ℕ) (prior fresh : RegistrySnapshot) where
  retain_bindings-same :
      (k : String) (bs : List NodeBinding) (m : Merged)
      → listed k (retain_bindings retain_s prior fresh k bs m).bindings
        ≡ listed k m.bindings ++ keep (is_kept retain_s fresh k) bs
  unfolding retain_bindings keep
  retain_bindings-same k [] m = sym (append-nil (listed k m.bindings))
  retain_bindings-same k (b ∷ bs) m = elim (Bool-cases (is_kept retain_s fresh k b)) [
    | inl e ↦
        rw (e, retain_bindings)
          (retain_bindings-same k bs (retain retain_s prior fresh k b m)
            ∙ ap (λ r. r ++ keep (is_kept retain_s fresh k) bs) (append_binding-same k b m.bindings)
            ∙ append_assoc (listed k m.bindings) (b ∷ []) (keep (is_kept retain_s fresh k) bs))
    | inr e ↦ rw (e, retain_bindings) (retain_bindings-same k bs m)
  ]

  retain_bindings-other :
      (k j : String) (bs : List NodeBinding) (m : Merged)
      → k == j ≡ false
      → listed j (retain_bindings retain_s prior fresh k bs m).bindings ≡ listed j m.bindings
  unfolding retain_bindings
  retain_bindings-other k j [] m e = refl
  retain_bindings-other k j (b ∷ bs) m e = elim (Bool-cases (is_kept retain_s fresh k b)) [
    | inl t ↦
        rw (t, retain_bindings)
          (retain_bindings-other k j bs (retain retain_s prior fresh k b m) e
            ∙ append_binding-other k j b m.bindings e)
    | inr t ↦ rw (t, retain_bindings) (retain_bindings-other k j bs m e)
  ]

  retain_specialists-listed :
      (j : String) (rest : Assoc (List NodeBinding)) (m : Merged)
      → IsDistinct rest
      → listed j (retain_specialists retain_s prior fresh rest m).bindings
        ≡ listed j m.bindings ++ keep (is_kept retain_s fresh j) (listed j rest)
  unfolding retain_specialists lookup keep
  retain_specialists-listed j [] m d = sym (append-nil (listed j m.bindings))
  retain_specialists-listed j ((k, bs) ∷ rest) m d =
      let tail =
        retain_specialists-listed j rest (retain_bindings retain_s prior fresh k bs m) d.1 in
      elim (Bool-cases (k == j)) [
        | inl e ↦
            let same : k ≡ j = (eq_iff k j).0 e in
            let gone : lookup j rest ≡ none = subst (λ x. lookup x rest ≡ none) same d.0 in
            let here : listed j (retain_bindings retain_s prior fresh k bs m).bindings
                ≡ listed j m.bindings ++ keep (is_kept retain_s fresh j) bs =
              subst
                (λ x.
                  listed x (retain_bindings retain_s prior fresh k bs m).bindings
                  ≡ listed x m.bindings ++ keep (is_kept retain_s fresh x) bs)
                same (retain_bindings-same k bs m) in
            rw e (
              (rw gone at tail)
              ∙ append-nil (listed j (retain_bindings retain_s prior fresh k bs m).bindings)
              ∙ here)
        | inr e ↦ rw e (
            tail
            ∙ ap (λ r. r ++ keep (is_kept retain_s fresh j) (listed j rest))
                (retain_bindings-other k j bs m e))
      ]

  -- A count that is still 0 means that nothing was carried over.
  Untouched : Merged → Merged → Type 0
  Untouched m n = (m.retained ≤ n.retained) × (n.retained ≤ m.retained → n.bindings ≡ m.bindings)

  Untouched-trans : (m n o : Merged) → Untouched m n → Untouched n o → Untouched m o
  unfolding Untouched
  Untouched-trans m n o a b =
      (omega (arith, a.0, b.0), λ l. b.1 (omega (arith, l, a.0)) ∙ a.1 (omega (arith, l, b.0)))

  retain_bindings-Untouched :
      (k : String) (bs : List NodeBinding) (m : Merged)
      → Untouched m (retain_bindings retain_s prior fresh k bs m)
  unfolding retain_bindings Untouched
  retain_bindings-Untouched k [] m = (omega arith, λ l. refl)
  retain_bindings-Untouched k (b ∷ bs) m = elim (Bool-cases (is_kept retain_s fresh k b)) [
    | inl e ↦
        let more = retain_bindings-Untouched k bs (retain retain_s prior fresh k b m) in
        rw (e, retain_bindings) (omega (arith, more.0), λ l. absurd (ground (arith, more.0, l)))
    | inr e ↦ rw (e, retain_bindings) (retain_bindings-Untouched k bs m)
  ]

  retain_specialists-Untouched :
      (rest : Assoc (List NodeBinding)) (m : Merged)
      → Untouched m (retain_specialists retain_s prior fresh rest m)
  unfolding retain_specialists Untouched
  retain_specialists-Untouched [] m = (omega arith, λ l. refl)
  retain_specialists-Untouched ((k, bs) ∷ rest) m =
      let here = retain_bindings retain_s prior fresh k bs m in
      Untouched-trans m here (retain_specialists retain_s prior fresh rest here)
        (retain_bindings-Untouched k bs m) (retain_specialists-Untouched rest here)

  -- Under a specialist stand the bindings of the pass, and then those of the earlier snapshot that are
  -- kept.
  pub merged_snapshot-listed :
      (j : String)
      → IsDistinct prior.specialists
      → listed j (merged_snapshot retain_s prior fresh (merged retain_s prior fresh)).specialists
        ≡ listed j fresh.specialists ++ keep (is_kept retain_s fresh j) (listed j prior.specialists)
  unfolding merged Untouched
  merged_snapshot-listed j d =
      let start : Merged = record {
        bindings = fresh.specialists;
        nodes = fresh.nodes;
        retained = 0;
      } in
      let end = retain_specialists retain_s prior fresh prior.specialists start in
      let all = retain_specialists-listed j prior.specialists start d in
      elim (Bool-cases (eqb end.retained 0)) [
        | inl e ↦ rw e (
            ap (listed j)
              (sym ((retain_specialists-Untouched prior.specialists start).1 (ground (arith, e))))
            ∙ all)
        | inr e ↦ rw e all
      ]

  retain_bindings-IsDistinct :
      (k : String) (bs : List NodeBinding) (m : Merged)
      → IsDistinct m.bindings
      → IsDistinct (retain_bindings retain_s prior fresh k bs m).bindings
  unfolding retain_bindings
  retain_bindings-IsDistinct k [] m h = h
  retain_bindings-IsDistinct k (b ∷ bs) m h = elim (Bool-cases (is_kept retain_s fresh k b)) [
    | inl e ↦
        rw (e, retain_bindings)
          (retain_bindings-IsDistinct k bs (retain retain_s prior fresh k b m)
            (IsDistinct-insert k _ m.bindings h))
    | inr e ↦ rw (e, retain_bindings) (retain_bindings-IsDistinct k bs m h)
  ]

  retain_specialists-IsDistinct :
      (rest : Assoc (List NodeBinding)) (m : Merged)
      → IsDistinct m.bindings
      → IsDistinct (retain_specialists retain_s prior fresh rest m).bindings
  unfolding retain_specialists
  retain_specialists-IsDistinct [] m h = h
  retain_specialists-IsDistinct ((k, bs) ∷ rest) m h =
      retain_specialists-IsDistinct rest _ (retain_bindings-IsDistinct k bs m h)

  pub merged_snapshot-IsDistinct :
      IsDistinct fresh.specialists
      → IsDistinct (merged_snapshot retain_s prior fresh (merged retain_s prior fresh)).specialists
  unfolding merged
  merged_snapshot-IsDistinct h =
      let start : Merged = record {
        bindings = fresh.specialists;
        nodes = fresh.nodes;
        retained = 0;
      } in
      let end = retain_specialists retain_s prior fresh prior.specialists start in
      elim (Bool-cases (eqb end.retained 0)) [
        | inl e ↦ rw e h
        | inr e ↦ rw e (retain_specialists-IsDistinct prior.specialists start h)
      ]

  pub merged_snapshot-ts :
      (merged_snapshot retain_s prior fresh (merged retain_s prior fresh)).snapshot_ts
      ≡ fresh.snapshot_ts
  merged_snapshot-ts = elim (Bool-cases (eqb (merged retain_s prior fresh).retained 0)) [
    | inl e ↦ rw e refl
    | inr e ↦ rw e refl
  ]
