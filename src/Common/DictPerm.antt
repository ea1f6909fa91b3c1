-- ===== src/Common/DictPerm.antt =====
-- Two dictionaries with the same entries, in whatever order, give the same items for their entries.
use mathlib.Core.Option.{some-injective}
use mathlib.Core.List.{Perm, append_assoc, perm_append_comm}
use mathlib.Core.List.Perm
use Prim.Native.String.{String}
use mathlib.Core.Path.{◌≡◌, refl, ◌∙◌, sym, ap}
use mathlib.Core.Logic.{inl, inr}
use mathlib.Core.Option.{none, some}
use mathlib.Core.List.{List, [], ◌∷◌, ◌++◌}
use native.Mathlib.Omega.{arith}
use text.Mathlib.Text.{◌==◌}
use text.Mathlib.TextEquality.{eq_iff}
use text.Mathlib.TextPositions.{eq_refl}
use slancha_mesh.Common.Tests.{if◌then◌else◌, Bool-cases}
use slancha_mesh.Common.Dict.{
  Assoc, lookup, remove, lookup-remove, remove_absent, IsDistinct, IsDistinct-remove,
}

module _ {ℓ κ} {V : Type ℓ} {B : Type κ} (f : String → V → List B) where
  -- The items of every entry, in order.
  abbrev pub flat : Assoc V → List B
  flat [] = []
  flat ((k, v) ∷ m) = f k v ++ flat m

  regroup : (a b c : List B) → Perm (a ++ (b ++ c)) (b ++ (a ++ c))
  regroup a b c =
      rw (← append_assoc) (rw (← append_assoc) (Perm.append_right c (perm_append_comm a b)))

  flat-remove :
      (k : String) {v : V} (m : Assoc V)
      → IsDistinct m
      → lookup k m ≡ some v
      → Perm (flat m) (f k v ++ flat (remove k m))
  unfolding lookup remove
  flat-remove k [] d e = cc
  flat-remove k {v} ((j, w) ∷ m) d e = elim (Bool-cases (j == k)) [
    | inl t ↦
        let jk : j ≡ k = (eq_iff j k).0 t in
        let same : w ≡ v = some-injective w v (rw t at e) in
        let absent : remove k m ≡ m = remove_absent k m (ap (λ x. lookup x m) (sym jk) ∙ d.0) in
        rw (t, absent, jk, same) (Perm.refl _)
    | inr t ↦
        let e' : lookup k m ≡ some v = rw t at e in
        rw t (
          Perm.trans (Perm.append_left (f j w) (flat-remove k m d.1 e'))
            (regroup (f j w) (f k v) (flat (remove k m))))
  ]

  same_rest :
      (k j : String) (v : V) (m l : Assoc V)
      → lookup k m ≡ none
      → lookup j ((k, v) ∷ m) ≡ lookup j l
      → lookup j m ≡ (if k == j then none else lookup j l)
  unfolding lookup
  same_rest k j v m l absent h = elim (Bool-cases (k == j)) [
    | inl e ↦ rw e (ap (λ x. lookup x m) (sym ((eq_iff k j).0 e)) ∙ absent)
    | inr e ↦ rw e (rw e at h)
  ]

  -- The same entries give the same items, as often.
  pub flat-perm :
      (m l : Assoc V)
      → IsDistinct m
      → IsDistinct l
      → ((k : String) → lookup k m ≡ lookup k l)
      → Perm (flat m) (flat l)
  unfolding lookup
  flat-perm [] [] dm dl h = Perm.refl []
  flat-perm [] ((k, v) ∷ l) dm dl h =
      let impossible : none ≡ some v = h k ∙ rw (eq_refl k) refl in
      absurd (ground (arith, impossible))
  flat-perm ((k, v) ∷ m) l dm dl h =
      let there : lookup k l ≡ some v = sym (h k) ∙ rw (eq_refl k) refl in
      Perm.trans
        (Perm.append_left (f k v) (
          flat-perm m (remove k l) dm.1 (IsDistinct-remove k l dl)
            (λ j. same_rest k j v m l dm.0 (h j) ∙ sym (lookup-remove k j l))))
        (Perm.symm (flat-remove k l dl there))
