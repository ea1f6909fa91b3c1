-- ===== src/Common/DictEntries.antt =====
-- Properties of the entries of a dictionary, key and value together.
use Prim.Native.String.{String}
use mathlib.Core.Path.{◌≡◌, refl, subst}
use mathlib.Core.Logic.{inl, inr}
use mathlib.Core.Bool.{true}
use mathlib.Core.Option.{some, some-injective}
use mathlib.Core.List.{[], ◌∷◌}
use native.Mathlib.Omega.{arith}
use text.Mathlib.Text.{◌==◌}
use text.Mathlib.TextEquality.{eq_iff}
use slancha_mesh.Common.Tests.{Bool-cases}
use slancha_mesh.Common.Dict.{Assoc, lookup, insert, lookup-insert, lookup-insert_self, has}

abbrev pub AllEntries {ℓ κ} : {V : Type ℓ} → (String → V → Type κ) → Assoc V → Type κ
AllEntries P [] = Unit
AllEntries P ((k, v) ∷ m) = P k v × AllEntries P m

module _ {ℓ κ} {V : Type ℓ} (P : String → V → Type κ) where
  pub AllEntries-insert :
      (k : String) (v : V) (m : Assoc V) → P k v → AllEntries P m → AllEntries P (insert k v m)
  unfolding insert
  AllEntries-insert k v [] p h = (p, tt)
  AllEntries-insert k v ((j, w) ∷ m) p h = elim (Bool-cases (j == k)) [
    | inl e ↦ rw e (p, h.1)
    | inr e ↦ rw e (h.0, AllEntries-insert k v m p h.1)
  ]

  pub AllEntries-lookup :
      (k : String) {v : V} (m : Assoc V) → AllEntries P m → lookup k m ≡ some v → P k v
  unfolding lookup
  AllEntries-lookup k [] h e = cc
  AllEntries-lookup k {v} ((j, w) ∷ m) h e = elim (Bool-cases (j == k)) [
    | inl t ↦
        subst (λ x. P x v) ((eq_iff j k).0 t) (subst (P j) (some-injective w v (rw t at e)) h.0)
    | inr t ↦ AllEntries-lookup k m h.1 (rw t at e)
  ]

module _ {ℓ} {V : Type ℓ} where
  -- What is in a dictionary stays in it.
  pub has-insert :
      (k j : String) (v : V) (m : Assoc V) → has j m ≡ true → has j (insert k v m) ≡ true
  has-insert k j v m h = ground (arith, lookup-insert k j v m, h)

  pub has-insert_self : (k : String) (v : V) (m : Assoc V) → has k (insert k v m) ≡ true
  has-insert_self k v m = rw (lookup-insert_self k v m) refl
