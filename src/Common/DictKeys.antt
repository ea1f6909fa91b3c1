-- ===== src/Common/DictKeys.antt =====
-- Properties of the keys of a dictionary.
use Prim.Native.String.{String}
use mathlib.Core.Path.{ap₂, ◌≡◌, sym, ap, ◌∙◌}
use mathlib.Core.Logic.{◌≢◌, inl, inr}
use mathlib.Core.Option.{some, some-injective}
use mathlib.Core.List.{[], ◌∷◌}
use text.Mathlib.TextPositions.{eq_refl}
use slancha_mesh.Common.Lists.{In}
use native.Mathlib.Omega.{arith}
use text.Mathlib.Text.{◌==◌}
use text.Mathlib.TextEquality.{eq_iff}
use slancha_mesh.Common.Tests.{Bool-cases}
use slancha_mesh.Common.Dict.{Assoc, lookup, insert, remove, IsDistinct}

-- A property of every key.
abbrev pub AllKeys {ℓ} : {V : Type ℓ} → (String → Type 0) → Assoc V → Type 0
AllKeys P [] = Unit
AllKeys P ((k, v) ∷ m) = P k × AllKeys P m

module _ {ℓ} {V : Type ℓ} where
  pub AllKeys-mono :
      (P Q : String → Type 0)
      → ((k : String) → P k → Q k)
      → (m : Assoc V) → AllKeys P m
      → AllKeys Q m
  AllKeys-mono P Q f [] h = tt
  AllKeys-mono P Q f ((k, v) ∷ m) h = (f k h.0, AllKeys-mono P Q f m h.1)

  pub AllKeys-insert :
      (P : String → Type 0) (k : String) (v : V) (m : Assoc V)
      → P k
      → AllKeys P m
      → AllKeys P (insert k v m)
  unfolding insert
  AllKeys-insert P k v [] p h = (p, tt)
  AllKeys-insert P k v ((j, w) ∷ m) p h = elim (Bool-cases (j == k)) [
    | inl e ↦ rw e (p, h.1)
    | inr e ↦ rw e (h.0, AllKeys-insert P k v m p h.1)
  ]

  pub AllKeys-remove :
      (P : String → Type 0) (k : String) (m : Assoc V)
      → AllKeys P m
      → AllKeys (λ j. P j × (k ≢ j)) (remove k m)
  unfolding remove
  AllKeys-remove P k [] h = tt
  AllKeys-remove P k ((j, w) ∷ m) h = elim (Bool-cases (j == k)) [
    | inl e ↦ rw e (AllKeys-remove P k m h.1)
    | inr e ↦ rw e ((h.0, ground (arith, eq_iff j k)), AllKeys-remove P k m h.1)
  ]

module _ {V : Type 0} where
  -- An entry of a dictionary is found under its key.
  pub lookup-In :
      (k : String) (v : V) (m : Assoc V) → IsDistinct m → In (k, v) m → lookup k m ≡ some v
  unfolding lookup
  lookup-In k v [] d i = absurd (ground (arith, i))
  lookup-In k v ((j, w) ∷ m) d (inl e) =
      let at_k : j ≡ k = ap (λ (x : String × V). x.0) e in
      rw (at_k, eq_refl k) (ap (λ (x : String × V). some x.1) e)
  lookup-In k v ((j, w) ∷ m) d (inr i) =
      let found : lookup k m ≡ some v = lookup-In k v m d.1 i in
      elim (Bool-cases (j == k)) [
        | inl e ↦
            let absent = ap (λ x. lookup x m) (sym ((eq_iff j k).0 e)) ∙ d.0 in
            absurd (ground (arith, absent, found))
        | inr e ↦ rw e found
      ]

  pub In-lookup : (k : String) (v : V) (m : Assoc V) → lookup k m ≡ some v → In (k, v) m
  unfolding lookup
  In-lookup k v [] h = absurd (ground (arith, h))
  In-lookup k v ((j, w) ∷ m) h = elim (Bool-cases (j == k)) [
    | inl e ↦
        let same : w ≡ v = some-injective w v (rw e at h) in
        inl (ap₂ (λ a b. (a, b)) ((eq_iff j k).0 e) same)
    | inr e ↦ inr (In-lookup k v m (rw e at h))
  ]
