-- ===== src/Common/Dict.antt =====
-- Python's `dict` with `str` keys: an association list in insertion order. Assigning to a key that
-- is there keeps its place, as in Python.
use Prim.Native.Nat.{◌+◌, ◌≤◌}
use Prim.Native.String.{String}
use mathlib.Core.Path.{◌≡◌, refl, ◌∙◌, subst}
use mathlib.Core.Logic.{inl, inr}
use mathlib.Core.Bool.{Bool}
use mathlib.Core.Option.{Option, none, some, some-injective}
use mathlib.Core.List.{List, [], ◌∷◌}
use native.Mathlib.Omega.{arith}
use text.Mathlib.Text.{◌==◌}
use text.Mathlib.TextEquality.{eq_iff}
use text.Mathlib.TextPositions.{eq_refl}
use slancha_mesh.Common.Tests.{if◌then◌else◌, is_some, Bool-cases}
use slancha_mesh.Common.Lists.{length}

abbrev pub Assoc {ℓ} : Type ℓ → Type ℓ
Assoc V = List (String × V)

module _ {ℓ} {V : Type ℓ} where
  -- d.get(key)
  unfoldable pub lookup : String → Assoc V → Option V
  lookup key [] = none
  lookup key ((first, value) ∷ rest) = if first == key then some value else lookup key rest

  -- d.pop(key, None)
  unfoldable pub remove : String → Assoc V → Assoc V
  remove key [] = []
  remove key ((first, value) ∷ rest) =
      let others = remove key rest in if first == key then others else (first, value) ∷ others

  -- key in d
  abbrev pub has : String → Assoc V → Bool
  has key d = is_some (lookup key d)

  pub lookup-remove :
      (gone key : String) (d : Assoc V)
      → lookup key (remove gone d) ≡ (if gone == key then none else lookup key d)
  unfolding lookup remove
  lookup-remove gone key [] = ground arith
  lookup-remove gone key ((first, value) ∷ rest) =
      let tail = lookup-remove gone key rest in
      ground (arith, tail, eq_iff first gone, eq_iff first key, eq_iff gone key)

  -- d[key] = value
  unfoldable pub insert : String → V → Assoc V → Assoc V
  insert key value [] = (key, value) ∷ []
  insert key value ((first, old) ∷ rest) =
      if first == key then (key, value) ∷ rest else (first, old) ∷ insert key value rest

  -- d.setdefault(key, value)
  abbrev pub set_default : String → V → Assoc V → Assoc V
  set_default key value d = if has key d then d else insert key value d

  pub lookup-insert :
      (new key : String) (value : V) (d : Assoc V)
      → lookup key (insert new value d) ≡ (if new == key then some value else lookup key d)
  unfolding lookup insert
  lookup-insert new key value [] = refl
  lookup-insert new key value ((first, old) ∷ rest) =
      let tail = lookup-insert new key value rest in
      ground (arith, tail, eq_iff first new, eq_iff new key, eq_iff first key)

  pub remove_absent : (k : String) (m : Assoc V) → lookup k m ≡ none → remove k m ≡ m
  unfolding lookup remove
  remove_absent k [] h = refl
  remove_absent k ((j, w) ∷ m) h = ground (arith, remove_absent k m)

  pub lookup-insert_self : (k : String) (v : V) (m : Assoc V) → lookup k (insert k v m) ≡ some v
  lookup-insert_self k v m = simp (lookup-insert, eq_refl)

  pub length-insert_present :
      (k : String) (v w : V) (m : Assoc V) → lookup k m ≡ some w → length (insert k v m) ≡ length m
  unfolding lookup insert
  length-insert_present k v w [] h = ground arith
  length-insert_present k v w ((i, u) ∷ m) h = ground (arith, length-insert_present k v w m)

  pub length-insert_absent :
      (k : String) (v : V) (m : Assoc V) → lookup k m ≡ none → length (insert k v m) ≡ length m + 1
  unfolding lookup insert
  length-insert_absent k v [] h = ground arith
  length-insert_absent k v ((i, u) ∷ m) h = ground (arith, length-insert_absent k v m)

  pub length-insert_le : (k : String) (v : V) (m : Assoc V) → length (insert k v m) ≤ length m + 1
  unfolding insert
  length-insert_le k v [] = ground arith
  length-insert_le k v ((i, u) ∷ m) = ground (arith, length-insert_le k v m)

  pub length-remove_le : (k : String) (m : Assoc V) → length (remove k m) ≤ length m
  unfolding remove
  length-remove_le k [] = ground arith
  length-remove_le k ((i, u) ∷ m) = ground (arith, length-remove_le k m)

  -- Removing a key that is there makes the dictionary shorter.
  pub length-remove_present :
      (k : String) (w : V) (m : Assoc V) → lookup k m ≡ some w → length (remove k m) + 1 ≤ length m
  unfolding lookup remove
  length-remove_present k w [] h = ground arith
  length-remove_present k w ((i, u) ∷ m) h =
      ground (arith, length-remove_present k w m, length-remove_le k m)

pub lookup-nil {ℓ} : {V : Type ℓ} (k : String) → lookup {V = V} k [] ≡ none
unfolding lookup
lookup-nil k = refl

pub ruleset dict_laws = (lookup-nil, lookup-insert, lookup-remove)

-- A property of every value.
abbrev pub AllValues {ℓ κ} : {V : Type ℓ} → (V → Type κ) → Assoc V → Type κ
AllValues P [] = Unit
AllValues P ((k, v) ∷ m) = P v × AllValues P m

-- No key stands twice.
abbrev pub IsDistinct {ℓ} : {V : Type ℓ} → Assoc V → Type ℓ
IsDistinct [] = Unit
IsDistinct ((k, v) ∷ m) = (lookup k m ≡ none) × IsDistinct m

module _ {ℓ κ} {V : Type ℓ} (P : V → Type κ) where
  pub AllValues-insert :
      (k : String) (v : V) (m : Assoc V) → P v → AllValues P m → AllValues P (insert k v m)
  unfolding insert
  AllValues-insert k v [] p h = (p, tt)
  AllValues-insert k v ((j, w) ∷ m) p h = elim (Bool-cases (j == k)) [
    | inl e ↦ rw e (p, h.1)
    | inr e ↦ rw e (h.0, AllValues-insert k v m p h.1)
  ]

  pub AllValues-remove : (k : String) (m : Assoc V) → AllValues P m → AllValues P (remove k m)
  unfolding remove
  AllValues-remove k [] h = tt
  AllValues-remove k ((j, w) ∷ m) h = elim (Bool-cases (j == k)) [
    | inl e ↦ rw e (AllValues-remove k m h.1)
    | inr e ↦ rw e (h.0, AllValues-remove k m h.1)
  ]

  pub AllValues-lookup :
      (k : String) {v : V} (m : Assoc V) → AllValues P m → lookup k m ≡ some v → P v
  unfolding lookup
  AllValues-lookup k [] h e = cc
  AllValues-lookup k {v} ((j, w) ∷ m) h e = elim (Bool-cases (j == k)) [
    | inl t ↦ subst P (some-injective w v (rw t at e)) h.0
    | inr t ↦ AllValues-lookup k m h.1 (rw t at e)
  ]

module _ {ℓ} {V : Type ℓ} where
  pub IsDistinct-insert :
      (k : String) (v : V) (m : Assoc V) → IsDistinct m → IsDistinct (insert k v m)
  unfolding lookup insert
  IsDistinct-insert k v [] h = (refl, tt)
  IsDistinct-insert k v ((j, w) ∷ m) h = elim (Bool-cases (j == k)) [
    | inl e ↦ rw e (rw ((eq_iff j k).0 e) at h.0, h.1)
    | inr e ↦ rw e (
      lookup-insert k j v m ∙ ground (arith, eq_iff k j, eq_iff j k, h.0),
      IsDistinct-insert k v m h.1,
    )
  ]

  pub IsDistinct-remove : (k : String) (m : Assoc V) → IsDistinct m → IsDistinct (remove k m)
  unfolding remove
  IsDistinct-remove k [] h = tt
  IsDistinct-remove k ((j, w) ∷ m) h = elim (Bool-cases (j == k)) [
    | inl e ↦ rw e (IsDistinct-remove k m h.1)
    | inr e ↦ rw e (lookup-remove k j m ∙ ground (arith, h.0), IsDistinct-remove k m h.1)
  ]
