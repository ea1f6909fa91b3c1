-- ===== src/Common/Sort.antt =====
-- Python's stable sort, as an insertion sort by a strict order of the keys, and a first minimum.
use mathlib.Core.List.Perm
use mathlib.Core.List.{List, [], ◌∷◌, Perm}
use mathlib.Core.Path.{◌≡◌}
use mathlib.Core.Logic.{inl, inr}
use mathlib.Core.Bool.{Bool, true, false}
use slancha_mesh.Common.Tests.{if◌then◌else◌, Bool-cases}
use slancha_mesh.Common.Lists.{All, All-mono, In}

module _ {ℓ} {A : Type ℓ} (before : A → A → Bool) where
  -- `x` stands in the list in front of the elements of `xs`, and stays in front of its equals.
  unfoldable pub insert_sorted : A → List A → List A
  insert_sorted x [] = x ∷ []
  insert_sorted x (y ∷ ys) =
      let further = insert_sorted x ys in if before y x then y ∷ further else x ∷ y ∷ ys

  unfoldable pub sort_by : List A → List A
  unfolding insert_sorted
  sort_by [] = []
  sort_by (x ∷ xs) = insert_sorted x (sort_by xs)

  insert_sorted-perm : (x : A) (xs : List A) → Perm (insert_sorted x xs) (x ∷ xs)
  unfolding insert_sorted
  insert_sorted-perm x [] = Perm.refl (x ∷ [])
  insert_sorted-perm x (y ∷ ys) = elim (Bool-cases (before y x)) [
    | inl e ↦ rw e (Perm.trans (Perm.cons y (insert_sorted-perm x ys)) (Perm.swap x y ys))
    | inr e ↦ rw e (Perm.refl (x ∷ y ∷ ys))
  ]

  pub sort_by-perm : (xs : List A) → Perm (sort_by xs) xs
  unfolding sort_by
  sort_by-perm [] = Perm.refl []
  sort_by-perm (x ∷ xs) =
      Perm.trans (insert_sorted-perm x (sort_by xs)) (Perm.cons x (sort_by-perm xs))

  -- No element comes before an earlier one.
  abbrev pub IsSorted : List A → Type ℓ
  IsSorted [] = Unit
  IsSorted (x ∷ xs) = All (λ y. before y x ≡ false) xs × IsSorted xs

module _ {ℓ κ} {A : Type ℓ} (before : A → A → Bool) (P : A → Type κ) where
  All-insert_sorted : (x : A) (xs : List A) → P x → All P xs → All P (insert_sorted before x xs)
  unfolding insert_sorted
  All-insert_sorted x [] p h = (p, tt)
  All-insert_sorted x (y ∷ ys) p h = elim (Bool-cases (before y x)) [
    | inl e ↦ rw e (h.0, All-insert_sorted x ys p h.1)
    | inr e ↦ rw e (p, h)
  ]

  -- Sorting keeps what holds of every element.
  pub All-sort_by : (xs : List A) → All P xs → All P (sort_by before xs)
  unfolding sort_by
  All-sort_by [] h = tt
  All-sort_by (x ∷ xs) h = All-insert_sorted x (sort_by before xs) h.0 (All-sort_by xs h.1)

-- A strict order in which what is not before is transitive, as an order of keys is.
pub record IsKeyOrder {ℓ} {A : Type ℓ} (before : A → A → Bool) : Type ℓ where
  pub asymm : (a b : A) → before a b ≡ true → before b a ≡ false
  pub not_before_trans : (a b c : A) → before b a ≡ false → before c b ≡ false → before c a ≡ false

module _ {ℓ} {A : Type ℓ} (before : A → A → Bool) (o : IsKeyOrder before) where
  insert_sorted-IsSorted :
      (x : A) (xs : List A) → IsSorted before xs → IsSorted before (insert_sorted before x xs)
  unfolding insert_sorted
  insert_sorted-IsSorted x [] h = (tt, tt)
  insert_sorted-IsSorted x (y ∷ ys) h = elim (Bool-cases (before y x)) [
    | inl e ↦ rw e (
      All-insert_sorted before (λ z. before z y ≡ false) x ys (o.asymm y x e) h.0,
      insert_sorted-IsSorted x ys h.1,
    )
    | inr e ↦ rw e (
      (
        e,
        All-mono (λ z. before z y ≡ false) (λ z. before z x ≡ false)
            (λ z. o.not_before_trans x y z e) ys h.0,
      ),
      h,
    )
  ]

  pub sort_by-IsSorted : (xs : List A) → IsSorted before (sort_by before xs)
  unfolding sort_by
  sort_by-IsSorted [] = tt
  sort_by-IsSorted (x ∷ xs) = insert_sorted-IsSorted x (sort_by before xs) (sort_by-IsSorted xs)

module _ {A : Type 0} (before : A → A → Bool) (a : A) where
  In-insert_sorted : (x : A) (xs : List A) → In a (x ∷ xs) → In a (insert_sorted before x xs)
  unfolding insert_sorted
  In-insert_sorted x [] h = h
  In-insert_sorted x (y ∷ ys) h = elim (Bool-cases (before y x)) [
    | inl e ↦ rw e (elim h [
      | inl same ↦ inr (In-insert_sorted x ys (inl same))
      | inr (inl same) ↦ inl same
      | inr (inr more) ↦ inr (In-insert_sorted x ys (inr more))
    ])
    | inr e ↦ rw e h
  ]

  -- Sorting loses nothing.
  pub In-sort_by : (xs : List A) → In a xs → In a (sort_by before xs)
  unfolding sort_by
  In-sort_by [] h = h
  In-sort_by (x ∷ xs) (inl e) = In-insert_sorted x (sort_by before xs) (inl e)
  In-sort_by (x ∷ xs) (inr h) = In-insert_sorted x (sort_by before xs) (inr (In-sort_by xs h))
