-- ===== src/JobStore/Tables.antt =====
-- The constraints of the table of mesh/job_store.py, as properties of its rows, and what the
-- statements keep of them.
use slancha_mesh.Common.{
  ◌≡◌, refl, Bool, true, false, some, List, [], ◌∷◌, arith, ◌&&◌, not, any, keep, Bool-cases, inl,
  inr, All, All-mono, some-injective,
}
use slancha_mesh.JobStore.Rows.{Row, clash, same_id, free_of, checked, update_where, delete_where}

abbrev pub IsFree : (Row → Row → Bool) → List Row → Type 0
IsFree related [] = Unit
IsFree related (r ∷ rows) = All (λ b. related r b ≡ false) rows × IsFree related rows

-- The primary key and the unique index hold.
pub record IsTable (rows : List Row) : Type 0 where
  pub index : IsFree clash rows
  pub ids : IsFree same_id rows

any→All : (p : Row → Bool) (rows : List Row) → any p rows ≡ false → All (λ r. p r ≡ false) rows
unfolding any
any→All p [] h = tt
any→All p (r ∷ rows) h = (ground (arith, h), any→All p rows (ground (arith, h)))

IsFree-back :
    (related : Row → Row → Bool) (rows : List Row)
    → free_of related rows ≡ true
    → IsFree related rows
unfolding free_of
IsFree-back related [] h = tt
IsFree-back related (r ∷ rows) h =
    (any→All (related r) rows (ground (arith, h)), IsFree-back related rows (ground (arith, h)))

All→any : (p : Row → Bool) (rows : List Row) → All (λ r. p r ≡ false) rows → any p rows ≡ false
unfolding any
All→any p [] h = refl
All→any p (r ∷ rows) h = ground (arith, h.0, All→any p rows h.1)

IsFree→free_of :
    (related : Row → Row → Bool) (rows : List Row)
    → IsFree related rows
    → free_of related rows ≡ true
unfolding free_of
IsFree→free_of related [] h = refl
IsFree→free_of related (r ∷ rows) h =
    ground (arith, All→any (related r) rows h.0, IsFree→free_of related rows h.1)

-- A statement on a table is refused where its result is no table, and only there.
pub checked→IsTable :
    (rows rows' : List Row) → checked rows ≡ some rows' → (rows ≡ rows') × IsTable rows'
unfolding checked
checked→IsTable rows rows' h = elim (Bool-cases (free_of clash rows && free_of same_id rows)) [
  | inl e ↦
      let same : rows ≡ rows' = some-injective rows rows' (rw e at h) in
      rw (← same) (
        refl,
        record {
          index = IsFree-back clash rows (ground (arith, e));
          ids = IsFree-back same_id rows (ground (arith, e));
        },
      )
  | inr e ↦ absurd (ground (arith, rw e at h))
]

pub IsTable→checked : (rows : List Row) → IsTable rows → checked rows ≡ some rows
unfolding checked
IsTable→checked rows h =
    rw (IsFree→free_of clash rows h.index, IsFree→free_of same_id rows h.ids) refl

pub All-keep :
    (P : Row → Type 0) (p : Row → Bool) (rows : List Row) → All P rows → All P (keep p rows)
unfolding keep
All-keep P p [] h = tt
All-keep P p (r ∷ rows) h = elim (Bool-cases (p r)) [
  | inl e ↦ rw e (h.0, All-keep P p rows h.1)
  | inr e ↦ rw e (All-keep P p rows h.1)
]

pub All-update_where :
    (P : Row → Type 0) (p : Row → Bool) (f : Row → Row) (rows : List Row)
    → ((r : Row) → p r ≡ true → P r → P (f r))
    → All P rows
    → All P (update_where p f rows)
unfolding update_where
All-update_where P p f [] k h = tt
All-update_where P p f (r ∷ rows) k h = elim (Bool-cases (p r)) [
  | inl e ↦ rw e (k r e h.0, All-update_where P p f rows k h.1)
  | inr e ↦ rw e (h.0, All-update_where P p f rows k h.1)
]

IsFree-keep :
    (related : Row → Row → Bool) (p : Row → Bool) (rows : List Row)
    → IsFree related rows
    → IsFree related (keep p rows)
unfolding keep
IsFree-keep related p [] h = tt
IsFree-keep related p (r ∷ rows) h = elim (Bool-cases (p r)) [
  | inl e ↦ rw e (All-keep (λ b. related r b ≡ false) p rows h.0, IsFree-keep related p rows h.1)
  | inr e ↦ rw e (IsFree-keep related p rows h.1)
]

-- An update that relates its rows to no more rows than before.
pub record Narrows (related : Row → Row → Bool) (f : Row → Row) : Type 0 where
  pub left : (a b : Row) → related a b ≡ false → related (f a) b ≡ false
  pub right : (a b : Row) → related a b ≡ false → related a (f b) ≡ false

IsFree-update_where :
    (related : Row → Row → Bool) (p : Row → Bool) (f : Row → Row) (rows : List Row)
    → Narrows related f
    → IsFree related rows
    → IsFree related (update_where p f rows)
unfolding update_where
IsFree-update_where related p f [] n h = tt
IsFree-update_where related p f (r ∷ rows) n h =
    let rest : All (λ b. related r b ≡ false) (update_where p f rows) =
      All-update_where (λ b. related r b ≡ false) p f rows (λ b e. n.right r b) h.0 in
    elim (Bool-cases (p r)) [
      | inl e ↦ rw e (
        All-mono (λ b. related r b ≡ false) (λ b. related (f r) b ≡ false) (λ b. n.left r b)
            (update_where p f rows) rest,
        IsFree-update_where related p f rows n h.1,
      )
      | inr e ↦ rw e (rest, IsFree-update_where related p f rows n h.1)
    ]

pub delete_where-IsTable :
    (p : Row → Bool) (rows : List Row) → IsTable rows → IsTable (delete_where p rows)
delete_where-IsTable p rows h = record {
  index = IsFree-keep clash (λ r. not (p r)) rows h.index;
  ids = IsFree-keep same_id (λ r. not (p r)) rows h.ids;
}

pub update_where-ids :
    (p : Row → Bool) (f : Row → Row) (rows : List Row)
    → Narrows same_id f
    → IsFree same_id rows
    → IsFree same_id (update_where p f rows)
update_where-ids p f rows n h = IsFree-update_where same_id p f rows n h

pub update_where-IsTable :
    (p : Row → Bool) (f : Row → Row) (rows : List Row)
    → Narrows clash f
    → Narrows same_id f
    → IsTable rows
    → IsTable (update_where p f rows)
update_where-IsTable p f rows n m h = record {
  index = IsFree-update_where clash p f rows n h.index;
  ids = IsFree-update_where same_id p f rows m h.ids;
}
