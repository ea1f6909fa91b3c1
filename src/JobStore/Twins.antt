-- ===== src/JobStore/Twins.antt =====
-- Expiring a row of the table of mesh/job_store.py does not break its unique index.
use slancha_mesh.Common.{
  ◌≡◌, refl, sym, ◌∙◌, Bool, true, false, List, [], ◌∷◌, arith, eq_iff, eq_refl, Bool-cases, inl,
  inr, All, All-mono,
}
use slancha_mesh.JobStore.Rows.{VideoJob, Row, same_owner, clash, same_id, update_where, with_id}
use slancha_mesh.JobStore.Cleanup.{cleanup_twin, expire, live_with_id}
use slancha_mesh.JobStore.Tables.{IsFree, All-update_where}

-- Two jobs stand for the same upstream job.
abbrev pub SameOwner : VideoJob → VideoJob → Type 0
SameOwner a b =
    (a.protocol_id ≡ b.protocol_id)
    × (a.owner_origin ≡ b.owner_origin)
    × (a.upstream_job_id ≡ b.upstream_job_id)

pub same_owner→SameOwner : (a b : VideoJob) → same_owner a b ≡ true → SameOwner a b
unfolding same_owner
same_owner→SameOwner a b h = (
  (eq_iff a.protocol_id b.protocol_id).0 (ground (arith, h)),
  (eq_iff a.owner_origin b.owner_origin).0 (ground (arith, h)),
  (eq_iff a.upstream_job_id b.upstream_job_id).0 (ground (arith, h)),
)

pub SameOwner→same_owner : (a b : VideoJob) → SameOwner a b → same_owner a b ≡ true
unfolding same_owner
SameOwner→same_owner a b (p, q, r) =
    rw (p, q, r)
      (rw (eq_refl b.protocol_id, eq_refl b.owner_origin, eq_refl b.upstream_job_id) refl)

pub SameOwner-trans : (a b c : VideoJob) → SameOwner a b → SameOwner b c → SameOwner a c
SameOwner-trans a b c (p, q, r) (p', q', r') = (p ∙ p', q ∙ q', r ∙ r')

pub SameOwner-sym : (a b : VideoJob) → SameOwner a b → SameOwner b a
SameOwner-sym a b (p, q, r) = (sym p, sym q, sym r)

-- Whoever has the row's id stands for its upstream job.
abbrev pub Matches : Row → List Row → Type 0
Matches row rows = All (λ r. with_id row.job.public_id r ≡ true → SameOwner r.job row.job) rows

-- A clash with the row that is about to expire is a twin of it.
pub twin_of_clash :
    (row r b : Row)
    → SameOwner r.job row.job
    → cleanup_twin row b ≡ false
    → with_id row.job.public_id b ≡ false
    → clash (expire r) b ≡ false
unfolding clash cleanup_twin
twin_of_clash row r b own twin other = elim (Bool-cases (same_owner r.job b.job)) [
  | inl e ↦
      let bw = SameOwner→same_owner b.job row.job (
        SameOwner-trans b.job r.job row.job
          (SameOwner-sym r.job b.job (same_owner→SameOwner r.job b.job e)) own) in
      ground (arith, twin, bw, other, e)
  | inr e ↦ ground (arith, e)
]

pub clash_of_twin :
    (row r b : Row)
    → SameOwner b.job row.job
    → cleanup_twin row r ≡ false
    → with_id row.job.public_id r ≡ false
    → clash r (expire b) ≡ false
unfolding clash cleanup_twin
clash_of_twin row r b own twin other = elim (Bool-cases (same_owner r.job b.job)) [
  | inl e ↦
      let rw' =
        SameOwner→same_owner r.job row.job
          (SameOwner-trans r.job b.job row.job (same_owner→SameOwner r.job b.job e) own) in
      ground (arith, twin, rw', other, e)
  | inr e ↦ ground (arith, e)
]

-- An update leaves the rows alone that it does not select.
pub update_where-none :
    (p : Row → Bool) (f : Row → Row) (rows : List Row)
    → All (λ r. p r ≡ false) rows
    → update_where p f rows ≡ rows
unfolding update_where
update_where-none p f [] h = refl
update_where-none p f (r ∷ rows) h = rw (h.0, update_where-none p f rows h.1) refl

abbrev pub NoTwin : Row → List Row → Type 0
NoTwin row rows = All (λ r. cleanup_twin row r ≡ false) rows

pub other_ids :
    (row r : Row) (rows : List Row)
    → with_id row.job.public_id r ≡ true
    → All (λ b. same_id r b ≡ false) rows
    → All (λ b. with_id row.job.public_id b ≡ false) rows
unfolding same_id
other_ids row r rows e h =
    All-mono (λ b. same_id r b ≡ false) (λ b. with_id row.job.public_id b ≡ false)
      (λ b n. ground (
        arith,
        n,
        eq_iff r.job.public_id row.job.public_id,
        eq_iff r.job.public_id b.job.public_id,
        eq_iff b.job.public_id row.job.public_id,
        e,
      ))
      rows h

pub zip_All :
    (P Q : Row → Type 0) (rows : List Row) → All P rows → All Q rows → All (λ r. P r × Q r) rows
zip_All P Q [] h k = tt
zip_All P Q (r ∷ rows) h k = ((h.0, k.0), zip_All P Q rows h.1 k.1)

abbrev pub Beside : Row → Row → Row → Type 0
Beside row r b =
    (clash r b ≡ false)
    × ((with_id row.job.public_id b ≡ true → SameOwner b.job row.job) × (same_id r b ≡ false))

-- The row in front does not clash with the one that expires.
pub Beside-expire :
    (row r b : Row)
    → cleanup_twin row r ≡ false
    → live_with_id row.job.public_id b ≡ true
    → Beside row r b
    → Beside row r (expire b)
unfolding same_id
Beside-expire row r b twin e (c, (m, d)) =
    let here : with_id row.job.public_id b ≡ true = ground (arith, e) in
    let other : with_id row.job.public_id r ≡ false = ground (
      arith,
      d,
      here,
      eq_iff r.job.public_id row.job.public_id,
      eq_iff b.job.public_id row.job.public_id,
      eq_iff r.job.public_id b.job.public_id,
    ) in
    (clash_of_twin row r b (m here) twin other, (m, d))

-- Expiring the one row of an id, where it has no twin, keeps the unique index.
pub expire-IsFree :
    (row : Row) (rows : List Row)
    → IsFree clash rows
    → IsFree same_id rows
    → Matches row rows
    → NoTwin row rows
    → IsFree clash (update_where (live_with_id row.job.public_id) expire rows)
unfolding update_where
expire-IsFree row [] i d m n = tt
expire-IsFree row (r ∷ rows) i d m n = elim (Bool-cases (live_with_id row.job.public_id r)) [
  | inl e ↦
      let here : with_id row.job.public_id r ≡ true = ground (arith, e) in
      let others = other_ids row r rows here d.0 in
      let same = update_where-none (live_with_id row.job.public_id) expire rows (
        All-mono (λ b. with_id row.job.public_id b ≡ false)
          (λ b. live_with_id row.job.public_id b ≡ false) (λ b x. ground (arith, x)) rows others) in
      rw (e, same)
        (
          All-mono (λ b. (cleanup_twin row b ≡ false) × (with_id row.job.public_id b ≡ false))
              (λ b. clash (expire r) b ≡ false) (λ b (t, o). twin_of_clash row r b (m.0 here) t o)
              rows (zip_All _ _ rows n.1 others),
          i.1,
        )
  | inr e ↦ rw e (
    All-mono (Beside row r) (λ b. clash r b ≡ false) (λ b x. x.0)
        (update_where (live_with_id row.job.public_id) expire rows)
        (All-update_where (Beside row r) (live_with_id row.job.public_id) expire rows
          (λ b s. Beside-expire row r b n.0 s) (zip_All _ _ rows i.0 (zip_All _ _ rows m.1 d.0))),
    expire-IsFree row rows i.1 d.1 m.1 n.1,
  )
]
