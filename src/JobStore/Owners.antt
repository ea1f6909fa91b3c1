-- ===== src/JobStore/Owners.antt =====
-- The cleanup of mesh/job_store.py keeps the table's constraints and forgets no upstream job.
use slancha_mesh.Common.{
  ℕ, zero, suc, ◌≡◌, refl, sym, ap, ◌∙◌, true, false, some, List, [], ◌∷◌, arith, ◌==◌, keep,
  eq_iff, inl, inr, All, All-mono, All-from, In, All-In, take,
}
use slancha_mesh.Common.Sort.{sort_by, All-sort_by}
use slancha_mesh.JobStore.Rows.{Row, same_id, with_id, expires_before}
use slancha_mesh.JobStore.Cleanup.{
  is_expired, expired_rows, cleanup_twin, cleanup_rows, cleanup_expired,
}
use slancha_mesh.JobStore.Tables.{IsFree, IsTable}
use slancha_mesh.JobStore.Twins.{SameOwner, Matches}
use slancha_mesh.JobStore.Rounds.{OwnersKept, OwnersKept-trans, keep_sound, cleanup_row-Round}

cleanup_rows-Round :
    (todo rows : List Row)
    → IsTable rows
    → All (λ row. Matches row rows) todo
    → (rows' : List Row) × (cleanup_rows todo rows ≡ some rows')
      × IsTable rows'
      × OwnersKept rows rows'
unfolding cleanup_rows
cleanup_rows-Round [] rows h m = (rows, refl, h, λ r i. (r, i, (refl, refl, refl)))
cleanup_rows-Round (row ∷ todo) rows h m =
    let (rows', e, r) = cleanup_row-Round row rows (keep (cleanup_twin row) rows) refl h m.0 in
    let (end, e', h', o) =
      cleanup_rows-Round todo rows' r.table
        (All-mono (λ x. Matches x rows) (λ x. Matches x rows') (λ x. r.matching x) todo m.1) in
    (end, rw (cleanup_rows, e) e', h', OwnersKept-trans rows rows' end r.owners o)

-- Two rows of one id in a table are the same.
pub unique_id :
    (rows : List Row) (a b : Row)
    → IsFree same_id rows
    → In a rows
    → In b rows
    → with_id a.job.public_id b ≡ true
    → b ≡ a
unfolding same_id
unique_id [] a b d i j e = absurd (ground (arith, i))
unique_id (x ∷ rows) a b d (inl p) (inl q) e = sym q ∙ p
unique_id (x ∷ rows) a b d (inl p) (inr j) e =
    let no : (x.job.public_id == b.job.public_id) ≡ false =
      All-In (λ r. same_id x r ≡ false) b rows d.0 j in
    let same : x.job.public_id ≡ a.job.public_id = ap (λ (r : Row). r.job.public_id) p in
    absurd (
      ground (
        arith,
        no,
        same,
        e,
        eq_iff x.job.public_id b.job.public_id,
        eq_iff b.job.public_id a.job.public_id,
      ))
unique_id (x ∷ rows) a b d (inr i) (inl q) e =
    let no : (x.job.public_id == a.job.public_id) ≡ false =
      All-In (λ r. same_id x r ≡ false) a rows d.0 i in
    let same : x.job.public_id ≡ b.job.public_id = ap (λ (r : Row). r.job.public_id) q in
    absurd (
      ground (
        arith,
        no,
        same,
        e,
        eq_iff x.job.public_id a.job.public_id,
        eq_iff b.job.public_id a.job.public_id,
      ))
unique_id (x ∷ rows) a b d (inr i) (inr j) e = unique_id rows a b d.1 i j e

pub Matches-self : (a : Row) (rows : List Row) → IsFree same_id rows → In a rows → Matches a rows
Matches-self a rows d i =
    All-from (λ r. with_id a.job.public_id r ≡ true → SameOwner r.job a.job) rows
      (λ b j e.
        let same = unique_id rows a b d i j e in
        (
          ap (λ (r : Row). r.job.protocol_id) same,
          ap (λ (r : Row). r.job.owner_origin) same,
          ap (λ (r : Row). r.job.upstream_job_id) same,
        ))

pub All-take : (P : Row → Type 0) (n : ℕ) (rows : List Row) → All P rows → All P (take n rows)
All-take P zero rows h = tt
All-take P (suc n) [] h = tt
All-take P (suc n) (r ∷ rows) h = (h.0, All-take P n rows h.1)

pub expired_rows_sound :
    (batch now : ℕ) (rows : List Row)
    → All (λ r. In r rows × (is_expired now r ≡ true)) (expired_rows batch now rows)
unfolding expired_rows
expired_rows_sound batch now rows =
    All-take (λ r. In r rows × (is_expired now r ≡ true)) batch
      (sort_by expires_before (keep (is_expired now) rows))
      (All-sort_by expires_before (λ r. In r rows × (is_expired now r ≡ true))
        (keep (is_expired now) rows) (keep_sound (is_expired now) rows))

pub expired_rows-Matches :
    (batch now : ℕ) (rows : List Row)
    → IsTable rows
    → All (λ r. Matches r rows) (expired_rows batch now rows)
expired_rows-Matches batch now rows h =
    All-mono (λ r. In r rows × (is_expired now r ≡ true)) (λ r. Matches r rows)
      (λ r x. Matches-self r rows h.ids x.0) (expired_rows batch now rows)
      (expired_rows_sound batch now rows)

pub cleanup_keeps_owners :
    (batch now : ℕ) (rows : List Row)
    → IsTable rows
    → (rows' : List Row) × (cleanup_expired batch now rows ≡ some rows')
      × IsTable rows'
      × OwnersKept rows rows'
unfolding cleanup_expired
cleanup_keeps_owners batch now rows h =
    cleanup_rows-Round (expired_rows batch now rows) rows h (expired_rows-Matches batch now rows h)
