-- ===== src/JobStore/Reads.antt =====
-- A video job that mesh/job_store.py has created can be read until it expires.
use slancha_mesh.Common.{
  In-keep, ℕ, ◌+◌, ◌<◌, String, ◌≡◌, refl, ap, ◌∙◌, Bool, true, false, Option, none, some, List, [],
  ◌∷◌, ◌++◌, arith, if◌then◌else◌, not, keep, eq_refl, Bool-cases, Option-cases, inl, inr, All,
  All-mono, In, In-append_right, subst, some-injective,
}
use slancha_mesh.JobStore.Rows.{
  VideoJob, CleanupPending, live, pending, quarantined, is_live, is_pending, Row, checked,
  update_where, fetchone, with_id,
}
use slancha_mesh.JobStore.Cleanup.{
  is_expired, expired_rows, cleanup_twin, absorb, expire, live_with_id, cleanup_row, cleanup_rows,
  cleanup_expired,
}
use slancha_mesh.JobStore.Operations.{
  VideoJobStore, ok, cleaned, NewJob, valid_job, job_of, live_row, create, is_visible, found_job,
  get,
}
use slancha_mesh.JobStore.Tables.{IsTable, checked→IsTable}
use slancha_mesh.JobStore.Twins.{Matches}
use slancha_mesh.JobStore.Rounds.{In-update_where, keep_sound, cleanup_row-Round}
use slancha_mesh.JobStore.Owners.{
  unique_id, expired_rows_sound, expired_rows-Matches, cleanup_keeps_owners,
}

-- The row that a query for a twin finds.
fetched_twin :
    (row twin : Row) (rows found : List Row)
    → keep (cleanup_twin row) rows ≡ found
    → fetchone found ≡ some twin
    → In twin rows × (is_pending twin.cleanup_pending ≡ true)
unfolding cleanup_twin
fetched_twin row twin rows [] e f = absurd (ground (arith, f))
fetched_twin row twin rows (x ∷ more) e f =
    let (i, s) =
      (subst (All (λ r. In r rows × (cleanup_twin row r ≡ true))) e
        (keep_sound (cleanup_twin row) rows)).0 in
    subst (λ x. In x rows × (is_pending x.cleanup_pending ≡ true)) (some-injective x twin f)
      (i, ground (arith, s))

live_not_pending : (c : CleanupPending) → is_live c ≡ true → is_pending c ≡ false
live_not_pending live e = refl
live_not_pending pending e = absurd (ground (arith, e))
live_not_pending quarantined e = refl

if_false : (b : Bool) (x y : Row) → b ≡ false → (if b then x else y) ≡ y
if_false true x y e = absurd (ground (arith, e))
if_false false x y e = refl

module _ (r : Row) (is : is_live r.cleanup_pending ≡ true) where
  -- A round that is about another id leaves a live row alone.
  cleanup_row-keeps :
      (o : Option Row) (row : Row) (rows rows' : List Row)
      → ((twin : Row) → o ≡ some twin → In twin rows × (is_pending twin.cleanup_pending ≡ true))
      → cleanup_row o row rows ≡ some rows'
      → IsTable rows
      → with_id row.job.public_id r ≡ false
      → In r rows
      → In r rows'
  unfolding cleanup_row
  cleanup_row-keeps none row rows rows' f e h ne i = subst (In r) (checked→IsTable _ rows' e).0 (
      subst (λ x. In x (update_where (live_with_id row.job.public_id) expire rows))
        (if_false _ (expire r) r (ground (arith, ne)))
        (In-update_where (live_with_id row.job.public_id) expire r rows i))
  cleanup_row-keeps (some twin) row rows rows' f e h ne i =
      let (j, p) = f twin refl in
      let other : with_id twin.job.public_id r ≡ false =
        elim (Bool-cases (with_id twin.job.public_id r)) [
          | inl t ↦
              let same : r ≡ twin = unique_id rows twin r h.ids j i t in
              absurd (
                ground (
                  arith,
                  p,
                  ap (λ (x : Row). is_pending x.cleanup_pending) same,
                  live_not_pending r.cleanup_pending is,
                ))
          | inr t ↦ t
        ] in
      subst (In r) (some-injective _ rows' e) (
        In-keep (λ x. not (with_id row.job.public_id x)) r
          (update_where (with_id twin.job.public_id) (absorb row) rows)
          (subst (λ x. In x (update_where (with_id twin.job.public_id) (absorb row) rows))
            (if_false _ (absorb row r) r other)
            (In-update_where (with_id twin.job.public_id) (absorb row) r rows i))
          (ground (arith, ne)))

  cleanup_rows-keeps :
      (todo rows rows' : List Row)
      → cleanup_rows todo rows ≡ some rows'
      → IsTable rows
      → All (λ row. Matches row rows) todo
      → All (λ row. with_id row.job.public_id r ≡ false) todo
      → In r rows
      → In r rows'
  unfolding cleanup_rows
  cleanup_rows-keeps [] rows rows' e h m ne i = subst (In r) (some-injective rows rows' e) i
  cleanup_rows-keeps (row ∷ todo) rows rows' e h m ne i =
      let (next, s, round) = cleanup_row-Round row rows (keep (cleanup_twin row) rows) refl h m.0 in
      cleanup_rows-keeps todo next rows' (rw (cleanup_rows, s) at e) round.table
        (All-mono (λ x. Matches x rows) (λ x. Matches x next) (λ x. round.matching x) todo m.1) ne.1
        (cleanup_row-keeps (fetchone (keep (cleanup_twin row) rows)) row rows next
          (λ twin. fetched_twin row twin rows (keep (cleanup_twin row) rows) refl) s h ne.0 i)

-- A live row that has not expired is in the table after a cleanup.
survives :
    (batch now : ℕ) (rows rows' : List Row) (r : Row)
    → IsTable rows
    → cleanup_expired batch now rows ≡ some rows'
    → In r rows
    → is_live r.cleanup_pending ≡ true
    → now < r.job.expires_at
    → In r rows'
unfolding cleanup_expired
survives batch now rows rows' r h e i is lt =
    cleanup_rows-keeps r is (expired_rows batch now rows) rows rows' e h
      (expired_rows-Matches batch now rows h)
      (All-mono (λ x. In x rows × (is_expired now x ≡ true))
        (λ x. with_id x.job.public_id r ≡ false)
        (λ x (j, ex). elim (Bool-cases (with_id x.job.public_id r)) [
          | inl t ↦
              let same : r ≡ x = unique_id rows x r h.ids j i t in
              let late : is_expired now r ≡ true = ap (is_expired now) same ∙ ex in
              absurd (ground (arith, late, lt))
          | inr t ↦ t
        ])
        (expired_rows batch now rows) (expired_rows_sound batch now rows))
      i

fetchone-only :
    (p : Row → Bool) (r : Row) (rows found : List Row)
    → keep p rows ≡ found
    → In r rows
    → p r ≡ true
    → ((x : Row) → In x rows → p x ≡ true → x ≡ r)
    → fetchone found ≡ some r
fetchone-only p r rows [] e i s f = absurd (ground (arith, subst (In r) e (In-keep p r rows i s)))
fetchone-only p r rows (x ∷ more) e i s f =
    let (j, t) = (subst (All (λ y. In y rows × (p y ≡ true))) e (keep_sound p rows)).0 in
    ap some (f x j t)

-- A live row is read until it expires.
get-live :
    (s : VideoJobStore) (now : ℕ) (r : Row) (rows : List Row)
    → IsTable rows
    → In r rows
    → is_live r.cleanup_pending ≡ true
    → now < r.job.expires_at
    → (get s now r.job.public_id rows).0 ≡ ok (some r.job)
unfolding get cleaned found_job
get-live s now r rows h i is lt =
    let (rows', e, h', o) = cleanup_keeps_owners s.cleanup_batch now rows h in
    let here = survives s.cleanup_batch now rows rows' r h e i is lt in
    let id = r.job.public_id in
    let visible : is_visible id now r ≡ true = ground (arith, eq_refl id, lt, is) in
    let found =
      fetchone-only (is_visible id now) r rows' (keep (is_visible id now) rows') refl here visible
        (λ x j t. unique_id rows' r x h'.ids here j (ground (arith, t))) in
    rw e (rw found refl)

-- A job that create returns, on a table that satisfies its constraints, is returned by get under its
-- id on the table that create leaves, at any time before it expires.
pub created_job_is_readable :
    (s : VideoJobStore) (now later : ℕ) (hex : String) (j : NewJob) (rows : List Row)
    (job : VideoJob)
    → IsTable rows
    → (create s now hex j rows).0 ≡ ok job
    → later < now + s.ttl
    → (get s later job.public_id (create s now hex j rows).1).0 ≡ ok (some job)
unfolding create cleaned
created_job_is_readable s now later hex j rows job h e lt = elim (Bool-cases (valid_job j)) [
  | inl v ↦
      let (rows', c, h', o) = cleanup_keeps_owners s.cleanup_batch now rows h in
      let new = job_of j hex now (now + s.ttl) in
      elim (Option-cases (checked (rows' ++ live_row new ∷ []))) [
        | inl n ↦ absurd (ground (arith, rw (v, c, n) at e))
        | inr (end, n) ↦
            let same : new ≡ job = ground (arith, rw (v, c, n) at e) in
            let table = (checked→IsTable (rows' ++ live_row new ∷ []) end n) in
            rw (v, c, n)
              (subst (λ x. (get s later x.public_id end).0 ≡ ok (some x)) same
                (get-live s later (live_row new) end table.1
                  (subst (In (live_row new)) table.0
                    (In-append_right (live_row new) rows' (live_row new ∷ []) (inl refl)))
                  refl lt))
      ]
  | inr v ↦ absurd (ground (arith, rw v at e))
]
