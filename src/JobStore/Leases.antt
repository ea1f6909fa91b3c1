-- ===== src/JobStore/Leases.antt =====
-- The leases in the table of mesh/job_store.py, and the claims that they refuse.
use slancha_mesh.Common.{
  ℕ, ◌<◌, String, ◌≡◌, ◌≢◌, refl, Bool, true, false, Option, none, some, List, [], ◌∷◌, arith, not,
  leb, keep, Bool-cases, Option-cases, inl, inr, All, All-mono, subst, some-injective,
}
use slancha_mesh.JobStore.Rows.{Row, fetchone, with_id, unclaimed}
use slancha_mesh.JobStore.Cleanup.{
  cleanup_expired, cleanup_rows, cleanup_row, cleanup_twin, absorb, expire, live_with_id,
  expired_rows,
}
use slancha_mesh.JobStore.Operations.{VideoJobStore, JobResult, ok, cleaned}
use slancha_mesh.JobStore.Claiming.{VideoDeleteClaim, is_claimable, claim_delete}
use slancha_mesh.JobStore.Tables.{checked→IsTable, All-keep, All-update_where}

-- A row of the id is leased under the token until then.
abbrev pub Leased : String → String → ℕ → Row → Type 0
Leased id token until r =
    with_id id r ≡ true
    → (r.delete_claim_token ≡ some token) × (r.delete_claimed_until ≡ some until)

abbrev pub Claimed : String → String → ℕ → List Row → Type 0
Claimed id token until rows = All (Leased id token until) rows

module _ (id token : String) (until : ℕ) where
  pub cleanup_row-Claimed :
      (o : Option Row) (row : Row) (rows rows' : List Row)
      → cleanup_row o row rows ≡ some rows'
      → Claimed id token until rows
      → Claimed id token until rows'
  unfolding cleanup_row
  cleanup_row-Claimed (some twin) row rows rows' e h =
      subst (Claimed id token until) (some-injective _ rows' e) (
        All-keep (Leased id token until) (λ r. not (with_id row.job.public_id r)) _
          (All-update_where (Leased id token until) (with_id twin.job.public_id) (absorb row) rows
            (λ r s p. p) h))
  cleanup_row-Claimed none row rows rows' e h =
      subst (Claimed id token until) (checked→IsTable _ rows' e).0 (
        All-update_where (Leased id token until) (live_with_id row.job.public_id) expire rows
          (λ r s p. p) h)

  pub cleanup_rows-Claimed :
      (todo rows rows' : List Row)
      → cleanup_rows todo rows ≡ some rows'
      → Claimed id token until rows
      → Claimed id token until rows'
  unfolding cleanup_rows
  cleanup_rows-Claimed [] rows rows' e h =
      subst (Claimed id token until) (some-injective rows rows' e) h
  cleanup_rows-Claimed (row ∷ todo) rows rows' e h =
      elim (Option-cases (cleanup_row (fetchone (keep (cleanup_twin row) rows)) row rows)) [
        | inl s ↦ absurd (ground (arith, rw (cleanup_rows, s) at e))
        | inr (next, s) ↦
            cleanup_rows-Claimed todo next rows' (rw (cleanup_rows, s) at e)
              (cleanup_row-Claimed (fetchone (keep (cleanup_twin row) rows)) row rows next s h)
      ]

  pub cleanup_expired-Claimed :
      (batch now : ℕ) (rows rows' : List Row)
      → cleanup_expired batch now rows ≡ some rows'
      → Claimed id token until rows
      → Claimed id token until rows'
  unfolding cleanup_expired
  cleanup_expired-Claimed batch now rows rows' e h =
      cleanup_rows-Claimed (expired_rows batch now rows) rows rows' e h

  -- A row is not free for another claim before its lease ends.
  pub Leased-unclaimed :
      (now : ℕ) (r : Row)
      → now < until
      → Leased id token until r
      → with_id id r ≡ true
      → unclaimed now r ≡ false
  unfolding unclaimed
  Leased-unclaimed now r lt h e = rw ((h e).1, (h e).0) (ground arith)

pub not_claimable :
    (id token : String) (until now : ℕ) (r : Row)
    → now < until
    → Leased id token until r
    → is_claimable id now r ≡ false
not_claimable id token until now r lt h = elim (Bool-cases (with_id id r)) [
  | inl e ↦ ground (arith, Leased-unclaimed id token until now r lt h e)
  | inr e ↦ rw e refl
]

-- Who may take over the deletion of the id.
abbrev pub NoGrant : String → JobResult (Option VideoDeleteClaim) → Type 0
NoGrant id res = (c : VideoDeleteClaim) → res ≡ ok (some c) → c.job.public_id ≢ id

pub keep_nothing :
    (p : Row → Bool) (rows : List Row) → All (λ r. p r ≡ false) rows → keep p rows ≡ []
unfolding keep
keep_nothing p [] h = refl
keep_nothing p (r ∷ rows) h = rw h.0 (keep_nothing p rows h.1)

module _ (s : VideoJobStore) (now : ℕ) where
  -- No second claim on the id itself.
  pub claim_delete-refused :
      (token' : String) (lease_s : ℕ) (id token : String) (until : ℕ) (rows : List Row)
      → now < until
      → Claimed id token until rows
      → (c : VideoDeleteClaim) → (claim_delete s now token' lease_s id rows).0 ≢ ok (some c)
  unfolding claim_delete cleaned
  claim_delete-refused token' lease_s id token until rows lt h c e =
      elim (Bool-cases (leb lease_s 0)) [
        | inl t ↦ absurd (ground (arith, rw t at e))
        | inr t ↦ elim (Option-cases (cleanup_expired s.cleanup_batch now rows)) [
          | inl o ↦ absurd (ground (arith, rw (t, o) at e))
          | inr (rows', o) ↦
              let h' = cleanup_expired-Claimed id token until s.cleanup_batch now rows rows' o h in
              let none_free = keep_nothing (is_claimable id now) rows' (
                All-mono (Leased id token until) (λ r. is_claimable id now r ≡ false)
                  (λ r k. not_claimable id token until now r lt k) rows' h') in
              absurd (ground (arith, rw (t, o, none_free) at e))
        ]
      ]
