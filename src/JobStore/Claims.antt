-- ===== src/JobStore/Claims.antt =====
-- Who may confirm, release or take over the deletion of a job of mesh/job_store.py.
use slancha_mesh.Common.{
  ℕ, ◌+◌, ◌<◌, String, ◌≡◌, ◌≢◌, refl, ap, Bool, true, false, Option, none, some, List, [], ◌∷◌,
  arith, ◌==◌, keep, eq_iff, Bool-cases, inl, inr, All, All-mono,
}
use slancha_mesh.JobStore.Rows.{Row, delete_where, with_id, holds}
use slancha_mesh.JobStore.Operations.{VideoJobStore, JobResult, ok, failed}
use slancha_mesh.JobStore.Claiming.{
  VideoDeleteClaim, claim_delete, claim_cleanup, is_held, release_delete, confirm_delete,
}
use slancha_mesh.JobStore.Tables.{IsTable}
use slancha_mesh.JobStore.Twins.{update_where-none}
use slancha_mesh.JobStore.Leases.{Leased, Claimed, NoGrant, keep_nothing, claim_delete-refused}
use slancha_mesh.JobStore.Granting.{claim_cleanup-refused, claim_delete-granted}

holds_own : (token held : String) → holds token (some held) ≡ true → held ≡ token
holds_own token held e = (eq_iff held token).0 e

-- Nobody else holds the row.
not_held :
    (id token token' : String) (until : ℕ) (r : Row)
    → token ≢ token'
    → Leased id token until r
    → is_held id token' r ≡ false
not_held id token token' until r ne h = elim (Bool-cases (with_id id r)) [
  | inl e ↦ rw (e, (h e).0) (ground (arith, ne, eq_iff token token'))
  | inr e ↦ rw e refl
]

-- A delete by a condition that no row meets.
delete_where-none :
    (p : Row → Bool) (rows : List Row) → All (λ r. p r ≡ false) rows → delete_where p rows ≡ rows
unfolding keep
delete_where-none p [] h = refl
delete_where-none p (r ∷ rows) h = rw h.0 (ap (λ l. r ∷ l) (delete_where-none p rows h.1))

confirm_delete-refused :
    (id token token' : String) (until : ℕ) (rows : List Row)
    → token ≢ token'
    → Claimed id token until rows
    → confirm_delete id token' rows ≡ (false, rows)
unfolding confirm_delete
confirm_delete-refused id token token' until rows ne h =
    let none_held =
      All-mono (Leased id token until) (λ r. is_held id token' r ≡ false)
        (λ r. not_held id token token' until r ne) rows h in
    rw
      (
        keep_nothing (is_held id token') rows none_held,
        delete_where-none (is_held id token') rows none_held,
      )
      refl

release_delete-refused :
    (id token token' : String) (until : ℕ) (rows : List Row)
    → token ≢ token'
    → Claimed id token until rows
    → release_delete id token' rows ≡ (false, rows)
unfolding release_delete
release_delete-refused id token token' until rows ne h =
    let none_held =
      All-mono (Leased id token until) (λ r. is_held id token' r ≡ false)
        (λ r. not_held id token token' until r ne) rows h in
    rw
      (
        keep_nothing (is_held id token') rows none_held,
        update_where-none (is_held id token') _ rows none_held,
      )
      refl

abbrev pub is_granted : JobResult (Option VideoDeleteClaim) → Bool
is_granted (ok (some c)) = true
is_granted (ok none) = false
is_granted (failed e) = false

-- The result hands out the job of the id.
abbrev pub hands_out : String → JobResult (Option VideoDeleteClaim) → Bool
hands_out id (ok (some c)) = c.job.public_id == id
hands_out id (ok none) = false
hands_out id (failed e) = false

not_granted :
    (res : JobResult (Option VideoDeleteClaim))
    → ((c : VideoDeleteClaim) → res ≢ ok (some c))
    → is_granted res ≡ false
not_granted (ok (some c)) f = absurd (f c refl)
not_granted (ok none) f = refl
not_granted (failed e) f = refl

not_handed_out :
    (id : String) (res : JobResult (Option VideoDeleteClaim))
    → NoGrant id res
    → hands_out id res ≡ false
not_handed_out id (ok (some c)) f = ground (arith, f c refl, eq_iff c.job.public_id id)
not_handed_out id (ok none) f = refl
not_handed_out id (failed e) f = refl

module _ (s : VideoJobStore) (now later lease_s : ℕ) (id token token' : String) (rows : List Row)
    (c : VideoDeleteClaim) where
  -- Where claim_delete grants a claim on a table that satisfies its constraints, then on the table
  -- it leaves and before the lease ends, no further claim_delete on that job is granted, and no
  -- claim_cleanup hands the job out, with any token and any lease.
  pub granted_claims_exclude :
      (lease' : ℕ)
      → IsTable rows
      → (claim_delete s now token lease_s id rows).0 ≡ ok (some c)
      → later < now + lease_s
      → (is_granted
            (claim_delete s later token' lease' id (claim_delete s now token lease_s id rows).1).0
          ≡ false)
        × (hands_out id
              (claim_cleanup s later token' lease' (claim_delete s now token lease_s id rows).1).0
            ≡ false)
  granted_claims_exclude lease' h e lt =
      let rows' = (claim_delete s now token lease_s id rows).1 in
      let held = claim_delete-granted s now token lease_s id rows c h e in
      (
        not_granted (claim_delete s later token' lease' id rows').0
            (claim_delete-refused s later token' lease' id token (now + lease_s) rows' lt held),
        not_handed_out id (claim_cleanup s later token' lease' rows').0
            (claim_cleanup-refused s later token' lease' id token (now + lease_s) rows' lt held),
      )

  -- Where claim_delete grants a claim on a table that satisfies its constraints, then on the table
  -- it leaves, confirm_delete and release_delete on that job with another token return False and
  -- change nothing.
  pub granted_claims_are_owned :
      IsTable rows
      → (claim_delete s now token lease_s id rows).0 ≡ ok (some c)
      → token ≢ token'
      → (confirm_delete id token' (claim_delete s now token lease_s id rows).1
          ≡ (false, (claim_delete s now token lease_s id rows).1))
        × (release_delete id token' (claim_delete s now token lease_s id rows).1
            ≡ (false, (claim_delete s now token lease_s id rows).1))
  granted_claims_are_owned h e ne =
      let rows' = (claim_delete s now token lease_s id rows).1 in
      let held = claim_delete-granted s now token lease_s id rows c h e in
      (
        confirm_delete-refused id token token' (now + lease_s) rows' ne held,
        release_delete-refused id token token' (now + lease_s) rows' ne held,
      )
