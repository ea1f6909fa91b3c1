-- ===== src/JobStore/Claiming.antt =====
-- The methods of `VideoJobStore` in mesh/job_store.py that claim a deletion, release it, give it up or
-- confirm it; with the conventions of JobStore/Operations.
use slancha_mesh.Common.{
  ℕ, ◌+◌, String, Bool, Option, none, some, List, leb, eqb, if◌then◌else◌, ◌&&◌, keep,
}
use slancha_mesh.Common.Sort.{sort_by}
use slancha_mesh.JobStore.Rows.{
  VideoJob, quarantined, is_pending, Row, update_where, delete_where, rowcount, fetchone, with_id,
  unclaimed, holds, expires_before,
}
use slancha_mesh.JobStore.Cleanup.{cleanup_expired}
use slancha_mesh.JobStore.Operations.{
  VideoJobStore, invalid_value, JobResult, ok, failed, cleaned, is_visible,
}

pub record VideoDeleteClaim : Type 0 where
  pub job : VideoJob
  pub token : String

abbrev pub lease : String → ℕ → Row → Row
lease token until r = record r {
  delete_claim_token = some token;
  delete_claimed_until = some until;
}

abbrev pub is_claimable : String → ℕ → Row → Bool
is_claimable public_id now r = is_visible public_id now r && unclaimed now r

unfoldable pub claim_of : String → Option Row → Option VideoDeleteClaim
claim_of token none = none
claim_of token (some r) = some (record { job = r.job; token = token })

unfoldable pub claim_delete :
    VideoJobStore
    → ℕ
    → String
    → ℕ
    → String
    → List Row
    → JobResult (Option VideoDeleteClaim) × List Row
unfolding cleaned cleanup_expired update_where unclaimed claim_of
claim_delete s now token lease_s public_id rows =
    if leb lease_s 0
    then (failed invalid_value, rows)
    else cleaned (cleanup_expired s.cleanup_batch now rows) rows (λ rows'.
      let claimed = update_where (is_claimable public_id now) (lease token (now + lease_s)) rows' in
      if eqb (rowcount (is_claimable public_id now) rows') 1
      then (ok (claim_of token (fetchone (keep (with_id public_id) claimed))), claimed)
      else (ok none, claimed))

abbrev pub is_cleanup_claimable : ℕ → Row → Bool
is_cleanup_claimable now r = is_pending r.cleanup_pending && unclaimed now r

-- By the row that the query found.
unfoldable pub claim_row :
    Option Row → ℕ → String → ℕ → List Row → JobResult (Option VideoDeleteClaim) × List Row
unfolding update_where unclaimed
claim_row none now token until rows = (ok none, rows)
claim_row (some row) now token until rows =
    let it : Row → Bool = λ r. with_id row.job.public_id r && is_cleanup_claimable now r in
    let claimed = update_where it (lease token until) rows in
    if eqb (rowcount it rows) 1
    then (ok (some (record { job = row.job; token = token })), claimed)
    else (ok none, claimed)

unfoldable pub claim_cleanup :
    VideoJobStore → ℕ → String → ℕ → List Row → JobResult (Option VideoDeleteClaim) × List Row
unfolding cleaned cleanup_expired claim_row unclaimed
claim_cleanup s now token lease_s rows =
    if leb lease_s 0
    then (failed invalid_value, rows)
    else cleaned (cleanup_expired s.cleanup_batch now rows) rows (λ rows'.
      claim_row (fetchone (sort_by expires_before (keep (is_cleanup_claimable now) rows'))) now
        token (now + lease_s) rows')

abbrev pub is_held : String → String → Row → Bool
is_held public_id token r = with_id public_id r && holds token r.delete_claim_token

abbrev pub unlease : Row → Row
unlease r = record r { delete_claim_token = none; delete_claimed_until = none }

unfoldable pub release_delete : String → String → List Row → Bool × List Row
unfolding update_where
release_delete public_id token rows = (
  eqb (rowcount (is_held public_id token) rows) 1,
  update_where (is_held public_id token) unlease rows,
)

abbrev pub is_held_pending : String → String → Row → Bool
is_held_pending public_id token r =
    with_id public_id r && is_pending r.cleanup_pending && holds token r.delete_claim_token

abbrev pub quarantine : Row → Row
quarantine r = record r {
  cleanup_pending = quarantined;
  cleanup_reason = some "invalid_protocol";
  delete_claim_token = none;
  delete_claimed_until = none;
}

unfoldable pub quarantine_cleanup : String → String → List Row → Bool × List Row
unfolding update_where
quarantine_cleanup public_id token rows = (
  eqb (rowcount (is_held_pending public_id token) rows) 1,
  update_where (is_held_pending public_id token) quarantine rows,
)

unfoldable pub confirm_delete : String → String → List Row → Bool × List Row
confirm_delete public_id token rows =
    (eqb (rowcount (is_held public_id token) rows) 1, delete_where (is_held public_id token) rows)
