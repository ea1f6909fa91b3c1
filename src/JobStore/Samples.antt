-- ===== src/JobStore/Samples.antt =====
-- Small runs of the job store, and the theorems at them.
use slancha_mesh.Common.{
  ℕ, ◌+◌, String, ◌≡◌, refl, false, none, some, List, [], ◌∷◌, arith, keep, any, ◌≢◌, eq_iff,
}
use slancha_mesh.Common.Sort.{sort_by}
use slancha_mesh.JobStore.Rows.{VideoJob, live, pending, Row, clash, same_id}
use slancha_mesh.JobStore.Cleanup.{cleanup_expired}
use slancha_mesh.JobStore.Operations.{VideoJobStore, ok, NewJob, create, get}
use slancha_mesh.JobStore.Claiming.{claim_delete, claim_cleanup, confirm_delete, release_delete}
use slancha_mesh.JobStore.Tables.{IsTable}
use slancha_mesh.JobStore.Rounds.{OwnersKept}
use slancha_mesh.JobStore.Trace.{
  Call, creating, enqueuing, claiming, confirming, run, reachable_tables_are_clean,
}
use slancha_mesh.JobStore.Reads.{created_job_is_readable}
use slancha_mesh.JobStore.Claims.{
  is_granted, hands_out, granted_claims_exclude, granted_claims_are_owned,
}

abbrev job_store : VideoJobStore
job_store = record { ttl = 100; cleanup_batch = 10 }

abbrev new_job : String → NewJob
new_job upstream = record {
  protocol_id = "openai";
  specialist_id = "video";
  owner_node_id = "n1";
  owner_origin = "http://n1:8000";
  upstream_job_id = upstream;
  status = "queued";
}

abbrev job : String → ℕ → VideoJob
job hex now = record {
  public_id = hex;
  protocol_id = "openai";
  specialist_id = "video";
  owner_node_id = "n1";
  owner_origin = "http://n1:8000";
  upstream_job_id = "u1";
  created_at = now;
  updated_at = now;
  expires_at = now + 100;
  status = "queued";
}

abbrev row : String → ℕ → Row
row hex now = record {
  job = job hex now;
  delete_claim_token = none;
  delete_claimed_until = none;
  cleanup_pending = live;
  cleanup_reason = none;
}

-- Two rows for one upstream job: the second to expire is merged into the first.
abbrev rows : List Row
rows = row "video_1" 0 ∷ row "video_2" 50 ∷ []

rows-IsTable : IsTable rows
unfolding clash same_id
rows-IsTable = record { index = ((refl, tt), (tt, tt)); ids = ((refl, tt), (tt, tt)) }

created : (create job_store 0 "1" (new_job "u1") []).1 ≡ row "video_1" 0 ∷ []
unfolding create keep sort_by any
created = refl

merged :
    cleanup_expired 10 200 rows
    ≡ some (
        record (row "video_1" 0) {
          job = record (job "video_1" 0) { updated_at = 50 };
          cleanup_pending = pending;
          cleanup_reason = some "expired";
        }
        ∷ [])
unfolding cleanup_expired keep sort_by any
merged = refl

abbrev calls : List Call
calls =
    creating 0 "1" (new_job "u1")
    ∷ enqueuing 5 "2" (new_job "u2")
    ∷ claiming 10 "t" 50 "video_1"
    ∷ confirming "video_1" "t"
    ∷ []

reachable_tables_are_clean_example :
    IsTable (run job_store calls [])
    × ((rows' : List Row) × (cleanup_expired 10 20 (run job_store calls []) ≡ some rows')
        × OwnersKept (run job_store calls []) rows')
reachable_tables_are_clean_example = reachable_tables_are_clean job_store calls 20

granted :
    (claim_delete job_store 60 "t" 30 "video_1" rows).0
    ≡ ok (some (record { job = job "video_1" 0; token = "t" }))
unfolding claim_delete keep sort_by any
granted = refl

abbrev claimed_rows : List Row
claimed_rows = (claim_delete job_store 60 "t" 30 "video_1" rows).1

granted_claims_exclude_example :
    (is_granted (claim_delete job_store 80 "u" 5 "video_1" claimed_rows).0 ≡ false)
    × (hands_out "video_1" (claim_cleanup job_store 80 "u" 5 claimed_rows).0 ≡ false)
granted_claims_exclude_example =
    granted_claims_exclude job_store 60 80 30 "video_1" "t" "u" rows
      (record { job = job "video_1" 0; token = "t" }) 5 rows-IsTable granted (omega arith)

t_not_u : ◌≢◌ {A = String} "t" "u"
t_not_u = ground (arith, eq_iff "t" "u")

granted_claims_are_owned_example :
    (confirm_delete "video_1" "u" claimed_rows ≡ (false, claimed_rows))
    × (release_delete "video_1" "u" claimed_rows ≡ (false, claimed_rows))
granted_claims_are_owned_example =
    granted_claims_are_owned job_store 60 80 30 "video_1" "t" "u" rows
      (record { job = job "video_1" 0; token = "t" }) rows-IsTable granted t_not_u

abbrev rows_of_u2 : List Row
rows_of_u2 = row "video_9" 0 ∷ []

rows_of_u2-IsTable : IsTable rows_of_u2
rows_of_u2-IsTable = record { index = (tt, tt); ids = (tt, tt) }

created_beside : (create job_store 0 "1" (new_job "u1") rows_of_u2).0 ≡ ok (job "video_1" 0)
unfolding create keep sort_by any
created_beside = refl

created_job_is_readable_example :
    (get job_store 90 "video_1" (create job_store 0 "1" (new_job "u1") rows_of_u2).1).0
    ≡ ok (some (job "video_1" 0))
created_job_is_readable_example =
    created_job_is_readable job_store 0 90 "1" (new_job "u1") rows_of_u2 (job "video_1" 0)
      rows_of_u2-IsTable created_beside (omega arith)
