-- ===== src/JobStore/Operations.antt =====
-- The methods of `VideoJobStore` in mesh/job_store.py. Each is one transaction on the table: it takes
-- the clock's reading and what `uuid4` returns, and gives its result and the table that it commits,
-- which is the table before it where it raises.
use Prim.Native.String.{◌++◌ as append}
use slancha_mesh.Common.{
  ℕ, suc, ◌+◌, String, Bool, Option, none, some, List, [], ◌∷◌, ◌++◌, ltb, leb, eqb, if◌then◌else◌,
  ◌==◌, ◌&&◌, not, keep,
}
use slancha_mesh.Common.Sort.{sort_by}
use slancha_mesh.JobStore.Rows.{
  VideoJob, live, pending, is_live, is_quarantined, Row, same_owner, checked, update_where,
  delete_where, rowcount, fetchone, with_id, prefers,
}
use slancha_mesh.JobStore.Cleanup.{cleanup_expired}

-- ttl_s and cleanup_batch of the store, which `__init__` checks to be positive.
pub record VideoJobStore : Type 0 where
  pub ttl : ℕ
  pub cleanup_batch : ℕ

abbrev pub init : ℕ → ℕ → Option VideoJobStore
init ttl cleanup_batch =
    if leb ttl 0
    then none
    else if ltb cleanup_batch 1
    then none
    else some (record { ttl = ttl; cleanup_batch = cleanup_batch })

-- ValueError, and sqlite3.IntegrityError.
pub data JobError : Type 0 where
  invalid_value integrity_error : JobError

pub data JobResult (A : Type 0) : Type 0 where
  ok : A → JobResult A
  failed : JobError → JobResult A

-- The rest of a transaction after `_cleanup_expired`.
unfoldable pub cleaned :
    {A : Type 0}
    → Option (List Row)
    → List Row
    → (List Row → JobResult A × List Row)
    → JobResult A × List Row
cleaned none rows rest = (failed integrity_error, rows)
cleaned (some rows') rows rest = rest rows'

-- The end of a transaction whose last statement sqlite3 may refuse.
abbrev pub committed : {A : Type 0} → A → Option (List Row) → List Row → JobResult A × List Row
committed a none rows = (failed integrity_error, rows)
committed a (some rows') rows = (ok a, rows')

-- len(value)
unfoldable pub text_length : String → ℕ
text_length String.[] = 0
text_length (String.◌∷◌ c s) = suc (text_length s)

-- `_validate_text`
unfoldable pub valid_text : ℕ → String → Bool
unfolding text_length
valid_text limit value = not (value == "") && leb (text_length value) limit

-- What `create` and `enqueue_cleanup` are called with.
pub record NewJob : Type 0 where
  pub protocol_id : String
  pub specialist_id : String
  pub owner_node_id : String
  pub owner_origin : String
  pub upstream_job_id : String
  pub status : String

unfoldable pub valid_job : NewJob → Bool
unfolding valid_text
valid_job j =
    valid_text 128 j.protocol_id
    && valid_text 256 j.specialist_id
    && valid_text 256 j.owner_node_id
    && valid_text 2048 j.owner_origin
    && valid_text 1024 j.upstream_job_id
    && valid_text 64 j.status

abbrev pub job_of : NewJob → String → ℕ → ℕ → VideoJob
job_of j hex now expires_at = record {
  public_id = append "video_" hex;
  protocol_id = j.protocol_id;
  specialist_id = j.specialist_id;
  owner_node_id = j.owner_node_id;
  owner_origin = j.owner_origin;
  upstream_job_id = j.upstream_job_id;
  created_at = now;
  updated_at = now;
  expires_at = expires_at;
  status = j.status;
}

abbrev pub live_row : VideoJob → Row
live_row job = record {
  job = job;
  delete_claim_token = none;
  delete_claimed_until = none;
  cleanup_pending = live;
  cleanup_reason = none;
}

unfoldable pub create :
    VideoJobStore → ℕ → String → NewJob → List Row → JobResult VideoJob × List Row
unfolding valid_job cleaned cleanup_expired checked
create s now hex j rows =
    if valid_job j
    then (let job = job_of j hex now (now + s.ttl) in
        cleaned (cleanup_expired s.cleanup_batch now rows) rows
          (λ rows'. committed job (checked (rows' ++ live_row job ∷ [])) rows))
    else (failed invalid_value, rows)

abbrev pub compensation_row : VideoJob → Row
compensation_row job = record {
  job = job;
  delete_claim_token = none;
  delete_claimed_until = none;
  cleanup_pending = pending;
  cleanup_reason = some "create_compensation";
}

-- The update that takes a quarantined row back to the queue.
abbrev pub requeue : VideoJob → Row → Row
requeue job r = record r {
  job = record (r.job) {
    specialist_id = job.specialist_id;
    owner_node_id = job.owner_node_id;
    updated_at = job.updated_at;
    expires_at = job.expires_at;
    status = job.status;
  };
  delete_claim_token = none;
  delete_claimed_until = none;
  cleanup_pending = pending;
  cleanup_reason = some "create_compensation";
}

abbrev pub quarantined_with_id : String → Row → Bool
quarantined_with_id public_id r = with_id public_id r && is_quarantined r.cleanup_pending

-- The row that is read back by its id; where none is, reading its columns raises.
unfoldable pub read_back : Option (List Row) → Row → List Row → JobResult VideoJob × List Row
read_back none existing rows = (failed integrity_error, rows)
read_back (some rows') existing rows =
    elim (fetchone (keep (with_id existing.job.public_id) rows')) [
      | none ↦ (failed integrity_error, rows)
      | some r ↦ (ok r.job, rows')
    ]

-- By the row that stands for the upstream job already.
unfoldable pub enqueue_for : Option Row → VideoJob → List Row → JobResult VideoJob × List Row
unfolding read_back checked update_where
enqueue_for none job rows = committed job (checked (rows ++ compensation_row job ∷ [])) rows
enqueue_for (some existing) job rows =
    if is_quarantined existing.cleanup_pending
    then read_back
        (checked (update_where (quarantined_with_id existing.job.public_id) (requeue job) rows))
        existing rows
    else (ok existing.job, rows)

unfoldable pub enqueue_cleanup : ℕ → String → NewJob → List Row → JobResult VideoJob × List Row
unfolding valid_job enqueue_for same_owner
enqueue_cleanup now hex j rows =
    if valid_job j
    then (let job = job_of j hex now now in
        enqueue_for (fetchone (sort_by prefers (keep (λ r. same_owner r.job job) rows))) job rows)
    else (failed invalid_value, rows)

-- public_id = ? AND expires_at > ? AND cleanup_pending = 0
abbrev pub is_visible : String → ℕ → Row → Bool
is_visible public_id now r =
    with_id public_id r && ltb now r.job.expires_at && is_live r.cleanup_pending

unfoldable pub found_job : Option Row → Option VideoJob
found_job none = none
found_job (some r) = some r.job

unfoldable pub get : VideoJobStore → ℕ → String → List Row → JobResult (Option VideoJob) × List Row
unfolding cleaned cleanup_expired found_job
get s now public_id rows =
    cleaned (cleanup_expired s.cleanup_batch now rows) rows
      (λ rows'. (ok (found_job (fetchone (keep (is_visible public_id now) rows'))), rows'))

abbrev pub with_status : String → ℕ → Row → Row
with_status status now r = record r { job = record (r.job) { status = status; updated_at = now } }

-- The update and then `get`, each in a transaction and with a clock reading of its own.
unfoldable pub update_status :
    VideoJobStore → ℕ → ℕ → String → String → List Row → JobResult (Option VideoJob) × List Row
unfolding valid_text cleanup_expired update_where get
update_status s now later public_id status rows =
    if valid_text 64 status
    then elim (cleanup_expired s.cleanup_batch now rows) [
      | none ↦ (failed integrity_error, rows)
      | some rows' ↦
          get s later public_id
            (update_where (is_visible public_id now) (with_status status now) rows')
    ]
    else (failed invalid_value, rows)

unfoldable pub delete : VideoJobStore → ℕ → String → List Row → JobResult Bool × List Row
unfolding cleaned cleanup_expired
delete s now public_id rows = cleaned (cleanup_expired s.cleanup_batch now rows) rows (λ rows'. (
  ok (eqb (rowcount (is_visible public_id now) rows') 1),
  delete_where (is_visible public_id now) rows',
))
