-- ===== src/JobStore/Cleanup.antt =====
-- `_cleanup_expired` of mesh/job_store.py.
use slancha_mesh.Common.{
  ℕ, String, Bool, Option, none, some, List, [], ◌∷◌, leb, ◌==◌, ◌&&◌, not, keep, take,
}
use slancha_mesh.Common.Sort.{sort_by}
use slancha_mesh.JobStore.Rows.{
  pending, is_live, is_pending, Row, same_owner, checked, update_where, delete_where, fetchone,
  with_id, expires_before,
}

-- The rows that one call takes over: the oldest expired ones, at most a batch.
abbrev pub is_expired : ℕ → Row → Bool
is_expired now r = leb r.job.expires_at now && is_live r.cleanup_pending

unfoldable pub expired_rows : ℕ → ℕ → List Row → List Row
expired_rows batch now rows = take batch (sort_by expires_before (keep (is_expired now) rows))

-- Another row that already stands for the same upstream job's cleanup.
unfoldable pub cleanup_twin : Row → Row → Bool
unfolding same_owner
cleanup_twin row r =
    same_owner r.job row.job
    && is_pending r.cleanup_pending
    && not (r.job.public_id == row.job.public_id)

-- The columns that the twin takes from the expired row.
abbrev pub absorb : Row → Row → Row
absorb row r = record r {
  job = record (r.job) {
    specialist_id = row.job.specialist_id;
    owner_node_id = row.job.owner_node_id;
    updated_at = row.job.updated_at;
    status = row.job.status;
  };
}

abbrev pub expire : Row → Row
expire r = record r { cleanup_pending = pending; cleanup_reason = some "expired" }

abbrev pub live_with_id : String → Row → Bool
live_with_id public_id r = with_id public_id r && is_live r.cleanup_pending

-- One round of the loop, by the twin that the query found.
unfoldable pub cleanup_row : Option Row → Row → List Row → Option (List Row)
unfolding checked update_where
cleanup_row (some twin) row rows = some (
    delete_where (with_id row.job.public_id)
      (update_where (with_id twin.job.public_id) (absorb row) rows))
cleanup_row none row rows = checked (update_where (live_with_id row.job.public_id) expire rows)

-- The loop; an exception ends it, and the transaction is rolled back.
unfoldable pub cleanup_rows : List Row → List Row → Option (List Row)
unfolding cleanup_row cleanup_twin
cleanup_rows [] rows = some rows
cleanup_rows (row ∷ todo) rows =
    elim (cleanup_row (fetchone (keep (cleanup_twin row) rows)) row rows) [
      | none ↦ none
      | some rows' ↦ cleanup_rows todo rows'
    ]

-- The table after the call; the result of the call is the number of the expired rows.
unfoldable pub cleanup_expired : ℕ → ℕ → List Row → Option (List Row)
unfolding expired_rows cleanup_rows
cleanup_expired batch now rows = cleanup_rows (expired_rows batch now rows) rows
