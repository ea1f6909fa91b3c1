-- ===== src/JobStore/Trace.antt =====
-- Runs of the methods of mesh/job_store.py, in the order that SQLite's transactions give them.
use slancha_mesh.Common.{ℕ, String, ◌≡◌, some, List, [], ◌∷◌}
use slancha_mesh.JobStore.Rows.{Row}
use slancha_mesh.JobStore.Cleanup.{cleanup_expired}
use slancha_mesh.JobStore.Operations.{
  VideoJobStore, NewJob, create, enqueue_cleanup, get, update_status, delete,
}
use slancha_mesh.JobStore.Claiming.{
  claim_delete, claim_cleanup, is_held, unlease, release_delete, is_held_pending, quarantine,
  quarantine_cleanup, confirm_delete,
}
use slancha_mesh.JobStore.Tables.{IsTable, delete_where-IsTable, update_where-IsTable}
use slancha_mesh.JobStore.Rounds.{OwnersKept}
use slancha_mesh.JobStore.Owners.{cleanup_keeps_owners}
use slancha_mesh.JobStore.Methods.{
  unlease-clash, unlease-ids, quarantine-clash, quarantine-ids, create-IsTable,
  enqueue_cleanup-IsTable, get-IsTable, update_status-IsTable, delete-IsTable, claim_delete-IsTable,
  claim_cleanup-IsTable,
}

-- A call of a method, with the readings of the clock and the hexadecimal text of `uuid4`.
pub data Call : Type 0 where
  creating : (now : ℕ) (hex : String) → NewJob → Call
  enqueuing : (now : ℕ) (hex : String) → NewJob → Call
  getting : (now : ℕ) (public_id : String) → Call
  updating : (now later : ℕ) (public_id status : String) → Call
  deleting : (now : ℕ) (public_id : String) → Call
  claiming : (now : ℕ) (token : String) (lease_s : ℕ) (public_id : String) → Call
  claiming_cleanup : (now : ℕ) (token : String) (lease_s : ℕ) → Call
  releasing quarantining confirming : (public_id token : String) → Call

unfoldable pub perform : VideoJobStore → Call → List Row → List Row
unfolding create enqueue_cleanup get update_status delete claim_delete claim_cleanup release_delete
    quarantine_cleanup confirm_delete
perform s (creating now hex j) rows = (create s now hex j rows).1
perform s (enqueuing now hex j) rows = (enqueue_cleanup now hex j rows).1
perform s (getting now public_id) rows = (get s now public_id rows).1
perform s (updating now later public_id status) rows =
    (update_status s now later public_id status rows).1
perform s (deleting now public_id) rows = (delete s now public_id rows).1
perform s (claiming now token lease_s public_id) rows =
    (claim_delete s now token lease_s public_id rows).1
perform s (claiming_cleanup now token lease_s) rows = (claim_cleanup s now token lease_s rows).1
perform s (releasing public_id token) rows = (release_delete public_id token rows).1
perform s (quarantining public_id token) rows = (quarantine_cleanup public_id token rows).1
perform s (confirming public_id token) rows = (confirm_delete public_id token rows).1

unfoldable pub run : VideoJobStore → List Call → List Row → List Row
unfolding perform
run s [] rows = rows
run s (c ∷ calls) rows = run s calls (perform s c rows)

module _ (s : VideoJobStore) where
  perform-IsTable : (c : Call) (rows : List Row) → IsTable rows → IsTable (perform s c rows)
  unfolding perform release_delete quarantine_cleanup confirm_delete
  perform-IsTable (creating now hex j) rows h = create-IsTable s now hex j rows h
  perform-IsTable (enqueuing now hex j) rows h = enqueue_cleanup-IsTable s now hex j rows h
  perform-IsTable (getting now id) rows h = get-IsTable s now id rows h
  perform-IsTable (updating now later id status) rows h =
      update_status-IsTable s now later id status rows h
  perform-IsTable (deleting now id) rows h = delete-IsTable s now id rows h
  perform-IsTable (claiming now token l id) rows h = claim_delete-IsTable s now token l id rows h
  perform-IsTable (claiming_cleanup now token l) rows h = claim_cleanup-IsTable s now token l rows h
  perform-IsTable (releasing id token) rows h =
      update_where-IsTable (is_held id token) unlease rows unlease-clash unlease-ids h
  perform-IsTable (quarantining id token) rows h =
      update_where-IsTable (is_held_pending id token) quarantine rows quarantine-clash
        quarantine-ids h
  perform-IsTable (confirming id token) rows h = delete_where-IsTable (is_held id token) rows h

  run-IsTable : (calls : List Call) (rows : List Row) → IsTable rows → IsTable (run s calls rows)
  unfolding run
  run-IsTable [] rows h = h
  run-IsTable (c ∷ calls) rows h = run-IsTable calls (perform s c rows) (perform-IsTable c rows h)

  -- On the table that any sequence of calls leaves, from an empty one: no id stands twice, no two
  -- rows of cleanup work stand for one upstream job, and a cleanup at any time is not refused and
  -- forgets no upstream job.
  pub reachable_tables_are_clean :
      (calls : List Call) (now : ℕ)
      → IsTable (run s calls [])
        × ((rows' : List Row) × (cleanup_expired s.cleanup_batch now (run s calls []) ≡ some rows')
            × OwnersKept (run s calls []) rows')
  reachable_tables_are_clean calls now =
      let h = run-IsTable calls [] (record { index = tt; ids = tt }) in
      let (rows', e, h', o) = cleanup_keeps_owners s.cleanup_batch now (run s calls []) h in
      (h, (rows', e, o))
