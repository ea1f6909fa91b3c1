-- ===== src/JobStore/Methods.antt =====
-- Every method of mesh/job_store.py keeps the table's constraints.
use slancha_mesh.Common.{
  ℕ, ◌+◌, String, ◌≡◌, refl, Bool, Option, none, some, List, [], ◌∷◌, ◌++◌, arith, ◌&&◌, leb, eqb,
  keep, Bool-cases, Option-cases, inl, inr,
}
use slancha_mesh.JobStore.Rows.{
  VideoJob, Row, clash, same_id, same_owner, checked, rowcount, fetchone, with_id, is_quarantined,
}
use slancha_mesh.JobStore.Cleanup.{cleanup_expired}
use slancha_mesh.JobStore.Operations.{
  VideoJobStore, JobResult, cleaned, committed, valid_text, NewJob, valid_job, job_of, live_row,
  create, compensation_row, read_back, enqueue_for, enqueue_cleanup, is_visible, get, with_status,
  update_status, delete,
}
use slancha_mesh.JobStore.Claiming.{
  lease, is_claimable, claim_delete, is_cleanup_claimable, claim_row, claim_cleanup, unlease,
  quarantine,
}
use slancha_mesh.JobStore.Tables.{
  IsTable, checked→IsTable, Narrows, delete_where-IsTable, update_where-IsTable,
}
use slancha_mesh.JobStore.Owners.{cleanup_keeps_owners}

pub cleaned-IsTable :
    {A : Type 0} (batch now : ℕ) (rows : List Row) (rest : List Row → JobResult A × List Row)
    → IsTable rows
    → ((rows' : List Row) → IsTable rows' → IsTable (rest rows').1)
    → IsTable (cleaned (cleanup_expired batch now rows) rows rest).1
unfolding cleaned
cleaned-IsTable batch now rows rest h f =
    let (rows', e, h', o) = cleanup_keeps_owners batch now rows h in rw e (f rows' h')

pub committed-IsTable :
    {A : Type 0} (a : A) (new rows : List Row)
    → IsTable rows
    → IsTable (committed a (checked new) rows).1
committed-IsTable a new rows h = elim (Option-cases (checked new)) [
  | inl e ↦ rw e h
  | inr (rows', e) ↦ rw e (checked→IsTable new rows' e).1
]

-- The updates that leave the columns of the constraints alone, and the one that leaves the queue.
pub lease-clash : (token : String) (until : ℕ) → Narrows clash (lease token until)
unfolding clash same_owner
lease-clash token until = record { left = λ a b e. e; right = λ a b e. e }

pub lease-ids : (token : String) (until : ℕ) → Narrows same_id (lease token until)
unfolding same_id
lease-ids token until = record { left = λ a b e. e; right = λ a b e. e }

pub unlease-clash : Narrows clash unlease
unfolding clash same_owner
unlease-clash = record { left = λ a b e. e; right = λ a b e. e }

pub unlease-ids : Narrows same_id unlease
unfolding same_id
unlease-ids = record { left = λ a b e. e; right = λ a b e. e }

pub with_status-clash : (status : String) (now : ℕ) → Narrows clash (with_status status now)
unfolding clash same_owner
with_status-clash status now = record { left = λ a b e. e; right = λ a b e. e }

pub with_status-ids : (status : String) (now : ℕ) → Narrows same_id (with_status status now)
unfolding same_id
with_status-ids status now = record { left = λ a b e. e; right = λ a b e. e }

pub quarantine-clash : Narrows clash quarantine
unfolding clash same_owner
quarantine-clash = record { left = λ a b e. refl; right = λ a b e. ground arith }

pub quarantine-ids : Narrows same_id quarantine
unfolding same_id
quarantine-ids = record { left = λ a b e. e; right = λ a b e. e }

pub read_back-IsTable :
    (o : Option (List Row)) (rows : List Row) (existing : Row)
    → IsTable rows
    → ((rows' : List Row) → o ≡ some rows' → IsTable rows')
    → IsTable (read_back o existing rows).1
unfolding read_back
read_back-IsTable none rows existing h f = h
read_back-IsTable (some rows') rows existing h f =
    elim (Option-cases (fetchone (keep (with_id existing.job.public_id) rows'))) [
      | inl e ↦ rw (read_back, e) h
      | inr (r, e) ↦ rw (read_back, e) (f rows' refl)
    ]

pub enqueue_for-IsTable :
    (o : Option Row) (job : VideoJob) (rows : List Row)
    → IsTable rows
    → IsTable (enqueue_for o job rows).1
unfolding enqueue_for
enqueue_for-IsTable none job rows h =
    committed-IsTable job (rows ++ compensation_row job ∷ []) rows h
enqueue_for-IsTable (some existing) job rows h =
    elim (Bool-cases (is_quarantined existing.cleanup_pending)) [
      | inl e ↦
          rw e (read_back-IsTable _ rows existing h (λ rows' e'. (checked→IsTable _ rows' e').1))
      | inr e ↦ rw e h
    ]

pub claim_row-IsTable :
    (o : Option Row) (now : ℕ) (token : String) (until : ℕ) (rows : List Row)
    → IsTable rows
    → IsTable (claim_row o now token until rows).1
unfolding claim_row
claim_row-IsTable none now token until rows h = h
claim_row-IsTable (some row) now token until rows h =
    let it : Row → Bool = λ r. with_id row.job.public_id r && is_cleanup_claimable now r in
    let new =
      update_where-IsTable it (lease token until) rows (lease-clash token until)
        (lease-ids token until) h in
    elim (Bool-cases (eqb (rowcount it rows) 1)) [ inl e ↦ rw e new | inr e ↦ rw e new ]

module _ (s : VideoJobStore) where
  pub create-IsTable :
      (now : ℕ) (hex : String) (j : NewJob) (rows : List Row)
      → IsTable rows
      → IsTable (create s now hex j rows).1
  unfolding create
  create-IsTable now hex j rows h = elim (Bool-cases (valid_job j)) [
    | inl e ↦ rw e (
        cleaned-IsTable s.cleanup_batch now rows _ h (λ rows' h'.
          committed-IsTable (job_of j hex now (now + s.ttl))
            (rows' ++ live_row (job_of j hex now (now + s.ttl)) ∷ []) rows h))
    | inr e ↦ rw e h
  ]

  pub enqueue_cleanup-IsTable :
      (now : ℕ) (hex : String) (j : NewJob) (rows : List Row)
      → IsTable rows
      → IsTable (enqueue_cleanup now hex j rows).1
  unfolding enqueue_cleanup
  enqueue_cleanup-IsTable now hex j rows h = elim (Bool-cases (valid_job j)) [
    | inl e ↦ rw e (enqueue_for-IsTable _ (job_of j hex now now) rows h)
    | inr e ↦ rw e h
  ]

  pub get-IsTable :
      (now : ℕ) (public_id : String) (rows : List Row)
      → IsTable rows
      → IsTable (get s now public_id rows).1
  unfolding get
  get-IsTable now public_id rows h = cleaned-IsTable s.cleanup_batch now rows _ h (λ rows' h'. h')

  pub update_status-IsTable :
      (now later : ℕ) (public_id status : String) (rows : List Row)
      → IsTable rows
      → IsTable (update_status s now later public_id status rows).1
  unfolding update_status
  update_status-IsTable now later public_id status rows h =
      elim (Bool-cases (valid_text 64 status)) [
        | inl e ↦
            let (rows', c, h', o) = cleanup_keeps_owners s.cleanup_batch now rows h in
            rw (e, c)
              (get-IsTable later public_id _ (
                update_where-IsTable (is_visible public_id now) (with_status status now) rows'
                  (with_status-clash status now) (with_status-ids status now) h'))
        | inr e ↦ rw e h
      ]

  pub delete-IsTable :
      (now : ℕ) (public_id : String) (rows : List Row)
      → IsTable rows
      → IsTable (delete s now public_id rows).1
  unfolding delete
  delete-IsTable now public_id rows h =
      cleaned-IsTable s.cleanup_batch now rows _ h
        (λ rows'. delete_where-IsTable (is_visible public_id now) rows')

  pub claim_delete-IsTable :
      (now : ℕ) (token : String) (lease_s : ℕ) (public_id : String) (rows : List Row)
      → IsTable rows
      → IsTable (claim_delete s now token lease_s public_id rows).1
  unfolding claim_delete
  claim_delete-IsTable now token lease_s public_id rows h = elim (Bool-cases (leb lease_s 0)) [
    | inl e ↦ rw e h
    | inr e ↦ rw e (
        cleaned-IsTable s.cleanup_batch now rows _ h (λ rows' h'.
          let new =
            update_where-IsTable (is_claimable public_id now) (lease token (now + lease_s)) rows'
              (lease-clash token (now + lease_s)) (lease-ids token (now + lease_s)) h' in
          elim (Bool-cases (eqb (rowcount (is_claimable public_id now) rows') 1)) [
            | inl t ↦ rw t new
            | inr t ↦ rw t new
          ]))
  ]

  pub claim_cleanup-IsTable :
      (now : ℕ) (token : String) (lease_s : ℕ) (rows : List Row)
      → IsTable rows
      → IsTable (claim_cleanup s now token lease_s rows).1
  unfolding claim_cleanup
  claim_cleanup-IsTable now token lease_s rows h = elim (Bool-cases (leb lease_s 0)) [
    | inl e ↦ rw e h
    | inr e ↦ rw e (
        cleaned-IsTable s.cleanup_batch now rows _ h
          (λ rows'. claim_row-IsTable _ now token (now + lease_s) rows'))
  ]
