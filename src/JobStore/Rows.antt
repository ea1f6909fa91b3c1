-- ===== src/JobStore/Rows.antt =====
-- The table `video_jobs` of mesh/job_store.py, and the SQL statements that the store runs on it. A
-- table is the list of its rows; a statement that sqlite3 refuses is `none`. Times are microseconds.
use slancha_mesh.Common.{
  ℕ, String, Bool, true, false, Option, none, some, List, [], ◌∷◌, ltb, leb, eqb, str_lt,
  if◌then◌else◌, ◌==◌, ◌&&◌, ◌||◌, not, any, keep, length, is_none,
}

pub record VideoJob : Type 0 where
  pub public_id : String
  pub protocol_id : String
  pub specialist_id : String
  pub owner_node_id : String
  pub owner_origin : String
  pub upstream_job_id : String
  pub created_at : ℕ
  pub updated_at : ℕ
  pub expires_at : ℕ
  pub status : String

-- The column `cleanup_pending`: 0, 1 and 2.
pub data CleanupPending : Type 0 where
  live pending quarantined : CleanupPending

abbrev pub is_live : CleanupPending → Bool
is_live live = true
is_live _ = false

abbrev pub is_pending : CleanupPending → Bool
is_pending pending = true
is_pending _ = false

abbrev pub is_quarantined : CleanupPending → Bool
is_quarantined quarantined = true
is_quarantined _ = false

-- CASE cleanup_pending WHEN 0 THEN 0 WHEN 1 THEN 1 ELSE 2 END
abbrev pub cleanup_rank : CleanupPending → ℕ
cleanup_rank live = 0
cleanup_rank pending = 1
cleanup_rank quarantined = 2

-- A row: what `_from_row` reads, and the columns behind it.
pub record Row : Type 0 where
  pub job : VideoJob
  pub delete_claim_token : Option String
  pub delete_claimed_until : Option ℕ
  pub cleanup_pending : CleanupPending
  pub cleanup_reason : Option String

-- protocol_id = ? AND owner_origin = ? AND upstream_job_id = ?
unfoldable pub same_owner : VideoJob → VideoJob → Bool
same_owner a b =
    a.protocol_id == b.protocol_id
    && a.owner_origin == b.owner_origin
    && a.upstream_job_id == b.upstream_job_id

-- Two rows that the unique index video_jobs_cleanup_owner does not allow together.
unfoldable pub clash : Row → Row → Bool
unfolding same_owner
clash a b = is_pending a.cleanup_pending && is_pending b.cleanup_pending && same_owner a.job b.job

-- Two rows that the primary key does not allow together.
unfoldable pub same_id : Row → Row → Bool
same_id a b = a.job.public_id == b.job.public_id

-- No two rows are so related.
unfoldable pub free_of : (Row → Row → Bool) → List Row → Bool
free_of related [] = true
free_of related (r ∷ rows) = not (any (related r) rows) && free_of related rows

-- A statement that leaves a table which breaks a constraint is refused.
unfoldable pub checked : List Row → Option (List Row)
unfolding free_of clash same_id
checked rows = if free_of clash rows && free_of same_id rows then some rows else none

-- UPDATE ... SET ... WHERE ...
unfoldable pub update_where : (Row → Bool) → (Row → Row) → List Row → List Row
update_where p f [] = []
update_where p f (r ∷ rows) =
    let rest = update_where p f rows in if p r then f r ∷ rest else r ∷ rest

-- DELETE FROM ... WHERE ...
abbrev pub delete_where : (Row → Bool) → List Row → List Row
delete_where p rows = keep (λ r. not (p r)) rows

-- cursor.rowcount
abbrev pub rowcount : (Row → Bool) → List Row → ℕ
rowcount p rows = length (keep p rows)

-- The first row of a result.
abbrev pub fetchone : List Row → Option Row
fetchone [] = none
fetchone (r ∷ rows) = some r

abbrev pub with_id : String → Row → Bool
with_id public_id r = r.job.public_id == public_id

-- delete_claim_token IS NULL OR delete_claimed_until IS NULL OR delete_claimed_until <= ?
unfoldable pub unclaimed : ℕ → Row → Bool
unclaimed now r = elim r.delete_claimed_until [
  | none ↦ true
  | some until ↦ is_none r.delete_claim_token || leb until now
]

-- delete_claim_token = ?
abbrev pub holds : String → Option String → Bool
holds token none = false
holds token (some held) = held == token

-- ORDER BY expires_at, public_id
abbrev pub expires_before : Row → Row → Bool
expires_before a b =
    ltb a.job.expires_at b.job.expires_at
    || eqb a.job.expires_at b.job.expires_at && str_lt a.job.public_id b.job.public_id

-- ORDER BY CASE cleanup_pending ... END, created_at, public_id
abbrev pub prefers : Row → Row → Bool
prefers a b =
    ltb (cleanup_rank a.cleanup_pending) (cleanup_rank b.cleanup_pending)
    || eqb (cleanup_rank a.cleanup_pending) (cleanup_rank b.cleanup_pending)
      && (ltb a.job.created_at b.job.created_at
          || eqb a.job.created_at b.job.created_at && str_lt a.job.public_id b.job.public_id)
