-- ===== src/JobStore/Granting.antt =====
-- What a claim of mesh/job_store.py that is granted leaves, and which cleanup work is handed out.
use slancha_mesh.Common.{
  ℕ, ◌+◌, ◌<◌, String, ◌≡◌, ◌≢◌, refl, ap, ◌∙◌, Bool, true, false, Option, none, some, List, [],
  ◌∷◌, arith, ◌&&◌, ◌==◌, leb, eqb, keep, length, eq_iff, Bool-cases, Option-cases, inl, inr, All,
  All-mono, All-from, All-In, In, subst, some-injective,
}
use slancha_mesh.Common.Sort.{sort_by, All-sort_by}
use slancha_mesh.JobStore.Rows.{Row, update_where, rowcount, fetchone, with_id, expires_before}
use slancha_mesh.JobStore.Cleanup.{cleanup_expired}
use slancha_mesh.JobStore.Operations.{VideoJobStore, JobResult, ok, cleaned}
use slancha_mesh.JobStore.Claiming.{
  VideoDeleteClaim, lease, is_claimable, claim_delete, is_cleanup_claimable, claim_row,
  claim_cleanup,
}
use slancha_mesh.JobStore.Tables.{IsTable}
use slancha_mesh.JobStore.Rounds.{keep_sound}
use slancha_mesh.JobStore.Owners.{cleanup_keeps_owners, unique_id}
use slancha_mesh.JobStore.Leases.{
  Leased, Claimed, cleanup_expired-Claimed, Leased-unclaimed, NoGrant,
}

pub fetchone-All :
    (P : Row → Type 0) (rows : List Row) (r : Row) → All P rows → fetchone rows ≡ some r → P r
fetchone-All P [] r h e = absurd (ground (arith, e))
fetchone-All P (x ∷ rows) r h e = subst P (some-injective x r e) h.0

pub ok_some-injective :
    {A : Type 0} (a b : A) → ◌≡◌ {A = JobResult (Option A)} (ok (some a)) (ok (some b)) → a ≡ b
ok_some-injective a b e = ground (arith, e)

pub not_this_id : (id : String) (r : Row) → with_id id r ≡ false → r.job.public_id ≢ id
not_this_id id r e = ground (arith, e, eq_iff r.job.public_id id)

pub claim_row-NoGrant :
    (id : String) (o : Option Row) (now : ℕ) (token : String) (until : ℕ) (rows : List Row)
    → ((r : Row) → o ≡ some r → with_id id r ≡ false)
    → NoGrant id (claim_row o now token until rows).0
unfolding claim_row
claim_row-NoGrant id none now token until rows f c e = absurd (ground (arith, e))
claim_row-NoGrant id (some row) now token until rows f c e =
    elim (Bool-cases
      (eqb (rowcount (λ r. with_id row.job.public_id r && is_cleanup_claimable now r) rows) 1)) [
        | inl t ↦
            let same = ok_some-injective (record { job = row.job; token = token }) c (rw t at e) in
            subst (λ (x : VideoDeleteClaim). x.job.public_id ≢ id) same
              (not_this_id id row (f row refl))
        | inr t ↦ absurd (ground (arith, rw t at e))
      ]

pub claimable_is_other :
    (id token : String) (until now : ℕ) (r : Row)
    → now < until
    → Leased id token until r
    → is_cleanup_claimable now r ≡ true
    → with_id id r ≡ false
claimable_is_other id token until now r lt h c = elim (Bool-cases (with_id id r)) [
  | inl e ↦ absurd (ground (arith, Leased-unclaimed id token until now r lt h e, c))
  | inr e ↦ e
]

pub found_row :
    (p : Row → Bool) (rows found : List Row)
    → keep p rows ≡ found
    → eqb (length found) 1 ≡ true
    → (r : Row) × In r rows × (p r ≡ true)
found_row p rows [] e one = absurd (ground (arith, one))
found_row p rows (x ∷ more) e one =
    let (i, s) = (subst (All (λ r. In r rows × (p r ≡ true))) e (keep_sound p rows)).0 in (x, i, s)

pub All-updated :
    (Q P : Row → Type 0) (p : Row → Bool) (f : Row → Row)
    → ((r : Row) → Q r → p r ≡ true → P (f r))
    → ((r : Row) → Q r → p r ≡ false → P r)
    → (rows : List Row) → All Q rows
    → All P (update_where p f rows)
unfolding update_where
All-updated Q P p f yes' no' [] h = tt
All-updated Q P p f yes' no' (r ∷ rows) h =
    let rest = All-updated Q P p f yes' no' rows h.1 in
    elim (Bool-cases (p r)) [ inl e ↦ rw e (yes' r h.0 e, rest) | inr e ↦ rw e (no' r h.0 e, rest) ]

pub claimable-with_id :
    (id : String) (now : ℕ) (r : Row) → is_claimable id now r ≡ true → with_id id r ≡ true
claimable-with_id id now r e = ground (arith, e)

module _ (s : VideoJobStore) (now : ℕ) where
  -- Nor is the id's cleanup handed out.
  pub claim_cleanup-refused :
      (token' : String) (lease_s : ℕ) (id token : String) (until : ℕ) (rows : List Row)
      → now < until
      → Claimed id token until rows
      → NoGrant id (claim_cleanup s now token' lease_s rows).0
  unfolding claim_cleanup cleaned
  claim_cleanup-refused token' lease_s id token until rows lt h c e =
      elim (Bool-cases (leb lease_s 0)) [
        | inl t ↦ absurd (ground (arith, rw t at e))
        | inr t ↦ elim (Option-cases (cleanup_expired s.cleanup_batch now rows)) [
          | inl o ↦ absurd (ground (arith, rw (t, o) at e))
          | inr (rows', o) ↦
              let h' = cleanup_expired-Claimed id token until s.cleanup_batch now rows rows' o h in
              let free = keep (is_cleanup_claimable now) rows' in
              let others : All (λ r. with_id id r ≡ false) free =
                All-mono (λ r. In r rows' × (is_cleanup_claimable now r ≡ true))
                  (λ r. with_id id r ≡ false)
                  (λ r x.
                    claimable_is_other id token until now r lt
                      (All-In (Leased id token until) r rows' h' x.0) x.1)
                  free (keep_sound (is_cleanup_claimable now) rows') in
              claim_row-NoGrant id (fetchone (sort_by expires_before free)) now token'
                (now + lease_s) rows'
                (λ r.
                  fetchone-All (λ x. with_id id x ≡ false) (sort_by expires_before free) r
                    (All-sort_by expires_before (λ x. with_id id x ≡ false) free others))
                c (rw (t, o) at e)
        ]
      ]

  -- The table on which a claim was granted.
  pub granted-Claimed :
      (id token : String) (until : ℕ) (rows : List Row)
      → IsTable rows
      → eqb (rowcount (is_claimable id now) rows) 1 ≡ true
      → Claimed id token until (update_where (is_claimable id now) (lease token until) rows)
  granted-Claimed id token until rows h one =
      let p = is_claimable id now in
      let (r0, i0, e0) = found_row p rows (keep p rows) refl one in
      let at_id : r0.job.public_id ≡ id =
        (eq_iff r0.job.public_id id).0 (claimable-with_id id now r0 e0) in
      All-updated (λ r. with_id id r ≡ true → p r ≡ true) (Leased id token until) p
        (lease token until) (λ r q s w. (refl, refl)) (λ r q s w. absurd (ground (arith, q w, s)))
        rows
        (All-from (λ r. with_id id r ≡ true → p r ≡ true) rows
          (λ r i w.
            ap p (unique_id rows r0 r h.ids i0 i (ap (λ x. r.job.public_id == x) at_id ∙ w)) ∙ e0))

  pub claim_delete-granted :
      (token : String) (lease_s : ℕ) (id : String) (rows : List Row) (c : VideoDeleteClaim)
      → IsTable rows
      → (claim_delete s now token lease_s id rows).0 ≡ ok (some c)
      → Claimed id token (now + lease_s) (claim_delete s now token lease_s id rows).1
  unfolding claim_delete cleaned
  claim_delete-granted token lease_s id rows c h e = elim (Bool-cases (leb lease_s 0)) [
    | inl t ↦ absurd (ground (arith, rw t at e))
    | inr t ↦
        let (rows', o, h', kept) = cleanup_keeps_owners s.cleanup_batch now rows h in
        elim (Bool-cases (eqb (rowcount (is_claimable id now) rows') 1)) [
          | inl one ↦ rw (t, o, one) (granted-Claimed id token (now + lease_s) rows' h' one)
          | inr other ↦ absurd (ground (arith, rw (t, o, other) at e))
        ]
  ]
