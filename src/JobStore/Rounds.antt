-- ===== src/JobStore/Rounds.antt =====
-- One round of the loop of `_cleanup_expired` in mesh/job_store.py.
use slancha_mesh.Common.{
  In-keep, String, ◌≡◌, refl, sym, ap, ◌∙◌, Bool, true, false, some, List, [], ◌∷◌, arith,
  if◌then◌else◌, ◌==◌, not, keep, Bool-cases, inl, inr, All, All-from, In, All-In, subst,
}
use slancha_mesh.JobStore.Rows.{
  Row, same_owner, clash, same_id, update_where, delete_where, fetchone, with_id,
}
use slancha_mesh.JobStore.Cleanup.{cleanup_twin, absorb, expire, live_with_id, cleanup_row}
use slancha_mesh.JobStore.Tables.{
  IsTable, IsTable→checked, All-keep, All-update_where, Narrows, delete_where-IsTable,
  update_where-IsTable, update_where-ids,
}
use slancha_mesh.JobStore.Twins.{
  SameOwner, same_owner→SameOwner, SameOwner-trans, SameOwner-sym, Matches, NoTwin, expire-IsFree,
}

-- Every upstream job of the first table has a row in the second.
abbrev pub OwnersKept : List Row → List Row → Type 0
OwnersKept rows rows' = (r : Row) → In r rows → (r' : Row) × In r' rows' × SameOwner r.job r'.job

pub OwnersKept-trans : (a b c : List Row) → OwnersKept a b → OwnersKept b c → OwnersKept a c
OwnersKept-trans a b c f g r i =
    let (s, j, o) = f r i in let (t, k, p) = g s j in (t, k, SameOwner-trans r.job s.job t.job o p)

-- What one round of the loop makes of a table.
pub record Round (rows rows' : List Row) : Type 0 where
  pub table : IsTable rows'
  pub owners : OwnersKept rows rows'
  pub matching : (row : Row) → Matches row rows → Matches row rows'

pub expire-ids : Narrows same_id expire
unfolding same_id
expire-ids = record { left = λ a b e. e; right = λ a b e. e }

pub absorb-ids : (row : Row) → Narrows same_id (absorb row)
unfolding same_id
absorb-ids row = record { left = λ a b e. e; right = λ a b e. e }

pub absorb-clash : (row : Row) → Narrows clash (absorb row)
unfolding clash same_owner
absorb-clash row = record { left = λ a b e. e; right = λ a b e. e }

pub In-update_where :
    (p : Row → Bool) (f : Row → Row) (r : Row) (rows : List Row)
    → In r rows
    → In (if p r then f r else r) (update_where p f rows)
unfolding update_where
In-update_where p f r [] i = i
In-update_where p f r (x ∷ rows) (inl e) =
    subst (λ y. In (if p y then f y else y) (update_where p f (x ∷ rows))) e
      (elim (Bool-cases (p x)) [ inl h ↦ rw h (inl refl) | inr h ↦ rw h (inl refl) ])
In-update_where p f r (x ∷ rows) (inr i) =
    let more = In-update_where p f r rows i in
    elim (Bool-cases (p x)) [ inl h ↦ rw h (inr more) | inr h ↦ rw h (inr more) ]

pub owner_if :
    (b : Bool) (r s : Row) → SameOwner r.job s.job → SameOwner r.job (if b then s else r).job
owner_if true r s o = o
owner_if false r s o = (refl, refl, refl)

-- An update keeps the owners where it keeps those of each row.
pub update_where-owners :
    (p : Row → Bool) (f : Row → Row) (rows : List Row)
    → ((r : Row) → SameOwner r.job (f r).job)
    → OwnersKept rows (update_where p f rows)
update_where-owners p f rows k r i =
    (if p r then f r else r, In-update_where p f r rows i, owner_if (p r) r (f r) (k r))

-- The rows of an id are matched however they are updated and deleted.
pub update_where-Matches :
    (p : Row → Bool) (f : Row → Row) (row : Row) (rows : List Row)
    → ((r : Row) → ((f r).job.public_id ≡ r.job.public_id) × SameOwner r.job (f r).job)
    → Matches row rows
    → Matches row (update_where p f rows)
update_where-Matches p f row rows k h =
    All-update_where (λ r. with_id row.job.public_id r ≡ true → SameOwner r.job row.job) p f rows
      (λ r s m e.
        SameOwner-trans (f r).job r.job row.job (SameOwner-sym r.job (f r).job (k r).1)
          (m (ap (λ x. x == row.job.public_id) (sym (k r).0) ∙ e)))
      h

pub expire-Round :
    (row : Row) (rows : List Row)
    → IsTable rows
    → Matches row rows
    → NoTwin row rows
    → Round rows (update_where (live_with_id row.job.public_id) expire rows)
expire-Round row rows h m n = record {
  table = record {
    index = expire-IsFree row rows h.index h.ids m n;
    ids = (update_where-ids (live_with_id row.job.public_id) expire rows expire-ids h.ids);
  };
  owners =
      update_where-owners (live_with_id row.job.public_id) expire rows (λ r. (refl, refl, refl));
  matching = λ other.
      update_where-Matches (live_with_id row.job.public_id) expire other rows
        (λ r. (refl, (refl, refl, refl)));
}

pub not-with_id_if :
    (id : String) (b : Bool) (row r : Row)
    → with_id id r ≡ false
    → not (with_id id (if b then absorb row r else r)) ≡ true
not-with_id_if id true row r e = rw e refl
not-with_id_if id false row r e = rw e refl

pub absorb-owners :
    (row twin : Row) (rows : List Row)
    → Matches row rows
    → In twin rows
    → cleanup_twin row twin ≡ true
    → OwnersKept rows (
        delete_where
          (with_id row.job.public_id)
          (update_where (with_id twin.job.public_id) (absorb row) rows))
unfolding cleanup_twin
absorb-owners row twin rows m i t r j =
    let id = row.job.public_id in
    let at : Row → Bool = with_id twin.job.public_id in
    let kept : Row → Bool = λ x. not (with_id id x) in
    elim (Bool-cases (with_id id r)) [
      | inl e ↦
          let apart : with_id id twin ≡ false = ground (arith, t) in
          let own = same_owner→SameOwner twin.job row.job (ground (arith, t)) in
          (
            if at twin then absorb row twin else twin,
            In-keep kept _ (update_where at (absorb row) rows)
                (In-update_where at (absorb row) twin rows i)
                (not-with_id_if id (at twin) row twin apart),
            SameOwner-trans r.job twin.job (if at twin then absorb row twin else twin).job
                (SameOwner-trans r.job row.job twin.job
                  (All-In (λ x. with_id id x ≡ true → SameOwner x.job row.job) r rows m j e)
                  (SameOwner-sym twin.job row.job own))
                (owner_if (at twin) twin (absorb row twin) (refl, refl, refl)),
          )
      | inr e ↦ (
        if at r then absorb row r else r,
        In-keep kept _ (update_where at (absorb row) rows)
            (In-update_where at (absorb row) r rows j) (not-with_id_if id (at r) row r e),
        owner_if (at r) r (absorb row r) (refl, refl, refl),
      )
    ]

-- Absorbing the row into its twin keeps its upstream job.
pub absorb-Round :
    (row twin : Row) (rows : List Row)
    → IsTable rows
    → Matches row rows
    → In twin rows
    → cleanup_twin row twin ≡ true
    → Round rows (
        delete_where
          (with_id row.job.public_id)
          (update_where (with_id twin.job.public_id) (absorb row) rows))
absorb-Round row twin rows h m i t = record {
  table = delete_where-IsTable (with_id row.job.public_id) _ (
      update_where-IsTable (with_id twin.job.public_id) (absorb row) rows (absorb-clash row)
        (absorb-ids row) h);
  owners = absorb-owners row twin rows m i t;
  matching = λ other k.
      All-keep _ (λ r. not (with_id row.job.public_id r)) _
        (update_where-Matches (with_id twin.job.public_id) (absorb row) other rows
          (λ r. (refl, (refl, refl, refl))) k);
}

pub keep-none : (p : Row → Bool) (rows : List Row) → keep p rows ≡ [] → All (λ r. p r ≡ false) rows
unfolding keep
keep-none p [] h = tt
keep-none p (r ∷ rows) h = elim (Bool-cases (p r)) [
  | inl e ↦ absurd (ground (arith, rw e at h))
  | inr e ↦ (e, keep-none p rows (rw e at h))
]

pub keep_within :
    (p : Row → Bool) (whole rows : List Row)
    → All (λ r. In r whole) rows
    → All (λ r. In r whole × (p r ≡ true)) (keep p rows)
unfolding keep
keep_within p whole [] h = tt
keep_within p whole (r ∷ rows) h = elim (Bool-cases (p r)) [
  | inl e ↦ rw e ((h.0, e), keep_within p whole rows h.1)
  | inr e ↦ rw e (keep_within p whole rows h.1)
]

pub keep_sound :
    (p : Row → Bool) (rows : List Row) → All (λ r. In r rows × (p r ≡ true)) (keep p rows)
keep_sound p rows = keep_within p rows rows (All-from (λ r. In r rows) rows (λ r i. i))

-- One round of the loop is never refused.
pub cleanup_row-Round :
    (row : Row) (rows found : List Row)
    → keep (cleanup_twin row) rows ≡ found
    → IsTable rows
    → Matches row rows
    → (rows' : List Row) × (cleanup_row (fetchone found) row rows ≡ some rows') × Round rows rows'
unfolding cleanup_row
cleanup_row-Round row rows [] e h m =
    let r = expire-Round row rows h m (keep-none (cleanup_twin row) rows e) in
    (_, IsTable→checked _ r.table, r)
cleanup_row-Round row rows (twin ∷ more) e h m =
    let (here, is) =
      (subst (All (λ r. In r rows × (cleanup_twin row r ≡ true))) e
        (keep_sound (cleanup_twin row) rows)).0 in
    (_, refl, absorb-Round row twin rows h m here is)
