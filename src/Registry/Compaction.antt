-- ===== src/Registry/Compaction.antt =====
-- What `_compact_heartbeats` of mesh/registry.py keeps.
use slancha_mesh.Common.{
  ℕ, suc, ◌<◌, String, ◌≡◌, ◌≢◌, refl, sym, ap, ◌∙◌, subst, Bool, true, false, some, List, [], ◌∷◌,
  arith, if◌then◌else◌, ◌==◌, ◌||◌, not, eq_iff, Bool-cases, inl, inr,
}
use slancha_mesh.Common.Dict.{
  Assoc, lookup, insert, remove, lookup-insert, remove_absent, AllValues, AllValues-insert,
  AllValues-remove, lookup-insert_self, IsDistinct, IsDistinct-insert,
}
use slancha_mesh.Registry.State.{
  HeartbeatEvent, Event, heartbeat, node_left, allocation, quality_observation,
}
use slancha_mesh.Registry.Compact.{latest_hb_idx, in_values, keep_indexed, compact_events}

-- A heartbeat of the node stands in the log.
unfoldable pub beats_in : String → List Event → Bool
beats_in n [] = false
beats_in n (heartbeat ev ∷ rest) = ev.heartbeat.node_id == n || beats_in n rest
beats_in n (node_left _ _ _ ∷ rest) = beats_in n rest
beats_in n (allocation _ _ _ ∷ rest) = beats_in n rest
beats_in n (quality_observation _ ∷ rest) = beats_in n rest

-- The log without the heartbeats that a later one of the same node supersedes.
unfoldable pub drop_superseded : List Event → List Event
drop_superseded [] = []
drop_superseded (heartbeat ev ∷ rest) =
    let kept = drop_superseded rest in
    if beats_in ev.heartbeat.node_id rest then kept else heartbeat ev ∷ kept
drop_superseded (node_left ts n why ∷ rest) = node_left ts n why ∷ drop_superseded rest
drop_superseded (allocation ts s m ∷ rest) = allocation ts s m ∷ drop_superseded rest
drop_superseded (quality_observation q ∷ rest) = quality_observation q ∷ drop_superseded rest

-- No index of the map is i.
abbrev Avoids : ℕ → Assoc ℕ → Type 0
Avoids i m = AllValues (λ v. v ≢ i) m

Avoids→in_values : (i : ℕ) (m : Assoc ℕ) → Avoids i m → in_values i m ≡ false
unfolding in_values
Avoids→in_values i [] h = refl
Avoids→in_values i ((k, v) ∷ m) h = ground (arith, h.0, Avoids→in_values i m h.1)

-- Indices written later are not i.
Avoids-latest_hb_idx :
    (i k : ℕ) (rest : List Event) (m : Assoc ℕ)
    → i < k
    → Avoids i m
    → Avoids i (latest_hb_idx k rest m)
unfolding latest_hb_idx
Avoids-latest_hb_idx i k [] m lt h = h
Avoids-latest_hb_idx i k (heartbeat ev ∷ rest) m lt h =
    Avoids-latest_hb_idx i (suc k) rest (insert ev.heartbeat.node_id k m) (omega arith)
      (AllValues-insert (λ v. v ≢ i) ev.heartbeat.node_id k m (omega arith) h)
Avoids-latest_hb_idx i k (node_left _ _ _ ∷ rest) m lt h =
    Avoids-latest_hb_idx i (suc k) rest m (omega arith) h
Avoids-latest_hb_idx i k (allocation _ _ _ ∷ rest) m lt h =
    Avoids-latest_hb_idx i (suc k) rest m (omega arith) h
Avoids-latest_hb_idx i k (quality_observation _ ∷ rest) m lt h =
    Avoids-latest_hb_idx i (suc k) rest m (omega arith) h

-- The map holds i at the node alone.
record IsOnlyAt (n : String) (i : ℕ) (m : Assoc ℕ) : Type 0 where
  found : lookup n m ≡ some i
  elsewhere : Avoids i (remove n m)
  distinct : IsDistinct m

IsOnlyAt→in_values : (n : String) (i : ℕ) (m : Assoc ℕ) → lookup n m ≡ some i → in_values i m ≡ true
unfolding in_values lookup
IsOnlyAt→in_values n i [] h = cc
IsOnlyAt→in_values n i ((k, v) ∷ m) h = ground (arith, IsOnlyAt→in_values n i m)

-- A write at the node itself takes i away.
Avoids-insert_self :
    (n : String) (i v : ℕ) (m : Assoc ℕ)
    → IsDistinct m
    → v ≢ i
    → Avoids i (remove n m)
    → Avoids i (insert n v m)
unfolding insert remove
Avoids-insert_self n i v [] d ne h = (ne, tt)
Avoids-insert_self n i v ((k, w) ∷ m) d ne h = elim (Bool-cases (k == n)) [
  | inl e ↦
      let same : remove n m ≡ m =
        remove_absent n m (ap (λ x. lookup x m) (sym ((eq_iff k n).0 e)) ∙ d.0) in
      let here : remove n ((k, w) ∷ m) ≡ remove n m = rw e refl in
      let h' : Avoids i (remove n m) = subst (Avoids i) here h in
      rw e (ne, subst (Avoids i) same h')
  | inr e ↦
      let past : remove n ((k, w) ∷ m) ≡ (k, w) ∷ remove n m = rw e refl in
      let h' : Avoids i ((k, w) ∷ remove n m) = subst (Avoids i) past h in
      rw e (h'.0, Avoids-insert_self n i v m d.1 ne h'.1)
]

remove-insert :
    (n j : String) (v : ℕ) (m : Assoc ℕ) → j ≢ n → remove n (insert j v m) ≡ insert j v (remove n m)
unfolding insert remove
remove-insert n j v [] ne = ground (arith, eq_iff j n)
remove-insert n j v ((k, w) ∷ m) ne =
    ground (arith, eq_iff j n, eq_iff k j, eq_iff k n, remove-insert n j v m ne)

-- The index i of a heartbeat stays in the map exactly while no later heartbeat of its node is read.
in_values-latest_hb_idx :
    (n : String) (i k : ℕ) (rest : List Event) (m : Assoc ℕ)
    → i < k
    → IsOnlyAt n i m
    → in_values i (latest_hb_idx k rest m) ≡ not (beats_in n rest)
unfolding latest_hb_idx beats_in
in_values-latest_hb_idx n i k [] m lt h = IsOnlyAt→in_values n i m h.found
in_values-latest_hb_idx n i k (heartbeat ev ∷ rest) m lt h =
    let j = ev.heartbeat.node_id in
    elim (Bool-cases (j == n)) [
      | inl e ↦ rw e (
          Avoids→in_values i (latest_hb_idx (suc k) rest (insert j k m)) (
            Avoids-latest_hb_idx i (suc k) rest (insert j k m) (omega arith) (
              subst (λ x. Avoids i (insert x k m)) (sym ((eq_iff j n).0 e))
                (Avoids-insert_self n i k m h.distinct (omega arith) h.elsewhere))))
      | inr e ↦ rw e (
          in_values-latest_hb_idx n i (suc k) rest (insert j k m) (omega arith) (record {
            found = lookup-insert j n k m ∙ rw e h.found;
            elsewhere =
                subst (Avoids i) (sym (remove-insert n j k m (λ p. cc ((eq_iff j n).1 p))))
                  (AllValues-insert (λ v. v ≢ i) j k (remove n m) (omega arith) h.elsewhere);
            distinct = IsDistinct-insert j k m h.distinct;
          }))
    ]
in_values-latest_hb_idx n i k (node_left _ _ _ ∷ rest) m lt h =
    in_values-latest_hb_idx n i (suc k) rest m (omega arith) h
in_values-latest_hb_idx n i k (allocation _ _ _ ∷ rest) m lt h =
    in_values-latest_hb_idx n i (suc k) rest m (omega arith) h
in_values-latest_hb_idx n i k (quality_observation _ ∷ rest) m lt h =
    in_values-latest_hb_idx n i (suc k) rest m (omega arith) h

-- Every index of the map is below k, and no node stands twice.
record IsBelow (k : ℕ) (m : Assoc ℕ) : Type 0 where
  below : AllValues (λ v. v < k) m
  distinct : IsDistinct m

AllValues-mono :
    (P Q : ℕ → Type 0) → ((v : ℕ) → P v → Q v) → (m : Assoc ℕ) → AllValues P m → AllValues Q m
AllValues-mono P Q f [] h = tt
AllValues-mono P Q f ((k, v) ∷ m) h = (f v h.0, AllValues-mono P Q f m h.1)

IsBelow-suc : (k : ℕ) (m : Assoc ℕ) → IsBelow k m → IsBelow (suc k) m
IsBelow-suc k m h = record {
  below = AllValues-mono (λ v. v < k) (λ v. v < suc k) (λ v p. omega arith) m h.below;
  distinct = h.distinct;
}

IsBelow-insert : (n : String) (k : ℕ) (m : Assoc ℕ) → IsBelow k m → IsBelow (suc k) (insert n k m)
IsBelow-insert n k m h = record {
  below = AllValues-insert (λ v. v < suc k) n k m (omega arith) (IsBelow-suc k m h).below;
  distinct = IsDistinct-insert n k m h.distinct;
}

remove-insert_self : (n : String) (v : ℕ) (m : Assoc ℕ) → remove n (insert n v m) ≡ remove n m
unfolding insert remove
remove-insert_self n v [] = ground (arith, eq_iff n n)
remove-insert_self n v ((k, w) ∷ m) =
    ground (arith, eq_iff n n, eq_iff k n, remove-insert_self n v m)

IsOnlyAt-insert : (n : String) (k : ℕ) (m : Assoc ℕ) → IsBelow k m → IsOnlyAt n k (insert n k m)
IsOnlyAt-insert n k m h = record {
  found = lookup-insert_self n k m;
  elsewhere = subst (Avoids k) (sym (remove-insert_self n k m)) (
      AllValues-remove (λ v. v ≢ k) n m
        (AllValues-mono (λ v. v < k) (λ v. v ≢ k) (λ v p. omega arith) m h.below));
  distinct = IsDistinct-insert n k m h.distinct;
}

-- One heartbeat of the two lists, whether it is superseded or not.
choose_kept :
    (ev : HeartbeatEvent) {kept dropped : List Event} {inside : Bool} (b : Bool)
    → inside ≡ not b
    → kept ≡ dropped
    → (if inside then heartbeat ev ∷ kept else kept)
      ≡ (if b then dropped else heartbeat ev ∷ dropped)
choose_kept ev true e p = rw e p
choose_kept ev false e p = rw e (ap (λ l. heartbeat ev ∷ l) p)

-- The two passes drop the superseded heartbeats: for the events from index k on.
keep_indexed-lem :
    (k : ℕ) (rest : List Event) (m : Assoc ℕ)
    → IsBelow k m
    → keep_indexed k rest (latest_hb_idx k rest m) ≡ drop_superseded rest
unfolding keep_indexed latest_hb_idx drop_superseded
keep_indexed-lem k [] m h = refl
keep_indexed-lem k (heartbeat ev ∷ rest) m h =
    let n = ev.heartbeat.node_id in
    let rec = keep_indexed-lem (suc k) rest (insert n k m) (IsBelow-insert n k m h) in
    let here =
      in_values-latest_hb_idx n k (suc k) rest (insert n k m) (omega arith)
        (IsOnlyAt-insert n k m h) in
    choose_kept ev (beats_in n rest) here rec
keep_indexed-lem k (node_left ts n why ∷ rest) m h =
    ap (λ l. node_left ts n why ∷ l) (keep_indexed-lem (suc k) rest m (IsBelow-suc k m h))
keep_indexed-lem k (allocation ts s sg ∷ rest) m h =
    ap (λ l. allocation ts s sg ∷ l) (keep_indexed-lem (suc k) rest m (IsBelow-suc k m h))
keep_indexed-lem k (quality_observation q ∷ rest) m h =
    ap (λ l. quality_observation q ∷ l) (keep_indexed-lem (suc k) rest m (IsBelow-suc k m h))

-- The two passes of the compaction, by indices, keep of any log exactly the events that are no
-- heartbeat and the last heartbeat of each node, in place.
pub compact_events-eq-drop_superseded :
    (events : List Event) → compact_events events ≡ drop_superseded events
unfolding compact_events
compact_events-eq-drop_superseded events =
    keep_indexed-lem 0 events [] (record { below = tt; distinct = tt })
