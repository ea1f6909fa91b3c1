-- ===== src/Registry/OneBeat.antt =====
-- How much of its log mesh/registry.py keeps when it compacts it.
use slancha_mesh.Common.{
  ℕ, suc, String, ◌≡◌, refl, sym, ap, ◌∙◌, List, [], ◌∷◌, if◌then◌else◌, ◌==◌, eq_iff, Bool-cases,
  inl, inr,
}
use slancha_mesh.Registry.State.{Event, heartbeat, node_left, allocation, quality_observation}
use slancha_mesh.Registry.Compact.{compact_events}
use slancha_mesh.Registry.Compaction.{beats_in, drop_superseded, compact_events-eq-drop_superseded}

-- How many heartbeats of the node stand in the log.
unfoldable count_beats : String → List Event → ℕ
count_beats n [] = 0
count_beats n (heartbeat ev ∷ rest) =
    let more = count_beats n rest in if ev.heartbeat.node_id == n then suc more else more
count_beats n (node_left _ _ _ ∷ rest) = count_beats n rest
count_beats n (allocation _ _ _ ∷ rest) = count_beats n rest
count_beats n (quality_observation _ ∷ rest) = count_beats n rest

beats_in-drop_superseded :
    (n : String) (events : List Event) → beats_in n (drop_superseded events) ≡ beats_in n events
unfolding beats_in drop_superseded
beats_in-drop_superseded n [] = refl
beats_in-drop_superseded n (heartbeat ev ∷ rest) =
    let more = beats_in-drop_superseded n rest in
    elim (Bool-cases (beats_in ev.heartbeat.node_id rest)) [
      | inl e ↦ rw e (elim (Bool-cases (ev.heartbeat.node_id == n)) [
        | inl t ↦
            let here = ap (λ x. beats_in x rest) (sym ((eq_iff ev.heartbeat.node_id n).0 t)) ∙ e in
            rw t (more ∙ here)
        | inr t ↦ rw t more
      ])
      | inr e ↦ rw (e, more) refl
    ]
beats_in-drop_superseded n (node_left _ _ _ ∷ rest) = beats_in-drop_superseded n rest
beats_in-drop_superseded n (allocation _ _ _ ∷ rest) = beats_in-drop_superseded n rest
beats_in-drop_superseded n (quality_observation _ ∷ rest) = beats_in-drop_superseded n rest

count_beats-drop_superseded :
    (n : String) (events : List Event)
    → count_beats n (drop_superseded events) ≡ (if beats_in n events then 1 else 0)
unfolding count_beats beats_in drop_superseded
count_beats-drop_superseded n [] = refl
count_beats-drop_superseded n (heartbeat ev ∷ rest) =
    let more = count_beats-drop_superseded n rest in
    elim (Bool-cases (beats_in ev.heartbeat.node_id rest)) [
      | inl e ↦ rw e (elim (Bool-cases (ev.heartbeat.node_id == n)) [
        | inl t ↦
            let here = ap (λ x. beats_in x rest) (sym ((eq_iff ev.heartbeat.node_id n).0 t)) ∙ e in
            rw t (more ∙ rw here refl)
        | inr t ↦ rw t more
      ])
      | inr e ↦ rw e (elim (Bool-cases (ev.heartbeat.node_id == n)) [
        | inl t ↦
            let none_later =
              ap (λ x. beats_in x rest) (sym ((eq_iff ev.heartbeat.node_id n).0 t)) ∙ e in
            rw t (ap suc (more ∙ rw none_later refl))
        | inr t ↦ rw t more
      ])
    ]
count_beats-drop_superseded n (node_left _ _ _ ∷ rest) = count_beats-drop_superseded n rest
count_beats-drop_superseded n (allocation _ _ _ ∷ rest) = count_beats-drop_superseded n rest
count_beats-drop_superseded n (quality_observation _ ∷ rest) = count_beats-drop_superseded n rest

drop_superseded_idem :
    (events : List Event) → drop_superseded (drop_superseded events) ≡ drop_superseded events
unfolding drop_superseded
drop_superseded_idem [] = refl
drop_superseded_idem (heartbeat ev ∷ rest) =
    elim (Bool-cases (beats_in ev.heartbeat.node_id rest)) [
      | inl e ↦ rw e (drop_superseded_idem rest)
      | inr e ↦
          let still = beats_in-drop_superseded ev.heartbeat.node_id rest ∙ e in
          rw e (rw still (ap (λ l. heartbeat ev ∷ l) (drop_superseded_idem rest)))
    ]
drop_superseded_idem (node_left ts n why ∷ rest) =
    ap (λ l. node_left ts n why ∷ l) (drop_superseded_idem rest)
drop_superseded_idem (allocation ts s m ∷ rest) =
    ap (λ l. allocation ts s m ∷ l) (drop_superseded_idem rest)
drop_superseded_idem (quality_observation q ∷ rest) =
    ap (λ l. quality_observation q ∷ l) (drop_superseded_idem rest)

-- A compacted log holds one heartbeat of each node that has any in the log and none of another node,
-- and compacting it again changes nothing.
compact_events_keeps_one_beat :
    (n : String) (events : List Event)
    → (count_beats n (compact_events events) ≡ (if beats_in n events then 1 else 0))
      × (compact_events (compact_events events) ≡ compact_events events)
compact_events_keeps_one_beat n events =
    let once = compact_events-eq-drop_superseded events in
    (
      ap (count_beats n) once ∙ count_beats-drop_superseded n events,
      ap compact_events once
          ∙ compact_events-eq-drop_superseded (drop_superseded events)
          ∙ drop_superseded_idem events
          ∙ sym once,
    )
