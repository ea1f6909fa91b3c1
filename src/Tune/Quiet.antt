-- ===== src/Tune/Quiet.antt =====
-- What the idle detector promises: training waits for a quiet time, and for the end of a cooldown.
use slancha_mesh.Common.{
  ℕ, ◌+◌, ◌≤◌, ◌<◌, ◌≡◌, refl, sym, subst, Bool, true, false, Option, none, some, List, [], ◌∷◌,
  arith, ◌⊎◌, inl, inr, leb→le, leb, Bool-cases,
}
use slancha_mesh.Models.{NodeUtilization}
use slancha_mesh.Tune.Idle.{
  IdleState, active, ready_to_train, training, cooldown, IdleThresholds, IdleDetector, init,
  is_idle, still_cooling, observe, mark_training_started, finish_training, Call, observed, started,
  preempted, finished, call, run, is_ready, should_start_training,
}

module _ (t : IdleThresholds) where
  -- The newest calls hold no busy observation after an idle one at the time `since`.
  abbrev pub QuietSince : ℕ → List Call → Type 0
  QuietSince since [] = false ≡ true
  QuietSince since (observed now util ∷ earlier) =
      (is_idle t util ≡ true) × ((now ≡ since) ⊎ QuietSince since earlier)
  QuietSince since (started now ∷ earlier) = QuietSince since earlier
  QuietSince since (preempted ∷ earlier) = QuietSince since earlier
  QuietSince since (finished now ∷ earlier) = QuietSince since earlier

  -- And one of these observations was made after the time that is required.
  abbrev pub QuietFor : ℕ → List Call → Type 0
  QuietFor since [] = false ≡ true
  QuietFor since (observed now util ∷ earlier) =
      (is_idle t util ≡ true)
      × ((since + t.sustained_idle ≤ now) × QuietSince since earlier ⊎ QuietFor since earlier)
  QuietFor since (started now ∷ earlier) = QuietFor since earlier
  QuietFor since (preempted ∷ earlier) = QuietFor since earlier
  QuietFor since (finished now ∷ earlier) = QuietFor since earlier

  -- What the fields stand for, while no training runs.
  abbrev Window : Option ℕ → List Call → Type 0
  Window none calls = Unit
  Window (some since) calls = QuietSince since calls

  abbrev Stands : IdleState → Option ℕ → List Call → Type 0
  Stands active since calls = Window since calls
  Stands ready_to_train since calls =
      (s : ℕ) × (since ≡ some s) × QuietSince s calls × QuietFor s calls
  Stands training since calls = Unit
  Stands cooldown since calls = since ≡ none

  abbrev IsSilent : Call → Type 0
  IsSilent (observed now util) = false ≡ true
  IsSilent (started now) = Unit
  IsSilent preempted = Unit
  IsSilent (finished now) = Unit

  QuietSince-silent :
      (c : Call) (since : ℕ) (calls : List Call)
      → IsSilent c
      → QuietSince since calls
      → QuietSince since (c ∷ calls)
  QuietSince-silent (observed now util) since calls silent h = cc
  QuietSince-silent (started now) since calls silent h = h
  QuietSince-silent preempted since calls silent h = h
  QuietSince-silent (finished now) since calls silent h = h

  QuietFor-silent :
      (c : Call) (since : ℕ) (calls : List Call)
      → IsSilent c
      → QuietFor since calls
      → QuietFor since (c ∷ calls)
  QuietFor-silent (observed now util) since calls silent h = cc
  QuietFor-silent (started now) since calls silent h = h
  QuietFor-silent preempted since calls silent h = h
  QuietFor-silent (finished now) since calls silent h = h

  Stands-silent :
      (c : Call) (state : IdleState) (since : Option ℕ) (calls : List Call)
      → IsSilent c
      → Stands state since calls
      → Stands state since (c ∷ calls)
  Stands-silent c active none calls silent h = tt
  Stands-silent c active (some s) calls silent h = QuietSince-silent c s calls silent h
  Stands-silent c ready_to_train since calls silent (s, e, quiet, long) =
      (s, e, QuietSince-silent c s calls silent quiet, QuietFor-silent c s calls silent long)
  Stands-silent c training since calls silent h = tt
  Stands-silent c cooldown since calls silent h = h

  record IsTrue (calls : List Call) (d : IdleDetector) : Type 0 where
    pub same : d.thresholds ≡ t
    pub stands : Stands d.state d.idle_since calls

  module _ (begun until : Option ℕ) (preempt : Bool) (calls : List Call) where
    -- A detector with these thresholds.
    abbrev detector : IdleState → Option ℕ → IdleDetector
    detector state since = record {
      thresholds = t;
      state = state;
      idle_since = since;
      training_started_at = begun;
      cooldown_until = until;
      preempt_event = preempt;
    }

    observe-IsTrue :
        (now : ℕ) (util : NodeUtilization) (state : IdleState) (since : Option ℕ)
        → Stands state since calls
        → IsTrue (observed now util ∷ calls) (observe now util (detector state since))
    unfolding observe
    observe-IsTrue now util training since h = record { same = refl; stands = tt }
    observe-IsTrue now util cooldown since h = elim (Bool-cases (still_cooling now until)) [
      | inl e ↦ rw e (record { same = refl; stands = h })
      | inr e ↦ rw e (elim (Bool-cases (is_idle t util)) [
        | inl idle ↦ rw idle (record { same = refl; stands = (idle, inl refl) })
        | inr busy ↦ rw busy (record { same = refl; stands = tt })
      ])
    ]
    observe-IsTrue now util active none h = elim (Bool-cases (is_idle t util)) [
      | inl idle ↦ rw idle (record { same = refl; stands = (idle, inl refl) })
      | inr busy ↦ rw busy (record { same = refl; stands = tt })
    ]
    observe-IsTrue now util active (some s) h = elim (Bool-cases (is_idle t util)) [
      | inl idle ↦ rw idle (elim (Bool-cases (leb (s + t.sustained_idle) now)) [
        | inl long ↦ rw long (record {
          same = refl;
          stands = (s, refl, (idle, inr h), (idle, inl (leb→le _ _ long, h)));
        })
        | inr short ↦ rw short (record { same = refl; stands = (idle, inr h) })
      ])
      | inr busy ↦ rw busy (record { same = refl; stands = tt })
    ]
    observe-IsTrue now util ready_to_train none (s, e, quiet, long) = cc
    observe-IsTrue now util ready_to_train (some r) (s, e, quiet, long) =
        elim (Bool-cases (is_idle t util)) [
          | inl idle ↦
              let still : Stands ready_to_train (some r) (observed now util ∷ calls) =
                (s, e, (idle, inr quiet), (idle, inr long)) in
              rw idle (elim (Bool-cases (leb (r + t.sustained_idle) now)) [
                | inl l ↦ rw l (record { same = refl; stands = still })
                | inr l ↦ rw l (record { same = refl; stands = still })
              ])
          | inr busy ↦ rw busy (record { same = refl; stands = tt })
        ]

    call-IsTrue :
        (c : Call) (state : IdleState) (since : Option ℕ)
        → Stands state since calls
        → IsTrue (c ∷ calls) (call c (detector state since))
    unfolding call
    call-IsTrue (observed now util) state since h = observe-IsTrue now util state since h
    call-IsTrue (started now) ready_to_train since h = record { same = refl; stands = tt }
    call-IsTrue (started now) active since h = record {
      same = refl;
      stands = Stands-silent (started now) active since calls tt h;
    }
    call-IsTrue (started now) training since h = record { same = refl; stands = tt }
    call-IsTrue (started now) cooldown since h = record { same = refl; stands = h }
    call-IsTrue preempted state since h = record {
      same = refl;
      stands = Stands-silent preempted state since calls tt h;
    }
    call-IsTrue (finished now) training since h = record { same = refl; stands = refl }
    call-IsTrue (finished now) active since h = record {
      same = refl;
      stands = Stands-silent (finished now) active since calls tt h;
    }
    call-IsTrue (finished now) ready_to_train since h = record {
      same = refl;
      stands = Stands-silent (finished now) ready_to_train since calls tt h;
    }
    call-IsTrue (finished now) cooldown since h = record { same = refl; stands = h }

  run-IsTrue : (calls : List Call) → IsTrue calls (run calls (init t))
  unfolding run init
  run-IsTrue [] = record { same = refl; stands = tt }
  run-IsTrue (c ∷ earlier) =
      let d = run earlier (init t) in
      let h : IsTrue earlier d = run-IsTrue earlier in
      subst (λ th. IsTrue (c ∷ earlier) (call c (record d { thresholds = th }))) (sym h.same)
        (call-IsTrue d.training_started_at d.cooldown_until d.preempt_event earlier c d.state
          d.idle_since h.stands)

  ready-quiet :
      (state : IdleState) (since : Option ℕ) (calls : List Call)
      → is_ready state ≡ true
      → Stands state since calls
      → (s : ℕ) × QuietFor s calls
  ready-quiet ready_to_train since calls e (s, _, quiet, long) = (s, long)
  ready-quiet active since calls e h = cc
  ready-quiet training since calls e h = cc
  ready-quiet cooldown since calls e h = cc

  -- Whatever is called on a new detector and in whatever order, if it then says that training should
  -- start, there was an idle observation at some time, no observation since then was busy, and one of
  -- them was made at least the sustained idle time later.
  pub training_waits_for_quiet :
      (calls : List Call)
      → should_start_training (run calls (init t)) ≡ true
      → (since : ℕ) × QuietFor since calls
  training_waits_for_quiet calls e =
      ready-quiet (run calls (init t)).state (run calls (init t)).idle_since calls e
        (run-IsTrue calls).stands

-- No observation is made at the time `end_of` or later.
abbrev pub AllBefore : ℕ → List Call → Type 0
AllBefore end_of [] = Unit
AllBefore end_of (observed now util ∷ earlier) = (now < end_of) × AllBefore end_of earlier
AllBefore end_of (started now ∷ earlier) = AllBefore end_of earlier
AllBefore end_of (preempted ∷ earlier) = AllBefore end_of earlier
AllBefore end_of (finished now ∷ earlier) = AllBefore end_of earlier

abbrev Cools : ℕ → IdleDetector → Type 0
Cools end_of d = (d.state ≡ cooldown) × (d.cooldown_until ≡ some end_of)

run-Cools :
    (end_of : ℕ) (d : IdleDetector) (calls : List Call)
    → Cools end_of d
    → AllBefore end_of calls
    → Cools end_of (run calls d)
unfolding run
run-Cools end_of d [] h early = h
run-Cools end_of d (observed now util ∷ earlier) h early =
    let before = run-Cools end_of d earlier h early.1 in ground (arith, before.0, before.1, early.0)
run-Cools end_of d (started now ∷ earlier) h early =
    let before = run-Cools end_of d earlier h early in ground (arith, before.0, before.1)
run-Cools end_of d (preempted ∷ earlier) h early = run-Cools end_of d earlier h early
run-Cools end_of d (finished now ∷ earlier) h early =
    let before = run-Cools end_of d earlier h early in ground (arith, before.0, before.1)

finish-Cools :
    (end_at : ℕ) (d d' : IdleDetector)
    → finish_training end_at d ≡ some d'
    → Cools (end_at + d.thresholds.cooldown_time) d'
unfolding finish_training
finish-Cools end_at d d' e = ground (arith, e)

-- If a training has finished at some time, then whatever is called next and in whatever order, as
-- long as every observation is earlier than the end of the cooldown, the detector does not say that
-- training should start, and a call that starts training raises.
pub cooldown_refuses :
    (end_at now : ℕ) (d d' : IdleDetector) (calls : List Call)
    → finish_training end_at d ≡ some d'
    → AllBefore (end_at + d.thresholds.cooldown_time) calls
    → (should_start_training (run calls d') ≡ false)
      × (mark_training_started now (run calls d') ≡ none)
unfolding mark_training_started
cooldown_refuses end_at now d d' calls e early =
    let cools = run-Cools _ d' calls (finish-Cools end_at d d' e) early in
    (ground (arith, cools.0), ground (arith, cools.0))
