-- ===== src/Tune/Drain.antt =====
-- The loop drains its queue, trains only on a quiet node, and loses what is enqueued while it runs.
use slancha_mesh.Common.{
  ℕ, suc, ◌+◌, ◌≤◌, String, ◌≡◌, refl, ap, sym, ◌∙◌, ◌⊎◌, inl, inr, true, false, Option, none, some,
  List, [], ◌∷◌, arith, get_or, Bool-cases, Option-cases, eq_refl, All, length,
}
use slancha_mesh.Tune.Gate.{EvalRow, decide}
use slancha_mesh.Tune.Idle.{IdleThresholds, IdleDetector, Call, init, run, should_start_training}
use slancha_mesh.Tune.Quiet.{QuietFor, training_waits_for_quiet}
use slancha_mesh.Tune.Loop.{
  Experiment, ExperimentResult, LoopRunner, Surroundings, Token, with_status, set_status,
  enqueue_all, failed_result, handle_failure, gate_and_act, after_success, conclude, run_experiment,
  run_picked, pick_pending, get_elem?, run_once, run_forever, is_paused_token,
  default_is_safe_to_train,
}
use slancha_mesh.Tune.Tick.{Picks, run_once-paused, run_once-awake, run_once-Picks, tick-cases}
use slancha_mesh.Tune.Queue.{count_pending, none_pending, run_experiment-count}

-- A tick that says `paused` leaves the runner paused.
abbrev Honest : LoopRunner × Token → Type 0
Honest x = is_paused_token x.1 ≡ true → x.0.is_paused ≡ true

handle_failure-Honest :
    (specs : List Experiment) (idx : ℕ) (spec : Experiment) (elapsed : ℕ) (r : LoopRunner)
    → Honest (handle_failure specs idx spec elapsed r)
unfolding handle_failure
handle_failure-Honest specs idx spec elapsed r e = ground (arith, e)

after_success-Honest :
    (specs : List Experiment) (idx : ℕ) (spec : Experiment) (checkpoint : Option String)
    (a b : Option EvalRow) (r : LoopRunner)
    → Honest (after_success specs idx spec checkpoint a b r)
unfolding after_success gate_and_act
after_success-Honest specs idx spec checkpoint none b r e = cc
after_success-Honest specs idx spec checkpoint (some a) none r e = cc
after_success-Honest specs idx spec checkpoint (some a) (some b) r e = ground (arith, e)

run_experiment-Honest :
    (w : Surroundings) (idx : ℕ) (spec : Experiment) (r : LoopRunner)
    → Honest (run_experiment w idx spec r)
unfolding run_experiment conclude
run_experiment-Honest w idx spec r =
    let specs = set_status "running" r.queue idx in
    let started = with_status "running" spec in
    let result = get_or (w.execute started) failed_result in
    let before = record r { queue = enqueue_all w.enqueued specs } in
    elim (Bool-cases (w.is_safe_to_train spec)) [
      | inr held ↦ rw held (λ e. cc)
      | inl safe ↦ rw safe (elim (Bool-cases result.succeeded) [
        | inl ok ↦ rw ok (
            after_success-Honest specs idx started result.checkpoint result.champion_row
              result.challenger_row (record before { consecutive_fast_fails = 0 }))
        | inr ko ↦ rw ko (handle_failure-Honest specs idx started w.elapsed before)
      ])
    ]

run_once-Honest : (w : Surroundings) (r : LoopRunner) → Honest (run_once w r)
run_once-Honest w r = elim (tick-cases w r) [
  | inl (paused, same) ↦ rw same (λ _. paused)
  | inr (inl (awake, nothing, same)) ↦ rw same (λ e. cc)
  | inr (inr (idx, spec, picks, same)) ↦ rw same (run_experiment-Honest w idx spec r)
]

abbrev IsSafe : Surroundings → Type 0
IsSafe w = (s : Experiment) → w.is_safe_to_train s ≡ true

run_once-count :
    (w : Surroundings) (r : LoopRunner) (n : ℕ)
    → IsSafe w
    → count_pending r.queue ≤ suc n
    → (count_pending (run_once w r).0.queue ≤ n) ⊎ (is_paused_token (run_once w r).1 ≡ true)
run_once-count w r n safe h = elim (tick-cases w r) [
  | inl (paused, same) ↦ rw same (inr refl)
  | inr (inl (awake, nothing, same)) ↦ rw same (inl (omega (arith, none_pending r.queue nothing)))
  | inr (inr (idx, spec, picks, same)) ↦
      rw same (inl (omega (arith, run_experiment-count w idx spec r (safe spec) picks)))
]

abbrev pub IsDrained : LoopRunner → Type 0
IsDrained r = (r.is_paused ≡ true) ⊎ (count_pending r.queue ≡ 0)

-- If every experiment is held to be safe in each of the ticks that follow, and these are at least as
-- many as the experiments that are pending, then afterwards the runner is paused or none is pending.
pub run_forever_drains :
    (ws : List Surroundings) (ticks : ℕ) (r : LoopRunner)
    → All IsSafe ws
    → count_pending r.queue ≤ length ws
    → IsDrained (run_forever ws ticks r).0
unfolding run_forever
run_forever_drains [] ticks r safe h = inr (omega arith)
run_forever_drains (w ∷ ws) ticks r safe h = elim (Bool-cases (is_paused_token (run_once w r).1)) [
  | inl e ↦ rw e (inl (run_once-Honest w r e))
  | inr e ↦ rw e (elim (run_once-count w r (length ws) safe.0 h) [
    | inl fewer ↦ run_forever_drains ws (ticks + 1) (run_once w r).0 safe.1 fewer
    | inr paused ↦ absurd (ground (arith, e, paused))
  ])
]

after_success_overwrites :
    (specs : List Experiment) (idx : ℕ) (spec : Experiment) (checkpoint : Option String)
    (a b : Option EvalRow) (r : LoopRunner) (q : List Experiment)
    → after_success specs idx spec checkpoint a b (record r { queue = q })
      ≡ after_success specs idx spec checkpoint a b r
unfolding after_success gate_and_act
after_success_overwrites specs idx spec checkpoint none b r q = refl
after_success_overwrites specs idx spec checkpoint (some a) none r q = refl
after_success_overwrites specs idx spec checkpoint (some a) (some b) r q =
    elim (Bool-cases (decide a b r.thresholds none none).accept) [
      | inl e ↦ rw e refl
      | inr e ↦ rw e refl
    ]

handle_failure_overwrites :
    (specs : List Experiment) (idx : ℕ) (spec : Experiment) (elapsed : ℕ) (r : LoopRunner)
    (q : List Experiment)
    → handle_failure specs idx spec elapsed (record r { queue = q })
      ≡ handle_failure specs idx spec elapsed r
unfolding handle_failure
handle_failure_overwrites specs idx spec elapsed r q = refl

-- What stands in the queue file when an experiment ends does not matter.
conclude_overwrites :
    (specs : List Experiment) (idx : ℕ) (spec : Experiment) (result : ExperimentResult)
    (elapsed : ℕ) (r : LoopRunner) (q : List Experiment)
    → conclude specs idx spec result elapsed (record r { queue = q })
      ≡ conclude specs idx spec result elapsed r
unfolding conclude
conclude_overwrites specs idx spec result elapsed r q = elim (Bool-cases result.succeeded) [
  | inl e ↦ rw e (
      after_success_overwrites specs idx spec result.checkpoint result.champion_row
        result.challenger_row (record r { consecutive_fast_fails = 0 }) q)
  | inr e ↦ rw e (handle_failure_overwrites specs idx spec elapsed r q)
]

run_experiment_overwrites :
    (w : Surroundings) (idx : ℕ) (spec : Experiment) (r : LoopRunner) (more : List Experiment)
    → run_experiment (record w { enqueued = more }) idx spec r ≡ run_experiment w idx spec r
unfolding run_experiment
run_experiment_overwrites w idx spec r more =
    let specs = set_status "running" r.queue idx in
    let started = with_status "running" spec in
    let result = get_or (w.execute started) failed_result in
    elim (Bool-cases (w.is_safe_to_train spec)) [
      | inr held ↦ rw held refl
      | inl safe ↦ rw safe (
          conclude_overwrites specs idx started result w.elapsed r (enqueue_all more specs)
          ∙ sym (
              conclude_overwrites specs idx started result w.elapsed r
                (enqueue_all w.enqueued specs)))
    ]

run_picked_overwrites :
    (w : Surroundings) (p : Option ℕ) (r : LoopRunner) (more : List Experiment)
    → run_picked (record w { enqueued = more }) p r ≡ run_picked w p r
unfolding run_picked
run_picked_overwrites w none r more = refl
run_picked_overwrites w (some idx) r more = elim (Option-cases (get_elem? r.queue idx)) [
  | inl missing ↦ rw (missing, run_picked) refl
  | inr (spec, found) ↦ rw (found, run_picked) (run_experiment_overwrites w idx spec r more)
]

-- Whatever is enqueued while a tick runs its experiment, the tick leaves the same queue and the same
-- state, so that what was enqueued is lost.
pub enqueued_during_run_is_lost :
    (w : Surroundings) (r : LoopRunner) (more : List Experiment)
    → run_once (record w { enqueued = more }) r ≡ run_once w r
enqueued_during_run_is_lost w r more =
    let w' = record w { enqueued = more } in
    elim (Bool-cases r.is_paused) [
      | inl e ↦ run_once-paused w' r e ∙ sym (run_once-paused w r e)
      | inr e ↦
          run_once-awake w' r e
          ∙ run_picked_overwrites w (pick_pending r.queue) r more
          ∙ sym (run_once-awake w r e)
    ]

run_experiment-held :
    (w : Surroundings) (idx : ℕ) (spec : Experiment) (r : LoopRunner)
    → w.is_safe_to_train spec ≡ false
    → (run_experiment w idx spec r).0.queue ≡ r.queue
unfolding run_experiment
run_experiment-held w idx spec r held = rw held refl

safe-ready :
    (d : IdleDetector) (spec : Experiment)
    → spec.kind ≡ some "train"
    → default_is_safe_to_train (some d) spec ≡ true
    → should_start_training d ≡ true
unfolding default_is_safe_to_train
safe-ready d spec e h = rw (e, eq_refl "train") at h

-- If the runner asks the idle detector, and the experiment that a tick picks is one that trains, then
-- the tick leaves the queue as it is, or the detector had observed a node that stayed idle for the
-- sustained idle time up to then.
pub train_runs_when_quiet :
    (t : IdleThresholds) (calls : List Call) (w : Surroundings) (r : LoopRunner) (idx : ℕ)
    (spec : Experiment)
    → w.is_safe_to_train ≡ default_is_safe_to_train (some (run calls (init t)))
    → Picks r idx spec
    → spec.kind ≡ some "train"
    → ((run_once w r).0.queue ≡ r.queue) ⊎ ((since : ℕ) × QuietFor t since calls)
train_runs_when_quiet t calls w r idx spec asks picks train =
    let d = run calls (init t) in
    elim (Bool-cases (default_is_safe_to_train (some d) spec)) [
      | inl safe ↦ inr (training_waits_for_quiet t calls (safe-ready d spec train safe))
      | inr held ↦ inl (
          ap (λ x. x.0.queue) (run_once-Picks w r idx spec picks)
          ∙ run_experiment-held w idx spec r (ap (λ f. f spec) asks ∙ held))
    ]
