-- ===== src/Tune/Breaker.antt =====
-- The circuit breaker of the loop: it trips on a streak of fast failures, and on nothing else.
use slancha_mesh.Common.{
  ℕ, ◌+◌, ◌<◌, ◌≤◌, String, ◌≡◌, refl, ap, sym, subst, ◌∙◌, ◌⊎◌, inl, inr, Bool, true, false,
  Option, none, some, List, [], ◌∷◌, arith, ltb, leb, get_or, Bool-cases, Option-cases, leb→gt,
  leb→le, if◌then◌else◌, In, In-append_right,
}
use slancha_mesh.Tune.Gate.{EvalRow, decide}
use slancha_mesh.Tune.Tick.{run_once-awake}
use slancha_mesh.Tune.Loop.{
  Experiment, ExperimentResult, LoopRunner, Surroundings, Token, circuit_breaker, with_status,
  set_status, enqueue_all, failed_result, handle_failure, gate_and_act, after_success, conclude,
  run_experiment, run_picked, run_once, run_forever, is_paused_token, pick_pending, get_elem?, says,
  idle_wait, blocked_idle,
}

-- What a tick does to an experiment, as an operator sees it.
pub data Attempt : Type 0 where
  not_run failed_fast failed_slowly succeeded : Attempt

-- By the outcome of the experiment and how long it took.
abbrev attempt_of : Bool → Bool → Attempt
attempt_of true is_fast = succeeded
attempt_of false true = failed_fast
attempt_of false false = failed_slowly

abbrev attempt_at : Surroundings → ℕ → Option Experiment → Attempt
attempt_at w fast_fail_time none = not_run
attempt_at w fast_fail_time (some spec) =
    if w.is_safe_to_train spec
    then attempt_of (get_or (w.execute (with_status "running" spec)) failed_result).succeeded
        (ltb w.elapsed fast_fail_time)
    else not_run

abbrev picked_spec : List Experiment → Option ℕ → Option Experiment
picked_spec queue none = none
picked_spec queue (some idx) = get_elem? queue idx

-- The attempt of a tick of a runner that is not paused.
abbrev pub attempt : Surroundings → LoopRunner → Attempt
attempt w r = attempt_at w r.fast_fail_time (picked_spec r.queue (pick_pending r.queue))

-- The attempts of a loop, up to the tick that pauses it.
unfoldable pub attempts : List Surroundings → LoopRunner → List Attempt
attempts [] r = []
attempts (w ∷ ws) r =
    let later = attempts ws (run_once w r).0 in
    attempt w r ∷ (if is_paused_token (run_once w r).1 then [] else later)

-- The fast failures at the end of a list of attempts, after n of them: a tick that runs nothing does
-- not end a streak, any other outcome does.
abbrev one_more : ℕ → Attempt → ℕ
one_more n not_run = n
one_more n failed_fast = n + 1
one_more n failed_slowly = 0
one_more n succeeded = 0

unfoldable pub streak : ℕ → List Attempt → ℕ
streak n [] = n
streak n (a ∷ later) = streak (one_more n a) later

-- The runner counts a streak of n; it is below the threshold and the runner is not paused, or it has
-- reached the threshold, and the runner is paused and has put that on record.
abbrev pub Counts : ℕ → ℕ → LoopRunner → Type 0
Counts threshold n r =
    (r.consecutive_fast_fails ≡ n)
    × (((r.is_paused ≡ false) × (n < threshold))
        ⊎ ((r.is_paused ≡ true)
            × (threshold ≤ n)
            × (id : Option String) × In (circuit_breaker id n) r.decisions))

module _ (threshold : ℕ) where
  -- What a tick leaves, and the token it returns.
  record Ticked (n : ℕ) (x : LoopRunner × Token) : Type 0 where
    same : x.0.circuit_breaker_threshold ≡ threshold
    counts : Counts threshold n x.0
    token : is_paused_token x.1 ≡ x.0.is_paused

  handle_failure-Ticked :
      (specs : List Experiment) (idx : ℕ) (spec : Experiment) (elapsed : ℕ) (r : LoopRunner)
      → r.circuit_breaker_threshold ≡ threshold
      → r.is_paused ≡ false
      → Ticked
          (one_more r.consecutive_fast_fails (attempt_of false (ltb elapsed r.fast_fail_time)))
          (handle_failure specs idx spec elapsed r)
  unfolding handle_failure
  handle_failure-Ticked specs idx spec elapsed r same awake =
      let fails = if ltb elapsed r.fast_fail_time then r.consecutive_fast_fails + 1 else 0 in
      let counted : fails
          ≡ one_more r.consecutive_fast_fails (attempt_of false (ltb elapsed r.fast_fail_time)) =
        elim (Bool-cases (ltb elapsed r.fast_fail_time)) [
          | inl e ↦ rw e refl
          | inr e ↦ rw e refl
        ] in
      elim (Bool-cases (leb r.circuit_breaker_threshold fails)) [
        | inl over ↦ rw over (record {
          same = same;
          counts = (
            counted,
            inr (
              refl,
              subst (λ n. threshold ≤ n) counted (subst (λ t. t ≤ fails) same (leb→le _ _ over)),
              spec.id,
              In-append_right _ r.decisions (circuit_breaker spec.id fails ∷ [])
                  (inl (ap (circuit_breaker spec.id) counted)),
            ),
          );
          token = refl;
        })
        | inr under ↦ rw under (record {
          same = same;
          counts = (
            counted,
            inl (
              awake,
              subst (λ n. n < threshold) counted (subst (λ t. fails < t) same (leb→gt _ _ under)),
            ),
          );
          token = sym awake;
        })
      ]

  gate_and_act-Ticked :
      {n : ℕ} (specs : List Experiment) (idx : ℕ) (spec : Experiment) (checkpoint : Option String)
      (a b : EvalRow) (r : LoopRunner)
      → r.circuit_breaker_threshold ≡ threshold
      → (r.consecutive_fast_fails ≡ n) × (n < threshold)
      → r.is_paused ≡ false
      → Ticked n (gate_and_act specs idx spec checkpoint a b r)
  unfolding gate_and_act
  gate_and_act-Ticked specs idx spec checkpoint a b r same (counted, below) awake =
      elim (Bool-cases (decide a b r.thresholds none none).accept) [
        | inl e ↦
            rw e (record { same = same; counts = (counted, inl (awake, below)); token = sym awake })
        | inr e ↦
            rw e (record { same = same; counts = (counted, inl (awake, below)); token = sym awake })
      ]

  after_success-Ticked :
      (specs : List Experiment) (idx : ℕ) (spec : Experiment) (checkpoint : Option String)
      (a b : Option EvalRow) (r : LoopRunner)
      → 0 < threshold
      → r.circuit_breaker_threshold ≡ threshold
      → r.is_paused ≡ false
      → Ticked 0
          (after_success specs idx spec checkpoint a b (record r { consecutive_fast_fails = 0 }))
  unfolding after_success
  after_success-Ticked specs idx spec checkpoint none b r positive same awake = record {
    same = same;
    counts = (refl, inl (awake, positive));
    token = sym awake;
  }
  after_success-Ticked specs idx spec checkpoint (some a) none r positive same awake = record {
    same = same;
    counts = (refl, inl (awake, positive));
    token = sym awake;
  }
  after_success-Ticked specs idx spec checkpoint (some a) (some b) r positive same awake =
      gate_and_act-Ticked specs idx spec checkpoint a b (record r { consecutive_fast_fails = 0 })
        same (refl, positive) awake

  conclude-Ticked :
      (specs : List Experiment) (idx : ℕ) (spec : Experiment) (result : ExperimentResult)
      (elapsed : ℕ) (r : LoopRunner)
      → 0 < threshold
      → r.circuit_breaker_threshold ≡ threshold
      → r.is_paused ≡ false
      → Ticked
          (one_more r.consecutive_fast_fails
            (attempt_of result.succeeded (ltb elapsed r.fast_fail_time)))
          (conclude specs idx spec result elapsed r)
  unfolding conclude
  conclude-Ticked specs idx spec result elapsed r positive same awake =
      elim (Bool-cases result.succeeded) [
        | inl ok ↦ rw ok (
            after_success-Ticked specs idx spec result.checkpoint result.champion_row
              result.challenger_row r positive same awake)
        | inr ko ↦ rw ko (handle_failure-Ticked specs idx spec elapsed r same awake)
      ]

  -- A tick that runs nothing.
  waits :
      (token : Token) (r : LoopRunner)
      → is_paused_token token ≡ false
      → r.circuit_breaker_threshold ≡ threshold
      → (r.is_paused ≡ false) × (r.consecutive_fast_fails < threshold)
      → Ticked r.consecutive_fast_fails (says token r)
  waits token r quiet same (awake, below) = record {
    same = same;
    counts = (refl, inl (awake, below));
    token = quiet ∙ sym awake;
  }

  run_experiment-Ticked :
      (w : Surroundings) (idx : ℕ) (spec : Experiment) (r : LoopRunner)
      → 0 < threshold
      → r.circuit_breaker_threshold ≡ threshold
      → (r.is_paused ≡ false) × (r.consecutive_fast_fails < threshold)
      → Ticked
          (one_more r.consecutive_fast_fails (attempt_at w r.fast_fail_time (some spec)))
          (run_experiment w idx spec r)
  unfolding run_experiment
  run_experiment-Ticked w idx spec r positive same (awake, below) =
      elim (Bool-cases (w.is_safe_to_train spec)) [
        | inr held ↦ rw held (waits blocked_idle r refl same (awake, below))
        | inl safe ↦ rw safe (
            conclude-Ticked (set_status "running" r.queue idx) idx (with_status "running" spec)
              (get_or (w.execute (with_status "running" spec)) failed_result) w.elapsed
              (record r { queue = enqueue_all w.enqueued (set_status "running" r.queue idx) })
              positive same awake)
      ]

  run_picked-Ticked :
      (w : Surroundings) (picked : Option ℕ) (r : LoopRunner)
      → 0 < threshold
      → r.circuit_breaker_threshold ≡ threshold
      → (r.is_paused ≡ false) × (r.consecutive_fast_fails < threshold)
      → Ticked
          (one_more r.consecutive_fast_fails
            (attempt_at w r.fast_fail_time (picked_spec r.queue picked)))
          (run_picked w picked r)
  unfolding run_picked
  run_picked-Ticked w none r positive same start = waits idle_wait r refl same start
  run_picked-Ticked w (some idx) r positive same start =
      elim (Option-cases (get_elem? r.queue idx)) [
        | inl e ↦ rw (run_picked, e) (waits idle_wait r refl same start)
        | inr (spec, e) ↦
            rw (run_picked, e) (run_experiment-Ticked w idx spec r positive same start)
      ]

  run_once-Ticked :
      (w : Surroundings) (r : LoopRunner)
      → 0 < threshold
      → r.circuit_breaker_threshold ≡ threshold
      → (r.is_paused ≡ false) × (r.consecutive_fast_fails < threshold)
      → Ticked (one_more r.consecutive_fast_fails (attempt w r)) (run_once w r)
  run_once-Ticked w r positive same start =
      subst (Ticked (one_more r.consecutive_fast_fails (attempt w r)))
        (sym (run_once-awake w r start.0))
        (run_picked-Ticked w (pick_pending r.queue) r positive same start)

  run_forever-Counts :
      (ws : List Surroundings) (ticks : ℕ) (r : LoopRunner)
      → 0 < threshold
      → r.circuit_breaker_threshold ≡ threshold
      → (r.is_paused ≡ false) × (r.consecutive_fast_fails < threshold)
      → Counts threshold
          (streak r.consecutive_fast_fails (attempts ws r))
          (run_forever ws ticks r).0
  unfolding run_forever attempts streak
  run_forever-Counts [] ticks r positive same (awake, below) = (refl, inl (awake, below))
  run_forever-Counts (w ∷ ws) ticks r positive same start =
      let step = run_once-Ticked w r positive same start in
      elim step.counts.1 [
        | inr (stopped, reached, id, i) ↦
            rw (step.token ∙ stopped) (step.counts.0, inr (stopped, reached, id, i))
        | inl (awake, below) ↦ rw (step.token ∙ awake) (
            subst
              (λ n.
                Counts threshold (streak n (attempts ws (run_once w r).0))
                  (run_forever ws (ticks + 1) (run_once w r).0).0)
              step.counts.0
              (run_forever-Counts ws (ticks + 1) (run_once w r).0 positive step.same
                (awake, subst (λ n. n < threshold) (sym step.counts.0) below)))
      ]

-- From a runner that is not paused and counts fewer fast failures in a row than its threshold, after
-- any number of ticks, it counts the fast failures since the last experiment that ended otherwise.
-- If these are fewer than the threshold, it is not paused; if not, it is, and a decision of the breaker
-- with that number is on record. A tick that runs no experiment does not end a streak, and a
-- loop ends with the tick that pauses it.
pub breaker_trips_on_streaks :
    (ws : List Surroundings) (ticks : ℕ) (r : LoopRunner)
    → r.is_paused ≡ false
    → r.consecutive_fast_fails < r.circuit_breaker_threshold
    → Counts r.circuit_breaker_threshold
        (streak r.consecutive_fast_fails (attempts ws r))
        (run_forever ws ticks r).0
breaker_trips_on_streaks ws ticks r awake below =
    run_forever-Counts r.circuit_breaker_threshold ws ticks r (omega (arith, below)) refl
      (awake, below)
