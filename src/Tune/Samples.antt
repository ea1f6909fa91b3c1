-- ===== src/Tune/Samples.antt =====
-- A node that falls quiet, an experiment that is promoted on it, and the theorems at them.
use slancha_mesh.Common.{
  ℕ, zero, suc, ap, sym, subst, some-injective, get_or, ◌≤◌, ◌≡◌, refl, ◌↔◌, ◌⊎◌, inl, inr, true,
  false, none, some, List, [], ◌∷◌, arith, keep, any,
}
use slancha_mesh.Common.Dict.{lookup}
use slancha_mesh.Common.Int.{pos, ltb_ℤ, ◌≤ℤ◌}
use slancha_mesh.Common.Double.{decimal, sub_double, neg_double, ltb_double}
use slancha_mesh.Common.Sort.{sort_by}
use slancha_mesh.Models.{NodeUtilization}
use slancha_mesh.Tune.Idle.{
  IdleDetector, default_thresholds, init, Call, observed, run, should_start_training,
  mark_training_started, finish_training, training, cooldown,
}
use slancha_mesh.Tune.Quiet.{QuietFor, cooldown_refuses}
use slancha_mesh.Tune.Gate.{GateThresholds, EvalRow, decide}
use slancha_mesh.Tune.Accept.{Passes, accept_iff}
use slancha_mesh.Tune.Loop.{
  Experiment, ExperimentResult, LoopRunner, Surroundings, promoted, idle_wait, run_once,
  run_forever, pick_pending, get_elem?, priority_of, default_is_safe_to_train,
}
use slancha_mesh.Tune.Tick.{Picks}
use slancha_mesh.Tune.Breaker.{attempts, streak, Counts, breaker_trips_on_streaks}
use slancha_mesh.Tune.Drain.{
  IsDrained, run_forever_drains, enqueued_during_run_is_lost, train_runs_when_quiet,
}

abbrev quiet : NodeUtilization
quiet = record { gpu_util_pct = 2; queue_depth = 0; p95_latency_ms_60s = none }

-- A minute of quiet, the newest call first.
abbrev calls : List Call
calls = observed 70000000 quiet ∷ observed 40000000 quiet ∷ observed 10000000 quiet ∷ []

ready : should_start_training (run calls (init default_thresholds)) ≡ true
unfolding run init
ready = refl

not_yet :
    should_start_training
      (run (observed 69999999 quiet ∷ observed 10000000 quiet ∷ []) (init default_thresholds))
    ≡ false
unfolding run init
not_yet = refl

-- A training that ends.
abbrev trainer : IdleDetector
trainer = record {
  thresholds = default_thresholds;
  state = training;
  idle_since = none;
  training_started_at = some 0;
  cooldown_until = none;
  preempt_event = false;
}

abbrev cooling : IdleDetector
cooling = record trainer {
  state = cooldown;
  training_started_at = none;
  cooldown_until = some 300000100;
}

finished_at_100 : finish_training 100 trainer ≡ some cooling
unfolding finish_training init
finished_at_100 = refl

cooldown_refuses_example :
    (should_start_training (run calls cooling) ≡ false)
    × (mark_training_started 80000000 (run calls cooling) ≡ none)
cooldown_refuses_example =
    cooldown_refuses 100 80000000 trainer cooling calls finished_at_100 (omega arith)

abbrev thresholds : GateThresholds
thresholds = record {
  mean_score_delta = decimal 5 100;
  per_domain_max_regression = decimal 15 100;
  min_n_eval = 100;
  require_judge_match = true;
}

-- Scores in thousandths.
abbrev row : ℕ → ℕ → EvalRow
row mean code = record {
  mean_score = some (decimal mean 1000);
  per_domain_mean = some (("code", decimal code 1000) ∷ []);
  judge_model = some "judge";
  n_eval = some 200;
  meta_stub = some false;
  router_version = none;
}

better_row_accepted : (decide (row 3000 3000) (row 3100 2900) thresholds none none).accept ≡ true
unfolding decide lookup keep sort_by decimal sub_double neg_double ltb_double
better_row_accepted = refl

-- The float difference of 3.05 and 3.0 is below the float 0.05.
lift_at_threshold_rejected :
    (decide (row 3000 3000) (row 3050 3000) thresholds none none).accept ≡ false
unfolding decide lookup keep sort_by decimal sub_double neg_double ltb_double
lift_at_threshold_rejected = refl

cliff_rejected : (decide (row 3000 3000) (row 3100 2800) thresholds none none).accept ≡ false
unfolding decide lookup keep sort_by decimal sub_double neg_double ltb_double
cliff_rejected = refl

accept_iff_example :
    ((decide (row 3000 3000) (row 3100 2900) thresholds none none).accept ≡ true)
    ↔ Passes (row 3000 3000) (row 3100 2900) thresholds none none
accept_iff_example = accept_iff (row 3000 3000) (row 3100 2900) thresholds none none

abbrev experiment : Experiment
experiment = record { id = some "e1"; kind = some "train"; status = none; priority = none }

abbrev urgent : Experiment
urgent = record experiment { id = some "e2"; priority = some (pos 1) }

abbrev runner : LoopRunner
runner = record {
  thresholds = thresholds;
  fast_fail_time = 10000000;
  circuit_breaker_threshold = 5;
  consecutive_fast_fails = 0;
  is_paused = false;
  queue = experiment ∷ urgent ∷ [];
  decisions = [];
  champion = none;
  archive = [];
  status = idle_wait;
}

abbrev better : ExperimentResult
better = record {
  succeeded = true;
  checkpoint = some "checkpoint";
  champion_row = some (row 3000 3000);
  challenger_row = some (row 3100 2900);
}

abbrev around : Surroundings
around = record {
  is_safe_to_train = default_is_safe_to_train (some (run calls (init default_thresholds)));
  execute = λ spec. some better;
  elapsed = 60000000;
  enqueued = [];
}

abbrev always : Surroundings
always = record around { is_safe_to_train = λ s. true }

promoted_by_a_tick : (run_once around runner).1 ≡ promoted
unfolding run_once run init default_is_safe_to_train lookup keep sort_by any ltb_double sub_double
    decimal neg_double
promoted_by_a_tick = refl

-- A runner after four fast failures in a row, and a tick whose experiment raises at once.
abbrev failing : LoopRunner
failing = record runner { consecutive_fast_fails = 4 }

abbrev crash : Surroundings
crash = record around { execute = λ spec. none; elapsed = 3000000 }

streak_of_five : streak 4 (attempts (crash ∷ []) failing) ≡ 5
unfolding streak attempts run run_once pick_pending get_elem? init default_is_safe_to_train any
streak_of_five = refl

breaker_trips_on_streaks_example :
    Counts 5
      (streak 4 (attempts (crash ∷ around ∷ []) failing))
      (run_forever (crash ∷ around ∷ []) 0 failing).0
breaker_trips_on_streaks_example =
    breaker_trips_on_streaks (crash ∷ around ∷ []) 0 failing refl (omega arith)

run_forever_drains_example : IsDrained (run_forever (always ∷ always ∷ []) 0 runner).0
run_forever_drains_example =
    run_forever_drains (always ∷ always ∷ []) 0 runner ((λ s. refl), ((λ s. refl), tt))
      (omega arith)

enqueued_during_run_is_lost_example :
    run_once (record around { enqueued = experiment ∷ [] }) runner ≡ run_once around runner
enqueued_during_run_is_lost_example = enqueued_during_run_is_lost around runner (experiment ∷ [])

urgent_first :
    (m : ℕ) (x : Experiment)
    → get_elem? runner.queue m ≡ some x
    → (ltb_ℤ (pos 1) (priority_of x) ≡ true) ⊎ ((pos 1 ≤ℤ priority_of x) × (1 ≤ m))
unfolding get_elem?
urgent_first zero x e = inl (ap (λ y. ltb_ℤ (pos 1) (priority_of (get_or y experiment))) (sym e))
urgent_first (suc zero) x e = inr (
  subst (λ (y : Experiment). pos 1 ≤ℤ priority_of y) (some-injective _ _ e) (omega arith),
  omega arith,
)
urgent_first (suc (suc m)) x e = cc

Picks-urgent : Picks runner 1 urgent
unfolding pick_pending get_elem?
Picks-urgent = record {
  not_paused = refl;
  picked = refl;
  best = (refl, refl, λ m x e pending. urgent_first m x e);
}

train_runs_when_quiet_example :
    ((run_once around runner).0.queue ≡ runner.queue)
    ⊎ ((since : ℕ) × QuietFor default_thresholds since calls)
train_runs_when_quiet_example =
    train_runs_when_quiet default_thresholds calls around runner 1 urgent refl Picks-urgent refl
