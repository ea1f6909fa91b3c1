-- ===== src/Tune/Loop.antt =====
-- packages/slancha-mesh-tune/mesh/loop_runner.py: the queue of experiments and one tick of the loop.
-- The run directory is the record of its files. The log is left out, and JSON is.
use slancha_mesh.Common.{
  ℕ, zero, suc, ◌+◌, String, Bool, true, false, Option, none, some, List, [], ◌∷◌, ◌++◌, ltb, leb,
  get_or, if◌then◌else◌, ◌==◌, not, any,
}
use slancha_mesh.Common.Int.{ℤ, pos, ltb_ℤ}
use slancha_mesh.Common.Double.{Double}
use slancha_mesh.Tune.Idle.{IdleDetector, should_start_training}
use slancha_mesh.Tune.Gate.{GateThresholds, EvalRow, Reason, decide}

pub record Experiment : Type 0 where
  pub id : Option String
  pub kind : Option String
  pub status : Option String
  pub priority : Option ℤ

pub record ExperimentResult : Type 0 where
  pub succeeded : Bool
  pub checkpoint : Option String
  pub champion_row : Option EvalRow
  pub challenger_row : Option EvalRow

abbrev pub same_id : Option String → Option String → Bool
same_id (some a) (some b) = a == b
same_id _ _ = false

abbrev pub with_status : String → Experiment → Experiment
with_status status spec = record spec { status = some status }

-- The queue file after `enqueue`, and whether the experiment was added.
unfoldable pub enqueue : Experiment → List Experiment → List Experiment × Bool
enqueue spec specs =
    let pending = with_status (get_or spec.status "pending") spec in
    if any (λ s. same_id spec.id s.id) specs then (specs, false) else (specs ++ pending ∷ [], true)

abbrev pub is_pending : Experiment → Bool
is_pending spec = get_or spec.status "pending" == "pending"

abbrev pub priority_of : Experiment → ℤ
priority_of spec = get_or spec.priority (pos 100)

-- The better of two picks; on a tie the first stays.
abbrev pub better : ℕ × ℤ → Option (ℕ × ℤ) → ℕ × ℤ
better (i, p) none = (i, p)
better (i, p) (some (j, q)) = if ltb_ℤ q p then (j, q) else (i, p)

-- The first pending experiment of the smallest priority, with its index.
unfoldable pub pick_from : ℕ → List Experiment → Option (ℕ × ℤ)
pick_from i [] = none
pick_from i (spec ∷ specs) =
    let later = pick_from (suc i) specs in
    if is_pending spec then some (better (i, priority_of spec) later) else later

abbrev pub index_of : Option (ℕ × ℤ) → Option ℕ
index_of none = none
index_of (some (i, p)) = some i

unfoldable pub pick_pending : List Experiment → Option ℕ
unfolding pick_from
pick_pending specs = index_of (pick_from 0 specs)

unfoldable pub get_elem? : List Experiment → ℕ → Option Experiment
get_elem? [] i = none
get_elem? (spec ∷ specs) zero = some spec
get_elem? (spec ∷ specs) (suc i) = get_elem? specs i

-- specs[idx]["status"] = status
unfoldable pub set_status : String → List Experiment → ℕ → List Experiment
set_status status [] i = []
set_status status (spec ∷ specs) zero = with_status status spec ∷ specs
set_status status (spec ∷ specs) (suc i) = spec ∷ set_status status specs i

pub data Decision : Type 0 where
  circuit_breaker : Option String → ℕ → Decision
  gate_verdict : Option String → Bool → Double → List Reason → Decision

pub data Token : Type 0 where
  paused idle_wait blocked_idle promoted archived ran failed : Token

-- The runner with the files of its directory.
pub record LoopRunner : Type 0 where
  pub thresholds : GateThresholds
  pub fast_fail_time : ℕ
  pub circuit_breaker_threshold : ℕ
  pub consecutive_fast_fails : ℕ
  pub is_paused : Bool
  pub queue : List Experiment
  pub decisions : List Decision
  pub champion : Option (Option String × Option String)
  pub archive : List (Option String × Option String)
  pub status : Token

-- What happens around a tick: the idle predicate, the experiment's outcome, `none` where it raises,
-- how long it took, and what others enqueue while it runs.
pub record Surroundings : Type 0 where
  pub is_safe_to_train : Experiment → Bool
  pub execute : Experiment → Option ExperimentResult
  pub elapsed : ℕ
  pub enqueued : List Experiment

unfoldable pub enqueue_all : List Experiment → List Experiment → List Experiment
unfolding enqueue
enqueue_all [] queue = queue
enqueue_all (spec ∷ specs) queue = enqueue_all specs (enqueue spec queue).0

-- The default predicate: only a `train` experiment waits for the detector.
unfoldable pub default_is_safe_to_train : Option IdleDetector → Experiment → Bool
default_is_safe_to_train detector spec =
    if not (get_or spec.kind "" == "train")
    then true
    else elim detector [ none ↦ false | some d ↦ should_start_training d ]

abbrev pub says : Token → LoopRunner → LoopRunner × Token
says token r = (record r { status = token }, token)

-- An experiment that raised counts as a failed one.
abbrev pub failed_result : ExperimentResult
failed_result = record {
  succeeded = false;
  checkpoint = none;
  champion_row = none;
  challenger_row = none;
}

unfoldable pub handle_failure :
    List Experiment → ℕ → Experiment → ℕ → LoopRunner → LoopRunner × Token
unfolding set_status
handle_failure specs idx spec elapsed r =
    let fails = if ltb elapsed r.fast_fail_time then r.consecutive_fast_fails + 1 else 0 in
    let after = record r {
      queue = set_status "failed" specs idx;
      consecutive_fast_fails = fails;
    } in
    if leb r.circuit_breaker_threshold fails
    then says paused (record after {
      is_paused = true;
      decisions = after.decisions ++ circuit_breaker spec.id fails ∷ [];
    })
    else says failed after

unfoldable pub gate_and_act :
    List Experiment
    → ℕ
    → Experiment
    → Option String
    → EvalRow
    → EvalRow
    → LoopRunner
    → LoopRunner × Token
unfolding decide set_status
gate_and_act specs idx spec checkpoint champion_row challenger_row r =
    let verdict = decide champion_row challenger_row r.thresholds none none in
    let after = record r {
      decisions =
          r.decisions
          ++ gate_verdict spec.id verdict.accept verdict.mean_delta verdict.reject_reasons ∷ [];
    } in
    if verdict.accept
    then says promoted (record after {
      champion = some (checkpoint, spec.id);
      queue = set_status "promoted" specs idx;
    })
    else says archived (record after {
      archive = after.archive ++ (spec.id, checkpoint) ∷ [];
      queue = set_status "archived" specs idx;
    })

-- After a success: the rows are judged, or there is nothing to judge.
unfoldable pub after_success :
    List Experiment
    → ℕ
    → Experiment
    → Option String
    → Option EvalRow
    → Option EvalRow
    → LoopRunner
    → LoopRunner × Token
unfolding gate_and_act set_status
after_success specs idx spec checkpoint (some champion_row) (some challenger_row) r =
    gate_and_act specs idx spec checkpoint champion_row challenger_row r
after_success specs idx spec checkpoint none challenger_row r =
    says ran (record r { queue = set_status "done" specs idx })
after_success specs idx spec checkpoint (some champion_row) none r =
    says ran (record r { queue = set_status "done" specs idx })

-- From the outcome on. The list that was read before the run is what is written.
unfoldable pub conclude :
    List Experiment → ℕ → Experiment → ExperimentResult → ℕ → LoopRunner → LoopRunner × Token
unfolding handle_failure after_success
conclude specs idx spec result elapsed r =
    if not result.succeeded
    then handle_failure specs idx spec elapsed r
    else after_success specs idx spec result.checkpoint result.champion_row result.challenger_row
        (record r { consecutive_fast_fails = 0 })

unfoldable pub run_experiment : Surroundings → ℕ → Experiment → LoopRunner → LoopRunner × Token
unfolding conclude set_status enqueue_all
run_experiment w idx spec r =
    if not (w.is_safe_to_train spec)
    then says blocked_idle r
    else let specs = set_status "running" r.queue idx in
      let started = with_status "running" spec in
      conclude specs idx started (get_or (w.execute started) failed_result) w.elapsed
        (record r { queue = enqueue_all w.enqueued specs })

unfoldable pub run_picked : Surroundings → Option ℕ → LoopRunner → LoopRunner × Token
unfolding run_experiment get_elem?
run_picked w none r = says idle_wait r
run_picked w (some idx) r = elim (get_elem? r.queue idx) [
  | none ↦ says idle_wait r
  | some spec ↦ run_experiment w idx spec r
]

unfoldable pub run_once : Surroundings → LoopRunner → LoopRunner × Token
unfolding run_picked pick_pending
run_once w r = if r.is_paused then says paused r else run_picked w (pick_pending r.queue) r

abbrev pub is_paused_token : Token → Bool
is_paused_token paused = true
is_paused_token _ = false

-- `run_forever(max_ticks)`, with what surrounds each tick, and the number of ticks.
unfoldable pub run_forever : List Surroundings → ℕ → LoopRunner → LoopRunner × ℕ
unfolding run_once
run_forever [] ticks r = (r, ticks)
run_forever (w ∷ ws) ticks r =
    let (r', token) = run_once w r in
    let rest = run_forever ws (ticks + 1) r' in
    if is_paused_token token then (r', ticks + 1) else rest
