-- ===== src/Tune/Promotion.antt =====
-- When a tick of the loop promotes an experiment.
use slancha_mesh.Common.{ℕ, String, ◌≡◌, true, Option, none, some}
use slancha_mesh.Tune.Gate.{GateThresholds, EvalRow}
use slancha_mesh.Tune.Accept.{Passes}
use slancha_mesh.Tune.Tick.{Picks}
use slancha_mesh.Tune.Loop.{Experiment, ExperimentResult, LoopRunner, Surroundings, with_status}

-- An experiment that was picked, held to be safe, run, and judged better than the champion.
pub record Promotes (w : Surroundings) (r : LoopRunner) (after : LoopRunner) : Type 0 where
  pub idx : ℕ
  pub spec : Experiment
  pub result : ExperimentResult
  pub champion_row : EvalRow
  pub challenger_row : EvalRow
  pub picks : Picks r idx spec
  pub safe : w.is_safe_to_train spec ≡ true
  pub executed : w.execute (with_status "running" spec) ≡ some result
  pub succeeded : result.succeeded ≡ true
  pub passes : Passes champion_row challenger_row r.thresholds none none
  pub recorded : after.champion ≡ some (result.checkpoint, spec.id)

-- Rows that passed the gate, and the pointer that was written for them.
abbrev Accepted : GateThresholds → Experiment → Option String → LoopRunner → Type 0
Accepted t spec checkpoint after =
    (champion_row : EvalRow) × (challenger_row : EvalRow) × Passes champion_row challenger_row t
      none none
    × (after.champion ≡ some (checkpoint, spec.id))
