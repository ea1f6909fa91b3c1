-- ===== src/Tune/Tick.antt =====
-- The cases of a tick of the loop.
use slancha_mesh.Common.{
  arith, ℕ, ◌≡◌, refl, ap, ◌∙◌, ◌⊎◌, inl, inr, true, false, none, some, Bool-cases,
}
use slancha_mesh.Tune.Pick.{IsBest, pick_pending-cases}
use slancha_mesh.Tune.Loop.{
  Experiment, LoopRunner, Surroundings, paused, idle_wait, is_pending, pick_pending, get_elem?,
  says, run_experiment, run_picked, run_once,
}

-- The experiment that a tick looks at.
pub record Picks (r : LoopRunner) (idx : ℕ) (spec : Experiment) : Type 0 where
  pub not_paused : r.is_paused ≡ false
  pub picked : pick_pending r.queue ≡ some idx
  pub best : IsBest r.queue idx spec

pub run_once-paused :
    (w : Surroundings) (r : LoopRunner) → r.is_paused ≡ true → run_once w r ≡ says paused r
unfolding run_once
run_once-paused w r e = ground (arith, e)

pub run_once-awake :
    (w : Surroundings) (r : LoopRunner)
    → r.is_paused ≡ false
    → run_once w r ≡ run_picked w (pick_pending r.queue) r
unfolding run_once
run_once-awake w r e = ground (arith, e)

run_picked-found :
    (w : Surroundings) (r : LoopRunner) (idx : ℕ) (spec : Experiment)
    → get_elem? r.queue idx ≡ some spec
    → run_picked w (some idx) r ≡ run_experiment w idx spec r
unfolding run_picked
run_picked-found w r idx spec e = rw (e, run_picked) refl

run_picked-none : (w : Surroundings) (r : LoopRunner) → run_picked w none r ≡ says idle_wait r
unfolding run_picked
run_picked-none w r = refl

pub run_once-Picks :
    (w : Surroundings) (r : LoopRunner) (idx : ℕ) (spec : Experiment)
    → Picks r idx spec
    → run_once w r ≡ run_experiment w idx spec r
run_once-Picks w r idx spec picks =
    run_once-awake w r picks.not_paused
    ∙ ap (λ p. run_picked w p r) picks.picked
    ∙ run_picked-found w r idx spec picks.best.0

-- A tick of a paused runner, one that finds nothing pending, and one that looks at an experiment.
pub tick-cases :
    (w : Surroundings) (r : LoopRunner)
    → ((r.is_paused ≡ true) × (run_once w r ≡ says paused r))
      ⊎ ((r.is_paused ≡ false)
          × ((m : ℕ) (x : Experiment) → get_elem? r.queue m ≡ some x → is_pending x ≡ false)
          × (run_once w r ≡ says idle_wait r))
      ⊎ ((idx : ℕ) × (spec : Experiment) × Picks r idx spec
          × (run_once w r ≡ run_experiment w idx spec r))
tick-cases w r = elim (Bool-cases r.is_paused) [
  | inl e ↦ inl (e, run_once-paused w r e)
  | inr e ↦ elim (pick_pending-cases r.queue) [
    | inr (empty, nothing) ↦ inr (
        inl (
          e,
          nothing,
          run_once-awake w r e ∙ ap (λ p. run_picked w p r) empty ∙ run_picked-none w r,
        ))
    | inl (idx, spec, picked, best) ↦
        let picks : Picks r idx spec = record { not_paused = e; picked = picked; best = best } in
        inr (inr (idx, spec, picks, run_once-Picks w r idx spec picks))
  ]
]
