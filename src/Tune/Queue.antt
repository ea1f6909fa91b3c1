-- ===== src/Tune/Queue.antt =====
-- What the ticks of the loop do to the queue.
use slancha_mesh.Common.{
  ℕ, zero, suc, ◌+◌, String, ◌≡◌, refl, ap, sym, inl, inr, true, false, Option, none, some, List,
  [], ◌∷◌, ◌==◌, arith, get_or, Bool-cases, subst, if◌then◌else◌, some-injective,
}
use slancha_mesh.Tune.Gate.{EvalRow, decide}
use slancha_mesh.Tune.Loop.{
  Experiment, ExperimentResult, LoopRunner, Surroundings, with_status, is_pending, get_elem?,
  set_status, enqueue_all, failed_result, handle_failure, gate_and_act, after_success, conclude,
  run_experiment,
}
use slancha_mesh.Tune.Tick.{Picks}

abbrev pub count_pending : List Experiment → ℕ
count_pending [] = 0
count_pending (s ∷ specs) = if is_pending s then count_pending specs + 1 else count_pending specs

pub none_pending :
    (specs : List Experiment)
    → ((m : ℕ) (x : Experiment) → get_elem? specs m ≡ some x → is_pending x ≡ false)
    → count_pending specs ≡ 0
unfolding get_elem?
none_pending [] h = refl
none_pending (s ∷ specs) h = rw (h 0 s refl) (none_pending specs (λ m x e. h (suc m) x e))

-- A status other than `pending`.
abbrev IsSettled : String → Type 0
IsSettled status = (status == "pending") ≡ false

count_pending-set_status :
    (status : String) (specs : List Experiment) (idx : ℕ) (s : Experiment)
    → IsSettled status
    → get_elem? specs idx ≡ some s
    → is_pending s ≡ true
    → count_pending (set_status status specs idx) + 1 ≡ count_pending specs
unfolding get_elem? set_status
count_pending-set_status status [] idx s settled e pending = cc
count_pending-set_status status (x ∷ specs) zero s settled e pending =
    let same : is_pending x ≡ true =
      subst (λ y. is_pending y ≡ true) (sym (some-injective _ _ e)) pending in
    rw (settled, same) refl
count_pending-set_status status (x ∷ specs) (suc idx) s settled e pending =
    let rest = count_pending-set_status status specs idx s settled e pending in ground (arith, rest)

set_status-twice :
    (a b : String) (specs : List Experiment) (idx : ℕ)
    → set_status b (set_status a specs idx) idx ≡ set_status b specs idx
unfolding set_status
set_status-twice a b [] idx = refl
set_status-twice a b (x ∷ specs) zero = refl
set_status-twice a b (x ∷ specs) (suc idx) = ap (λ l. x ∷ l) (set_status-twice a b specs idx)

-- A run settles the experiment that it ran, in the list that was read before.
abbrev Settles : List Experiment → ℕ → LoopRunner → Type 0
Settles specs idx after =
    (status : String) × IsSettled status × (after.queue ≡ set_status status specs idx)

handle_failure-Settles :
    (specs : List Experiment) (idx : ℕ) (spec : Experiment) (elapsed : ℕ) (r : LoopRunner)
    → Settles specs idx (handle_failure specs idx spec elapsed r).0
unfolding handle_failure
handle_failure-Settles specs idx spec elapsed r = ("failed", refl, ground arith)

after_success-Settles :
    (specs : List Experiment) (idx : ℕ) (spec : Experiment) (checkpoint : Option String)
    (a b : Option EvalRow) (r : LoopRunner)
    → Settles specs idx (after_success specs idx spec checkpoint a b r).0
unfolding after_success gate_and_act
after_success-Settles specs idx spec checkpoint none b r = ("done", refl, refl)
after_success-Settles specs idx spec checkpoint (some a) none r = ("done", refl, refl)
after_success-Settles specs idx spec checkpoint (some a) (some b) r =
    elim (Bool-cases (decide a b r.thresholds none none).accept) [
      | inl e ↦ rw e ("promoted", refl, refl)
      | inr e ↦ rw e ("archived", refl, refl)
    ]

conclude-Settles :
    (specs : List Experiment) (idx : ℕ) (spec : Experiment) (result : ExperimentResult)
    (elapsed : ℕ) (r : LoopRunner)
    → Settles specs idx (conclude specs idx spec result elapsed r).0
unfolding conclude
conclude-Settles specs idx spec result elapsed r = elim (Bool-cases result.succeeded) [
  | inl e ↦ rw e (
      after_success-Settles specs idx spec result.checkpoint result.champion_row
        result.challenger_row (record r { consecutive_fast_fails = 0 }))
  | inr e ↦ rw e (handle_failure-Settles specs idx spec elapsed r)
]

-- A tick on an experiment that is held to be safe takes it off those pending, and no other.
pub run_experiment-count :
    (w : Surroundings) (idx : ℕ) (spec : Experiment) (r : LoopRunner)
    → w.is_safe_to_train spec ≡ true
    → Picks r idx spec
    → count_pending (run_experiment w idx spec r).0.queue + 1 ≡ count_pending r.queue
unfolding run_experiment
run_experiment-count w idx spec r safe picks =
    let specs = set_status "running" r.queue idx in
    let started = with_status "running" spec in
    let (status, settled, queue) =
      conclude-Settles specs idx started (get_or (w.execute started) failed_result) w.elapsed
        (record r { queue = enqueue_all w.enqueued specs }) in
    rw (safe, queue, set_status-twice "running" status r.queue idx)
      (count_pending-set_status status r.queue idx spec settled picks.best.0 picks.best.1)
