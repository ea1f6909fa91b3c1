-- ===== src/Tune/Idle.antt =====
-- packages/slancha-mesh-tune/mesh/idle.py: when a node has been quiet for long enough to train.
-- Times and durations are microseconds.
use slancha_mesh.Common.{
  ℕ, ◌+◌, Bool, true, false, Option, none, some, List, [], ◌∷◌, ltb, leb, if◌then◌else◌, ◌&&◌,
  get_or,
}
use slancha_mesh.Models.{NodeUtilization, HealthState, healthy, training as training_health}

pub data IdleState : Type 0 where
  active ready_to_train training cooldown : IdleState

pub record IdleThresholds : Type 0 where
  pub gpu_idle_threshold_pct : ℕ
  pub queue_idle_threshold : ℕ
  pub sustained_idle : ℕ
  pub cooldown_time : ℕ

pub record IdleDetector : Type 0 where
  pub thresholds : IdleThresholds
  pub state : IdleState
  pub idle_since : Option ℕ
  pub training_started_at : Option ℕ
  pub cooldown_until : Option ℕ
  pub preempt_event : Bool

abbrev pub default_thresholds : IdleThresholds
default_thresholds = record {
  gpu_idle_threshold_pct = 10;
  queue_idle_threshold = 0;
  sustained_idle = 60000000;
  cooldown_time = 300000000;
}

unfoldable pub init : IdleThresholds → IdleDetector
init thresholds = record {
  thresholds = thresholds;
  state = active;
  idle_since = none;
  training_started_at = none;
  cooldown_until = none;
  preempt_event = false;
}

abbrev pub is_idle : IdleThresholds → NodeUtilization → Bool
is_idle t util =
    ltb util.gpu_util_pct t.gpu_idle_threshold_pct && leb util.queue_depth t.queue_idle_threshold

-- `now < until`, where there is an end.
abbrev pub still_cooling : ℕ → Option ℕ → Bool
still_cooling now none = false
still_cooling now (some end_of) = ltb now end_of

-- The idle branch of a state that is active or ready, on the start of the idle window.
unfoldable pub lengthen : ℕ → Option ℕ → IdleDetector → IdleDetector
lengthen now none d = record d { idle_since = some now }
lengthen now (some since) d =
    if leb (since + d.thresholds.sustained_idle) now then record d { state = ready_to_train } else d

-- An active or ready state.
unfoldable pub observe_awake : ℕ → Bool → IdleDetector → IdleDetector
unfolding lengthen
observe_awake now idle d =
    if idle then lengthen now d.idle_since d else record d { idle_since = none; state = active }

unfoldable pub observe_cooling : ℕ → Bool → IdleDetector → IdleDetector
observe_cooling now idle d = if still_cooling now d.cooldown_until then d else record d {
  state = active;
  cooldown_until = none;
  idle_since = if idle then some now else none;
}

unfoldable pub observe_in : IdleState → ℕ → Bool → IdleDetector → IdleDetector
unfolding observe_awake observe_cooling
observe_in cooldown now idle d = observe_cooling now idle d
observe_in training now idle d = d
observe_in active now idle d = observe_awake now idle d
observe_in ready_to_train now idle d = observe_awake now idle d

unfoldable pub observe : ℕ → NodeUtilization → IdleDetector → IdleDetector
unfolding observe_in
observe now util d = observe_in d.state now (is_idle d.thresholds util) d

abbrev pub is_ready : IdleState → Bool
is_ready ready_to_train = true
is_ready _ = false

abbrev pub is_training : IdleState → Bool
is_training training = true
is_training _ = false

abbrev pub should_start_training : IdleDetector → Bool
should_start_training d = is_ready d.state

-- `none` is the RuntimeError, which leaves the detector as it is.
unfoldable pub mark_training_started : ℕ → IdleDetector → Option IdleDetector
mark_training_started now d =
    if is_ready d.state
    then some (record d { state = training; training_started_at = some now; preempt_event = false })
    else none

unfoldable pub signal_preempt : IdleDetector → IdleDetector
signal_preempt d = record d { preempt_event = true }

unfoldable pub finish_training : ℕ → IdleDetector → Option IdleDetector
finish_training now d =
    if is_training d.state
    then some (record d {
      state = cooldown;
      cooldown_until = some (now + d.thresholds.cooldown_time);
      training_started_at = none;
      idle_since = none;
    })
    else none

unfoldable pub health : IdleDetector → HealthState
health d = if is_training d.state then training_health else healthy

-- The calls on a detector, the newest first in a run.
pub data Call : Type 0 where
  observed : ℕ → NodeUtilization → Call
  started : ℕ → Call
  preempted : Call
  finished : ℕ → Call

unfoldable pub call : Call → IdleDetector → IdleDetector
unfolding observe mark_training_started signal_preempt finish_training
call (observed now util) d = observe now util d
call (started now) d = get_or (mark_training_started now d) d
call preempted d = signal_preempt d
call (finished now) d = get_or (finish_training now d) d

unfoldable pub run : List Call → IdleDetector → IdleDetector
unfolding call
run [] d = d
run (c ∷ earlier) d = call c (run earlier d)
