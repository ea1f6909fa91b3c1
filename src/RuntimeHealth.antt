-- ===== src/RuntimeHealth.antt =====
-- mesh/runtime_health.py: the router's circuit breakers, one for each specialist/node binding.
-- Each method takes the value `now` that its call of the clock returns and the state that the lock
-- guards, and returns the new state, its result before it. Times count the clock's ticks.
pub mod Bounds
pub mod Trace
pub mod Eviction
pub mod Refinement
pub mod Isolation
pub mod Probe
pub mod Report
pub mod Samples
use Prim.Native.String.{◌++◌}
use slancha_mesh.Common.{
  ℕ, zero, suc, ◌+◌, ◌-◌, String, Bool, true, false, ◌&&◌, ◌||◌, Option, none, some, List, [], ◌∷◌,
  ltb, leb, eqb, str_lt, if◌then◌else◌, length, is_empty,
}
use slancha_mesh.Common.Dict.{Assoc, lookup, insert, remove}
use slancha_mesh.Common.Int.{ℤ, pos_part}

unfoldable pub binding_key : String → String → String
binding_key specialist_id node_id = specialist_id ++ "@" ++ node_id

-- The values of the `state` field; the source's "open" is `opened` here.
pub data Circuit : Type 0 where
  closed opened half_open : Circuit

pub record BindingState : Type 0 where
  pub state : Circuit
  pub consecutive_failures : ℕ
  pub opened_at : Option ℕ
  pub last_touched : ℕ
  pub last_success_at : Option ℕ
  pub last_latency_ms : Option ℕ
  pub last_failure_class : String

-- `_BindingState(last_touched=now)`
abbrev pub new_binding : ℕ → BindingState
new_binding now = record {
  state = closed;
  consecutive_failures = 0;
  opened_at = none;
  last_touched = now;
  last_success_at = none;
  last_latency_ms = none;
  last_failure_class = "";
}

pub record RouterRuntimeHealth : Type 0 where
  pub failure_threshold : ℕ
  pub cooldown_s : ℕ
  pub max_bindings : ℕ
  pub bindings : Assoc BindingState
  pub requests_succeeded : ℕ
  pub requests_failed : ℕ
  pub client_errors : ℕ
  pub punts : ℕ

pub data InitError : Type 0 where
  bad_failure_threshold bad_cooldown bad_max_bindings : InitError

pub data InitResult : Type 0 where
  initialised : RouterRuntimeHealth → InitResult
  value_error : InitError → InitResult

-- `__init__` with its checks.
unfoldable pub init : ℕ → ℕ → ℕ → InitResult
init failure_threshold cooldown_s max_bindings =
    if ltb failure_threshold 1
    then value_error bad_failure_threshold
    else if leb cooldown_s 0
    then value_error bad_cooldown
    else if ltb max_bindings 1
    then value_error bad_max_bindings
    else initialised (record {
      failure_threshold = failure_threshold;
      cooldown_s = cooldown_s;
      max_bindings = max_bindings;
      bindings = [];
      requests_succeeded = 0;
      requests_failed = 0;
      client_errors = 0;
      punts = 0;
    })

abbrev pub is_closed : Circuit → Bool
is_closed closed = true
is_closed _ = false

abbrev pub is_half_open : Circuit → Bool
is_half_open half_open = true
is_half_open _ = false

-- The order of the tuples `(last_touched, key)`.
abbrev pub precedes : ℕ × String → ℕ × String → Bool
precedes (t, k) (u, j) = ltb t u || eqb t u && str_lt k j

-- `min` of a non-empty list: the first of the least ones.
unfoldable pub min_from : ℕ × String → List (ℕ × String) → ℕ × String
min_from best [] = best
min_from best (c ∷ rest) = min_from (if precedes c best then c else best) rest

unfoldable pub closed_candidates : Assoc BindingState → List (ℕ × String)
closed_candidates [] = []
closed_candidates ((k, s) ∷ m) =
    let rest = closed_candidates m in if is_closed s.state then (s.last_touched, k) ∷ rest else rest

unfoldable pub all_candidates : Assoc BindingState → List (ℕ × String)
all_candidates [] = []
all_candidates ((k, s) ∷ m) = (s.last_touched, k) ∷ all_candidates m

-- The key of the least candidate. Python's `min` raises on no candidate, and so does the model
-- answer `none`; there is one wherever there is a binding.
abbrev pub min_key : List (ℕ × String) → Option String
min_key [] = none
min_key (c ∷ rest) = some (min_from c rest).1

-- The closed candidates if there are any, and else all.
unfoldable pub candidates : Assoc BindingState → List (ℕ × String)
unfolding closed_candidates all_candidates
candidates m =
    let only_closed = closed_candidates m in
    if is_empty only_closed then all_candidates m else only_closed

unfoldable pub victim : Assoc BindingState → Option String
unfolding candidates
victim m = min_key (candidates m)

-- `del self._bindings[evicted]`
unfoldable pub drop_key : Option String → Assoc BindingState → Assoc BindingState
drop_key none m = m
drop_key (some evicted) m = remove evicted m

unfoldable pub evict : Assoc BindingState → Assoc BindingState
unfolding victim drop_key
evict m = drop_key (victim m) m

-- The map with room for one more key.
unfoldable pub make_room : ℕ → Assoc BindingState → Assoc BindingState
unfolding evict
make_room max_bindings m = if leb max_bindings (length m) then evict m else m

unfoldable pub touch_or_new :
    Option BindingState → String → ℕ → RouterRuntimeHealth → BindingState × RouterRuntimeHealth
unfolding make_room
touch_or_new (some known) key now h =
    let state = record known { last_touched = now } in
    (state, record h { bindings = insert key state h.bindings })
touch_or_new none key now h =
    let state = new_binding now in
    (state, record h { bindings = insert key state (make_room h.max_bindings h.bindings) })

-- `_state_for`: the state of the key, touched; a new one evicts another where the map is full.
-- The object is in the map, so what a method writes to it is written back by `store`.
unfoldable pub state_for : String → ℕ → RouterRuntimeHealth → BindingState × RouterRuntimeHealth
unfolding touch_or_new
state_for key now h = touch_or_new (lookup key h.bindings) key now h

-- A write to the fields of the state object of `key`.
abbrev pub store : String → BindingState → RouterRuntimeHealth → RouterRuntimeHealth
store key state h = record h { bindings = insert key state h.bindings }

-- `now - opened_at >= cooldown_s`, for an `opened_at` that may be None.
abbrev pub cooled_down : RouterRuntimeHealth → ℕ → Option ℕ → Bool
cooled_down h now none = false
cooled_down h now (some opened_at) = leb h.cooldown_s (now - opened_at)

unfoldable pub probe :
    Circuit → String → ℕ → BindingState → RouterRuntimeHealth → Bool × RouterRuntimeHealth
probe closed key now state h = (true, h)
probe half_open key now state h = (false, h)
probe opened key now state h =
    if cooled_down h now state.opened_at
    then (true, store key (record state { state = half_open }) h)
    else (false, h)

unfoldable pub is_routable : String → ℕ → RouterRuntimeHealth → Bool × RouterRuntimeHealth
unfolding state_for probe
is_routable key now h = let (state, h') = state_for key now h in probe state.state key now state h'

unfoldable pub peek_state : Circuit → ℕ → Option ℕ → RouterRuntimeHealth → Bool
peek_state closed now at h = true
peek_state half_open now at h = false
peek_state opened now at h = cooled_down h now at

unfoldable pub peek_known : Option BindingState → ℕ → RouterRuntimeHealth → Bool
unfolding peek_state
peek_known none now h = true
peek_known (some state) now h = peek_state state.state now state.opened_at h

unfoldable pub peek_routable : String → ℕ → RouterRuntimeHealth → Bool
unfolding peek_known
peek_routable key now h = peek_known (lookup key h.bindings) now h

-- The state after a success.
abbrev pub succeeded : ℤ → ℕ → BindingState → BindingState
succeeded latency_ms now state = record state {
  state = closed;
  consecutive_failures = 0;
  opened_at = none;
  last_success_at = some now;
  last_latency_ms = some (pos_part latency_ms);
  last_failure_class = "";
}

unfoldable pub record_success : String → ℤ → ℕ → RouterRuntimeHealth → RouterRuntimeHealth
unfolding state_for
record_success key latency_ms now h =
    let (state, h') = state_for key now h in
    record (store key (succeeded latency_ms now state) h') {
      requests_succeeded = h'.requests_succeeded + 1;
    }

-- s[:n]
unfoldable pub prefix_chars : ℕ → String → String
prefix_chars zero s = String.[]
prefix_chars (suc n) String.[] = String.[]
prefix_chars (suc n) (String.◌∷◌ c s) = String.◌∷◌ c (prefix_chars n s)

-- The state after one more failure.
abbrev pub failed : ℕ → String → ℕ → BindingState → BindingState
failed threshold failure_class now state =
    let failures = state.consecutive_failures + 1 in
    let counted = record state {
      consecutive_failures = failures;
      last_failure_class = prefix_chars 64 failure_class;
    } in
    if is_half_open state.state || leb threshold failures
    then record counted { state = opened; opened_at = some now }
    else counted

unfoldable pub record_failure : String → String → ℕ → RouterRuntimeHealth → RouterRuntimeHealth
unfolding state_for
record_failure key failure_class now h =
    let (state, h') = state_for key now h in
    record (store key (failed h'.failure_threshold failure_class now state) h') {
      requests_failed = h'.requests_failed + 1;
    }

unfoldable pub record_client_error : RouterRuntimeHealth → RouterRuntimeHealth
record_client_error h = record h { client_errors = h.client_errors + 1 }

unfoldable pub record_punt : RouterRuntimeHealth → RouterRuntimeHealth
record_punt h = record h { punts = h.punts + 1 }
