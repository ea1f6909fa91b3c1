-- ===== src/Gpu/Reservations.antt =====
-- mesh/gpu/reservations.py: one file for each reservation in a directory. Times are microseconds.
-- Memory is counted in units of 1/10240 GB: a MiB is 10 units, and a tenth of a GB, the weight of a per
-- cent of utilisation, is 1024.
use Prim.Native.String.{◌++◌}
use slancha_mesh.Common.{
  ℕ, ◌+◌, ◌-◌, String, Bool, true, false, Option, none, some, List, [], ◌∷◌, leb, str_lt,
  if◌then◌else◌,
}
use slancha_mesh.Common.Dict.{Assoc, insert, remove, has}
use slancha_mesh.Common.Sort.{sort_by}

pub record Reservation : Type 0 where
  pub reservation_id : String
  pub user : String
  pub hostname : String
  pub gb_requested : ℕ
  pub started_at : ℕ
  pub expires_at : ℕ
  pub purpose : String
  pub pid : Option ℕ

abbrev pub is_expired : ℕ → Reservation → Bool
is_expired now r = leb r.expires_at now

-- The subtraction stops at 0, as the source's `max` does.
abbrev pub remaining : ℕ → Reservation → ℕ
remaining now r = r.expires_at - now

-- A file of the directory: a reservation; or a text whose reading raises what `list_active` catches
-- (OSError, JSONDecodeError, KeyError, TypeError); or one that raises something else, such as a date
-- that is none or bytes that are no UTF-8, or whose date has no time zone and cannot be compared.
pub data File : Type 0 where
  holds : Reservation → File
  unreadable : File
  malformed : File

abbrev pub Directory : Type 0
Directory = Assoc File

-- What `reserve` is called with; `rid` is the value of `token_hex`. `none` is a ValueError.
unfoldable pub reserve :
    ℕ
    → String
    → String
    → String
    → ℕ
    → ℕ
    → String
    → Option ℕ
    → Directory
    → Option (String × Directory)
reserve now rid user hostname gb_requested duration purpose pid dir =
    if leb gb_requested 0
    then none
    else if leb duration 0
    then none
    else some (
      rid,
      insert rid
          (holds (record {
            reservation_id = rid;
            user = user;
            hostname = hostname;
            gb_requested = gb_requested;
            started_at = now;
            expires_at = now + duration;
            purpose = purpose;
            pid = pid;
          }))
          dir,
    )

unfoldable pub release : String → Directory → Bool × Directory
release reservation_id dir = (has reservation_id dir, remove reservation_id dir)

-- What the call `os.kill(pid, 0)` does. The last is an exception that is no OSError, as for a pid that
-- is too large.
pub data KillOutcome : Type 0 where
  sent no_process no_permission other_os_error no_os_error : KillOutcome

-- `none` is an exception.
unfoldable pub pid_alive : KillOutcome → Option Bool
pid_alive sent = some true
pid_alive no_process = some false
pid_alive no_permission = some false
pid_alive other_os_error = some true
pid_alive no_os_error = none

-- What the loop makes of a file.
pub data Verdict : Type 0 where
  skipped : Verdict
  listed : Reservation → Verdict
  pruned : Verdict
  escapes : Verdict

abbrev pub alive_verdict : Reservation → Option Bool → Verdict
alive_verdict r none = escapes
alive_verdict r (some true) = listed r
alive_verdict r (some false) = pruned

unfoldable pub pid_verdict : (ℕ → KillOutcome) → Reservation → Option ℕ → Verdict
unfolding pid_alive
pid_verdict kill r none = listed r
pid_verdict kill r (some pid) = alive_verdict r (pid_alive (kill pid))

unfoldable pub verdict : ℕ → (ℕ → KillOutcome) → File → Verdict
unfolding pid_verdict
verdict now kill (holds r) = if is_expired now r then pruned else pid_verdict kill r r.pid
verdict now kill unreadable = skipped
verdict now kill malformed = escapes

abbrev pub after_file : Verdict → String → Directory → Directory
after_file pruned name dir = remove name dir
after_file skipped name dir = dir
after_file (listed r) name dir = dir
after_file escapes name dir = dir

-- A file and the result of those after it; an exception ends the loop where it is.
unfoldable pub collect :
    Verdict
    → Option (List Reservation) × Directory
    → Directory
    → Option (List Reservation) × Directory
collect escapes more dir = (none, dir)
collect skipped more dir = more
collect pruned more dir = more
collect (listed r) (none, after) dir = (none, after)
collect (listed r) (some active, after) dir = (some (r ∷ active), after)

-- The loop over the files. `none` is an exception, after which the files that were deleted are gone.
unfoldable pub list_files :
    ℕ → (ℕ → KillOutcome) → List (String × File) → Directory → Option (List Reservation) × Directory
unfolding verdict collect
list_files now kill [] dir = (some [], dir)
list_files now kill ((name, file) ∷ rest) dir =
    let v = verdict now kill file in
    let more = list_files now kill rest (after_file v name dir) in collect v more dir

-- The files are visited in the order of their names.
abbrev pub name_before : String × File → String × File → Bool
name_before a b = str_lt (a.0 ++ ".json") (b.0 ++ ".json")

unfoldable pub list_active :
    ℕ → (ℕ → KillOutcome) → Directory → Option (List Reservation) × Directory
unfolding list_files
list_active now kill dir = list_files now kill (sort_by name_before dir) dir

unfoldable pub sum_gb : List Reservation → ℕ
sum_gb [] = 0
sum_gb (r ∷ rest) = r.gb_requested + sum_gb rest

abbrev pub sum_of : Option (List Reservation) → Option ℕ
sum_of none = none
sum_of (some active) = some (sum_gb active)

unfoldable pub total_reserved_gb : ℕ → (ℕ → KillOutcome) → Directory → Option ℕ × Directory
unfolding list_active sum_gb
total_reserved_gb now kill dir =
    let (active, after) = list_active now kill dir in (sum_of active, after)
