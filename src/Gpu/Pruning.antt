-- ===== src/Gpu/Pruning.antt =====
-- What `list_active` of mesh/gpu/reservations.py deletes, and what it returns.
use slancha_mesh.Common.{ℕ, String, ◌≡◌, none, some, ◌⊎◌, In}
use slancha_mesh.Common.Dict.{lookup}
use slancha_mesh.Gpu.Reservations.{Reservation, holds, Directory, KillOutcome, list_active}
use slancha_mesh.Gpu.Verdicts.{Files, IsStale}

module _ (now : ℕ) (kill : ℕ → KillOutcome) where
  -- A file that is gone held a stale reservation.
  abbrev Deleted : Files → String → Type 0
  Deleted files name = (r : Reservation) × In (name, holds r) files × IsStale now kill r

  -- The file of a name is as it was, or it held a stale reservation and is gone.
  abbrev pub KeptOrStale : Directory → String → Type 0
  KeptOrStale dir name =
      (lookup name (list_active now kill dir).1 ≡ lookup name dir)
      ⊎ ((lookup name (list_active now kill dir).1 ≡ none)
          × (r : Reservation) × (lookup name dir ≡ some (holds r))
          × IsStale now kill r)
