-- ===== src/Gpu/Verdicts.antt =====
-- What `list_active` of mesh/gpu/reservations.py makes of a file.
use slancha_mesh.Common.{
  ℕ, ◌<◌, ◌≤◌, String, ◌≡◌, refl, sym, ap, Option, none, some, List, ◌∷◌, arith, leb→le, leb→gt,
  Bool-cases, inl, inr, ◌⊎◌, subst, some-injective,
}
use slancha_mesh.Gpu.Reservations.{
  Reservation, File, holds, unreadable, malformed, Directory, KillOutcome, sent, no_process,
  no_permission, other_os_error, no_os_error, pid_alive, Verdict, skipped, listed, pruned, escapes,
  alive_verdict, pid_verdict, verdict, collect, is_expired,
}

abbrev pub Files : Type 0
Files = List (String × File)

module _ (now : ℕ) (kill : ℕ → KillOutcome) where
  -- A process that the signal reaches, or of which an unexpected error says nothing.
  abbrev pub RunsPid : Option ℕ → Type 0
  RunsPid none = Unit
  RunsPid (some pid) = (kill pid ≡ sent) ⊎ (kill pid ≡ other_os_error)

  -- A process that is gone, or that this user may not signal.
  abbrev pub LostPid : Option ℕ → Type 0
  LostPid o = (pid : ℕ) × (o ≡ some pid) × ((kill pid ≡ no_process) ⊎ (kill pid ≡ no_permission))

  abbrev pub IsLive : Reservation → Type 0
  IsLive r = (now < r.expires_at) × RunsPid r.pid

  abbrev pub IsStale : Reservation → Type 0
  IsStale r = (r.expires_at ≤ now) ⊎ LostPid r.pid

  -- A file that ends the loop: its reading, or the signal to its process, raises what is not caught.
  abbrev pub Escapes : File → Type 0
  Escapes file =
      (file ≡ malformed)
      ⊎ ((r : Reservation) × (file ≡ holds r)
          × (now < r.expires_at)
          × (pid : ℕ) × (r.pid ≡ some pid)
          × (kill pid ≡ no_os_error))

  -- What a verdict says of a file.
  abbrev pub Says : File → Verdict → Type 0
  Says file skipped = file ≡ unreadable
  Says file (listed r) = (file ≡ holds r) × IsLive r
  Says file pruned = (r : Reservation) × (file ≡ holds r) × IsStale r
  Says file escapes = Escapes file

  outcome-cases :
      (o : KillOutcome)
      → ((o ≡ sent) ⊎ (o ≡ other_os_error))
        ⊎ (((o ≡ no_process) ⊎ (o ≡ no_permission)) ⊎ (o ≡ no_os_error))
  outcome-cases sent = inl (inl refl)
  outcome-cases other_os_error = inl (inr refl)
  outcome-cases no_process = inr (inl (inl refl))
  outcome-cases no_permission = inr (inl (inr refl))
  outcome-cases no_os_error = inr (inr refl)

  pid_verdict-Says :
      (r : Reservation) (pid : Option ℕ)
      → now < r.expires_at
      → r.pid ≡ pid
      → Says (holds r) (pid_verdict kill r pid)
  unfolding pid_verdict pid_alive
  pid_verdict-Says r none fresh e = (refl, (fresh, subst RunsPid (sym e) tt))
  pid_verdict-Says r (some pid) fresh e =
      let says : Verdict → Type 0 = λ v. Says (holds r) v in
      let verdict_at = λ (o : KillOutcome). alive_verdict r (pid_alive o) in
      elim (outcome-cases (kill pid)) [
        | inl (inl k) ↦
            subst says (sym (ap verdict_at k)) (refl, (fresh, subst RunsPid (sym e) (inl k)))
        | inl (inr k) ↦
            subst says (sym (ap verdict_at k)) (refl, (fresh, subst RunsPid (sym e) (inr k)))
        | inr (inl (inl k)) ↦ subst says (sym (ap verdict_at k)) (r, refl, inr (pid, e, inl k))
        | inr (inl (inr k)) ↦ subst says (sym (ap verdict_at k)) (r, refl, inr (pid, e, inr k))
        | inr (inr k) ↦ subst says (sym (ap verdict_at k)) (inr (r, refl, fresh, pid, e, k))
      ]

  pub verdict-Says : (file : File) → Says file (verdict now kill file)
  unfolding verdict
  verdict-Says unreadable = refl
  verdict-Says malformed = inl refl
  verdict-Says (holds r) = elim (Bool-cases (is_expired now r)) [
    | inl e ↦ rw e (r, refl, inl (leb→le _ _ e))
    | inr e ↦ rw e (pid_verdict-Says r r.pid (leb→gt _ _ e) refl)
  ]

  pub IsLive-not_IsStale : (r : Reservation) → IsLive r → ¬ IsStale r
  IsLive-not_IsStale r (fresh, runs) (inl late) = absurd (omega (arith, fresh, late))
  IsLive-not_IsStale r (fresh, runs) (inr (pid, e, lost)) = elim (subst RunsPid e runs) [
    | inl k ↦ elim lost [ inl l ↦ ground (arith, k, l) | inr l ↦ ground (arith, k, l) ]
    | inr k ↦ elim lost [ inl l ↦ ground (arith, k, l) | inr l ↦ ground (arith, k, l) ]
  ]

  -- The result of the loop where no exception ends it.
  abbrev pub front : Verdict → List Reservation → List Reservation
  front (listed r) active = r ∷ active
  front skipped active = active
  front pruned active = active
  front escapes active = active

  pub collect-some :
      (v : Verdict) (o : Option (List Reservation)) (after dir : Directory)
      (active : List Reservation)
      → (collect v (o, after) dir).0 ≡ some active
      → (rest : List Reservation) × (o ≡ some rest)
        × (active ≡ front v rest)
        × ((collect v (o, after) dir).1 ≡ after)
  unfolding collect
  collect-some escapes o after dir active e = absurd (ground (arith, e))
  collect-some skipped o after dir active e = (active, e, refl, refl)
  collect-some pruned o after dir active e = (active, e, refl, refl)
  collect-some (listed r) none after dir active e = absurd (ground (arith, e))
  collect-some (listed r) (some rest) after dir active e =
      (rest, refl, sym (some-injective (r ∷ rest) active e), refl)

  pub collect-none :
      (v : Verdict) (o : Option (List Reservation)) (after dir : Directory)
      → (collect v (o, after) dir).0 ≡ none
      → (v ≡ escapes) ⊎ (o ≡ none)
  unfolding collect
  collect-none escapes o after dir e = inl refl
  collect-none skipped o after dir e = inr e
  collect-none pruned o after dir e = inr e
  collect-none (listed r) none after dir e = inr refl
  collect-none (listed r) (some rest) after dir e = absurd (ground (arith, e))

  -- The directory after the loop is the one that the later files leave, or that of the exception.
  pub collect-after :
      (v : Verdict) (o : Option (List Reservation)) (after dir : Directory)
      → ((collect v (o, after) dir).1 ≡ after) ⊎ ((collect v (o, after) dir).1 ≡ dir)
  unfolding collect
  collect-after escapes o after dir = inr refl
  collect-after skipped o after dir = inl refl
  collect-after pruned o after dir = inl refl
  collect-after (listed r) none after dir = inl refl
  collect-after (listed r) (some rest) after dir = inl refl
