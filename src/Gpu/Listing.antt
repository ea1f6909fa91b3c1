-- ===== src/Gpu/Listing.antt =====
-- What `list_active` of mesh/gpu/reservations.py returns.
use slancha_mesh.Common.{
  ℕ, String, ◌≡◌, refl, sym, ap, ◌∙◌, Option, none, some, List, [], ◌∷◌, arith, inl, inr, ◌⊎◌, In,
  subst, some-injective,
}
use slancha_mesh.Gpu.Reservations.{
  Reservation, File, holds, unreadable, malformed, Directory, KillOutcome, Verdict, skipped, listed,
  pruned, escapes, verdict, after_file, list_files,
}
use slancha_mesh.Gpu.Verdicts.{
  Files, RunsPid, IsLive, IsStale, Escapes, Says, verdict-Says, IsLive-not_IsStale, front,
  collect-some, collect-none,
}

file_of : File → Option Reservation
file_of (holds r) = some r
file_of unreadable = none
file_of malformed = none

holds-injective : (r q : Reservation) → holds r ≡ holds q → r ≡ q
unfolding file_of
holds-injective r q e = some-injective r q (ap file_of e)

no_reservation : (r : Reservation) (file : File) → file_of file ≡ none → ¬ (holds r ≡ file)
unfolding file_of
no_reservation r file h e = absurd (ground (arith, ap file_of e, h))

module _ (now : ℕ) (kill : ℕ → KillOutcome) where
  live_is_listed :
      (r : Reservation) (v : Verdict) → Says now kill (holds r) v → IsLive now kill r → v ≡ listed r
  unfolding file_of
  live_is_listed r skipped says live = absurd (no_reservation r unreadable refl says)
  live_is_listed r (listed q) says live = ap listed (sym (holds-injective r q says.0))
  live_is_listed r pruned (q, same, stale) live = absurd (
      IsLive-not_IsStale now kill r live
        (subst (IsStale now kill) (sym (holds-injective r q same)) stale))
  live_is_listed r escapes (inl e) live = absurd (no_reservation r malformed refl e)
  live_is_listed r escapes (inr (q, same, fresh, pid, e, k)) live =
      elim (subst (RunsPid now kill) (ap (λ x. x.pid) (holds-injective r q same) ∙ e) live.1) [
        | inl s ↦ absurd (ground (arith, s, k))
        | inr s ↦ absurd (ground (arith, s, k))
      ]

  pub stale_is_pruned :
      (r : Reservation) (v : Verdict) → Says now kill (holds r) v → IsStale now kill r → v ≡ pruned
  unfolding file_of
  stale_is_pruned r skipped says stale = absurd (no_reservation r unreadable refl says)
  stale_is_pruned r (listed q) (same, live) stale = absurd (
      IsLive-not_IsStale now kill q live
        (subst (IsStale now kill) (holds-injective r q same) stale))
  stale_is_pruned r pruned says stale = refl
  stale_is_pruned r escapes (inl e) stale = absurd (no_reservation r malformed refl e)
  stale_is_pruned r escapes (inr (q, same, fresh, pid, e, k)) stale =
      elim (subst (IsStale now kill) (holds-injective r q same) stale) [
        | inl late ↦ absurd (omega (arith, late, fresh))
        | inr (p, at, lost) ↦
            let same_pid : pid ≡ p = some-injective pid p (sym e ∙ at) in
            let here = sym (ap kill same_pid) ∙ k in
            elim lost [
              | inl l ↦ absurd (ground (arith, l, here))
              | inr l ↦ absurd (ground (arith, l, here))
            ]
      ]

  front-In :
      (v : Verdict) (rest : List Reservation) (r : Reservation)
      → In r (front now kill v rest)
      → (v ≡ listed r) ⊎ In r rest
  front-In (listed q) rest r (inl e) = inl (ap listed e)
  front-In (listed q) rest r (inr i) = inr i
  front-In skipped rest r i = inr i
  front-In pruned rest r i = inr i
  front-In escapes rest r i = inr i

  In-front :
      (v : Verdict) (rest : List Reservation) (r : Reservation)
      → In r rest
      → In r (front now kill v rest)
  In-front (listed q) rest r i = inr i
  In-front skipped rest r i = i
  In-front pruned rest r i = i
  In-front escapes rest r i = i

  pub escaped :
      (files : Files) (dir : Directory)
      → (list_files now kill files dir).0 ≡ none
      → (name : String) × (file : File) × In (name, file) files × Escapes now kill file
  unfolding list_files
  escaped [] dir e = absurd (ground (arith, e))
  escaped ((n, f) ∷ rest) dir e =
      let v = verdict now kill f in
      let more = list_files now kill rest (after_file v n dir) in
      elim (collect-none now kill v more.0 more.1 dir e) [
        | inl out ↦ (n, f, inl refl, subst (Says now kill f) out (verdict-Says now kill f))
        | inr later ↦
            let (name, file, i, x) = escaped rest (after_file v n dir) later in
            (name, file, inr i, x)
      ]

  pub listed-IsLive :
      (files : Files) (dir : Directory) (active : List Reservation) (r : Reservation)
      → (list_files now kill files dir).0 ≡ some active
      → In r active
      → (name : String) × In (name, holds r) files × IsLive now kill r
  unfolding list_files
  listed-IsLive [] dir active r e i =
      absurd (ground (arith, subst (In r) (sym (some-injective [] active e)) i))
  listed-IsLive ((n, f) ∷ rest) dir active r e i =
      let v = verdict now kill f in
      let more = list_files now kill rest (after_file v n dir) in
      let (later, o, fronted, after) = collect-some now kill v more.0 more.1 dir active e in
      elim (front-In v later r (subst (In r) fronted i)) [
        | inl here ↦
            let (same, live) = subst (Says now kill f) here (verdict-Says now kill f) in
            (n, inl (ap (λ x. (n, x)) same), live)
        | inr j ↦
            let (name, k, live) = listed-IsLive rest (after_file v n dir) later r o j in
            (name, inr k, live)
      ]

  pub live_is_in :
      (files : Files) (dir : Directory) (active : List Reservation) (r : Reservation)
      (name : String)
      → (list_files now kill files dir).0 ≡ some active
      → In (name, holds r) files
      → IsLive now kill r
      → In r active
  unfolding list_files
  live_is_in [] dir active r name e i live = absurd (ground (arith, i))
  live_is_in ((n, f) ∷ rest) dir active r name e i live =
      let v = verdict now kill f in
      let more = list_files now kill rest (after_file v n dir) in
      let (later, o, fronted, after) = collect-some now kill v more.0 more.1 dir active e in
      subst (In r) (sym fronted) (elim i [
        | inl p ↦
            let same : f ≡ holds r = ap (λ (x : String × File). x.1) p in
            let here : v ≡ listed r =
              live_is_listed r v (subst (λ x. Says now kill x v) same (verdict-Says now kill f))
                live in
            subst (λ x. In r (front now kill x later)) (sym here) (inl refl)
        | inr j ↦ In-front v later r (live_is_in rest (after_file v n dir) later r name o j live)
      ])
