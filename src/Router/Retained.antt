-- ===== src/Router/Retained.antt =====
-- What a router that discovers its nodes holds after any number of passes of `_RefreshingSnapshot` in
-- mesh/router_app.py.
use slancha_mesh.Common.{
  ℕ, ◌+◌, ◌≤◌, String, true, false, ◌≡◌, refl, ap, ◌∙◌, sym, subst, Option, none, some, List, [],
  ◌∷◌, ◌↔◌, ◌==◌, In, All, All-In, All-keep_tested, In-keep, some-injective,
}
use slancha_mesh.Models.{NodeBinding, RegistrySnapshot, SpecialistCard}
use slancha_mesh.Router.Bindings.{is_reachable, reachable_bindings}
use slancha_mesh.Router.Refresh.{listed, merge_retaining_recent, Pass, fresh_snapshot, refresh_once}
use slancha_mesh.Router.Discovered.{urls_of}
use slancha_mesh.Router.Kept.{IsHeld, first-IsHeld, merged-IsHeld}

-- The passes, the latest one first: the clock has not gone back.
abbrev pub Ordered : List Pass → Type 0
Ordered [] = Unit
Ordered (p ∷ earlier) = All (λ q. q.at ≤ p.at) earlier × Ordered earlier

module _ (node_id_for_url : String → String) (catalog : List SpecialistCard) (retain_s : ℕ) where
  -- The snapshot after the passes, of which the latest stands first.
  unfoldable pub held_after : List Pass → Option RegistrySnapshot
  held_after [] = none
  held_after (p ∷ earlier) = refresh_once node_id_for_url catalog retain_s p (held_after earlier)

  -- A pass found the URL for the specialist, at most so long ago.
  abbrev pub FoundRecently : List Pass → ℕ → String → String → Type 0
  FoundRecently passes now j url =
      (q : Pass) × In q passes × In url (urls_of j q.found) × (now ≤ q.at + retain_s)

  held_after-IsHeld :
      (p : Pass) (earlier : List Pass)
      → 1 ≤ retain_s
      → Ordered (p ∷ earlier)
      → (s : RegistrySnapshot) × (held_after (p ∷ earlier) ≡ some s)
        × IsHeld node_id_for_url catalog retain_s (p ∷ earlier) p.at s
  unfolding held_after refresh_once merge_retaining_recent
  held_after-IsHeld p [] positive o = (_, refl, first-IsHeld node_id_for_url catalog retain_s p)
  held_after-IsHeld p (q ∷ earlier) positive o =
      let (prior, e, held) = held_after-IsHeld q earlier positive o.1 in
      let fresh = fresh_snapshot node_id_for_url catalog retain_s p in
      (
        merge_retaining_recent retain_s (some prior) fresh,
        ap (λ x. some (merge_retaining_recent retain_s x fresh)) e,
        merged-IsHeld node_id_for_url catalog retain_s p (q ∷ earlier) q.at prior held o.0.0 o.0
            positive,
      )

  -- After any passes at times that do not go back, with a positive time of retention, a snapshot is
  -- held, and the router may use a binding with a URL for a specialist exactly where some pass found
  -- the URL for it, at most that time before the latest pass.
  pub held_iff_FoundRecently :
      (p : Pass) (earlier : List Pass) (j url : String)
      → 1 ≤ retain_s
      → Ordered (p ∷ earlier)
      → url == "" ≡ false
      → (s : RegistrySnapshot) × (held_after (p ∷ earlier) ≡ some s)
        × (((b : NodeBinding) × In b (reachable_bindings j s) × (b.node_url ≡ some url))
            ↔ FoundRecently (p ∷ earlier) p.at j url)
  unfolding reachable_bindings
  held_iff_FoundRecently p earlier j url positive o nonempty =
      let (s, e, held) = held_after-IsHeld p earlier positive o in
      (
        s,
        e,
        (
          λ (b, i, u).
              let all = All-keep_tested _ is_reachable (listed j s.specialists) (held.sound j) in
              let ((q, k, v, f, r, w, t, h), ok) = All-In _ b _ all i in
              (q, k, subst (λ x. In x (urls_of j q.found)) (some-injective v url (sym w ∙ u)) f, r),
          λ (q, k, f, r).
              let (b, i, u, late) = held.complete j q k url f r in
              let (q', k', v, f', r', w, t, h) = All-In _ b _ (held.sound j) i in
              let ok : is_reachable b ≡ true = rw (h, u, nonempty) refl in
              (b, In-keep is_reachable b (listed j s.specialists) i ok, u),
        ),
      )
