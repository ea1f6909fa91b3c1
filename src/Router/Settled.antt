-- ===== src/Router/Settled.antt =====
-- The fallback loop of mesh/router_app.py: which binding it stops at, and after how many attempts.
use slancha_mesh.Common.{
  ℕ, suc, ◌+◌, ◌≤◌, ◌<◌, String, Bool, true, false, ◌≡◌, refl, List, [], ◌∷◌, inl, inr, arith,
  Bool-cases, length, All,
}
use slancha_mesh.Models.{NodeBinding}
use slancha_mesh.RuntimeHealth.{RouterRuntimeHealth, binding_key, is_routable}
use slancha_mesh.Router.Bindings.{is_retriable_status}
use slancha_mesh.Router.Attempts.{
  Upstream, raises, replies, Network, Tried, exhausted, answered, if_routable, after_call,
  try_bindings,
}

pub if_routable-cases :
    (Q : Tried × RouterRuntimeHealth → Type 0) (asked : Bool × RouterRuntimeHealth)
    (skipped called : RouterRuntimeHealth → Tried × RouterRuntimeHealth)
    → Q (skipped asked.1)
    → Q (called asked.1)
    → Q (if_routable asked skipped called)
if_routable-cases Q (false, h) skipped called s c = s
if_routable-cases Q (true, h) skipped called s c = c

module _ (net : Network) (model : String) (P : NodeBinding → Type 0) where
  -- The chain stops within its room, and an answer is that of a binding with P.
  abbrev pub Settled : ℕ → ℕ → ℕ → Tried → Type 0
  Settled idx attempts room (exhausted n) = (attempts ≤ n) × (n ≤ attempts + room)
  Settled idx attempts room (answered b i n code) =
      (P b × (net.call i b model ≡ replies code) × (is_retriable_status code ≡ false))
      × (idx ≤ i)
      × (i < idx + room)
      × (attempts < n)
      × (n ≤ attempts + room)

  Settled-later :
      (idx attempts room : ℕ) (t : Tried)
      → Settled (idx + 1) attempts room t
      → Settled idx attempts (suc room) t
  Settled-later idx attempts room (exhausted n) (a, b) = (a, omega (arith, b))
  Settled-later idx attempts room (answered b i n code) (by, l, u, a, m) =
      (by, omega (arith, l), omega (arith, u), a, omega (arith, m))

  Settled-attempted :
      (idx attempts room : ℕ) (t : Tried)
      → Settled (idx + 1) (attempts + 1) room t
      → Settled idx attempts (suc room) t
  Settled-attempted idx attempts room (exhausted n) (a, b) = (omega (arith, a), omega (arith, b))
  Settled-attempted idx attempts room (answered b i n code) (by, l, u, a, m) =
      (by, omega (arith, l), omega (arith, u), omega (arith, a), omega (arith, m))

  module _ (finish : ℕ → String → ℕ → RouterRuntimeHealth → RouterRuntimeHealth)
      (specialist_id : String) where
    after_call-Settled :
        (reply : Upstream) (idx attempts room : ℕ) (b : NodeBinding)
        (next : RouterRuntimeHealth → Tried × RouterRuntimeHealth)
        → net.call idx b model ≡ reply
        → P b
        → ((g : RouterRuntimeHealth) → Settled (idx + 1) (attempts + 1) room (next g).0)
        → (h : RouterRuntimeHealth)
        → Settled idx attempts
            (suc room)
            (after_call net finish specialist_id model reply idx (attempts + 1) b next h).0
    unfolding after_call
    after_call-Settled (raises c) idx attempts room b next e p later h =
        Settled-attempted idx attempts room _ (later _)
    after_call-Settled (replies code) idx attempts room b next e p later h =
        elim (Bool-cases (is_retriable_status code)) [
          | inl t ↦ rw t (Settled-attempted idx attempts room _ (later _))
          | inr t ↦ rw t ((p, e, t), omega arith, omega arith, omega arith, omega arith)
        ]

    pub try_bindings-Settled :
        (idx attempts : ℕ) (bs : List NodeBinding) (h : RouterRuntimeHealth)
        → All P bs
        → Settled idx attempts
            (length bs)
            (try_bindings net finish specialist_id model idx attempts bs h).0
    unfolding try_bindings
    try_bindings-Settled idx attempts [] h p = (omega arith, omega arith)
    try_bindings-Settled idx attempts (b ∷ rest) h p =
        let asked = is_routable (binding_key specialist_id b.node_id) (net.asked_at idx) h in
        if_routable-cases (λ r. Settled idx attempts (suc (length rest)) r.0) asked
          (λ g. try_bindings net finish specialist_id model (idx + 1) attempts rest g)
          (λ g.
            after_call net finish specialist_id model (net.call idx b model) idx (attempts + 1) b
              (λ f. try_bindings net finish specialist_id model (idx + 1) (attempts + 1) rest f) g)
          (Settled-later idx attempts (length rest) _
            (try_bindings-Settled (idx + 1) attempts rest asked.1 p.1))
          (after_call-Settled (net.call idx b model) idx attempts (length rest) b
            (λ f. try_bindings net finish specialist_id model (idx + 1) (attempts + 1) rest f) refl
            p.0 (λ f. try_bindings-Settled (idx + 1) (attempts + 1) rest f p.1) asked.1)
