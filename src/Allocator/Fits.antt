-- ===== src/Allocator/Fits.antt =====
-- What a score says of a specialist and a node, and what the ranking of a catalog holds.
use slancha_mesh.Common.{
  ◌≤◌, ◌≡◌, refl, true, false, List, [], ◌∷◌, arith, ◌⊎◌, inl, inr, any, In, Bool-cases,
}
use slancha_mesh.Common.Floats.{Floats}
use slancha_mesh.Models.{Backend, NodeProbe, SpecialistCard}
use slancha_mesh.Allocator.Score.{
  effective_vram_gb, same_backend, is_blackwell, minus_inf, finite, model_fit_score, Coverage,
}

-- The hard requirements of a specialist on a node.
abbrev pub Fits : SpecialistCard → NodeProbe → Type 0
Fits spec node =
    In spec.required_backend node.available_backends
    × (spec.storage_gb ≤ node.disk_free_gb)
    × (spec.min_vram_gb ≤ effective_vram_gb node)
    × ((spec.requires_fp4 ≡ false) ⊎ (is_blackwell node.cuda_capability ≡ true))

same_backend-eq : (a b : Backend) → same_backend a b ≡ true → a ≡ b
unfolding same_backend
same_backend-eq a b h = ground (arith, h)

same_backend_refl : (a : Backend) → same_backend a a ≡ true
unfolding same_backend
same_backend_refl a = ground arith

any-In : (b : Backend) (bs : List Backend) → any (λ x. same_backend x b) bs ≡ true → In b bs
unfolding any
any-In b [] h = cc
any-In b (x ∷ bs) h = elim (Bool-cases (same_backend x b)) [
  | inl e ↦ inl (same_backend-eq x b e)
  | inr e ↦ inr (any-In b bs (rw e at h))
]

In-any : (b : Backend) (bs : List Backend) → In b bs → any (λ x. same_backend x b) bs ≡ true
unfolding any
In-any b [] h = absurd (ground (arith, h))
In-any b (x ∷ bs) (inl e) = rw (e, same_backend_refl b) refl
In-any b (x ∷ bs) (inr h) = ground (arith, In-any b bs h)

module _ (fl : Floats) where
  open fl use {F}

  pub Fits-finite :
      (spec : SpecialistCard) (node : NodeProbe) (coverage : Coverage) {x : F}
      → model_fit_score fl spec node coverage ≡ finite x
      → Fits spec node
  unfolding model_fit_score
  Fits-finite spec node coverage h =
      let here = any-In spec.required_backend node.available_backends in
      (ground (arith, h, here), ground (arith, h), ground (arith, h), ground (arith, h))

  pub Fits-minus_inf :
      (spec : SpecialistCard) (node : NodeProbe) (coverage : Coverage)
      → model_fit_score fl spec node coverage ≡ minus_inf
      → ¬ Fits spec node
  unfolding model_fit_score
  Fits-minus_inf spec node coverage h (here, disk, vram, fp4) =
      ground (arith, h, In-any spec.required_backend node.available_backends here)
