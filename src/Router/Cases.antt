-- ===== src/Router/Cases.antt =====
-- The ways in which `chat_completions` of mesh/router_app.py answers, as a rule for its results.
use slancha_mesh.Common.{
  ℕ, String, Bool, true, false, ◌≡◌, refl, ◌⊎◌, inl, inr, Bool-cases, ◌==◌, Option, none, some,
  is_empty, take,
}
use slancha_mesh.Common.Dict.{has}
use slancha_mesh.Models.{RegistrySnapshot}
use slancha_mesh.RuntimeHealth.{RouterRuntimeHealth, record_client_error}
use slancha_mesh.Select.Route.{ClassifierSignals}
use slancha_mesh.Router.Bindings.{reachable_bindings, runtime_ready_snapshot, rewrite_model}
use slancha_mesh.Router.Request.{
  ChatResponse, http_error, unknown_specialist, PuntCode, local_route_unavailable,
  no_suitable_local_route, Checked, rejected, accepted, ChatBody,
}
use slancha_mesh.Router.Attempts.{Network, try_bindings, Tried}
use slancha_mesh.Router.Chat.{
  respond, punted, Settings, finish_for, chain, serve, auto_select, serve_selected, serve_auto,
  serve_checked,
}

module _ (c : Settings) (net : Network) (now : ℕ) (s : RegistrySnapshot)
    (h : RouterRuntimeHealth) where
  -- The loop over the first bindings of the chain.
  abbrev pub tried : String → Option String → Bool → Tried × RouterRuntimeHealth
  tried specialist_id preferred stream =
      try_bindings net (finish_for net stream) specialist_id
        (rewrite_model specialist_id specialist_id s) 0 0
        (take c.max_fallback_attempts (chain now specialist_id preferred s h)) h

  -- The specialist that the body and the model ask for: that model, or for "auto" the one that the
  -- classifier's route selection finds on the bindings that are ready.
  abbrev pub Requested : Checked → String → Type 0
  Requested (rejected code) specialist_id = false ≡ true
  Requested (accepted body model) specialist_id =
      ((model == "auto" ≡ false) × (model ≡ specialist_id))
      ⊎ ((classify : String → ClassifierSignals) × (model == "auto" ≡ true)
          × (c.classify ≡ some classify)
          × ((auto_select classify body.prompt (runtime_ready_snapshot now h s)).specialist_id
              ≡ some specialist_id))

  module _ (Q : ChatResponse × RouterRuntimeHealth → Type 0)
      (unknown : Q (unknown_specialist, record_client_error h))
      (punts : (code : PuntCode) → Q (punted code h)) where
    serve-cases :
        (specialist_id : String) (preferred : Option String) (stream : Bool)
        → Q (respond (tried specialist_id preferred stream))
        → Q (serve c net now stream specialist_id preferred s h)
    unfolding serve
    serve-cases specialist_id preferred stream q =
        elim (Bool-cases (has specialist_id s.specialists)) [
          | inr e ↦ rw e unknown
          | inl e ↦ elim (Bool-cases (is_empty (reachable_bindings specialist_id s))) [
            | inl f ↦ rw (e, f) (punts local_route_unavailable)
            | inr f ↦ elim (Bool-cases (is_empty (chain now specialist_id preferred s h))) [
              | inl g ↦ rw (e, f, g) (punts local_route_unavailable)
              | inr g ↦ rw (e, f, g) q
            ]
          ]
        ]

    serve_selected-cases :
        (found preferred : Option String) (stream : Bool)
        → ((specialist_id : String)
            → found ≡ some specialist_id
            → Q (respond (tried specialist_id preferred stream)))
        → Q (serve_selected c net now stream found preferred s h)
    unfolding serve_selected
    serve_selected-cases none preferred stream q = punts no_suitable_local_route
    serve_selected-cases (some specialist_id) preferred stream q =
        serve-cases specialist_id preferred stream (q specialist_id refl)

    module _ (refused : (code : ℕ) → Q (http_error code, h)) where
      serve_auto-cases :
          (body : ChatBody) (classify : Option (String → ClassifierSignals))
          → ((f : String → ClassifierSignals) (specialist_id : String) (preferred : Option String)
              → classify ≡ some f
              → (auto_select f body.prompt (runtime_ready_snapshot now h s)).specialist_id
                ≡ some specialist_id
              → Q (respond (tried specialist_id preferred body.stream)))
          → Q (serve_auto c net now body classify s h)
      unfolding serve_auto
      serve_auto-cases body none q = refused 404
      serve_auto-cases body (some f) q =
          let selection = auto_select f body.prompt (runtime_ready_snapshot now h s) in
          serve_selected-cases selection.specialist_id selection.node_id body.stream
            (λ specialist_id e. q f specialist_id selection.node_id refl e)

      -- What holds of a refusal, of an unknown specialist, of a punt, and of what the loop comes to for
      -- a requested specialist, holds of the answer.
      pub serve_checked-cases :
          (checked : Checked)
          → ((specialist_id : String) (preferred : Option String) (stream : Bool)
              → Requested checked specialist_id
              → Q (respond (tried specialist_id preferred stream)))
          → Q (serve_checked c net now checked s h)
      unfolding serve_checked
      serve_checked-cases (rejected code) q = refused code
      serve_checked-cases (accepted body model) q = elim (Bool-cases (model == "auto")) [
        | inl e ↦
            rw (e, serve_checked)
              (serve_auto-cases body c.classify (λ f specialist_id preferred d g.
                q specialist_id preferred body.stream (inr (f, e, d, g))))
        | inr e ↦
            rw (e, serve_checked)
              (serve-cases model none body.stream (q model none body.stream (inl (e, refl))))
      ]
