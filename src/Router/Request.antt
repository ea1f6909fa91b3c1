-- ===== src/Router/Request.antt =====
-- A chat request and its answer, and the checks at the start of `chat_completions` in
-- mesh/router_app.py.
use slancha_mesh.Common.{
  ℕ, String, Bool, Option, none, some, ltb, get_or, if◌then◌else◌, ◌==◌, ◌||◌,
}
use slancha_mesh.Models.{NodeBinding}

pub data PuntCode : Type 0 where
  no_suitable_local_route local_route_unavailable : PuntCode

-- A forwarded answer: by which node, at which place of the chain, after how many attempts, and with
-- which status.
pub data ChatResponse : Type 0 where
  http_error : ℕ → ChatResponse
  unknown_specialist : ChatResponse
  punt_response : PuntCode → ℕ → ChatResponse
  forwarded : NodeBinding → ℕ → ℕ → ℕ → ChatResponse

-- The body, as far as the router reads it: `model` where it is a text, the last user message, and
-- whether `stream` is true.
pub record ChatBody : Type 0 where
  pub model : Option String
  pub prompt : String
  pub stream : Bool

pub data Parsed : Type 0 where
  not_json not_object : Parsed
  object : ChatBody → Parsed

pub record ChatRequest : Type 0 where
  pub declared_length : Option ℕ
  pub received_length : ℕ
  pub parsed : Parsed

pub data Checked : Type 0 where
  rejected : ℕ → Checked
  accepted : ChatBody → String → Checked

abbrev pub check_model : ChatBody → Option String → Checked
check_model body none = rejected 400
check_model body (some model) = if model == "" then rejected 400 else accepted body model

abbrev pub check_parsed : Parsed → Checked
check_parsed not_json = rejected 400
check_parsed not_object = rejected 400
check_parsed (object body) = check_model body body.model

unfoldable pub check_request : ℕ → ChatRequest → Checked
check_request max_request_bytes request =
    if ltb max_request_bytes (get_or request.declared_length 0)
      || ltb max_request_bytes request.received_length
    then rejected 413
    else check_parsed request.parsed
