-- ===== src/Envelope.antt =====
-- src/cimd_proxy/envelope.py: the four envelopes and their payloads. `dumps(…, sort_keys=True)`
-- sorts the keys, so each payload lists them in order.
pub mod Decode
use cimd_proxy.Prelude.{ℕ, String, List, [], ◌∷◌}
use cimd_proxy.Prelude.Dict.{Dict}
use cimd_proxy.Prelude.Int.{pos}
use cimd_proxy.Json.{Json, int, str, arr, strings}

pub record AuthorizeEnvelope : Type 0 where
  pub correlation_id : String
  pub client_id : String
  pub redirect_uri : String
  pub state : String
  pub resource : String
  pub client_code_challenge : String
  pub upstream_verifier : String
  pub scope : String
  pub exp : ℕ

pub record CodeEnvelope : Type 0 where
  pub correlation_id : String
  pub upstream_code : String
  pub upstream_verifier : String
  pub resource : String
  pub client_id : String
  pub client_code_challenge : String
  pub redirect_uri : String
  pub exp : ℕ

-- The token is whatever value the upstream has given.
pub record RefreshEnvelope : Type 0 where
  pub resource : String
  pub upstream_refresh_token : Json

pub record RegistrationEnvelope : Type 0 where
  pub redirect_uris : List String
  pub token_endpoint_auth_method : String
  pub client_id_issued_at : ℕ
  pub client_name : String

-- What `_pack` takes: one of the four.
pub data Envelope : Type 0 where
  authorize : AuthorizeEnvelope → Envelope
  code : CodeEnvelope → Envelope
  refresh : RefreshEnvelope → Envelope
  registration : RegistrationEnvelope → Envelope

abbrev pub tag : Envelope → String
tag (authorize e) = "az"
tag (code e) = "cd"
tag (refresh e) = "rt"
tag (registration e) = "rg"

-- `asdict(env)` with the tag.
unfoldable pub payload : Envelope → Dict Json
payload (authorize e) =
    ("client_code_challenge", str e.client_code_challenge)
    ∷ ("client_id", str e.client_id)
    ∷ ("correlation_id", str e.correlation_id)
    ∷ ("exp", int (pos e.exp))
    ∷ ("redirect_uri", str e.redirect_uri)
    ∷ ("resource", str e.resource)
    ∷ ("scope", str e.scope)
    ∷ ("state", str e.state)
    ∷ ("tag", str "az")
    ∷ ("upstream_verifier", str e.upstream_verifier)
    ∷ []
payload (code e) =
    ("client_code_challenge", str e.client_code_challenge)
    ∷ ("client_id", str e.client_id)
    ∷ ("correlation_id", str e.correlation_id)
    ∷ ("exp", int (pos e.exp))
    ∷ ("redirect_uri", str e.redirect_uri)
    ∷ ("resource", str e.resource)
    ∷ ("tag", str "cd")
    ∷ ("upstream_code", str e.upstream_code)
    ∷ ("upstream_verifier", str e.upstream_verifier)
    ∷ []
payload (refresh e) =
    ("resource", str e.resource)
    ∷ ("tag", str "rt")
    ∷ ("upstream_refresh_token", e.upstream_refresh_token)
    ∷ []
payload (registration e) =
    ("client_id_issued_at", int (pos e.client_id_issued_at))
    ∷ ("client_name", str e.client_name)
    ∷ ("redirect_uris", arr (strings e.redirect_uris))
    ∷ ("tag", str "rg")
    ∷ ("token_endpoint_auth_method", str e.token_endpoint_auth_method)
    ∷ []
