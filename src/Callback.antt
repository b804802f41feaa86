-- ===== src/Callback.antt =====
-- src/cimd_proxy/callback.py. Log lines are not modelled.
pub mod Forwarded
use cimd_proxy.Prelude.{
  ℕ, ◌+◌, String, ◌<>◌, Option, none, some, [], ◌∷◌, ◌++◌, if◌then◌else◌, is_truthy, or_else,
}
use cimd_proxy.Prelude.Dict.{Dict}
use cimd_proxy.Errors.{Exception, Result, ok, err, envelope_error}
use cimd_proxy.Effects.{Prog, ret, throw, ◌>>=◌, attempt, time}
use cimd_proxy.Platform.{Platform}
use cimd_proxy.Config.{ProxyConfig}
use cimd_proxy.Envelope.{AuthorizeEnvelope, CodeEnvelope}
use cimd_proxy.Codec.{EnvelopeCodec, open_authorize, pack_code}
use cimd_proxy.Url.Encode.{urlencode}
use cimd_proxy.Http.{HttpResponse, plain_text, redirect}

-- `if value: params[key] = value`
abbrev pub given : String → String → Dict String → Dict String
given key value rest = if is_truthy value then (key, value) ∷ rest else rest

-- The code envelope that answers an authorize envelope.
unfoldable pub code_envelope : AuthorizeEnvelope → String → ℕ → CodeEnvelope
code_envelope a code now = record {
  correlation_id = a.correlation_id;
  upstream_code = code;
  upstream_verifier = a.upstream_verifier;
  resource = a.resource;
  client_id = a.client_id;
  client_code_challenge = a.client_code_challenge;
  redirect_uri = a.redirect_uri;
  exp = now + 60;
}

bad_request : String → HttpResponse
bad_request description =
    plain_text 400 ("error=invalid_request\nerror_description=" <> description <> "\n")

module _ (P : Platform) (config : ProxyConfig) (codec : EnvelopeCodec) where
  -- The upstream's error goes on to the client's redirect URI.
  unfoldable pub pass_error : AuthorizeEnvelope → String → Option String → HttpResponse
  pass_error a error description = redirect (
      a.redirect_uri
      <> "?"
      <> urlencode (
          ("error", error)
          ∷ given "error_description" (or_else description "")
              (given "state" a.state (("iss", config.public_url) ∷ []))))

  unfoldable pub pass_code : AuthorizeEnvelope → String → Prog HttpResponse
  pass_code a code = do
    now ← time
    code_str ← pack_code P codec (code_envelope a code now)
    ret (
        redirect (
          a.redirect_uri
          <> "?"
          <> urlencode
              (("code", code_str) ∷ ("iss", config.public_url) ∷ given "state" a.state [])))

  unfoldable pub answer_opened :
      AuthorizeEnvelope → (code error description : Option String) → Prog HttpResponse
  unfolding bad_request
  answer_opened a code (some error) description = ret (pass_error a error description)
  answer_opened a none none description = ret (bad_request "missing code")
  answer_opened a (some code) none description = pass_code a code

  unfoldable pub answer_state :
      Result AuthorizeEnvelope → (code error description : Option String) → Prog HttpResponse
  unfolding bad_request
  answer_state (ok a) code error description = answer_opened a code error description
  answer_state (err (envelope_error m)) code error description =
      ret (bad_request "state envelope invalid or expired")
  answer_state (err e) code error description = throw e

  -- The endpoint.
  unfoldable pub callback : (code state error description : Option String) → Prog HttpResponse
  unfolding bad_request
  callback code none error description = ret (bad_request "missing state")
  callback code (some state) error description = do
    opened ← attempt (open_authorize P codec state)
    answer_state opened code error description
