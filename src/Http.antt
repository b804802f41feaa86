-- ===== src/Http.antt =====
-- The answers of the endpoints, src/cimd_proxy/upstream.py and src/cimd_proxy/correlation.py.
use cimd_proxy.Prelude.{ℕ, String, ◌<>◌, [], map, rstrip_slash, rstrip}
use cimd_proxy.Prelude.Dict.{Dict}
use cimd_proxy.Json.{Json, str, object}
use cimd_proxy.Errors.{OAuthError, as_dict}
use cimd_proxy.Effects.{Prog, ret, ◌>>=◌, entropy}
use cimd_proxy.Pkce.{token_urlsafe, take_chars}

pub data HttpResponse : Type 0 where
  plain_text : (status_code : ℕ) (content : String) → HttpResponse
  redirect : (url : String) → HttpResponse
  json_response : (status_code : ℕ) (content : Json) (headers : Dict String) → HttpResponse
  no_content : HttpResponse

unfoldable pub authorize_url : String → String
unfolding rstrip
authorize_url issuer = rstrip_slash issuer <> "/protocol/openid-connect/auth"

unfoldable pub token_url : String → String
unfolding rstrip
token_url issuer = rstrip_slash issuer <> "/protocol/openid-connect/token"

unfoldable pub new_correlation_id : Prog String
unfolding token_urlsafe take_chars
new_correlation_id = do noise ← entropy; ret (take_chars 13 (token_urlsafe noise 10))

abbrev pub texts : Dict String → Dict Json
texts = map (λ (k, v). (k, str v))

-- `JSONResponse(status_code=exc.status_code, content=exc.as_dict())`
unfoldable pub error_response : OAuthError → HttpResponse
unfolding as_dict
error_response e = json_response e.status_code (object (texts (as_dict e))) []
