-- ===== src/Token/Endpoint.antt =====
-- The endpoint as a whole: src/cimd_proxy/token.py.
use cimd_proxy.Prelude.{◌≡◌, refl, ◌∙◌, Option, [], ◌∷◌}
use cimd_proxy.Prelude.Dict.{Dict}
use cimd_proxy.Json.{Json, str, object}
use cimd_proxy.Errors.{Result, ok, err, oauth, as_dict}
use cimd_proxy.Effects.{World, run, Prog}
use cimd_proxy.Effects.Laws.{run-catch, caught}
use cimd_proxy.Platform.{Platform}
use cimd_proxy.Config.{ProxyConfig}
use cimd_proxy.Codec.{EnvelopeCodec}
use cimd_proxy.Http.{HttpResponse, json_response, error_response}
use cimd_proxy.Token.{TokenParams, dispatch, render, token}

-- What a client gets for the outcome of a grant: an OAuth error is the JSON of RFC 6749 section 5.2,
-- and every other outcome stays.
abbrev pub outcome : Result HttpResponse → Result HttpResponse
outcome (ok r) = ok r
outcome (err (oauth e)) = ok (
    json_response e.status_code
      (object (("error", str e.error) ∷ ("error_description", str e.description) ∷ [])) [])
outcome (err x) = err x

module _ (P : Platform) (codec : EnvelopeCodec) (config : ProxyConfig) (w : World) where
  caught-outcome : (r : Result HttpResponse) → caught w r (render P codec config) ≡ outcome r
  unfolding render error_response as_dict
  caught-outcome (ok r) = refl
  caught-outcome (err (oauth e)) = refl
  caught-outcome (err x) = refl

  -- `/token` answers every OAuth error of a grant with the status of the error and, as JSON, its code
  -- and its description; any other outcome of the grant stays as it is.
  pub token-outcome :
      (exchange : Option (TokenParams → Prog (Dict Json))) (p : TokenParams)
      → run w (token P codec config exchange p)
        ≡ outcome (run w (dispatch P codec config exchange p))
  unfolding token
  token-outcome exchange p =
      run-catch w (dispatch P codec config exchange p) (render P codec config)
      ∙ caught-outcome (run w (dispatch P codec config exchange p))
