-- ===== src/Tests/Witnesses.antt =====
-- Runs of the endpoints for which the conditions of their properties hold.
use cimd_proxy.Prelude.{ℕ, String, ◌<>◌, ◌≡◌, ◌≢◌, refl, none, some, [], ◌∷◌, arith}
use cimd_proxy.Prelude.Dict.{Dict, lookup}
use cimd_proxy.Json.{Json, to_fields, str, int, arr, strings, object}
use cimd_proxy.Errors.{ok}
use cimd_proxy.Effects.{run, sent, Response}
use cimd_proxy.Codec.{open_code, open_registration}
use cimd_proxy.Http.{redirect, json_response}
use cimd_proxy.RedirectUri.{accept_registered}
use cimd_proxy.Url.Encode.{urlencode}
use cimd_proxy.Authorize.{Validated, build_upstream_url}
use cimd_proxy.Authorize.Admitted.{IsAdmitted, validate_sound, validate-accept_registered}
use cimd_proxy.Authorize.Refused.{authorize_redirects}
use cimd_proxy.Callback.{callback}
use cimd_proxy.Prelude.{is_truthy, if◌then◌else◌}
use cimd_proxy.Prelude.Int.{pos}
use cimd_proxy.Pkce.{make_verifier}
use cimd_proxy.Authorize.Upstream.{IsUpstream}
use cimd_proxy.Callback.Forwarded.{IsReturn, callback_returns, callback_code}
use cimd_proxy.Token.{
  handle_auth_code, handle_refresh, finalise_upstream_response, post, token, dispatch,
}
use cimd_proxy.Token.Redeem.{Redeems, handle_auth_code-sent}
use cimd_proxy.Token.Renew.{handle_refresh-pack}
use cimd_proxy.Token.Finalise.{IsSealed, finalise-IsSealed}
use cimd_proxy.Token.Endpoint.{outcome, token-outcome}
use cimd_proxy.Register.{register}
use cimd_proxy.Register.Issued.{registration_of, register_issued}
use cimd_proxy.Flow.{IsLogin, login}
use cimd_proxy.Tests.Setup.{
  platform, ip_address, config, cimd, codec, world, params, validated, own, cid, entry, back,
  state_envelope, code_of, refresh_of, accepted, lawful, reads_state, reads_code, reads_refresh,
  reads_registration,
}
use cimd_proxy.Tests.Facts.{
  own_drawn, pkce_fits, entry_known, upstream_url, url_built, empty-IsSound, filled, validate_runs,
}
use cimd_proxy.Tests.Handled.{
  authorize_runs, callback_url, error_passes, refresh_packed, state_opens, registration_payload,
  metadata_accepted, body_read, accented,
}

login_example :
    IsLogin platform ip_address config cimd codec
      (world 3)
      (world 5)
      (world 9)
      validated
      cid
      own
      "verifier"
      "up-code"
      upstream_url
login_example =
    login platform ip_address config cimd codec lawful (world 3) (world 5) (world 9) validated cid
      own "verifier" "up-code" upstream_url (omega arith) (omega arith) (omega arith) own_drawn
      url_built pkce_fits entry_known reads_state reads_code

validate_sound_example :
    IsAdmitted platform ip_address config cimd codec (world 3) [] params validated
validate_sound_example =
    validate_sound platform ip_address config cimd codec (world 3) [] params validated filled
      empty-IsSound validate_runs

validate-accept_registered_example : accept_registered back ≡ ok tt
validate-accept_registered_example =
    validate-accept_registered platform ip_address config cimd codec (world 3) [] params validated
      filled empty-IsSound validate_runs refl

authorize_redirects_example :
    (c : String) × (u : String) × (v : Validated) × IsAdmitted platform ip_address config cimd codec
      (world 3)
      []
      params
      v
    × (run (world 3) (make_verifier 64) ≡ ok u)
    × IsUpstream platform ip_address config cimd codec (world 3) v c u upstream_url
authorize_redirects_example =
    authorize_redirects platform ip_address config cimd codec (world 3) [] params upstream_url
      filled empty-IsSound authorize_runs

callback_returns_example : IsReturn platform config codec (world 5) (some "+++.a") callback_url
callback_returns_example =
    callback_returns platform config codec (world 5) none (some "+++.a") (some "access_denied") none
      callback_url error_passes

callback_code_example :
    (sealed : String) × (run
        (world 5)
        (callback platform config codec (some "up-code") (some "+++.a") none none)
      ≡ ok (
          redirect (
            state_envelope.redirect_uri
            <> "?"
            <> urlencode
                (("code", sealed) ∷ ("iss", "https://proxy.example") ∷ ("state", "xyz") ∷ []))))
    × (run (world 9) (open_code platform codec sealed) ≡ ok code_of)
unfolding cimd_proxy.Authorize.authorize_envelope cimd_proxy.Callback.code_envelope
callback_code_example =
    callback_code platform config codec (world 5) lawful (world 9) "+++.a" "up-code" none
      state_envelope reads_code state_opens

handle_auth_code-sent_example :
    Redeems platform codec config (world 9) (some "+++++.c") (some "verifier") (some back) none (
      sent (world 9) (
        handle_auth_code platform codec config (some "+++++.c") (some "verifier") (some back) none))
handle_auth_code-sent_example =
    handle_auth_code-sent platform codec config (world 9) (some "+++++.c") (some "verifier")
      (some back) none

handle_refresh-pack_example :
    sent (world 9) (handle_refresh platform codec config (some "+++++.r") none)
    ≡ post "https://id.example/realms/r/protocol/openid-connect/token" (
        ("grant_type", "refresh_token")
        ∷ ("refresh_token", "rt-up")
        ∷ ("client_id", "proxy")
        ∷ ("client_secret", "s3cret")
        ∷ [])
      ∷ []
unfolding cimd_proxy.Prelude.rstrip
handle_refresh-pack_example =
    handle_refresh-pack platform codec config (world 9) lawful refresh_of "rt-up" refl entry none
      reads_refresh (world 5) "+++++.r" refresh_packed entry_known

abbrev issued : Dict Json
issued = ("access_token", str "at") ∷ ("refresh_token", str "rt-up") ∷ []

abbrev refused : Dict Json
refused = ("error", str "invalid_grant") ∷ []

abbrev reply : ℕ → Dict Json → Response
reply status d = record {
  status_code = status;
  cache_control = none;
  chunks = [];
  json = some (object d);
}

finalise-IsSealed_example :
    (d : Dict Json) × (run
        (world 9)
        (finalise_upstream_response platform codec (reply 200 issued) "https://mcp.example")
      ≡ ok (json_response 200 (object d) []))
    × IsSealed platform codec (world 9) (world 70) "https://mcp.example" (str "rt-up") issued d
unfolding lookup
finalise-IsSealed_example =
    finalise-IsSealed platform codec (world 9) lawful (world 70) (reply 200 issued)
      "https://mcp.example" (str "rt-up") (to_fields issued) reads_refresh refl (omega arith) refl

register_issued_example :
    (client_id : String) × (run
        (world 3)
        (register platform codec (some (object registration_payload)))
      ≡ ok (
          json_response 201
            (object (
              ("client_id", str client_id)
              ∷ ("client_id_issued_at", int (pos 3))
              ∷ ("redirect_uris", arr (strings accepted.redirect_uris))
              ∷ ("token_endpoint_auth_method", str "none")
              ∷ ("grant_types", arr (strings ("authorization_code" ∷ "refresh_token" ∷ [])))
              ∷ ("response_types", arr (strings ("code" ∷ [])))
              ∷ (if is_truthy accepted.client_name
                  then ("client_name", str accepted.client_name) ∷ []
                  else [])))
            []))
    × (run (world 9) (open_registration platform codec client_id) ≡ ok (registration_of accepted 3))
    × (sent (world 3) (register platform codec (some (object registration_payload))) ≡ [])
register_issued_example =
    register_issued platform codec (world 3) lawful (world 9) (some (object registration_payload))
      registration_payload accepted body_read metadata_accepted reads_registration

token-outcome_example :
    run (world 9) (token platform codec config none accented)
    ≡ outcome (run (world 9) (dispatch platform codec config none accented))
token-outcome_example = token-outcome platform codec config (world 9) none accented
