-- ===== src/Tests/Handled.antt =====
-- What the handlers compute on the messages of the runs.
use cimd_proxy.Prelude.{ℕ, String, ◌≡◌, refl, true, false, Option, none, some, List, [], ◌∷◌, arith}
use cimd_proxy.Errors.{ok, err, oauth, invalid_request, value_error, ssrf_refused}
use cimd_proxy.Effects.{run, attempt}
use cimd_proxy.Prelude.Dict.{Dict, lookup}
use cimd_proxy.Config.{resource_by_url}
use cimd_proxy.Pkce.{make_verifier, verify_challenge}
use cimd_proxy.RedirectUri.{accept_registered, uri_matches_registration}
use cimd_proxy.Fetcher.{check_infos}
use cimd_proxy.Fetcher.{validate_document, fetch, usable_redirect_uris}
use cimd_proxy.Cache.{get, extract_max_age}
use cimd_proxy.Prelude.{lower, ◌≢◌, eq_iff}
use cimd_proxy.Prelude.Int.{pos}
use cimd_proxy.CimdService.{Documents, obtain}
use cimd_proxy.Authorize.{
  authorize_envelope, render_authorize_error, validate, check_request, build_upstream_url,
  authorize,
}
use cimd_proxy.Http.{redirect}
use cimd_proxy.Cache.{Entry}
use cimd_proxy.Envelope
use cimd_proxy.Codec.{pack, open_authorize, open_code}
use cimd_proxy.Codec.RoundTrip.{open_authorize-pack, open_code-pack}
use cimd_proxy.Effects.Silent.{run_behind}
use cimd_proxy.Effects.Laws.{run-attempt}
use cimd_proxy.Http.{new_correlation_id}
use cimd_proxy.Authorize.{AuthorizeParams, require_present, present}
use cimd_proxy.Callback.{callback}
use cimd_proxy.Token.{
  TokenParams, token, dispatch, handle_auth_code, need, opened, check_code, render,
}
use cimd_proxy.Register
use cimd_proxy.Register.{read_json}
use cimd_proxy.Register.Issued.{registration_of}
use cimd_proxy.Json.{Json, str, arr, strings, object}
use cimd_proxy.Prelude.{ap, ◌∙◌, ◌≤◌}
use cimd_proxy.Tests.Setup.{
  platform, ip_address, config, cimd, codec, world, params, validated, own, cid, document, entry,
  metadata, client_url, back, state_envelope, code_of, refresh_of, accepted, lawful, reads_state,
  reads_code,
}
use cimd_proxy.Tests.Facts.{cid_drawn, upstream_url, url_built, filled, validate_runs}

pub state_packed :
    run (world 3) (pack platform codec (Envelope.authorize state_envelope)) ≡ ok "+++.a"
unfolding pack cimd_proxy.Tests.Fernet.mark cimd_proxy.Tests.Setup.dumps cimd_proxy.Envelope.payload
    lookup
state_packed = refl

pub code_packed : run (world 5) (pack platform codec (Envelope.code code_of)) ≡ ok "+++++.c"
unfolding pack cimd_proxy.Tests.Fernet.mark cimd_proxy.Tests.Setup.dumps cimd_proxy.Envelope.payload
    lookup
code_packed = refl

pub refresh_packed :
    run (world 5) (pack platform codec (Envelope.refresh refresh_of)) ≡ ok "+++++.r"
unfolding pack cimd_proxy.Tests.Fernet.mark cimd_proxy.Tests.Setup.dumps cimd_proxy.Envelope.payload
    lookup
refresh_packed = refl

pub registration_packed :
    run (world 3) (pack platform codec (Envelope.registration (registration_of accepted 3)))
    ≡ ok "+++.g"
unfolding pack cimd_proxy.Tests.Fernet.mark cimd_proxy.Tests.Setup.dumps cimd_proxy.Envelope.payload
    lookup
registration_packed = refl

pub state_opens : run (world 5) (open_authorize platform codec "+++.a") ≡ ok state_envelope
state_opens =
    open_authorize-pack platform lawful codec state_envelope reads_state (world 3) (world 5) "+++.a"
      state_packed (omega arith) (omega arith)

pub code_opens : (now : ℕ) → run (world now) (open_code platform codec "+++++.c") ≡ ok code_of
code_opens now =
    open_code-pack platform lawful codec code_of reads_code (world 5) (world now) "+++++.c"
      code_packed

-- The address that `/authorize` redirects to for these parameters.
pub authorize_runs :
    run (world 3) (authorize platform ip_address config cimd codec [] params)
    ≡ ok (ok (redirect upstream_url), filled)
unfolding authorize cimd_proxy.Authorize.answer
authorize_runs =
    run_behind (world 3) new_correlation_id _ cid_drawn
    ∙ run_behind (world 3) (validate platform ip_address config cimd codec [] params) _
        validate_runs
    ∙ run_behind (world 3) (build_upstream_url platform ip_address config cimd codec validated cid)
        _ url_built

abbrev pub silent_params : AuthorizeParams
silent_params = record params { response_type = none }

pub silent_refused :
    check_request config silent_params ≡ err (oauth (invalid_request "missing response_type"))
unfolding check_request require_present present
silent_refused = refl

abbrev pub callback_url : String
callback_url =
    "https://app.example/cb?error=access_denied&state=xyz&iss=https%3A%2F%2Fproxy.example"

pub error_passes :
    run (world 5) (callback platform config codec none (some "+++.a") (some "access_denied") none)
    ≡ ok (redirect callback_url)
unfolding callback cimd_proxy.Callback.answer_state cimd_proxy.Callback.answer_opened
    cimd_proxy.Callback.pass_error cimd_proxy.Url.Encode.urlencode cimd_proxy.Url.Encode.quote_plus
    authorize_envelope
error_passes =
    run_behind (world 5) (attempt (open_authorize platform codec "+++.a")) _
      (run-attempt (world 5) (open_authorize platform codec "+++.a") ∙ ap ok state_opens)

abbrev pub registration_payload : Dict Json
registration_payload =
    ("redirect_uris", arr (strings (back ∷ []))) ∷ ("client_name", str "App") ∷ []

pub metadata_accepted : Register.validate registration_payload ≡ ok accepted
unfolding Register.validate accept_registered cimd_proxy.Url.urlsplit cimd_proxy.Url.hostname
metadata_accepted = refl

pub body_read : read_json (some (object registration_payload)) ≡ ok registration_payload
unfolding read_json
body_read = refl

abbrev pub other_host : String
other_host = "https://other.example"

pub other_unknown : resource_by_url config other_host ≡ ok none
unfolding resource_by_url cimd_proxy.Config.normalise_requested_url cimd_proxy.Url.urlsplit
    cimd_proxy.Config.entry_with_url
other_unknown = refl

pub code_over : code_of.exp ≤ 65
unfolding cimd_proxy.Callback.code_envelope
code_over = omega arith

-- A code verifier that is not ASCII raises in `derive_challenge`, which `/token` does not catch.
abbrev pub accented : TokenParams
accented = record {
  grant_type = some "authorization_code";
  code = some "+++++.c";
  code_verifier = some "é";
  redirect_uri = none;
  client_id = none;
  refresh_token = none;
  scope = none;
  subject_token = none;
  subject_token_type = none;
  requested_token_type = none;
  resource = none;
}

pub accent_raises :
    run (world 9) (token platform codec config none accented)
    ≡ err (value_error "'ascii' codec can't encode the verifier")
unfolding token dispatch handle_auth_code need opened check_code verify_challenge
    cimd_proxy.Pkce.derive_challenge cimd_proxy.Prelude.all_chars render open_code
    cimd_proxy.Codec.open_payload cimd_proxy.Tests.Fernet.unseal cimd_proxy.Tests.Setup.loads
    cimd_proxy.Envelope.Decode.decode_code cimd_proxy.Callback.code_envelope
accent_raises = refl

abbrev pub empty : TokenParams
empty = record accented { grant_type = none }

pub empty_refused :
    run (world 9) (dispatch platform codec config none empty)
    ≡ err (
        oauth (
          invalid_request "missing grant_type; supported: 'authorization_code' or 'refresh_token'"))
unfolding dispatch cimd_proxy.Token.exchange_or_refuse cimd_proxy.Token.refuse_grant
empty_refused = refl

pub loopback_accepted : accept_registered "http://127.0.0.1/cb" ≡ ok tt
unfolding accept_registered cimd_proxy.Url.urlsplit cimd_proxy.Url.hostname
loopback_accepted = refl

pub hit : (get 9 client_url filled).0 ≡ some document
unfolding get
hit = refl

abbrev no_documents : Documents
no_documents = []

pub missed : (get 3 "http://a.example/c" no_documents).0 ≡ none
unfolding get
missed = refl

pub unresolved :
    run (world 3) (fetch platform cimd.fetcher ip_address "http://a.example/c")
    ≡ err (ssrf_refused "client_id must use https")
unfolding fetch cimd_proxy.Fetcher.parse_client_id_url cimd_proxy.Url.urlsplit
unresolved = refl

pub usable : usable_redirect_uris (back ∷ "ftp://app.example/x" ∷ []) ≡ ok (back ∷ [])
unfolding usable_redirect_uris cimd_proxy.Fetcher.sort_uris cimd_proxy.Fetcher.sort_one
    accept_registered cimd_proxy.Url.urlsplit cimd_proxy.Url.hostname cimd_proxy.Fetcher.refusal
usable = refl

pub six_hundred : extract_max_age (lower "no-store, max-age=600") ≡ some (pos 600)
unfolding extract_max_age lower
six_hundred = refl

pub obtained :
    run (world 3) (obtain platform ip_address cimd [] client_url) ≡ ok (ok document, filled)
unfolding check_request accept_registered validate_document fetch resource_by_url
    uri_matches_registration lookup obtain cimd_proxy.Fetcher.check_uris
    cimd_proxy.Fetcher.check_texts cimd_proxy.Fetcher.usable_redirect_uris
    cimd_proxy.Fetcher.sort_uris cimd_proxy.Fetcher.sort_one cimd_proxy.Fetcher.refusal
    cimd_proxy.Fetcher.validate_object cimd_proxy.Fetcher.parse_split cimd_proxy.Fetcher.authority
    cimd_proxy.Fetcher.check_all cimd_proxy.Fetcher.check_zones cimd_proxy.Fetcher.forbidden_zone
    cimd_proxy.Fetcher.without_scope cimd_proxy.Fetcher.first_ip cimd_proxy.Fetcher.pinned_request
    cimd_proxy.Fetcher.parse_client_id_url cimd_proxy.Fetcher.resolve_and_check_ips
    cimd_proxy.Fetcher.check_infos cimd_proxy.Fetcher.fetch_pinned cimd_proxy.Fetcher.read_reply
    cimd_proxy.Fetcher.read_body cimd_proxy.Fetcher.parse_payload
    cimd_proxy.Authorize.validate_checked cimd_proxy.Authorize.registered
    cimd_proxy.Authorize.require_present cimd_proxy.Authorize.present
    cimd_proxy.Authorize.pick_resource cimd_proxy.Authorize.known_target cimd_proxy.Authorize.finish
    cimd_proxy.Authorize.any_matches cimd_proxy.Authorize.load_document
    cimd_proxy.Authorize.dcr_registered cimd_proxy.CimdService.obtain_cached
    cimd_proxy.CimdService.remember cimd_proxy.Config.normalise_requested_url
    cimd_proxy.Config.fold_root cimd_proxy.Config.entry_with_url cimd_proxy.Url.urlsplit
    cimd_proxy.Url.hostname cimd_proxy.Url.port cimd_proxy.Url.hostinfo cimd_proxy.Url.without_path
    cimd_proxy.Cache.get cimd_proxy.Cache.put cimd_proxy.Cache.judge cimd_proxy.Cache.choose_ttl
    cimd_proxy.Cache.base_from_directive cimd_proxy.Cache.extract_max_age
    cimd_proxy.Cache.first_max_age cimd_proxy.Cache.directive_base cimd_proxy.Tests.Setup.loads
    cimd_proxy.Prelude.Dict.insert cimd_proxy.Prelude.lower cimd_proxy.Prelude.split_at
    cimd_proxy.Prelude.strip cimd_proxy.Prelude.Int.parse_int cimd_proxy.Prelude.partition
    cimd_proxy.Prelude.rpartition cimd_proxy.Prelude.any_char cimd_proxy.Prelude.all_chars
obtained = refl

pub tags_differ : ◌≢◌ {A = String} "cd" "rt"
tags_differ e = cc ((eq_iff "cd" "rt").1 e)

pub infos_checked :
    check_infos ip_address "app.example" (some ("93.184.216.34" ∷ [])) ≡ ok ("93.184.216.34" ∷ [])
unfolding check_infos cimd_proxy.Fetcher.check_zones cimd_proxy.Fetcher.without_scope
infos_checked = refl
