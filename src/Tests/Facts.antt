-- ===== src/Tests/Facts.antt =====
-- What the program computes on the messages of the runs.
use cimd_proxy.Prelude.{ℕ, String, ◌≡◌, refl, true, false, Option, none, some, List, [], ◌∷◌, arith}
use cimd_proxy.Errors.{ok}
use cimd_proxy.Effects.{run}
use cimd_proxy.Prelude.Dict.{Dict, lookup}
use cimd_proxy.Config.{resource_by_url}
use cimd_proxy.Pkce.{make_verifier, verify_challenge}
use cimd_proxy.RedirectUri.{accept_registered, uri_matches_registration}
use cimd_proxy.Fetcher.{check_infos}
use cimd_proxy.Fetcher.{validate_document, fetch, usable_redirect_uris}
use cimd_proxy.Cache.{get, extract_max_age}
use cimd_proxy.Prelude.{lower, ◌≢◌, eq_iff}
use cimd_proxy.Prelude.Int.{pos}
use cimd_proxy.CimdService.{Documents, obtain}
use cimd_proxy.CimdService.Sound.{IsSound}
use cimd_proxy.Authorize.{
  authorize_envelope, render_authorize_error, validate, check_request, build_upstream_url,
  authorize,
}
use cimd_proxy.Http.{HttpResponse, redirect}
use cimd_proxy.Cache.{Entry}
use cimd_proxy.Envelope
use cimd_proxy.Codec.{pack, open_authorize, open_code}
use cimd_proxy.Http.{new_correlation_id}
use cimd_proxy.Authorize.{AuthorizeParams, require_present, present}
use cimd_proxy.Prelude.{ap, ◌∙◌, ◌≤◌}
use cimd_proxy.Tests.Setup.{
  platform, ip_address, config, cimd, codec, world, params, validated, own, cid, document, entry,
  metadata, client_url, back, state_envelope, code_of, refresh_of, accepted, lawful, reads_state,
  reads_code,
}

pub cid_drawn : run (world 3) new_correlation_id ≡ ok cid
unfolding new_correlation_id
cid_drawn = refl

pub own_drawn : run (world 3) (make_verifier 64) ≡ ok own
unfolding make_verifier
own_drawn = refl

pub pkce_fits : verify_challenge platform "verifier" "AQID" ≡ ok true
unfolding verify_challenge cimd_proxy.Pkce.derive_challenge cimd_proxy.Prelude.all_chars
pkce_fits = refl

pub entry_known : resource_by_url config "https://mcp.example" ≡ ok (some entry)
unfolding resource_by_url cimd_proxy.Config.normalise_requested_url cimd_proxy.Url.urlsplit
    cimd_proxy.Config.entry_with_url
entry_known = refl

pub back_accepted : accept_registered back ≡ ok tt
unfolding accept_registered cimd_proxy.Url.urlsplit cimd_proxy.Url.hostname
back_accepted = refl

pub back_matches : uri_matches_registration back back ≡ ok true
unfolding uri_matches_registration
back_matches = refl

pub loopback_matches :
    uri_matches_registration "http://127.0.0.1:5000/cb" "http://127.0.0.1/cb" ≡ ok true
unfolding uri_matches_registration cimd_proxy.Url.urlsplit cimd_proxy.RedirectUri.is_loopback_http
    cimd_proxy.Url.hostname cimd_proxy.RedirectUri.same_host
loopback_matches = refl

pub metadata_valid :
    validate_document client_url metadata ≡ ok (record document { cache_control = none })
unfolding validate_document cimd_proxy.Fetcher.check_uris cimd_proxy.Fetcher.check_texts
    cimd_proxy.Fetcher.usable_redirect_uris cimd_proxy.Fetcher.sort_uris cimd_proxy.Fetcher.sort_one
    accept_registered cimd_proxy.Url.urlsplit cimd_proxy.Url.hostname cimd_proxy.Fetcher.refusal
metadata_valid = refl

abbrev pub upstream_url : String
upstream_url =
    "https://id.example/realms/r/protocol/openid-connect/auth?response_type=code&client_id=proxy&redirect_uri=https%3A%2F%2Fproxy.example%2Fcallback&code_challenge=AQID&code_challenge_method=S256&state=%2B%2B%2B.a&scope=openid"

pub url_built :
    run (world 3) (build_upstream_url platform ip_address config cimd codec validated cid)
    ≡ ok upstream_url
unfolding build_upstream_url make_verifier cimd_proxy.Pkce.derive_challenge
    cimd_proxy.Prelude.all_chars cimd_proxy.Codec.pack cimd_proxy.Http.authorize_url
    cimd_proxy.Url.Encode.urlencode cimd_proxy.Tests.Fernet.mark cimd_proxy.Tests.Setup.dumps
    cimd_proxy.Envelope.payload cimd_proxy.Prelude.Dict.lookup authorize_envelope
    cimd_proxy.Prelude.rstrip cimd_proxy.Url.Encode.quote_plus
url_built = refl

pub empty-IsSound : IsSound []
unfolding lookup
empty-IsSound = record { holds = λ key e h. absurd (cc h) }

-- The cache behind the first fetch of the document.
abbrev pub filled : Documents
filled = (client_url, record { value = document; expires_at = 603 }) ∷ []

pub validate_runs :
    run (world 3) (validate platform ip_address config cimd codec [] params)
    ≡ ok (ok validated, filled)
unfolding validate check_request accept_registered validate_document fetch resource_by_url
    uri_matches_registration lookup obtain cimd_proxy.Fetcher.check_uris
    cimd_proxy.Fetcher.check_texts cimd_proxy.Fetcher.usable_redirect_uris
    cimd_proxy.Fetcher.sort_uris cimd_proxy.Fetcher.sort_one cimd_proxy.Fetcher.refusal
    cimd_proxy.Fetcher.validate_object cimd_proxy.Fetcher.parse_split cimd_proxy.Fetcher.authority
    cimd_proxy.Fetcher.check_all cimd_proxy.Fetcher.check_zones cimd_proxy.Fetcher.forbidden_zone
    cimd_proxy.Fetcher.without_scope cimd_proxy.Fetcher.first_ip cimd_proxy.Fetcher.pinned_request
    cimd_proxy.Fetcher.parse_client_id_url cimd_proxy.Fetcher.resolve_and_check_ips
    cimd_proxy.Fetcher.check_infos cimd_proxy.Fetcher.fetch_pinned cimd_proxy.Fetcher.read_reply
    cimd_proxy.Fetcher.read_body cimd_proxy.Fetcher.parse_payload
    cimd_proxy.Authorize.validate_checked cimd_proxy.Authorize.registered
    cimd_proxy.Authorize.require_present cimd_proxy.Authorize.present
    cimd_proxy.Authorize.pick_resource cimd_proxy.Authorize.known_target cimd_proxy.Authorize.finish
    cimd_proxy.Authorize.any_matches cimd_proxy.Authorize.load_document
    cimd_proxy.Authorize.dcr_registered cimd_proxy.CimdService.obtain_cached
    cimd_proxy.CimdService.remember cimd_proxy.Config.normalise_requested_url
    cimd_proxy.Config.fold_root cimd_proxy.Config.entry_with_url cimd_proxy.Url.urlsplit
    cimd_proxy.Url.hostname cimd_proxy.Url.port cimd_proxy.Url.hostinfo cimd_proxy.Url.without_path
    cimd_proxy.Cache.get cimd_proxy.Cache.put cimd_proxy.Cache.judge cimd_proxy.Cache.choose_ttl
    cimd_proxy.Cache.base_from_directive cimd_proxy.Cache.extract_max_age
    cimd_proxy.Cache.first_max_age cimd_proxy.Cache.directive_base cimd_proxy.Tests.Setup.loads
    cimd_proxy.Prelude.Dict.insert cimd_proxy.Prelude.lower cimd_proxy.Prelude.split_at
    cimd_proxy.Prelude.strip cimd_proxy.Prelude.Int.parse_int cimd_proxy.Prelude.partition
    cimd_proxy.Prelude.rpartition cimd_proxy.Prelude.any_char cimd_proxy.Prelude.all_chars
validate_runs = refl
