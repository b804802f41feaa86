-- ===== src/Authorize/Upstream.antt =====
-- The URL that `/authorize` sends the browser to: src/cimd_proxy/authorize.py.
use cimd_proxy.Prelude.{◌+◌, String, ◌<>◌, ◌≡◌, sym, ◌∙◌, Option, [], ◌∷◌, rstrip_slash, rstrip}
use cimd_proxy.Errors.{ok, ok-injective}
use cimd_proxy.Effects.{World, run}
use cimd_proxy.Effects.Laws.{bind-eq-ok, lift_bind-eq-ok}
use cimd_proxy.Platform.{Platform}
use cimd_proxy.Config.{ProxyConfig}
use cimd_proxy.Pkce.{make_verifier, derive_challenge}
use cimd_proxy.Envelope
use cimd_proxy.Codec.{EnvelopeCodec, pack}
use cimd_proxy.Url.Encode.{urlencode}
use cimd_proxy.Http.{authorize_url}
use cimd_proxy.Fetcher.{Zones}
use cimd_proxy.CimdService.{CimdService}
use cimd_proxy.Authorize.{Validated, authorize_envelope, build_upstream_url}

module _ (P : Platform) (ip_address : String → Option Zones) (config : ProxyConfig)
    (cimd : CimdService) (codec : EnvelopeCodec) where
  -- What `/authorize` sends to the upstream: the challenge of the proxy's own verifier, and a state
  -- that seals the request with that verifier.
  pub record IsUpstream (w : World) (v : Validated) (cid verifier url : String) : Type 0 where
    pub challenge : String
    pub state : String
    pub derived : derive_challenge P verifier ≡ ok challenge
    pub made :
        run w (
          pack P codec (
            Envelope.authorize (record {
              correlation_id = cid;
              client_id = v.client_id;
              redirect_uri = v.redirect_uri;
              state = v.state;
              resource = v.resource_entry.url;
              client_code_challenge = v.code_challenge;
              upstream_verifier = verifier;
              scope = v.scope;
              exp = w.now + 600;
            })))
        ≡ ok state
    pub is :
        url
        ≡ (rstrip_slash v.resource_entry.issuer <> "/protocol/openid-connect/auth")
          <> "?"
          <> urlencode (
              ("response_type", "code")
              ∷ ("client_id", v.resource_entry.client_id)
              ∷ ("redirect_uri", config.public_url <> "/callback")
              ∷ ("code_challenge", challenge)
              ∷ ("code_challenge_method", "S256")
              ∷ ("state", state)
              ∷ ("scope", v.scope)
              ∷ [])

  pub build_upstream_url_sound :
      (w : World) (v : Validated) (cid verifier url : String)
      → run w (make_verifier 64) ≡ ok verifier
      → run w (build_upstream_url P ip_address config cimd codec v cid) ≡ ok url
      → IsUpstream w v cid verifier url
  unfolding build_upstream_url authorize_envelope authorize_url rstrip
  build_upstream_url_sound w v cid verifier url drawn h =
      let (u, drawn', h0) = bind-eq-ok w (make_verifier 64) _ h in
      let (challenge, derived, h1) = lift_bind-eq-ok w (derive_challenge P u) _ h0 in
      let same : u ≡ verifier = ok-injective (sym drawn' ∙ drawn) in
      let (state, made, h2) =
        bind-eq-ok w (pack P codec (Envelope.authorize (authorize_envelope v cid u w.now))) _ h1 in
      record {
        challenge = challenge;
        state = state;
        derived = rw (← same) derived;
        made = rw (← same) made;
        is = sym (ok-injective h2);
      }
