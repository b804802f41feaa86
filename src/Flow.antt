-- ===== src/Flow.antt =====
-- A login from end to end: src/cimd_proxy/authorize.py, src/cimd_proxy/callback.py and
-- src/cimd_proxy/token.py.
use cimd_proxy.Prelude.{
  ℕ, ◌+◌, ◌≤◌, ◌<◌, String, ◌<>◌, ◌≡◌, true, Option, none, some, [], ◌∷◌, eq_refl, rstrip_slash,
  rstrip, is_truthy, if◌then◌else◌,
}
use cimd_proxy.Errors.{ok}
use cimd_proxy.Effects.{World, run, sent, form}
use cimd_proxy.Platform.{Platform, IsLawful, ReadsBack}
use cimd_proxy.Json.{object}
use cimd_proxy.Config.{ProxyConfig, resource_by_url}
use cimd_proxy.Pkce.{make_verifier, verify_challenge}
use cimd_proxy.Envelope.{AuthorizeEnvelope, CodeEnvelope, payload}
use cimd_proxy.Envelope
use cimd_proxy.Codec.{EnvelopeCodec}
use cimd_proxy.Codec.RoundTrip.{open_authorize-pack}
use cimd_proxy.Url.Encode.{urlencode}
use cimd_proxy.Http.{redirect, token_url}
use cimd_proxy.Fetcher.{Zones}
use cimd_proxy.CimdService.{CimdService}
use cimd_proxy.Authorize.Upstream.{IsUpstream, build_upstream_url_sound}
use cimd_proxy.Authorize.{Validated, authorize_envelope, build_upstream_url}
use cimd_proxy.Callback.{code_envelope, callback}
use cimd_proxy.Callback.Forwarded.{callback_code}
use cimd_proxy.Token.{handle_auth_code}
use cimd_proxy.Token.Redeem.{handle_auth_code_redeems, IsRedeemable}

module _ (P : Platform) (ip_address : String → Option Zones) (config : ProxyConfig)
    (cimd : CimdService) (codec : EnvelopeCodec) where
  -- What one login does at its three steps, in three worlds.
  pub record IsLogin (w1 w2 w3 : World) (v : Validated) (cid own verifier upstream_code : String)
      (url : String) : Type 0 where
    pub upstream : IsUpstream P ip_address config cimd codec w1 v cid own url
    pub code : String
    pub returned :
        run w2 (callback P config codec (some upstream_code) (some upstream.state) none none)
        ≡ ok (
            redirect (
              v.redirect_uri
              <> "?"
              <> urlencode (
                  ("code", code)
                  ∷ ("iss", config.public_url)
                  ∷ (if is_truthy v.state then ("state", v.state) ∷ [] else []))))
    pub redeemed :
        sent w3 (
          handle_auth_code P codec config
            (some code)
            (some verifier)
            (some v.redirect_uri)
            (some v.client_id))
        ≡ record {
          method = "POST";
          url = rstrip_slash v.resource_entry.issuer <> "/protocol/openid-connect/token";
          headers = ("Accept", "application/json") ∷ [];
          sni_hostname = none;
          body = form (
              ("grant_type", "authorization_code")
              ∷ ("code", upstream_code)
              ∷ ("redirect_uri", config.public_url <> "/callback")
              ∷ ("code_verifier", own)
              ∷ ("client_id", v.resource_entry.client_id)
              ∷ (if is_truthy v.resource_entry.client_secret
                  then ("client_secret", v.resource_entry.client_secret) ∷ []
                  else []));
        }
          ∷ []

  redeemable :
      (w3 : World) (v : Validated) (cid own verifier upstream_code : String) (then' now' : ℕ)
      → w3.now < now' + 60
      → verify_challenge P verifier v.code_challenge ≡ ok true
      → resource_by_url config v.resource_entry.url ≡ ok (some v.resource_entry)
      → IsRedeemable P codec config w3
          (code_envelope (authorize_envelope v cid own then') upstream_code now')
          verifier
          (some v.redirect_uri)
          (some v.client_id)
          v.resource_entry
  unfolding code_envelope authorize_envelope
  redeemable w3 v cid own verifier upstream_code then' now' fresh pkce known = record {
    live = fresh;
    redirect = eq_refl v.redirect_uri;
    client = eq_refl v.client_id;
    pkce = pkce;
    resource = known;
  }

  -- Where the platform is lawful and the JSON of both envelopes reads back: an accepted request whose
  -- resource the table holds under its URL, whose upstream URL is built, whose callback comes within ten minutes and
  -- whose code is presented less than a minute after that, with the redirect URI, the client and
  -- the PKCE verifier of the request, goes through: the callback sends the browser back to the
  -- request's redirect URI with the request's state, and `/token` sends one request, which
  -- redeems the upstream's code at the token endpoint of the resource's issuer, with the resource's
  -- credentials and the verifier whose challenge `/authorize` sent.
  pub login :
      IsLawful P
      → (w1 w2 w3 : World) (v : Validated) (cid own verifier upstream_code url : String)
      → w1.now ≤ w2.now
      → w2.now ≤ w1.now + 600
      → w3.now < w2.now + 60
      → run w1 (make_verifier 64) ≡ ok own
      → run w1 (build_upstream_url P ip_address config cimd codec v cid) ≡ ok url
      → verify_challenge P verifier v.code_challenge ≡ ok true
      → resource_by_url config v.resource_entry.url ≡ ok (some v.resource_entry)
      → ReadsBack P (object (payload (Envelope.authorize (authorize_envelope v cid own w1.now))))
      → ReadsBack P (
          object (
            payload (
              Envelope.code
                (code_envelope (authorize_envelope v cid own w1.now) upstream_code w2.now))))
      → IsLogin w1 w2 w3 v cid own verifier upstream_code url
  unfolding authorize_envelope code_envelope token_url rstrip
  login lawful w1 w2 w3 v cid own verifier upstream_code url begun live fresh drawn built pkce known
        reads_state reads_code =
      let a = authorize_envelope v cid own w1.now in
      let u =
        build_upstream_url_sound P ip_address config cimd codec w1 v cid own url drawn built in
      let opened =
        open_authorize-pack P lawful codec a reads_state w1 w2 u.state u.made begun live in
      let (code, returned, opens) =
        callback_code P config codec w2 lawful w3 u.state upstream_code none a reads_code opened in
      record {
        upstream = u;
        code = code;
        returned = returned;
        redeemed =
            handle_auth_code_redeems P codec config w3 code verifier (some v.redirect_uri)
              (some v.client_id) (code_envelope a upstream_code w2.now) v.resource_entry opens
              (redeemable w3 v cid own verifier upstream_code w1.now w2.now fresh pkce known);
      }
