-- ===== src/Authorize/Refused.antt =====
-- What `/authorize` answers, and when it asks nothing of the network: src/cimd_proxy/authorize.py.
use mathlib.Core.Option.{some-injective}
use cimd_proxy.Prelude.{String, ◌≡◌, refl, ap, ◌∙◌, Option, none, some, []}
use cimd_proxy.Errors.{OAuthError, Result, ok, err, Exception, oauth, ok-injective}
use cimd_proxy.Effects
use cimd_proxy.Effects.{World, run, sent, Prog, ret, lift, attempt}
use cimd_proxy.Effects.Laws.{bind-eq-ok}
use cimd_proxy.Platform.{Platform}
use cimd_proxy.Config.{ProxyConfig}
use cimd_proxy.Codec.{EnvelopeCodec}
use cimd_proxy.Fetcher.{Zones}
use cimd_proxy.CimdService.{CimdService, Documents}
use cimd_proxy.CimdService.Sound.{IsSound}
use cimd_proxy.Http.{HttpResponse, redirect}
use cimd_proxy.Authorize.{
  AuthorizeParams, Validated, check_request, validate_checked, validate, build_upstream_url, answer,
  authorize,
}
use cimd_proxy.Authorize.Admitted.{IsAdmitted, validate_sound}
use cimd_proxy.Http.{plain_text, json_response, no_content, new_correlation_id}
use cimd_proxy.Authorize.Upstream.{IsUpstream, build_upstream_url_sound}
use cimd_proxy.Pkce.{make_verifier, take_chars, token_urlsafe}
use cimd_proxy.Authorize.{render_authorize_error}

-- The URL of a redirection.
redirects : Result HttpResponse × Documents → Option String
redirects (ok (redirect url), c) = some url
redirects (ok (plain_text s t), c) = none
redirects (ok (json_response s t u), c) = none
redirects (ok no_content, c) = none
redirects (err e, c) = none

module _ (P : Platform) (ip_address : String → Option Zones) (config : ProxyConfig)
    (cimd : CimdService) (codec : EnvelopeCodec) (w : World) where
  not_redirected :
      (cid : String) (x : Exception) (c : Documents) (p : Result HttpResponse × Documents)
      → run w (answer P ip_address config cimd codec cid (err x, c)) ≡ ok p
      → redirects p ≡ none
  unfolding answer redirects render_authorize_error
  not_redirected cid (oauth e) c p h = rw (← (ok-injective h)) refl
  not_redirected cid e c p h = rw (← (ok-injective h)) refl

  answer_redirects :
      (cid : String) (v : Result Validated × Documents) (url : String) (c' : Documents)
      → run w (answer P ip_address config cimd codec cid v) ≡ ok (ok (redirect url), c')
      → (u : Validated) × (v ≡ (ok u, c'))
        × (run w (build_upstream_url P ip_address config cimd codec u cid) ≡ ok url)
  unfolding answer redirects
  answer_redirects cid (ok u, c) url c' h =
      let (target, made, h') =
        bind-eq-ok w (build_upstream_url P ip_address config cimd codec u cid) _ h in
      (
        u,
        ap (λ (x : Result HttpResponse × Documents). (ok u, x.1)) (ok-injective h'),
        made ∙ ap ok (some-injective _ _ (ap redirects (ok-injective h'))),
      )
  answer_redirects cid (err x, c) url c' h =
      absurd (cc (not_redirected cid x c (ok (redirect url), c') h))

  -- From a sound cache, `/authorize` redirects only a request that `_validate` admits, and only to
  -- the authorization endpoint of the requested resource's issuer, with the proxy's client, its
  -- callback, the challenge of a verifier that it has drawn, the requested scope, and a state that
  -- seals the request with that verifier.
  pub authorize_redirects :
      (c : Documents) (p : AuthorizeParams) (url : String) (c' : Documents)
      → IsSound c
      → run w (authorize P ip_address config cimd codec c p) ≡ ok (ok (redirect url), c')
      → (cid : String) × (own : String) × (v : Validated) × IsAdmitted P ip_address config cimd
          codec w c p v
        × (run w (make_verifier 64) ≡ ok own)
        × IsUpstream P ip_address config cimd codec w v cid own url
  unfolding authorize build_upstream_url
  authorize_redirects c p url c' sound h =
      let (cid, _, h1) = bind-eq-ok w new_correlation_id _ h in
      let (r, validated, h2) = bind-eq-ok w (validate P ip_address config cimd codec c p) _ h1 in
      let (v, same, built) = answer_redirects cid r url c' h2 in
      let (own, drawn, _) = bind-eq-ok w (make_verifier 64) _ built in
      (
        cid,
        own,
        v,
        validate_sound P ip_address config cimd codec w c p v c' sound (validated ∙ ap ok same),
        drawn,
        build_upstream_url_sound P ip_address config cimd codec w v cid own url drawn built,
      )

  -- A request whose parameters are refused is answered with the error as plain text; no request is
  -- sent, and the cache of documents stays.
  pub authorize_refused :
      (c : Documents) (p : AuthorizeParams) (e : OAuthError)
      → check_request config p ≡ err (oauth e)
      → (run w (authorize P ip_address config cimd codec c p)
          ≡ ok (ok (render_authorize_error e), c))
        × (sent w (authorize P ip_address config cimd codec c p) ≡ [])
  unfolding authorize validate validate_checked answer new_correlation_id
  authorize_refused c p e h = (
    ap
        (λ o. run w (
          Effects.◌>>=◌ (validate_checked P ip_address config cimd codec c p o)
            (answer P ip_address config cimd codec (take_chars 13 (token_urlsafe w.noise 10)))))
        h,
    ap
        (λ o. sent w (
          Effects.◌>>=◌ (validate_checked P ip_address config cimd codec c p o)
            (answer P ip_address config cimd codec (take_chars 13 (token_urlsafe w.noise 10)))))
        h,
  )
