-- ===== src/Token/Renew.antt =====
-- The refresh grant and the endpoint as a whole: src/cimd_proxy/token.py.
use cimd_proxy.Prelude.{
  String, ◌<>◌, ◌≡◌, refl, sym, ap, ◌∙◌, ◌⊎◌, inl, inr, Option, none, some, List, [], ◌∷◌, or_else,
  is_truthy, if◌then◌else◌, rstrip_slash, rstrip,
}
use cimd_proxy.Prelude.Dict.{Dict}
use cimd_proxy.Errors.{Result, ok, ok-injective}
use cimd_proxy.Effects.{World, run, sent, Prog, ◌>>=◌, lift, attempt, Request, form}
use cimd_proxy.Effects.Laws.{run-attempt, run-lift, sent-lift}
use cimd_proxy.Effects.Silent.{sent_behind, sent-attempt, sent_behind_ok}
use cimd_proxy.Platform.{Platform}
use cimd_proxy.Config.{ProxyConfig, ResourceEntry, resource_by_url}
use cimd_proxy.Envelope.{RefreshEnvelope, payload, refresh}
use cimd_proxy.Codec.{EnvelopeCodec, open_refresh}
use cimd_proxy.Codec.Silent.{open_refresh_silent}
use cimd_proxy.Http.{HttpResponse, token_url}
use cimd_proxy.Token.{
  opened, configured, post, post_form, refresh_form, handle_refresh, finalise_upstream_response,
  need,
}
use cimd_proxy.Token.Finalise.{finalise_silent}
use cimd_proxy.Token.Parts.{opened_sound, opened_silent, posted}
use cimd_proxy.Platform.{IsLawful, ReadsBack}
use cimd_proxy.Json.{object, str}
use cimd_proxy.Codec.{pack}
use cimd_proxy.Codec.RoundTrip.{open_refresh-pack}

module _ (P : Platform) (codec : EnvelopeCodec) (config : ProxyConfig) (w : World) where
  -- What a renewed token rests on.
  pub record IsRenewal (refresh_token scope : Option String) (q : Request) : Type 0 where
    pub token : String
    pub envelope : RefreshEnvelope
    pub entry : ResourceEntry
    pub given : refresh_token ≡ some token
    pub opens : run w (open_refresh P codec token) ≡ ok envelope
    pub resource : resource_by_url config envelope.resource ≡ ok (some entry)
    pub request :
        q ≡ post (token_url entry.issuer) (refresh_form P codec config envelope entry scope)

  -- Nothing is sent, or one request that renews the token.
  pub Renews : (refresh_token scope : Option String) → List Request → Type 0
  Renews refresh_token scope qs =
      (qs ≡ []) ⊎ ((q : Request) × (qs ≡ q ∷ []) × IsRenewal refresh_token scope q)

  -- The part of `handle_refresh` behind the opened envelope.
  abbrev renew : RefreshEnvelope → Option String → Prog HttpResponse
  renew e scope = lift (resource_by_url config e.resource) >>= λ found.
      configured e.resource "refresh" found >>= λ entry.
      post_form (token_url entry.issuer) (refresh_form P codec config e entry scope) >>= λ r.
      finalise_upstream_response P codec r entry.url

  renew_found :
      (t : String) (scope : Option String) (e : RefreshEnvelope) (found : Option ResourceEntry)
      → run w (open_refresh P codec t) ≡ ok e
      → resource_by_url config e.resource ≡ ok found
      → Renews (some t) scope (
          sent w (
            configured e.resource "refresh" found >>= λ entry.
            post_form (token_url entry.issuer) (refresh_form P codec config e entry scope) >>= λ r.
            finalise_upstream_response P codec r entry.url))
  unfolding Renews configured
  renew_found t scope e none opens resource = inl refl
  renew_found t scope e (some entry) opens resource = inr (
    post (token_url entry.issuer) (refresh_form P codec config e entry scope),
    posted w (token_url entry.issuer) (refresh_form P codec config e entry scope) _
        (λ r. finalise_silent P codec w r entry.url),
    record {
      token = t;
      envelope = e;
      entry = entry;
      given = refl;
      opens = opens;
      resource = resource;
      request = refl;
    },
  )

  renew-sent :
      (t : String) (scope : Option String) (result : Result RefreshEnvelope)
      → run w (open_refresh P codec t) ≡ result
      → Renews (some t) scope (
          sent w
            (opened (λ m. "refresh_token envelope invalid: " <> m) result >>= λ e. renew e scope))
  unfolding Renews
  renew-sent t scope result opens =
      let taken = opened (λ m. "refresh_token envelope invalid: " <> m) result in
      elim (sent_behind w taken (λ e. renew e scope) (opened_silent w _ result)) [
        | inl over ↦ inl over
        | inr (e, is, there) ↦
            elim (sent_behind w (lift (resource_by_url config e.resource)) _
              (sent-lift w (resource_by_url config e.resource))) [
                | inl over ↦ inl (there ∙ over)
                | inr (found, got, there') ↦
                    rw (there, there')
                      (renew_found t scope e found (opens ∙ opened_sound w _ result e is)
                        (sym (run-lift w (resource_by_url config e.resource)) ∙ got))
              ]
      ]

  -- `/token` sends at most one request for a refresh token, and only after the token has opened and
  -- its resource is configured. That request carries the upstream's own token to the token endpoint
  -- of the resource's issuer.
  pub handle_refresh-sent :
      (refresh_token scope : Option String)
      → Renews refresh_token scope (sent w (handle_refresh P codec config refresh_token scope))
  unfolding Renews handle_refresh need
  handle_refresh-sent none scope = inl refl
  handle_refresh-sent (some t) scope =
      let silent = sent-attempt w (open_refresh P codec t) ∙ open_refresh_silent P codec w t in
      elim (sent_behind w (attempt (open_refresh P codec t)) _ silent) [
        | inl over ↦ inl over
        | inr (result, is, there) ↦ rw there (
            renew-sent t scope result
              (ok-injective (sym (run-attempt w (open_refresh P codec t)) ∙ is)))
      ]

  -- Where the platform is lawful and the envelope's JSON reads back, a refresh token that the proxy
  -- has sealed on an upstream token for a configured resource is accepted at any later
  -- time: the one request is a refresh with the upstream's own token, the credentials of the
  -- resource and the given scope, at the token endpoint of the resource's issuer.
  pub handle_refresh-pack :
      IsLawful P
      → (e : RefreshEnvelope) (upstream_token : String)
      → e.upstream_refresh_token ≡ str upstream_token
      → (entry : ResourceEntry) (scope : Option String) → ReadsBack P (object (payload (refresh e)))
      → (w' : World) (t : String) → run w' (pack P codec (refresh e)) ≡ ok t
      → resource_by_url config e.resource ≡ ok (some entry)
      → sent w (handle_refresh P codec config (some t) scope)
        ≡ record {
          method = "POST";
          url = rstrip_slash entry.issuer <> "/protocol/openid-connect/token";
          headers = ("Accept", "application/json") ∷ [];
          sni_hostname = none;
          body = form (
              ("grant_type", "refresh_token")
              ∷ ("refresh_token", upstream_token)
              ∷ ("client_id", entry.client_id)
              ∷ (let scoped : Dict String =
                    if is_truthy (or_else scope "") then ("scope", or_else scope "") ∷ [] else [] in
                  if is_truthy entry.client_secret
                  then ("client_secret", entry.client_secret) ∷ scoped
                  else scoped));
        }
          ∷ []
  unfolding handle_refresh need opened configured token_url rstrip
  handle_refresh-pack lawful e upstream_token is entry scope reads w' t made known =
      let opens : run w (open_refresh P codec t) ≡ ok e =
        open_refresh-pack P lawful codec e reads w' w t made in
      let silent = sent-attempt w (open_refresh P codec t) ∙ open_refresh_silent P codec w t in
      sent_behind_ok w (attempt (open_refresh P codec t)) _ silent
        (run-attempt w (open_refresh P codec t) ∙ ap ok opens)
      ∙ sent_behind_ok w (lift (resource_by_url config e.resource)) _
          (sent-lift w (resource_by_url config e.resource))
          (run-lift w (resource_by_url config e.resource) ∙ known)
      ∙ posted w (token_url entry.issuer) (refresh_form P codec config e entry scope) _
          (λ r. finalise_silent P codec w r entry.url)
      ∙ rw (is, lawful.form_values-str upstream_token) refl
