-- ===== src/Callback/Forwarded.antt =====
-- Where `/callback` sends the browser, and with what: src/cimd_proxy/callback.py.
use cimd_proxy.Prelude.{
  ◌+◌, ◌<◌, String, ◌<>◌, ◌≡◌, refl, sym, ap, ◌∙◌, Option, none, some, [], ◌∷◌, if◌then◌else◌,
  is_truthy,
}
use cimd_proxy.Errors.{Result, ok, err, envelope_error, ok-injective}
use cimd_proxy.Effects.{World, run, attempt}
use cimd_proxy.Effects.Laws.{run-attempt, bind-eq-ok}
use cimd_proxy.Effects.Silent.{run_behind}
use cimd_proxy.Platform.{Platform, IsLawful, ReadsBack}
use cimd_proxy.Json.{object}
use cimd_proxy.Config.{ProxyConfig}
use cimd_proxy.Envelope.{AuthorizeEnvelope, Envelope, payload, authorize}
use cimd_proxy.Codec.{EnvelopeCodec, pack, open_authorize, open_code}
use cimd_proxy.Codec.RoundTrip.{open_authorize-pack_stale, open_code-pack}
use cimd_proxy.Url.Encode.{urlencode}
use cimd_proxy.Http.{HttpResponse, plain_text, redirect}
use cimd_proxy.Callback.{
  code_envelope, bad_request, pass_error, pass_code, answer_opened, answer_state, callback,
}

module _ (P : Platform) (config : ProxyConfig) (codec : EnvelopeCodec) (w : World) where
  -- A URL that is the client's redirect URI with a query.
  pub record IsReturn (state : Option String) (url : String) : Type 0 where
    pub given_state : String
    pub envelope : AuthorizeEnvelope
    pub query : String
    pub from : state ≡ some given_state
    pub opens : run w (open_authorize P codec given_state) ≡ ok envelope
    pub is : url ≡ envelope.redirect_uri <> "?" <> query

  Returned : AuthorizeEnvelope → HttpResponse → Type 0
  Returned a (redirect url) = (query : String) × (url ≡ a.redirect_uri <> "?" <> query)
  Returned a _ = Unit {0}

  opened-Returned :
      (a : AuthorizeEnvelope) (c e d : Option String) (r : HttpResponse)
      → run w (answer_opened P config codec a c e d) ≡ ok r
      → Returned a r
  unfolding answer_opened pass_error pass_code Returned pack bad_request
  opened-Returned a c (some e) d r h = rw (← (ok-injective h)) (_, refl)
  opened-Returned a none none d r h = rw (← (ok-injective h)) tt
  opened-Returned a (some c) none d r h = rw (← (ok-injective h)) (_, refl)

  state_returned :
      (state url : String) (result : Result AuthorizeEnvelope) (c e d : Option String)
      → run w (open_authorize P codec state) ≡ result
      → run w (answer_state P config codec result c e d) ≡ ok (redirect url)
      → IsReturn (some state) url
  unfolding answer_state bad_request Returned
  state_returned state url (ok a) c e d opens h =
      let (query, is) = opened-Returned a c e d (redirect url) h in
      record {
        given_state = state;
        envelope = a;
        query = query;
        from = refl;
        opens = opens;
        is = is;
      }
  state_returned state url (err (envelope_error m)) c e d opens h = absurd (cc h)
  state_returned state url (err x) c e d opens h = absurd (cc h)

  -- Every redirection of `/callback` goes to the redirect URI of the authorize envelope that the
  -- `state` parameter opens to, with a query behind it; nothing in the request names another target.
  pub callback_returns :
      (code state error description : Option String) (url : String)
      → run w (callback P config codec code state error description) ≡ ok (redirect url)
      → IsReturn state url
  unfolding callback bad_request
  callback_returns code none error description url h = absurd (cc h)
  callback_returns code (some state) error description url h =
      let (result, opened', h') = bind-eq-ok w (attempt (open_authorize P codec state)) _ h in
      state_returned state url result code error description
        (ok-injective (sym (run-attempt w (open_authorize P codec state)) ∙ opened')) h'

  -- Where the platform is lawful and the JSON of the new envelope reads back, a state that opens and
  -- an upstream code without an error bring the client a code of the proxy's, with the
  -- proxy's issuer and the client's own state; it opens at any time to the upstream's code, with the verifier, the
  -- resource, the client, the challenge and the redirect URI of the state, and an expiry a minute
  -- after its making.
  pub callback_code :
      IsLawful P
      → (w' : World) (state upstream_code : String) (description : Option String)
        (a : AuthorizeEnvelope)
      → ReadsBack P (object (payload (Envelope.code (code_envelope a upstream_code w.now))))
      → run w (open_authorize P codec state) ≡ ok a
      → (sealed : String) × (run w
            (callback P config codec (some upstream_code) (some state) none description)
          ≡ ok (
              redirect (
                a.redirect_uri
                <> "?"
                <> urlencode (
                    ("code", sealed)
                    ∷ ("iss", config.public_url)
                    ∷ (if is_truthy a.state then ("state", a.state) ∷ [] else [])))))
        × (run w' (open_code P codec sealed)
            ≡ ok (record {
              correlation_id = a.correlation_id;
              upstream_code = upstream_code;
              upstream_verifier = a.upstream_verifier;
              resource = a.resource;
              client_id = a.client_id;
              client_code_challenge = a.client_code_challenge;
              redirect_uri = a.redirect_uri;
              exp = w.now + 60;
            }))
  unfolding callback answer_state answer_opened pass_code pack code_envelope
  callback_code lawful w' state upstream_code description a reads opens =
      let e = code_envelope a upstream_code w.now in
      let s = P.encrypt codec.key w.now w.noise (P.dumps (object (payload (Envelope.code e)))) in
      (
        s,
        run_behind w (attempt (open_authorize P codec state)) _
            (run-attempt w (open_authorize P codec state) ∙ ap ok opens),
        open_code-pack P lawful codec e reads w w' s refl,
      )

  -- Where the platform is lawful and the JSON of the envelope reads back, a state that was sealed
  -- more than ten minutes ago is answered with 400 as plain text, whatever
  -- else the request carries.
  pub callback_stale :
      IsLawful P
      → (a : AuthorizeEnvelope) → ReadsBack P (object (payload (authorize a)))
      → (w' : World) (state : String) → run w' (pack P codec (authorize a)) ≡ ok state
      → w'.now + 600 < w.now
      → (code error description : Option String)
      → run w (callback P config codec code (some state) error description)
        ≡ ok (
            plain_text 400
              "error=invalid_request\nerror_description=state envelope invalid or expired\n")
  unfolding callback answer_state bad_request
  callback_stale lawful a reads w' state made stale code error description =
      run_behind w (attempt (open_authorize P codec state)) _ (
        run-attempt w (open_authorize P codec state)
        ∙ ap ok (open_authorize-pack_stale P lawful codec a reads w' w state made stale))
