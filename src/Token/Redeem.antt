-- ===== src/Token/Redeem.antt =====
-- When `/token` sends a code upstream: `_handle_auth_code` of src/cimd_proxy/token.py.
use cimd_proxy.Prelude.{
  ◌≤◌, ◌<◌, String, ◌<>◌, ◌≡◌, refl, sym, ap, ◌∙◌, ◌⊎◌, inl, inr, true, false, Option, none, some,
  List, [], ◌∷◌, arith, ltb,
}
use cimd_proxy.Errors.{Result, ok, err, oauth, invalid_grant, ok-injective}
use cimd_proxy.Effects.{World, run, sent, Prog, ◌>>=◌, lift, attempt, require, time, Request}
use cimd_proxy.Effects.Laws.{run-attempt, run-lift, sent-lift, lift_bind-eq-ok}
use cimd_proxy.Effects.Silent.{
  sent_behind, silent-bind, sent-attempt, sent-require, require_bind-eq-ok, run_behind,
  run_behind_err, sent_behind_err, sent_behind_ok, require-ok,
}
use cimd_proxy.Platform.{Platform}
use cimd_proxy.Config.{ProxyConfig, ResourceEntry, resource_by_url}
use cimd_proxy.Pkce.{verify_challenge}
use cimd_proxy.Envelope.{CodeEnvelope}
use cimd_proxy.Codec.{EnvelopeCodec, open_code}
use cimd_proxy.Codec.Silent.{open_code_silent}
use cimd_proxy.Http.{HttpResponse, token_url}
use cimd_proxy.Token.{
  opened, agrees, configured, post, post_form, code_form, check_code, handle_auth_code,
  finalise_upstream_response, need,
}
use cimd_proxy.Token.Finalise.{finalise_silent}
use cimd_proxy.Token.Parts.{
  opened_sound, opened_silent, configured_sound, configured_silent, posted,
}

module _ (P : Platform) (codec : EnvelopeCodec) (config : ProxyConfig) (w : World) where
  -- What `check_code` has tested when it returns.
  pub record IsRedeemable (e : CodeEnvelope) (verifier : String)
      (redirect_uri client_id : Option String) (entry : ResourceEntry) : Type 0 where
    pub live : w.now < e.exp
    pub redirect : agrees redirect_uri e.redirect_uri ≡ true
    pub client : agrees client_id e.client_id ≡ true
    pub pkce : verify_challenge P verifier e.client_code_challenge ≡ ok true
    pub resource : resource_by_url config e.resource ≡ ok (some entry)

  check_code_sound :
      (e : CodeEnvelope) (verifier : String) (redirect_uri client_id : Option String)
      (entry : ResourceEntry)
      → run w (check_code P codec config e w.now verifier redirect_uri client_id) ≡ ok entry
      → IsRedeemable e verifier redirect_uri client_id entry
  unfolding check_code
  check_code_sound e verifier redirect_uri client_id entry h =
      let (live, h1) = require_bind-eq-ok w (ltb w.now e.exp) _ _ h in
      let (redirect, h2) = require_bind-eq-ok w (agrees redirect_uri e.redirect_uri) _ _ h1 in
      let (client, h3) = require_bind-eq-ok w (agrees client_id e.client_id) _ _ h2 in
      let (m, pkce, h4) =
        lift_bind-eq-ok w (verify_challenge P verifier e.client_code_challenge) _ h3 in
      let (yes', h5) = require_bind-eq-ok w m _ _ h4 in
      let (found, resource, h6) = lift_bind-eq-ok w (resource_by_url config e.resource) _ h5 in
      record {
        live = ground arith;
        redirect = redirect;
        client = client;
        pkce = pkce ∙ ap ok yes';
        resource = resource ∙ ap ok (configured_sound w e.resource "token exchange" found entry h6);
      }

  check_code_silent :
      (e : CodeEnvelope) (verifier : String) (redirect_uri client_id : Option String)
      → sent w (check_code P codec config e w.now verifier redirect_uri client_id) ≡ []
  unfolding check_code
  check_code_silent e verifier redirect_uri client_id =
      silent-bind w (require (ltb w.now e.exp) _) _ (sent-require w (ltb w.now e.exp) _) λ _.
        silent-bind w (require (agrees redirect_uri e.redirect_uri) _) _
          (sent-require w (agrees redirect_uri e.redirect_uri) _)
          λ _.
            silent-bind w (require (agrees client_id e.client_id) _) _
              (sent-require w (agrees client_id e.client_id) _)
              λ _.
                silent-bind w (lift (verify_challenge P verifier e.client_code_challenge)) _
                  (sent-lift w (verify_challenge P verifier e.client_code_challenge))
                  λ m. silent-bind w (require m _) _ (sent-require w m _) λ _.
                    silent-bind w (lift (resource_by_url config e.resource)) _
                      (sent-lift w (resource_by_url config e.resource))
                      (configured_silent w e.resource "token exchange")

  -- What a request to the upstream's token endpoint is, and what has been proved when it is sent.
  pub record IsRedemption (code verifier redirect_uri client_id : Option String) (q : Request)
      : Type 0 where
    pub code' : String
    pub verifier' : String
    pub envelope : CodeEnvelope
    pub entry : ResourceEntry
    pub given : code ≡ some code'
    pub given_verifier : verifier ≡ some verifier'
    pub opens : run w (open_code P codec code') ≡ ok envelope
    pub redeemable : IsRedeemable envelope verifier' redirect_uri client_id entry
    pub request : q ≡ post (token_url entry.issuer) (code_form P codec config envelope entry)

  check_code_complete :
      (e : CodeEnvelope) (verifier : String) (redirect_uri client_id : Option String)
      (entry : ResourceEntry)
      → IsRedeemable e verifier redirect_uri client_id entry
      → run w (check_code P codec config e w.now verifier redirect_uri client_id) ≡ ok entry
  unfolding check_code configured
  check_code_complete e verifier redirect_uri client_id entry r =
      let begun = r.live in
      let live : ltb w.now e.exp ≡ true = ground arith in
      run_behind w (require (ltb w.now e.exp) _) _ (require-ok w (ltb w.now e.exp) _ live)
      ∙ run_behind w (require (agrees redirect_uri e.redirect_uri) _) _
          (require-ok w (agrees redirect_uri e.redirect_uri) _ r.redirect)
      ∙ run_behind w (require (agrees client_id e.client_id) _) _
          (require-ok w (agrees client_id e.client_id) _ r.client)
      ∙ run_behind w (lift (verify_challenge P verifier e.client_code_challenge)) _
          (run-lift w (verify_challenge P verifier e.client_code_challenge) ∙ r.pkce)
      ∙ run_behind w (lift (resource_by_url config e.resource)) _
          (run-lift w (resource_by_url config e.resource) ∙ r.resource)

  -- A code that opens and can be redeemed is redeemed.
  pub handle_auth_code_redeems :
      (c v : String) (redirect_uri client_id : Option String) (e : CodeEnvelope)
      (entry : ResourceEntry)
      → run w (open_code P codec c) ≡ ok e
      → IsRedeemable e v redirect_uri client_id entry
      → sent w (handle_auth_code P codec config (some c) (some v) redirect_uri client_id)
        ≡ post (token_url entry.issuer) (code_form P codec config e entry) ∷ []
  unfolding handle_auth_code need opened
  handle_auth_code_redeems c v redirect_uri client_id e entry opens r =
      let silent = sent-attempt w (open_code P codec c) ∙ open_code_silent P codec w c in
      sent_behind_ok w (attempt (open_code P codec c)) _ silent
        (run-attempt w (open_code P codec c) ∙ ap ok opens)
      ∙ sent_behind_ok w (check_code P codec config e w.now v redirect_uri client_id) _
          (check_code_silent e v redirect_uri client_id)
          (check_code_complete e v redirect_uri client_id entry r)
      ∙ posted w (token_url entry.issuer) (code_form P codec config e entry) _
          (λ x. finalise_silent P codec w x entry.url)

  -- Nothing is sent, or one request that redeems the code.
  pub Redeems : (code verifier redirect_uri client_id : Option String) → List Request → Type 0
  Redeems code verifier redirect_uri client_id qs =
      (qs ≡ [])
      ⊎ ((q : Request) × (qs ≡ q ∷ []) × IsRedemption code verifier redirect_uri client_id q)

  -- The part of `handle_auth_code` behind the opened envelope.
  abbrev redeem :
      CodeEnvelope → String → (redirect_uri client_id : Option String) → Prog HttpResponse
  redeem e v redirect_uri client_id = time >>= λ now.
      check_code P codec config e now v redirect_uri client_id >>= λ entry.
      post_form (token_url entry.issuer) (code_form P codec config e entry) >>= λ r.
      finalise_upstream_response P codec r entry.url

  redeem-sent :
      (c v : String) (redirect_uri client_id : Option String) (e : CodeEnvelope)
      → run w (open_code P codec c) ≡ ok e
      → Redeems
          (some c)
          (some v)
          redirect_uri
          client_id
          (sent w (redeem e v redirect_uri client_id))
  unfolding Redeems
  redeem-sent c v redirect_uri client_id e opens =
      let checks = check_code P codec config e w.now v redirect_uri client_id in
      elim (sent_behind w checks _ (check_code_silent e v redirect_uri client_id)) [
        | inl over ↦ inl over
        | inr (entry, checked, there) ↦ inr (
          post (token_url entry.issuer) (code_form P codec config e entry),
          there
              ∙ posted w (token_url entry.issuer) (code_form P codec config e entry) _
                  (λ r. finalise_silent P codec w r entry.url),
          record {
            code' = c;
            verifier' = v;
            envelope = e;
            entry = entry;
            given = refl;
            given_verifier = refl;
            opens = opens;
            redeemable = check_code_sound e v redirect_uri client_id entry checked;
            request = refl;
          },
        )
      ]

  opened-sent :
      (c v : String) (redirect_uri client_id : Option String) (result : Result CodeEnvelope)
      → run w (open_code P codec c) ≡ result
      → Redeems (some c) (some v) redirect_uri client_id (
          sent w (
            opened (λ m. "code envelope invalid or expired: " <> m) result >>= λ e.
            redeem e v redirect_uri client_id))
  unfolding Redeems
  opened-sent c v redirect_uri client_id result opens =
      let taken = opened (λ m. "code envelope invalid or expired: " <> m) result in
      elim (sent_behind w taken (λ e. redeem e v redirect_uri client_id)
        (opened_silent w _ result)) [
          | inl over ↦ inl over
          | inr (e, is, there) ↦
              rw there
                (redeem-sent c v redirect_uri client_id e (opens ∙ opened_sound w _ result e is))
        ]

  -- `/token` sends at most one request for a code, and only after the code has opened, it has not
  -- expired, the redirect URI and the client agree with the envelope where they are given, the PKCE
  -- verifier fits the challenge, and the resource is configured. That request redeems the
  -- upstream's code with the proxy's own verifier at the token endpoint of the resource's issuer.
  pub handle_auth_code-sent :
      (code verifier redirect_uri client_id : Option String)
      → Redeems code verifier redirect_uri client_id
          (sent w (handle_auth_code P codec config code verifier redirect_uri client_id))
  unfolding Redeems handle_auth_code need
  handle_auth_code-sent none verifier redirect_uri client_id = inl refl
  handle_auth_code-sent (some c) none redirect_uri client_id = inl refl
  handle_auth_code-sent (some c) (some v) redirect_uri client_id =
      let silent = sent-attempt w (open_code P codec c) ∙ open_code_silent P codec w c in
      elim (sent_behind w (attempt (open_code P codec c)) _ silent) [
        | inl over ↦ inl over
        | inr (result, is, there) ↦ rw there (
            opened-sent c v redirect_uri client_id result
              (ok-injective (sym (run-attempt w (open_code P codec c)) ∙ is)))
      ]

  check_code_expired :
      (e : CodeEnvelope) (verifier : String) (redirect_uri client_id : Option String)
      → e.exp ≤ w.now
      → run w (check_code P codec config e w.now verifier redirect_uri client_id)
        ≡ err (oauth (invalid_grant "code envelope expired"))
  unfolding check_code
  check_code_expired e verifier redirect_uri client_id over =
      let test : ltb w.now e.exp ≡ false = ground arith in
      run_behind_err w (require (ltb w.now e.exp) (oauth (invalid_grant "code envelope expired"))) _
        (ap (λ b. run w (require b (oauth (invalid_grant "code envelope expired")))) test)

  -- A code that opens at or after its expiry is refused with `invalid_grant`, and nothing is sent.
  pub handle_auth_code_expired :
      (code verifier : String) (redirect_uri client_id : Option String) (e : CodeEnvelope)
      → run w (open_code P codec code) ≡ ok e
      → e.exp ≤ w.now
      → (run w (handle_auth_code P codec config (some code) (some verifier) redirect_uri client_id)
          ≡ err (oauth (invalid_grant "code envelope expired")))
        × (sent w
              (handle_auth_code P codec config (some code) (some verifier) redirect_uri client_id)
            ≡ [])
  unfolding handle_auth_code need opened
  handle_auth_code_expired code verifier redirect_uri client_id e opens over =
      let opened' : run w (attempt (open_code P codec code)) ≡ ok (ok e) =
        run-attempt w (open_code P codec code) ∙ ap ok opens in
      let checks = check_code P codec config e w.now verifier redirect_uri client_id in
      let refused = check_code_expired e verifier redirect_uri client_id over in
      (
        run_behind w (attempt (open_code P codec code)) _ opened'
            ∙ run_behind_err w checks _ refused,
        sent_behind_ok w (attempt (open_code P codec code)) _
              (sent-attempt w (open_code P codec code) ∙ open_code_silent P codec w code) opened'
            ∙ sent_behind_err w checks _ (check_code_silent e verifier redirect_uri client_id)
                refused,
      )
