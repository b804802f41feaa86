-- ===== src/Authorize/Admitted.antt =====
-- What a request has proved when `/authorize` accepts it: src/cimd_proxy/authorize.py.
use cimd_proxy.Prelude.{
  String, ◌≡◌, refl, sym, ap, ◌∙◌, inl, inr, true, false, Option, none, some, List, arith, In,
  All-In, starts_with, or_else, Bool-cases,
}
use cimd_proxy.Errors.{
  Result, ok, err, envelope_error, fetch_error, ssrf_refused, document_invalid, ◌>>=◌, >>=-eq-ok,
  ok-injective, Result-cases,
}
use cimd_proxy.Effects.{World, run, attempt}
use cimd_proxy.Effects.Laws.{bind-eq-ok, run-attempt}
use cimd_proxy.Platform.{Platform}
use cimd_proxy.Config.{ProxyConfig, resource_by_url}
use cimd_proxy.Envelope.{RegistrationEnvelope}
use cimd_proxy.Codec.{EnvelopeCodec, open_registration}
use cimd_proxy.Fetcher.{CimdDocument, Zones}
use cimd_proxy.Fetcher.Document.{IsValid}
use cimd_proxy.CimdService.{CimdService, Documents, obtain}
use cimd_proxy.CimdService.Sound.{IsSound, HasBrought, obtain_sound, obtain_origin}
use cimd_proxy.RedirectUri.{accept_registered, uri_matches_registration}
use cimd_proxy.RedirectUri.Policy.{match-accept_registered}
use cimd_proxy.Authorize.{
  AuthorizeParams, Validated, Checked, check_request, any_matches, Registered, load_document,
  dcr_registered, finish, registered, validate_checked, validate,
}
use mathlib.Core.Path.{subst}
use cimd_proxy.Authorize.Request.{IsRequest, any_matches_sound, check_request_sound}

-- The registration of a client, on the CIMD route.
pub record ByDocument (P : Platform) (ip_address : String → Option Zones) (cimd : CimdService)
    (w : World) (c : Documents) (client_id : String) (r : Registered) : Type 0 where
  pub document : CimdDocument
  pub brought : HasBrought P ip_address cimd w c client_id document
  pub valid : IsValid client_id document
  pub is :
      r ≡ record { redirect_uris = document.redirect_uris; document = some document; via = "cimd" }

load_document_sound :
    (P : Platform) (ip_address : String → Option Zones) (cimd : CimdService) (w : World)
    (c : Documents) (client_id : String) (a : Result CimdDocument) (r : Registered)
    → ((d : CimdDocument) → a ≡ ok d → IsValid client_id d)
    → ((d : CimdDocument) → a ≡ ok d → HasBrought P ip_address cimd w c client_id d)
    → load_document a ≡ ok r
    → ByDocument P ip_address cimd w c client_id r
unfolding load_document
load_document_sound P ip_address cimd w c client_id (ok d) r valid brought h = record {
  document = d;
  brought = brought d refl;
  valid = valid d refl;
  is = sym (ok-injective h);
}
load_document_sound P ip_address cimd w c client_id (err (ssrf_refused m)) r valid brought h =
    absurd (cc h)
load_document_sound P ip_address cimd w c client_id (err (document_invalid m)) r valid brought h =
    absurd (cc h)
load_document_sound P ip_address cimd w c client_id (err (fetch_error m)) r valid brought h =
    absurd (cc h)
load_document_sound P ip_address cimd w c client_id (err e) r valid brought h = absurd (cc h)

dcr_registered_sound :
    (a : Result RegistrationEnvelope) (r : Registered)
    → dcr_registered a ≡ ok r
    → (e : RegistrationEnvelope) × (a ≡ ok e)
      × (r ≡ record { redirect_uris = e.redirect_uris; document = none; via = "dcr" })
unfolding dcr_registered
dcr_registered_sound (ok e) r h = (e, refl, sym (ok-injective h))
dcr_registered_sound (err (envelope_error m)) r h = absurd (cc h)
dcr_registered_sound (err e) r h = absurd (cc h)

-- What the parameters of a forwarded request are, and what becomes of them.
pub record HasChecked (config : ProxyConfig) (p : AuthorizeParams) (v : Validated) : Type 0 where
  pub response_type : p.response_type ≡ some "code"
  pub method : p.code_challenge_method ≡ some "S256"
  pub client_id : p.client_id ≡ some v.client_id
  pub redirect_uri : p.redirect_uri ≡ some v.redirect_uri
  pub code_challenge : p.code_challenge ≡ some v.code_challenge
  pub state : v.state ≡ or_else p.state ""
  pub scope : v.scope ≡ or_else p.scope config.default_scope
  pub resource :
      resource_by_url config (or_else p.resource config.default_resource)
      ≡ ok (some v.resource_entry)
  pub in_table : In v.resource_entry config.resources

-- One of the registered URIs matches the request's.
abbrev pub Matches : String → List String → Type 0
Matches uri rs = (r : String) × In r rs × (uri_matches_registration uri r ≡ ok true)

finish_sound :
    (config : ProxyConfig) (p : AuthorizeParams) (q : Checked) (r : Registered) (v : Validated)
    → IsRequest config p q
    → finish config p q r ≡ ok v
    → HasChecked config p v
      × Matches v.redirect_uri r.redirect_uris
      × (v.client_id ≡ q.present.client_id)
unfolding finish
finish_sound config p q r v request h =
    let (m, e, h') = >>=-eq-ok (any_matches q.present.redirect_uri r.redirect_uris) _ h in
    elim (Bool-cases m) [
      | inr no' ↦ absurd (ground (arith, (rw no' at h')))
      | inl yes' ↦ rw (← (ok-injective (rw yes' at h'))) (
          (
            record {
              response_type = request.params.response_type;
              method = request.method;
              client_id = request.params.client_id;
              redirect_uri = request.params.redirect_uri;
              code_challenge = request.params.code_challenge;
              state = refl;
              scope = refl;
              resource = request.resource;
              in_table = request.in_table;
            },
            any_matches_sound q.present.redirect_uri r.redirect_uris (e ∙ ap ok yes'),
            refl,
          ))
    ]

module _ (P : Platform) (ip_address : String → Option Zones) (config : ProxyConfig)
    (cimd : CimdService) (codec : EnvelopeCodec) (w : World) where
  -- The registration of a client, on either route.
  pub data IsRegistration (c : Documents) (client_id : String) (r : Registered) : Type 0 where
    by_document :
        starts_with client_id "https://" ≡ true
        → ByDocument P ip_address cimd w c client_id r
        → IsRegistration c client_id r
    by_envelope :
        starts_with client_id "https://" ≡ false
        → (e : RegistrationEnvelope) → run w (open_registration P codec client_id) ≡ ok e
        → r ≡ record { redirect_uris = e.redirect_uris; document = none; via = "dcr" }
        → IsRegistration c client_id r

  pub record HasFound (c : Documents) (client_id : String) (p : Result Registered × Documents)
      : Type 0 where
    pub sound : IsSound p.1
    pub registration : (r : Registered) → p.0 ≡ ok r → IsRegistration c client_id r

  registered_sound :
      (c : Documents) (client_id : String) (p : Result Registered × Documents)
      → IsSound c
      → run w (registered P ip_address config cimd codec c client_id) ≡ ok p
      → HasFound c client_id p
  unfolding registered
  registered_sound c client_id p sound h = elim (Bool-cases (starts_with client_id "https://")) [
    | inl https ↦
        let (a, obtained, h') =
          bind-eq-ok w (obtain P ip_address cimd c client_id) _ (rw https at h) in
        let good = obtain_sound P ip_address cimd w c client_id a sound obtained in
        rw (← (ok-injective h')) (record {
          sound = good.sound;
          registration = λ r e. by_document https (
              load_document_sound P ip_address cimd w c client_id a.0 r good.valid
                (λ d is. obtain_origin P ip_address cimd w c client_id a d obtained is) e);
        })
    | inr other ↦
        let (a, opened, h') =
          bind-eq-ok w (attempt (open_registration P codec client_id)) _ (rw other at h) in
        rw (← (ok-injective h')) (record {
          sound = sound;
          registration = λ r e.
              let (env, there, is) = dcr_registered_sound a r e in
              by_envelope other env
                (ok-injective (sym (run-attempt w (open_registration P codec client_id)) ∙ opened)
                  ∙ there)
                is;
        })
  ]

  -- What is proved of a request that `_validate` accepts.
  pub record IsAdmitted (c : Documents) (p : AuthorizeParams) (v : Validated) : Type 0 where
    pub checked : HasChecked config p v
    pub by : Registered
    pub registration : IsRegistration c v.client_id by
    pub matches : Matches v.redirect_uri by.redirect_uris

  validated_sound :
      (c : Documents) (p : AuthorizeParams) (q : Checked) (v : Validated) (c' : Documents)
      → IsSound c
      → IsRequest config p q
      → run w (validate_checked P ip_address config cimd codec c p (ok q)) ≡ ok (ok v, c')
      → IsAdmitted c p v
  unfolding validate_checked
  validated_sound c p q v c' sound request h =
      let (found, got, h') =
        bind-eq-ok w (registered P ip_address config cimd codec c q.present.client_id) _ h in
      let known = registered_sound c q.present.client_id found sound got in
      let res : (found.0 >>= finish config p q) ≡ ok v =
        ap (λ (x : Result Validated × Documents). x.0) (ok-injective h') in
      let (r, e, finished) = >>=-eq-ok found.0 _ res in
      let (checked, matches, same) = finish_sound config p q r v request finished in
      record {
        checked = checked;
        by = r;
        registration = rw same (known.registration r e);
        matches = matches;
      }

  -- A request that `_validate` accepts, from a sound cache, carries `response_type=code`, a PKCE
  -- challenge with S256 and a configured resource; its client is registered, by a valid metadata
  -- document that a fetch of its https URL has brought or that the cache keeps for it, or by the
  -- registration envelope that its identifier opens to; and its redirect URI matches one of those
  -- that the document or the envelope registers.
  pub validate_sound :
      (c : Documents) (p : AuthorizeParams) (v : Validated) (c' : Documents)
      → IsSound c
      → run w (validate P ip_address config cimd codec c p) ≡ ok (ok v, c')
      → IsAdmitted c p v
  unfolding validate validate_checked
  validate_sound c p v c' sound h = elim (Result-cases (check_request config p)) [
    | inl (q, e) ↦
        validated_sound c p q v c' sound (check_request_sound config p q e)
          (sym (ap (λ o. run w (validate_checked P ip_address config cimd codec c p o)) e) ∙ h)
    | inr (x, e) ↦ absurd (
        cc (
          ap (λ (y : Result Validated × Documents). y.0)
            (ok-injective (
              sym (ap (λ o. run w (validate_checked P ip_address config cimd codec c p o)) e)
              ∙ h))))
  ]

  -- However the validation of a request ends, it leaves the cache of documents sound.
  pub validate-IsSound :
      (c : Documents) (p : AuthorizeParams) (r : Result Validated) (c' : Documents)
      → IsSound c
      → run w (validate P ip_address config cimd codec c p) ≡ ok (r, c')
      → IsSound c'
  unfolding validate validate_checked
  validate-IsSound c p r c' sound h = elim (Result-cases (check_request config p)) [
    | inl (q, e) ↦
        let (found, got, h') =
          bind-eq-ok w (registered P ip_address config cimd codec c q.present.client_id) _
            (sym (ap (λ o. run w (validate_checked P ip_address config cimd codec c p o)) e) ∙ h) in
        rw (← (ap (λ (y : Result Validated × Documents). y.1) (ok-injective h')))
          ((registered_sound c q.present.client_id found sound got).sound)
    | inr (x, e) ↦
        rw
          (← (
            ap (λ (y : Result Validated × Documents). y.1)
              (ok-injective (
                sym (ap (λ o. run w (validate_checked P ip_address config cimd codec c p o)) e)
                ∙ h))))
          sound
  ]

  -- On the CIMD route the redirect URI of an accepted request passes the registration policy, not
  -- only the registered URI that it matches.
  pub validate-accept_registered :
      (c : Documents) (p : AuthorizeParams) (v : Validated) (c' : Documents)
      → IsSound c
      → run w (validate P ip_address config cimd codec c p) ≡ ok (ok v, c')
      → starts_with v.client_id "https://" ≡ true
      → accept_registered v.redirect_uri ≡ ok tt
  validate-accept_registered c p v c' sound h https =
      let a = validate_sound c p v c' sound h in
      let (r, there, matched) = a.matches in
      elim a.registration [
        | by_envelope other _ _ _ ↦ absurd (cc (https, other))
        | by_document _ doc ↦
            match-accept_registered v.redirect_uri r
              (All-In (λ u. accept_registered u ≡ ok tt) doc.document.redirect_uris
                doc.valid.accepted r
                (subst (λ (x : Registered). In r x.redirect_uris) doc.is there))
              matched
      ]
