-- ===== src/Pat/Authenticate/Owner.antt =====
-- Whom `authenticate` of src/cimd_proxy/pat.py lets manage tokens.
use cimd_proxy.Prelude.{
  ℕ, String, ◌<>◌, ◌≡◌, refl, sym, ap, ◌∙◌, ◌⊎◌, inl, inr, Bool, true, false, not, ◌&&◌, Option,
  none, some, [], ◌∷◌, arith, eqb, eq_iff, ◌==◌, found_is,
}
use cimd_proxy.Prelude.Dict.{Dict, lookup}
use cimd_proxy.Json.{Json, str_of}
use cimd_proxy.Errors.{Result-cases, ok, >>=-eq-ok, ok-injective}
use cimd_proxy.Effects.{
  World, run, sent, Prog, ◌>>=◌, ◌>>◌, lift, require, Reply, failed, answered, Response, Request,
}
use cimd_proxy.Effects.Laws.{bind-eq-ok, lift_bind-eq-ok, run-lift, sent-lift, sent-ok, sent-err}
use cimd_proxy.Effects.Silent.{require_bind-eq-ok, silent-bind, sent-require}
use cimd_proxy.Platform.{Platform}
use cimd_proxy.Config.{ProxyConfig, PatConfig}
use cimd_proxy.Keycloak.{KeycloakClient, Caller, introspect, admin_post, failing, json_or_raise}
use cimd_proxy.Http.{token_url}
use cimd_proxy.Pat.Format.{is_well_formed}
use cimd_proxy.Pat.Exchange.{posted_reply}
use cimd_proxy.Pat.Authenticate.{
  refuse_unless, truth, issuer_of, subject_of, organizations_of, bearer_credential, claims_of,
  check_claims, check_credential, authenticate,
}

refuse_unless_sound : (b : Bool) (s : ℕ) (e d : String) → refuse_unless b s e d ≡ ok tt → b ≡ true
refuse_unless_sound true s e d h = refl
refuse_unless_sound false s e d h = absurd (cc h)

module _ (P : Platform) (config : ProxyConfig) (pat : PatConfig) (kc : KeycloakClient)
    (w : World) where
  -- The claims of an interactive sign-in of the caller's.
  pub record IsOwner (claims : Dict Json) (caller : Caller) : Type 0 where
    pub active : truth (lookup "active" claims) ≡ true
    pub issuer : issuer_of (lookup "iss" claims) ≡ ok pat.realm_issuer
    pub access_token : found_is (str_of (lookup "typ" claims)) "Bearer" ≡ true
    pub session : truth (lookup "sid" claims) ≡ true
    pub subject : subject_of (lookup "sub" claims) ≡ ok caller.subject
    pub organizations : caller.organizations ≡ organizations_of (lookup "organization" claims)

  check_claims_sound :
      (claims : Dict Json) (caller : Caller)
      → check_claims P config pat kc claims ≡ ok caller
      → IsOwner claims caller
  unfolding check_claims
  check_claims_sound claims caller h =
      let (_, active, h1) =
        >>=-eq-ok
          (refuse_unless (truth (lookup "active" claims)) 401 "invalid_token"
            "the bearer token is not active")
          _ h in
      let (issuer, iss, h2) = >>=-eq-ok (issuer_of (lookup "iss" claims)) _ h1 in
      let (_, realm, h3) =
        >>=-eq-ok
          (refuse_unless (issuer == pat.realm_issuer) 401 "invalid_token"
            "the bearer token is from another realm")
          _ h2 in
      let (_, typ, h4) =
        >>=-eq-ok
          (refuse_unless
            (found_is (str_of (lookup "typ" claims)) "Bearer" && truth (lookup "sub" claims)) 401
            "invalid_token" "the bearer token is not an access token")
          _ h3 in
      let (_, sid, h5) =
        >>=-eq-ok
          (refuse_unless (truth (lookup "sid" claims)) 403 "insufficient_scope"
            "managing tokens needs a token from an interactive sign-in")
          _ h4 in
      let (subject, sub, h6) = >>=-eq-ok (subject_of (lookup "sub" claims)) _ h5 in
      let same = ok-injective h6 in
      let typed =
        refuse_unless_sound
          (found_is (str_of (lookup "typ" claims)) "Bearer" && truth (lookup "sub" claims)) 401 _ _
          typ in
      record {
        active = refuse_unless_sound (truth (lookup "active" claims)) 401 _ _ active;
        issuer =
            iss
            ∙ ap ok (
                (eq_iff issuer pat.realm_issuer).0
                  (refuse_unless_sound (issuer == pat.realm_issuer) 401 _ _ realm));
        access_token = ground arith;
        session = refuse_unless_sound (truth (lookup "sid" claims)) 403 _ _ sid;
        subject = sub ∙ ap (λ (c : Caller). ok c.subject) same;
        organizations = ap (λ (c : Caller). c.organizations) (sym same);
      }

  check_credential_sound :
      (authorization : Option String) (credential : String)
      → check_credential P config pat kc authorization ≡ ok credential
      → (bearer_credential authorization ≡ ok credential) × (is_well_formed credential ≡ ok false)
  unfolding check_credential
  check_credential_sound authorization credential h =
      let (c, bearer, h1) = >>=-eq-ok (bearer_credential authorization) _ h in
      let (personal, formed, h2) = >>=-eq-ok (is_well_formed c) _ h1 in
      let (_, other, h3) =
        >>=-eq-ok
          (refuse_unless (not personal) 403 "insufficient_scope"
            "a personal access token cannot manage tokens; sign in interactively")
          _ h2 in
      let same = ok-injective h3 in
      let no' : personal ≡ false =
        negated personal (refuse_unless_sound (not personal) 403 _ _ other) in
      (bearer ∙ ap ok same, ap is_well_formed (sym same) ∙ formed ∙ ap ok no')
    where
      negated : (b : Bool) → not b ≡ true → b ≡ false
      negated true e = absurd (cc e)
      negated false e = refl

  -- The request that asks the realm about a credential.
  abbrev pub introspection : String → Request
  introspection credential =
      admin_post kc (token_url kc.issuer <> "/introspect")
        (("token", credential) ∷ ("token_type_hint", "access_token") ∷ [])

  introspect_sound :
      (credential : String) (claims : Json)
      → run w (introspect kc credential) ≡ ok claims
      → (r : Response) × (w.upstream (introspection credential) ≡ answered r)
        × (eqb r.status_code 200 ≡ true)
        × (r.json ≡ some claims)
  unfolding introspect json_or_raise
  introspect_sound credential claims h =
      let (r, replied, h1) =
        bind-eq-ok w (posted_reply (w.upstream (introspection credential))) _ h in
      let (fine, h2) = require_bind-eq-ok w (eqb r.status_code 200) _ _ h1 in
      (
        r,
        posted (w.upstream (introspection credential)) r replied,
        fine,
        read r.json claims (sym (run-lift w (json_or_raise r.json)) ∙ h2),
      )
    where
      posted :
          (reply : Reply) (r : Response) → run w (posted_reply reply) ≡ ok r → reply ≡ answered r
      posted (failed m) r e = absurd (cc e)
      posted (answered a) r e = ap answered (ok-injective e)

      read : (j : Option Json) (c : Json) → json_or_raise j ≡ ok c → j ≡ some c
      read none c e = absurd (cc e)
      read (some v) c e = ap some (ok-injective e)

  -- Whoever may manage tokens has presented a bearer credential that is no personal access token, and
  -- the realm has answered, asked about it by the admin client, that it is an active access token of
  -- an interactive sign-in, issued by the realm of the configuration to the caller.
  pub record IsAuthenticated (authorization : Option String) (caller : Caller) : Type 0 where
    pub credential : String
    pub bearer : bearer_credential authorization ≡ ok credential
    pub not_personal : is_well_formed credential ≡ ok false
    pub response : Response
    pub answer : w.upstream (introspection credential) ≡ answered response
    pub fine : eqb response.status_code 200 ≡ true
    pub claims : Dict Json
    pub judged : (v : Json) × (response.json ≡ some v) × (claims_of v ≡ ok claims)
    pub owner : IsOwner claims caller

  -- A caller is let through only on a credential that is no personal access token and that the realm
  -- has judged, asked by the admin client, an active access token of an interactive sign-in of the
  -- caller's, in the realm of the configuration; the caller's organizations are those of its claims.
  pub authenticate_sound :
      (authorization : Option String) (caller : Caller)
      → run w (authenticate P config pat kc authorization) ≡ ok caller
      → IsAuthenticated authorization caller
  unfolding authenticate
  authenticate_sound authorization caller h =
      let (credential, good, h1) =
        lift_bind-eq-ok w (check_credential P config pat kc authorization) _ h in
      let (answer, asked, h2) = bind-eq-ok w (introspect kc credential) _ h1 in
      let (claims, read, h3) = lift_bind-eq-ok w (claims_of answer) _ h2 in
      let (bearer, other) = check_credential_sound authorization credential good in
      let (r, replied, fine, is) = introspect_sound credential answer asked in
      record {
        credential = credential;
        bearer = bearer;
        not_personal = other;
        response = r;
        answer = replied;
        fine = fine;
        claims = claims;
        judged = (answer, is, read);
        owner =
            check_claims_sound claims caller
              (sym (run-lift w (check_claims P config pat kc claims)) ∙ h3);
      }

  posted_silent : (reply : Reply) → sent w (posted_reply reply) ≡ []
  unfolding posted_reply
  posted_silent (failed m) = refl
  posted_silent (answered r) = refl

  -- The end of `authenticate`.
  abbrev judge : Json → Prog Caller
  judge answer = do claims ← lift (claims_of answer); lift (check_claims P config pat kc claims)

  judge_silent : (answer : Json) → sent w (judge answer) ≡ []
  judge_silent answer = elim (Result-cases (claims_of answer)) [
    | inl (claims, e) ↦
        sent-ok w (claims_of answer) _ e ∙ sent-lift w (check_claims P config pat kc claims)
    | inr (x, e) ↦ sent-err w (claims_of answer) _ e
  ]

  -- The end of `introspect`.
  abbrev after_reply : Response → Prog Json
  after_reply r = do
    require (eqb r.status_code 200) (failing "token introspection" r.status_code)
    lift (json_or_raise r.json)

  reply_silent : (r : Response) → sent w (after_reply r) ≡ []
  reply_silent r =
      silent-bind w (require (eqb r.status_code 200) _) _ (sent-require w (eqb r.status_code 200) _)
        (λ _. sent-lift w (json_or_raise r.json))

  asked_silent :
      (credential : String)
      → sent w (introspect kc credential >>= judge) ≡ introspection credential ∷ []
  unfolding introspect
  asked_silent credential =
      let reply = w.upstream (introspection credential) in
      ap (◌∷◌ (introspection credential)) (
        silent-bind w (posted_reply reply >>= after_reply) judge
          (silent-bind w (posted_reply reply) after_reply (posted_silent reply) reply_silent)
          judge_silent)

  -- An authentication sends nothing, or one request: it asks the realm about a credential that is no
  -- personal access token. So a personal access token that is presented there never leaves the proxy.
  pub authenticate-sent :
      (authorization : Option String)
      → (sent w (authenticate P config pat kc authorization) ≡ [])
        ⊎ ((credential : String) × (bearer_credential authorization ≡ ok credential)
            × (is_well_formed credential ≡ ok false)
            × (sent w (authenticate P config pat kc authorization) ≡ introspection credential ∷ []))
  unfolding authenticate
  authenticate-sent authorization =
      elim (Result-cases (check_credential P config pat kc authorization)) [
        | inr (x, e) ↦ inl (sent-err w (check_credential P config pat kc authorization) _ e)
        | inl (credential, e) ↦
            let (bearer, other) = check_credential_sound authorization credential e in
            inr (
              credential,
              bearer,
              other,
              sent-ok w (check_credential P config pat kc authorization) _ e
                  ∙ asked_silent credential,
            )
      ]
