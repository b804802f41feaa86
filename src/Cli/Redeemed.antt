-- ===== src/Cli/Redeemed.antt =====
-- When the sign-in of src/cimd_proxy/pat_cli.py redeems a code.
use cimd_proxy.Prelude.{
  ℕ, ◌/◌, ◌^◌, String, ◌≡◌, refl, sym, ap, ◌∙◌, ◌⊎◌, inl, inr, true, false, Option, none, some,
  List, [], ◌∷◌, ◌++◌, ◌==◌, eqb, eq_iff, Bool-cases, is_truthy, or_else, rstrip_slash, ◌<>◌,
  all_chars, if◌then◌else◌,
}
use cimd_proxy.Prelude.Dict.{Dict, lookup, has_key}
use cimd_proxy.Errors.{Exception, Result-cases, ok, err, >>=-eq-ok, ok-injective}
use cimd_proxy.Effects.{
  World, Prog, sent, run, Request, ◌>>=◌, lift, require, Reply, failed, answered, Response, form,
  json_body,
}
use cimd_proxy.Effects.Laws.{sent-bind, sent-ok, sent-err, sent-lift}
use cimd_proxy.Effects.Silent.{silent-bind, sent-require}
use cimd_proxy.Platform.{Platform, is_ascii_char}
use cimd_proxy.Digits.{decimal}
use cimd_proxy.Json.{str, arr, strings, object}
use cimd_proxy.Url.Encode.{urlencode}
use cimd_proxy.Pkce.{base64url, token_urlsafe}
use cimd_proxy.Cli.{Endpoints, SignedIn, response_of}
use cimd_proxy.Cli.SignIn.{
  same_state, check_redirect, text_member, registration_request, register_client, redemption,
  redeem, sign_in, sign_in_url, redirect_uri,
}

-- What the redirect has to carry: the state that was sent, the issuer, and a code, and no error.
pub record IsAnswer (received : Dict String) (state issuer code : String) : Type 0 where
  pub same : or_else (lookup "state" received) "" ≡ state
  pub from_issuer : rstrip_slash (or_else (lookup "iss" received) "") ≡ issuer
  pub no_error : has_key "error" received ≡ false
  pub code_is : or_else (lookup "code" received) "" ≡ code
  pub present : is_truthy code ≡ true

same_state_sound :
    (received state : String) → same_state received state ≡ ok true → received ≡ state
unfolding same_state
same_state_sound received state h = elim (Bool-cases (all_chars is_ascii_char received)) [
  | inl plain ↦ (eq_iff received state).0 (ok-injective (rw plain at h))
  | inr other ↦ absurd (cc (rw other at h))
]

check_redirect_sound :
    (received : Dict String) (state issuer code : String)
    → check_redirect received state issuer ≡ ok code
    → IsAnswer received state issuer code
unfolding check_redirect
check_redirect_sound received state issuer code h =
    let (same, s, h1) = >>=-eq-ok (same_state (or_else (lookup "state" received) "") state) _ h in
    let given = or_else (lookup "code" received) "" in
    elim (Bool-cases same) [
      | inr foreign ↦ absurd (cc (rw foreign at h1))
      | inl own ↦ elim (Bool-cases (rstrip_slash (or_else (lookup "iss" received) "") == issuer)) [
        | inr other ↦ absurd (cc (rw (own, other) at h1))
        | inl from ↦ elim (Bool-cases (has_key "error" received)) [
          | inl refused ↦ absurd (cc (rw (own, from, refused) at h1))
          | inr fine ↦ elim (Bool-cases (is_truthy given)) [
            | inr empty ↦ absurd (cc (rw (own, from, fine, empty) at h1))
            | inl there ↦
                let is = ok-injective (rw (own, from, fine, there) at h1) in
                record {
                  same = same_state_sound _ state (s ∙ ap ok own);
                  from_issuer = (eq_iff _ issuer).0 from;
                  no_error = fine;
                  code_is = is;
                  present = ap is_truthy (sym is) ∙ there;
                }
          ]
        ]
      ]
    ]

module _ (P : Platform) (browse : String → Option (Dict String)) (port : ℕ) (timeout : String)
    (w : World) where
  response_silent : (r : Reply) → sent w (response_of r) ≡ []
  unfolding response_of
  response_silent (failed m) = refl
  response_silent (answered r) = refl

  -- What is read off an answer.
  reading_silent :
      {A : Type 0} (r : Reply) (f : Response → Prog A)
      → ((a : Response) → sent w (f a) ≡ [])
      → sent w (response_of r >>= f) ≡ []
  reading_silent r f k = silent-bind w (response_of r) f (response_silent r) k

  -- The redemption of a code, where there is one.
  redeem-sent :
      (e : Endpoints) (client_id verifier state : String) (received : Option (Dict String))
      → (sent w (redeem P browse port timeout e client_id verifier state received) ≡ [])
        ⊎ ((r : Dict String) × (code : String) × (received ≡ some r)
            × IsAnswer r state e.issuer code
            × (sent w (redeem P browse port timeout e client_id verifier state received)
                ≡ redemption e code verifier (redirect_uri P browse port timeout) client_id ∷ []))
  unfolding redeem
  redeem-sent e client_id verifier state none = inl refl
  redeem-sent e client_id verifier state (some r) =
      elim (Result-cases (check_redirect r state e.issuer)) [
        | inr (x, bad) ↦ inl (sent-err w (check_redirect r state e.issuer) _ bad)
        | inl (code, good) ↦ inr (
          r,
          code,
          refl,
          check_redirect_sound r state e.issuer code good,
          sent-ok w (check_redirect r state e.issuer) _ good
              ∙ ap
                  (λ qs.
                    redemption e code verifier (redirect_uri P browse port timeout) client_id ∷ qs)
                  (reading_silent
                    (w.upstream
                      (redemption e code verifier (redirect_uri P browse port timeout) client_id))
                    _
                    (λ a.
                      silent-bind w (require (eqb a.status_code 200) _) _
                        (sent-require w (eqb a.status_code 200) _)
                        (λ _.
                          silent-bind w
                            (lift (
                              text_member "access_token"
                                "the token endpoint returned no access token" a.json))
                            _
                            (sent-lift w (
                              text_member "access_token"
                                "the token endpoint returned no access token" a.json))
                            (λ t. refl)))),
        )
      ]

  register-sent :
      (e : Endpoints) (uri : String)
      → sent w (register_client e uri) ≡ registration_request e uri ∷ []
  unfolding register_client
  register-sent e uri =
      ap (λ qs. registration_request e uri ∷ qs)
        (reading_silent (w.upstream (registration_request e uri)) _ (λ a.
          silent-bind w (require (eqb a.status_code 201) _) _
            (sent-require w (eqb a.status_code 201) _)
            (λ _.
              sent-lift w (text_member "client_id" "registration returned no client_id" a.json))))

  followed :
      (m : Prog String) (f : String → Prog SignedIn) (qs rs : List Request) (client_id : String)
      → sent w m ≡ qs
      → run w m ≡ ok client_id
      → sent w (f client_id) ≡ rs
      → sent w (m >>= f) ≡ qs ++ rs
  followed m f qs rs client_id first good later = rw (sent-bind w m f, first, good, later) refl

  stopped :
      (m : Prog String) (f : String → Prog SignedIn) (q : Request) (x : Exception)
      → sent w m ≡ q ∷ []
      → run w m ≡ err x
      → sent w (m >>= f) ≡ q ∷ []
  stopped m f q x first bad = rw (sent-bind w m f, first, bad) refl

  -- The registration of a public client whose one redirect URI is the receiver's.
  abbrev pub registering : Endpoints → Request
  registering e = record {
    method = "POST";
    url = e.registration;
    headers = [];
    sni_hostname = none;
    body = json_body (
        object (
          (
            "redirect_uris",
            arr (strings (("http://127.0.0.1:" <> decimal port <> "/callback") ∷ [])),
          )
          ∷ ("token_endpoint_auth_method", str "none")
          ∷ ("grant_types", arr (strings ("authorization_code" ∷ [])))
          ∷ ("response_types", arr (strings ("code" ∷ [])))
          ∷ ("client_name", str "cimd-proxy pat command line")
          ∷ []));
  }

  -- The redemption of the code that the browser brought back, for the URL that the sign-in opened.
  pub record IsRedeemed (e : Endpoints) (resource scope : String) (qs : List Request) : Type 0 where
    pub client_id : String
    pub verifier : String
    pub state : String
    pub received : Dict String
    pub code : String
    pub drawn :
        (verifier ≡ token_urlsafe w.noise 64) × (state ≡ token_urlsafe (w.noise / 2 ^ 512) 32)
    pub brought :
        browse (
          e.authorization
          <> "?"
          <> urlencode (
              (("response_type", "code")
                ∷ ("client_id", client_id)
                ∷ ("redirect_uri", "http://127.0.0.1:" <> decimal port <> "/callback")
                ∷ ("code_challenge", base64url (P.sha256 verifier))
                ∷ ("code_challenge_method", "S256")
                ∷ ("state", state)
                ∷ ("resource", resource)
                ∷ [])
              ++ (if is_truthy scope then ("scope", scope) ∷ [] else [])))
        ≡ some received
    pub answer : IsAnswer received state e.issuer code
    pub requests :
        qs
        ≡ registering e
          ∷ record {
            method = "POST";
            url = e.token;
            headers = ("Accept", "application/json") ∷ [];
            sni_hostname = none;
            body = form (
                ("grant_type", "authorization_code")
                ∷ ("code", code)
                ∷ ("code_verifier", verifier)
                ∷ ("redirect_uri", "http://127.0.0.1:" <> decimal port <> "/callback")
                ∷ ("client_id", client_id)
                ∷ []);
          }
          ∷ []

  -- A sign-in registers a public client for the receiver's address, and sends a code to the token
  -- endpoint at most once and only if the redirect that answers its URL carried the state in that URL,
  -- the issuer, no error and the code; it sends it with the verifier whose SHA-256 is the challenge
  -- in that URL. State and verifier are freshly drawn.
  pub sign_in-sent :
      (e : Endpoints) (resource scope : String)
      → (sent w (sign_in P browse port timeout e resource scope) ≡ registering e ∷ [])
        ⊎ IsRedeemed e resource scope (sent w (sign_in P browse port timeout e resource scope))
  unfolding sign_in
  sign_in-sent e resource scope =
      let uri = redirect_uri P browse port timeout in
      let verifier = token_urlsafe w.noise 64 in
      let state = token_urlsafe (w.noise / 2 ^ 512) 32 in
      let first = registration_request e uri in
      elim (Result-cases (run w (register_client e uri))) [
        | inr (x, bad) ↦ inl (stopped (register_client e uri) _ first x (register-sent e uri) bad)
        | inl (client_id, good) ↦
            elim (redeem-sent e client_id verifier state (
              browse (
                sign_in_url e client_id uri (base64url (P.sha256 verifier)) state resource
                  scope))) [
                    | inl silent ↦ inl (
                        followed (register_client e uri) _ (first ∷ []) [] client_id
                          (register-sent e uri) good silent)
                    | inr (r, code, brought, answer, redeemed) ↦ inr (record {
                      client_id = client_id;
                      verifier = verifier;
                      state = state;
                      received = r;
                      code = code;
                      drawn = (refl, refl);
                      brought = brought;
                      answer = answer;
                      requests =
                          followed (register_client e uri) _ (first ∷ [])
                            (redemption e code verifier uri client_id ∷ []) client_id
                            (register-sent e uri) good redeemed;
                    })
                  ]
      ]
