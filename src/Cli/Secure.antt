-- ===== src/Cli/Secure.antt =====
-- The endpoints that the commands of src/cimd_proxy/pat_cli.py take for the proxy's.
use mathlib.Core.Path.{subst}
use cimd_proxy.Prelude.{
  String, ◌<>◌, ◌≡◌, refl, sym, ap, ◌∙◌, inl, inr, Bool, true, false, Option, none, some, ◌==◌,
  eq_iff, Bool-cases, Option-cases, List, [], ◌∷◌, In, ◌⊎◌, ◌&&◌, arith, any, found_is, eqb,
  or_else, is_truthy, if◌then◌else◌, rstrip_slash,
}
use cimd_proxy.Prelude.Dict.{Dict, lookup, has_key}
use cimd_proxy.Json.{Json, null, bool, int, float, str, arr, obj, Fields, fields, items, str_of}
use cimd_proxy.Errors.{Exception, ok, err, ok-injective, >>=-eq-ok}
use cimd_proxy.Effects.{World, run, Response, Reply, failed, answered, no_body, lift}
use mathlib.Core.Option.{some-injective}
use cimd_proxy.Effects.Laws.{bind-eq-ok, lift_bind-eq-ok, run-lift}
use cimd_proxy.Url.{SplitResult, urlsplit, hostname}
use cimd_proxy.Pat.Text.{text_or}
use cimd_proxy.Pat.Authenticate.{truth}
use cimd_proxy.Cli.{
  Endpoints, is_secure, require_secure, endpoint_of, get_json, offers_s256, endpoints_of,
  read_endpoints, is_loopback, names_s256, document_of, get_request, response_of,
}

module _ (loopback : String → Option Bool) where
  -- The host of a URL under `http` is the machine itself.
  abbrev pub IsAtHome : Option String → Type 0
  IsAtHome host = (host ≡ some "localhost") ⊎ (loopback (or_else host "") ≡ some true)

  -- A URL that is https with a host, or http and leads to the machine itself, and that URL without its
  -- slashes at the end.
  pub record IsSecure (url e : String) : Type 0 where
    pub parts : SplitResult
    pub split : urlsplit url ≡ ok parts
    pub secure :
        ((parts.scheme ≡ "https") × (is_truthy (or_else (hostname parts) "") ≡ true))
        ⊎ ((parts.scheme ≡ "http") × IsAtHome (hostname parts))
    pub trimmed : e ≡ rstrip_slash url

  found_is_sound : (o : Option String) (s : String) → found_is o s ≡ true → o ≡ some s
  found_is_sound none s h = absurd (cc h)
  found_is_sound (some t) s h = ap some ((eq_iff t s).0 h)

  is_loopback_sound : (host : Option String) → is_loopback loopback host ≡ true → IsAtHome host
  unfolding is_loopback
  is_loopback_sound host h = elim (Bool-cases (found_is host "localhost")) [
    | inl named ↦ inl (found_is_sound host "localhost" named)
    | inr other ↦ elim (Option-cases (loopback (or_else host ""))) [
      | inl unknown ↦ absurd (cc (rw (other, unknown) at h))
      | inr (b, known) ↦ inr (known ∙ ap some (rw (other, known) at h))
    ]
  ]

  is_secure_sound :
      (parts : SplitResult)
      → is_secure loopback parts ≡ true
      → ((parts.scheme ≡ "https") × (is_truthy (or_else (hostname parts) "") ≡ true))
        ⊎ ((parts.scheme ≡ "http") × IsAtHome (hostname parts))
  unfolding is_secure
  is_secure_sound parts h =
      elim (Bool-cases (parts.scheme == "https" && is_truthy (or_else (hostname parts) ""))) [
        | inl https ↦ inl (ground (arith, eq_iff parts.scheme "https"), ground arith)
        | inr plain ↦ inr (
          ground (arith, eq_iff parts.scheme "http"),
          is_loopback_sound (hostname parts) (ground arith),
        )
      ]

  require_secure_sound :
      (url what e : String) → require_secure loopback url what ≡ ok e → IsSecure url e
  unfolding require_secure
  require_secure_sound url what e h =
      let (parts, split, h1) = >>=-eq-ok (urlsplit url) _ h in
      elim (Bool-cases (is_secure loopback parts)) [
        | inl secure ↦ record {
          parts = parts;
          split = split;
          secure = is_secure_sound parts secure;
          trimmed = sym (ok-injective (rw secure at h1));
        }
        | inr bare ↦ absurd (cc (rw bare at h1))
      ]

  neither :
      {A : Type 0} (b : Bool) (x y : Exception) (a : A) → (if b then err x else err y) ≡ ok a → ⊥
  neither true x y a h = cc h
  neither false x y a h = cc h

  -- An endpoint is a text of the metadata, and secure.
  abbrev pub IsNamed : (document : Dict Json) (key e : String) → Type 0
  IsNamed document key e = (url : String) × (lookup key document ≡ some (str url)) × IsSecure url e

  endpoint_of_sound :
      (document : Dict Json) (issuer key what e : String)
      → endpoint_of loopback document issuer key what ≡ ok e
      → IsNamed document key e
  unfolding endpoint_of
  endpoint_of_sound document issuer key what e h = value (lookup key document) refl h
    where
      value :
          (v : Option Json)
          → lookup key document ≡ v
          → endpoint_of loopback document issuer key what ≡ ok e
          → IsNamed document key e
      value none p h = absurd (cc (rw p at h))
      value (some (arr vs)) p h = absurd (cc (rw p at h))
      value (some (obj fs)) p h = absurd (cc (rw p at h))
      value (some (str url)) p h = (url, p, require_secure_sound url what e (rw p at h))
      value (some null) p h = absurd (cc (rw p at h))
      value (some (bool true)) p h = absurd (cc (rw p at h))
      value (some (bool false)) p h = absurd (cc (rw p at h))
      value (some (int n)) p h = absurd (neither (truth (some (int n))) _ _ e (rw p at h))
      value (some (float s)) p h = absurd (neither (truth (some (float s))) _ _ e (rw p at h))

  -- The methods of PKCE in the metadata: an array with S256, an object with such a key, or a text that
  -- contains it.
  abbrev pub Offers : Option Json → Type 0
  Offers (some (arr vs)) = In (str "S256") (items vs)
  Offers (some (obj fs)) = has_key "S256" (fields fs) ≡ true
  Offers (some (str s)) = names_s256 s ≡ true
  Offers _ = ⊥

  is_text : (v : Json) (s : String) → found_is (str_of (some v)) s ≡ true → v ≡ str s
  is_text (str t) s h = ap str ((eq_iff t s).0 h)
  is_text null s h = absurd (cc h)
  is_text (bool b) s h = absurd (cc h)
  is_text (int n) s h = absurd (cc h)
  is_text (float t) s h = absurd (cc h)
  is_text (arr vs) s h = absurd (cc h)
  is_text (obj fs) s h = absurd (cc h)

  listed :
      (vs : List Json) → any (λ v. found_is (str_of (some v)) "S256") vs ≡ true → In (str "S256") vs
  listed [] h = absurd (cc h)
  listed (v ∷ vs) h = elim (Bool-cases (found_is (str_of (some v)) "S256")) [
    | inl here ↦ inl (sym (is_text v "S256" here))
    | inr other ↦ inr (listed vs (rw other at h))
  ]

  offers_s256_sound : (v : Option Json) → offers_s256 v ≡ ok true → Offers v
  unfolding offers_s256
  offers_s256_sound none h = absurd (cc (ok-injective h))
  offers_s256_sound (some (arr vs)) h = listed (items vs) (ok-injective h)
  offers_s256_sound (some (obj fs)) h = ok-injective h
  offers_s256_sound (some (str s)) h = ok-injective h
  offers_s256_sound (some null) h = absurd (cc h)
  offers_s256_sound (some (bool b)) h = absurd (cc h)
  offers_s256_sound (some (int n)) h = absurd (cc h)
  offers_s256_sound (some (float t)) h = absurd (cc h)

  -- What metadata says that the endpoints are taken from.
  pub record Describes (document : Dict Json) (e : Endpoints) : Type 0 where
    pub named : rstrip_slash (text_or "" (lookup "issuer" document)) ≡ e.issuer
    pub s256 : Offers (lookup "code_challenge_methods_supported" document)
    pub authorization : IsNamed document "authorization_endpoint" e.authorization
    pub token : IsNamed document "token_endpoint" e.token
    pub registration : IsNamed document "registration_endpoint" e.registration

  endpoints_of_sound :
      (issuer : String) (document : Dict Json) (e : Endpoints)
      → endpoints_of loopback issuer (some document) ≡ ok e
      → (e.issuer ≡ issuer) × Describes document e
  unfolding endpoints_of
  endpoints_of_sound issuer document e h =
      elim (Bool-cases (rstrip_slash (text_or "" (lookup "issuer" document)) == issuer)) [
        | inr other ↦ absurd (cc (rw other at h))
        | inl same ↦
            let (s256, methods, h1) =
              >>=-eq-ok (offers_s256 (lookup "code_challenge_methods_supported" document)) _
                (rw same at h) in
            elim (Bool-cases s256) [
              | inr without ↦ absurd (cc (rw without at h1))
              | inl with_it ↦
                  let (authorization, a, h2) =
                    >>=-eq-ok
                      (endpoint_of loopback document issuer "authorization_endpoint"
                        "authorization")
                      _ (rw with_it at h1) in
                  let (token, t, h3) =
                    >>=-eq-ok
                      (endpoint_of loopback document issuer "token_endpoint" "token endpoint") _
                      h2 in
                  let (registration, r, h4) =
                    >>=-eq-ok
                      (endpoint_of loopback document issuer "registration_endpoint" "registration")
                      _ h3 in
                  subst (λ (x : Endpoints). (x.issuer ≡ issuer) × Describes document x)
                    (ok-injective h4)
                    (
                      refl,
                      record {
                        named = (eq_iff _ issuer).0 same;
                        s256 = offers_s256_sound _ (methods ∙ ap ok with_it);
                        authorization =
                            endpoint_of_sound document issuer "authorization_endpoint"
                              "authorization" authorization a;
                        token =
                            endpoint_of_sound document issuer "token_endpoint" "token endpoint"
                              token t;
                        registration =
                            endpoint_of_sound document issuer "registration_endpoint" "registration"
                              registration r;
                      },
                    )
            ]
      ]

  document_body :
      (url : String) (r : Response) (d : Dict Json) (v : Option Json)
      → eqb r.status_code 404 ≡ false
      → eqb r.status_code 200 ≡ true
      → r.json ≡ v
      → document_of url r ≡ ok (some d)
      → (fs : Fields) × (r.json ≡ some (obj fs)) × (fields fs ≡ d)
  unfolding document_of
  document_body url r d none there fine p h = absurd (cc (rw (there, fine, p) at h))
  document_body url r d (some (obj fs)) there fine p h =
      (fs, p, some-injective _ _ (ok-injective (rw (there, fine, p) at h)))
  document_body url r d (some v) there fine p h = absurd (cc (rw (there, fine, p) at h))

  document_of_sound :
      (url : String) (r : Response) (d : Dict Json)
      → document_of url r ≡ ok (some d)
      → (r.status_code ≡ 200) × ((fs : Fields) × (r.json ≡ some (obj fs)) × (fields fs ≡ d))
  unfolding document_of
  document_of_sound url r d h = elim (Bool-cases (eqb r.status_code 404)) [
    | inl missing ↦ absurd (cc (ok-injective (rw missing at h)))
    | inr there ↦ elim (Bool-cases (eqb r.status_code 200)) [
      | inr other ↦ absurd (cc (rw (there, other) at h))
      | inl fine ↦ (ground arith, document_body url r d r.json there fine refl h)
    ]
  ]

  -- The endpoints that are taken for a proxy's: the issuer is the address that was asked and is
  -- secure, and what its well-known address has answered describes them.
  pub record AreProxys (w : World) (proxy : String) (e : Endpoints) : Type 0 where
    pub issuer : IsSecure proxy e.issuer
    pub response : Response
    pub body : Fields
    pub fetched :
        w.upstream (record {
          method = "GET";
          url = e.issuer <> "/.well-known/oauth-authorization-server";
          headers = ("Accept", "application/json") ∷ [];
          sni_hostname = none;
          body = no_body;
        })
        ≡ answered response
    pub fine : response.status_code ≡ 200
    pub json : response.json ≡ some (obj body)
    pub describes : Describes (fields body) e

  received : (w : World) (r : Reply) (a : Response) → run w (response_of r) ≡ ok a → r ≡ answered a
  unfolding response_of
  received w (failed m) a h = absurd (cc h)
  received w (answered b) a h = ap answered (ok-injective h)

  module _ (w : World) (proxy issuer : String) (e : Endpoints) where
    described :
        (r : Response) (d : Option (Dict Json))
        → require_secure loopback proxy "the proxy URL" ≡ ok issuer
        → w.upstream (
            get_request
              (issuer <> "/.well-known/oauth-authorization-server")
              (("Accept", "application/json") ∷ []))
          ≡ answered r
        → document_of (issuer <> "/.well-known/oauth-authorization-server") r ≡ ok d
        → endpoints_of loopback issuer d ≡ ok e
        → AreProxys w proxy e
    unfolding endpoints_of
    described r none asked got parsed h = absurd (cc h)
    described r (some d) asked got parsed h =
        let (same, describes) = endpoints_of_sound issuer d e h in
        let (fine, (fs, json, is)) = document_of_sound _ r d parsed in
        record {
          issuer =
              subst (IsSecure proxy) (sym same)
                (require_secure_sound proxy "the proxy URL" issuer asked);
          response = r;
          body = fs;
          fetched = rw same got;
          fine = fine;
          json = json;
          describes = rw is describes;
        }

  -- The endpoints that a command works with: the issuer is the address of the proxy that was asked,
  -- https or on the machine itself; the well-known address behind it has answered with 200 and
  -- metadata that names the issuer and offers S256; and the three other endpoints are those of that
  -- metadata, each https or on the machine itself.
  pub read_endpoints_sound :
      (w : World) (proxy : String) (e : Endpoints)
      → run w (read_endpoints loopback proxy) ≡ ok e
      → AreProxys w proxy e
  unfolding read_endpoints get_json
  read_endpoints_sound w proxy e h =
      let (issuer, asked, h1) =
        lift_bind-eq-ok w (require_secure loopback proxy "the proxy URL") _ h in
      let place = issuer <> "/.well-known/oauth-authorization-server" in
      let q = get_request place (("Accept", "application/json") ∷ []) in
      let (document, got, h2) = bind-eq-ok w (get_json place) _ h1 in
      let (r, replied, parsed) =
        bind-eq-ok w (response_of (w.upstream q)) (λ a. lift (document_of place a)) got in
      described w proxy issuer e r document asked (received w (w.upstream q) r replied)
        (sym (run-lift w (document_of place r)) ∙ parsed)
        (sym (run-lift w (endpoints_of loopback issuer document)) ∙ h2)
