-- ===== src/Pat/Authenticate.antt =====
-- src/cimd_proxy/pat.py: who may manage personal access tokens, `PatService.authenticate`.
pub mod Owner
use cimd_proxy.Prelude.{
  ℕ, ◌+◌, ◌*◌, ◌≡◌, String, ◌<>◌, Bool, true, false, not, ◌&&◌, ◌||◌, Option, none, some, List, [],
  ◌∷◌, ◌==◌, if◌then◌else◌, eqb, leb, is_empty, is_truthy, or_else, found_is, contains, keep, join,
  repr, repr_list, lower, strip, partition, is_char, split_words, rstrip_slash, map, any_char, Char,
  code,
}
use cimd_proxy.Prelude.Dict.{Dict, lookup}
use cimd_proxy.Prelude.Int.{pos, negsuc}
use cimd_proxy.Json.{
  Json, Items, Fields, null, bool, int, float, str, arr, obj, nil, cons, end, field, items, fields,
  str_of,
}
use cimd_proxy.Errors
use cimd_proxy.Errors.{
  Result, ok, err, Exception, oauth, server_error, value_error, type_error, attribute_error,
  link_conflict, management_error, store_error,
}
use cimd_proxy.Effects.{Prog, ret, throw, query, ◌>>=◌, ◌>>◌, lift, require, catch, time, entropy}
use cimd_proxy.Platform.{Platform}
use cimd_proxy.Config.{ProxyConfig, PatConfig, ResourceEntry, resource_by_url}
use cimd_proxy.Assertion.{sign}
use cimd_proxy.Keycloak.{KeycloakClient, Caller, introspect, ensure_link}
use cimd_proxy.Pat.Record.{
  PatRecord, Time, Uuid, Statement, Answer, insert, list_for_owner, revoke, rows, row_count,
  violated, instant,
}
use cimd_proxy.Pat.Text.{text_of, text_or}
use cimd_proxy.Pat.Uuid.{uuid4_number, parse_uuid}
use cimd_proxy.Pat.Format.{generate, is_well_formed, token_hash}
use cimd_proxy.Pat.Exchange.{jwt_bearer_grant, json_of, scope_param}
use cimd_proxy.Pat.Create.{CreateRequest}

abbrev pub refuse {ℓ} : {A : Type ℓ} → ℕ → (error description : String) → Result A
refuse status error description = err (management_error status error description)

abbrev pub refuse_unless : Bool → ℕ → (error description : String) → Result (Unit {0})
refuse_unless true status error description = ok tt
refuse_unless false status error description = refuse status error description

-- Whether a number's text is not zero.
nonzero_text : String → Bool
unfolding any_char partition
nonzero_text s =
    any_char (λ c. leb b'1' (code c) && leb (code c) b'9')
      (partition (λ c. is_char b'e' c || is_char b'E' c) s).0

-- Python's truth of a JSON value, and of a member that may be missing.
unfoldable pub truth : Option Json → Bool
unfolding nonzero_text
truth none = false
truth (some null) = false
truth (some (bool b)) = b
truth (some (int (pos n))) = not (eqb n 0)
truth (some (int (negsuc n))) = true
truth (some (float s)) = nonzero_text s
truth (some (str s)) = is_truthy s
truth (some (arr nil)) = false
truth (some (arr (cons v vs))) = true
truth (some (obj end)) = false
truth (some (obj (field k v fs))) = true

-- `_organizations`
unfoldable pub organizations_of : Option Json → List String
unfolding text_of
organizations_of (some (arr vs)) = map text_of (items vs)
organizations_of (some (obj fs)) = map (λ ((k, v) : String × Json). k) (fields fs)
organizations_of (some (str s)) = if is_truthy s then s ∷ [] else []
organizations_of _ = []

-- The bearer credential of an Authorization header.
unfoldable pub bearer_credential : Option String → Result String
unfolding partition lower strip
bearer_credential authorization =
    let (scheme, _, credential) = partition (is_char 32) (or_else authorization "") in
    if not (lower scheme == "bearer") || not (is_truthy (strip credential))
    then refuse 401 "invalid_token" "a bearer token is required"
    else ok (strip credential)

-- `claims.get("iss", "").rstrip("/")`
unfoldable pub issuer_of : Option Json → Result String
issuer_of none = ok ""
issuer_of (some (str s)) = ok (rstrip_slash s)
issuer_of (some _) = err (attribute_error "the issuer has no attribute 'rstrip'")

unfoldable pub claims_of : Json → Result (Dict Json)
claims_of (obj fs) = ok (fields fs)
claims_of _ = err (attribute_error "the claims have no attribute 'get'")

-- A subject that is no text is an exception here.
unfoldable pub subject_of : Option Json → Result String
subject_of (some (str s)) = ok s
subject_of _ = err (type_error "the subject is no text")

-- A name that is no text counts as missing.
unfoldable pub username_of : Option Json → String
username_of (some (str s)) = s
username_of _ = ""

module _ (P : Platform) (config : ProxyConfig) (pat : PatConfig) (kc : KeycloakClient) where
  -- The tests of the claims, which give the owner.
  unfoldable pub check_claims : Dict Json → Result Caller
  unfolding lookup truth issuer_of subject_of username_of organizations_of
  check_claims claims =
      Errors.◌>>=◌
        (refuse_unless (truth (lookup "active" claims)) 401 "invalid_token"
          "the bearer token is not active")
        λ _. Errors.◌>>=◌ (issuer_of (lookup "iss" claims)) λ issuer.
          Errors.◌>>=◌
            (refuse_unless (issuer == pat.realm_issuer) 401 "invalid_token"
              "the bearer token is from another realm")
            λ _.
              Errors.◌>>=◌
                (refuse_unless
                  (found_is (str_of (lookup "typ" claims)) "Bearer" && truth (lookup "sub" claims))
                  401 "invalid_token" "the bearer token is not an access token")
                λ _.
                  Errors.◌>>=◌
                    (refuse_unless (truth (lookup "sid" claims)) 403 "insufficient_scope"
                      "managing tokens needs a token from an interactive sign-in")
                    λ _. Errors.◌>>=◌ (subject_of (lookup "sub" claims)) λ subject. ok (record {
                      subject = subject;
                      username = username_of (lookup "preferred_username" claims);
                      organizations = organizations_of (lookup "organization" claims);
                    })

  -- The credential, if it is not a personal access token.
  unfoldable pub check_credential : Option String → Result String
  unfolding bearer_credential
  check_credential authorization = Errors.◌>>=◌ (bearer_credential authorization) λ credential.
      Errors.◌>>=◌ (is_well_formed credential) λ personal.
        Errors.◌>>=◌
          (refuse_unless (not personal) 403 "insufficient_scope"
            "a personal access token cannot manage tokens; sign in interactively")
          λ _. ok credential

  unfoldable pub authenticate : Option String → Prog Caller
  unfolding check_credential introspect claims_of check_claims
  authenticate authorization = do
    credential ← lift (check_credential authorization)
    answer ← introspect kc credential
    claims ← lift (claims_of answer)
    lift (check_claims claims)
