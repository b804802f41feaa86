-- ===== src/Cli.antt =====
-- src/cimd_proxy/pat_cli.py: how the commands find the proxy and its endpoints. The browser and the
-- standard library's loopback server stand outside.
pub mod Receiver
pub mod SignIn
pub mod Printed
pub mod Commands
pub mod Secure
pub mod Confined
pub mod Presented
pub mod Redeemed
pub mod Received
use cimd_proxy.Prelude.{
  ℕ, String, ◌<>◌, Bool, true, false, not, ◌&&◌, ◌||◌, Option, none, some, List, [], ◌∷◌, ◌==◌,
  if◌then◌else◌, eqb, is_truthy, is_some, starts_with, any, found_is, rstrip_slash, repr, or_else,
}
use cimd_proxy.Prelude.Dict.{Dict, lookup, has_key}
use cimd_proxy.Digits.{decimal}
use cimd_proxy.Json.{Json, str, arr, obj, Items, nil, cons, items, fields, str_of}
use cimd_proxy.Errors
use cimd_proxy.Errors.{
  Result, ok, err, Exception, cli_error, http_error, type_error, attribute_error,
}
use cimd_proxy.Effects.{
  Prog, ret, throw, send, ◌>>=◌, ◌>>◌, lift, require, Request, Reply, failed, answered, Response,
  no_body,
}
use cimd_proxy.Url.{SplitResult, urlsplit, hostname}
use cimd_proxy.Pat.Text.{text_or}
use cimd_proxy.Pat.Authenticate.{truth}

pub record Endpoints : Type 0 where
  pub issuer : String
  pub authorization : String
  pub token : String
  pub registration : String

-- `Endpoints.pat_tokens`
abbrev pub pat_tokens : Endpoints → String
pat_tokens e = e.issuer <> "/pat/tokens"

pub record SignedIn : Type 0 where
  pub endpoints : Endpoints
  pub access_token : String

-- `SignedIn.headers`
abbrev pub bearer_headers : SignedIn → Dict String
bearer_headers s = ("Authorization", "Bearer " <> s.access_token) ∷ []

abbrev pub refuse_cli {ℓ} : {A : Type ℓ} → String → Result A
refuse_cli m = err (cli_error m)

-- What `httpx` raises passes.
unfoldable pub response_of : Reply → Prog Response
response_of (failed m) = throw (http_error m)
response_of (answered r) = ret r

abbrev pub get_request : String → Dict String → Request
get_request url headers = record {
  method = "GET";
  url = url;
  headers = headers;
  sni_hostname = none;
  body = no_body;
}

-- `ip_address(host).is_loopback` is a function: `none` is the `ValueError`.
module _ (loopback : String → Option Bool) where
  -- `_is_loopback`
  unfoldable pub is_loopback : Option String → Bool
  is_loopback host = found_is host "localhost" || found (loopback (or_else host ""))
    where
      found : Option Bool → Bool
      found none = false
      found (some b) = b

  unfoldable pub is_secure : SplitResult → Bool
  unfolding hostname is_loopback
  is_secure parts =
      (parts.scheme == "https" && is_truthy (or_else (hostname parts) ""))
      || (parts.scheme == "http" && is_loopback (hostname parts))

  -- `_require_secure`
  unfoldable pub require_secure : (url what : String) → Result String
  unfolding urlsplit is_secure
  require_secure url what = Errors.◌>>=◌ (urlsplit url) λ parts.
      if is_secure parts
      then ok (rstrip_slash url)
      else refuse_cli (what <> " " <> repr url <> " must be an https URL")

  -- An endpoint of the metadata; a value that is no text is an exception where it is not false.
  unfoldable pub endpoint_of : Dict Json → (issuer key what : String) → Result String
  unfolding require_secure lookup truth
  endpoint_of document issuer key what = of_value (lookup key document)
    where
      lacks : Result String
      lacks = refuse_cli ("the metadata of " <> issuer <> " lacks an endpoint: " <> repr key)

      of_value : Option Json → Result String
      of_value none = lacks
      of_value (some (arr vs)) = lacks
      of_value (some (obj fs)) = lacks
      of_value (some (str url)) = require_secure url what
      of_value (some v) =
          if truth (some v)
          then err (attribute_error "the endpoint has no attribute 'decode'")
          else refuse_cli (what <> " must be an https URL")

-- `_get_json`, behind the request.
unfoldable pub document_of : String → Response → Result (Option (Dict Json))
document_of url r =
    if eqb r.status_code 404
    then ok none
    else if not (eqb r.status_code 200)
    then refuse_cli (url <> " answered HTTP " <> decimal r.status_code)
    else read r.json
  where
    read : Option Json → Result (Option (Dict Json))
    read none = refuse_cli (url <> " did not answer with JSON")
    read (some (obj fs)) = ok (some (fields fs))
    read (some _) = refuse_cli (url <> " did not answer with a JSON object")

-- `_get_json`
unfoldable pub get_json : String → Prog (Option (Dict Json))
unfolding response_of document_of
get_json url = do
  r ← send (get_request url (("Accept", "application/json") ∷ [])) response_of
  lift (document_of url r)

-- The one server that a resource's metadata names.
unfoldable pub named_server : (resource place : String) → Dict Json → Result String
unfolding lookup text_or
named_server resource place document =
    if not (rstrip_slash (text_or "" (lookup "resource" document)) == rstrip_slash resource)
    then refuse_cli
        ("the protected resource metadata at " <> place <> " names another resource; pass --proxy")
    else only (lookup "authorization_servers" document)
  where
    only : Option Json → Result String
    only (some (arr (cons (str server) nil))) = ok server
    only _ =
        refuse_cli (resource <> " does not name exactly one authorization server; pass --proxy")

-- The body of the loop over the well-known addresses: without a document the others are tried.
unfoldable pub decide : (resource place : String) → Prog String → Option (Dict Json) → Prog String
unfolding named_server
decide resource place others none = others
decide resource place others (some document) = lift (named_server resource place document)

-- The loop. `urlunsplit` of a host and a path that begins with a slash.
unfoldable pub try_candidates : (resource : String) → SplitResult → List String → Prog String
unfolding get_json decide
try_candidates resource parts [] =
    throw (cli_error (resource <> " publishes no protected resource metadata; pass --proxy"))
try_candidates resource parts (well_known ∷ paths) =
    get_json (parts.scheme <> "://" <> parts.netloc <> well_known)
    >>= decide resource (parts.netloc <> well_known) (try_candidates resource parts paths)

abbrev pub protected_resource : String
protected_resource = "/.well-known/oauth-protected-resource"

unfoldable pub discover_proxy : (resource : String) → Prog String
unfolding urlsplit try_candidates
discover_proxy resource = do
  parts ← lift (urlsplit resource)
  let path = rstrip_slash parts.path
  try_candidates resource parts
      ((protected_resource <> path) ∷ (if is_truthy path then protected_resource ∷ [] else []))

-- `"S256" in text`
unfoldable pub names_s256 : String → Bool
names_s256 String.[] = false
names_s256 (String.◌∷◌ c s) = starts_with (String.◌∷◌ c s) "S256" || names_s256 s

-- `"S256" in document.get("code_challenge_methods_supported", [])`
unfoldable pub offers_s256 : Option Json → Result Bool
unfolding names_s256
offers_s256 none = ok false
offers_s256 (some (arr vs)) = ok (any (λ v. found_is (str_of (some v)) "S256") (items vs))
offers_s256 (some (obj fs)) = ok (has_key "S256" (fields fs))
offers_s256 (some (str s)) = ok (names_s256 s)
offers_s256 (some _) = err (type_error "argument is not iterable")

module _ (loopback : String → Option Bool) where
  -- `read_endpoints`, behind the request.
  unfoldable pub endpoints_of : (issuer : String) → Option (Dict Json) → Result Endpoints
  unfolding lookup text_or offers_s256 endpoint_of
  endpoints_of issuer none = refuse_cli (issuer <> " publishes no authorization server metadata")
  endpoints_of issuer (some document) =
      if not (rstrip_slash (text_or "" (lookup "issuer" document)) == issuer)
      then refuse_cli ("the metadata of " <> issuer <> " names another issuer")
      else Errors.◌>>=◌ (offers_s256 (lookup "code_challenge_methods_supported" document)) λ s256.
        if not s256
        then refuse_cli (issuer <> " does not offer PKCE S256")
        else Errors.◌>>=◌
            (endpoint_of loopback document issuer "authorization_endpoint" "authorization")
            λ authorization.
              Errors.◌>>=◌ (endpoint_of loopback document issuer "token_endpoint" "token endpoint")
                λ token.
                  Errors.◌>>=◌
                    (endpoint_of loopback document issuer "registration_endpoint" "registration")
                    λ registration. ok (record {
                      issuer = issuer;
                      authorization = authorization;
                      token = token;
                      registration = registration;
                    })

  unfoldable pub read_endpoints : (proxy : String) → Prog Endpoints
  unfolding require_secure get_json endpoints_of
  read_endpoints proxy = do
    issuer ← lift (require_secure loopback proxy "the proxy URL")
    document ← get_json (issuer <> "/.well-known/oauth-authorization-server")
    lift (endpoints_of issuer document)
