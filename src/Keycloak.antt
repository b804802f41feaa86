-- ===== src/Keycloak.antt =====
-- src/cimd_proxy/keycloak.py, but for the JWT bearer grant, which stands in Pat/Exchange.
mod Basic
use Prim.Native.String.{count}
use cimd_proxy.Prelude.{
  ℕ, suc, zero, String, ◌<>◌, Bool, true, false, not, ◌&&◌, ◌||◌, Option, none, some, List, [], ◌∷◌,
  if◌then◌else◌, eqb, is_truthy, found_is, or_else, map, starts_with, rstrip_slash, rstrip, repr,
}
use cimd_proxy.Prelude.Dict.{Dict, lookup}
use cimd_proxy.Prelude.Int.{pos}
use cimd_proxy.Json.{Json, null, bool, int, str, arr, obj, items, fields, object, str_of}
use cimd_proxy.Errors
use cimd_proxy.Errors.{
  Result, ok, err, Exception, oauth, server_error, value_error, type_error, attribute_error,
  link_conflict,
}
use cimd_proxy.Effects.{
  Prog, ret, throw, send, ◌>>=◌, ◌>>◌, lift, require, Request, Response, form, no_body, json_body,
}
use cimd_proxy.Config.{PatConfig}
use cimd_proxy.Digits.{decimal}
use cimd_proxy.Http.{token_url}
use cimd_proxy.Pat.Text.{text_of}
use cimd_proxy.Pat.Format.{drop_chars}
use cimd_proxy.Pat.Exchange.{posted_reply}
use Basic.{basic_auth}

-- `text.rpartition(sep)`, where `sep` occurs.
unfoldable pub last_split : (sep text : String) → Option (String × String)
unfolding drop_chars
last_split sep String.[] = none
last_split sep (String.◌∷◌ c s) = further (last_split sep s)
  where
    further : Option (String × String) → Option (String × String)
    further (some (before, after)) = some (String.◌∷◌ c before, after)
    further none =
        if starts_with (String.◌∷◌ c s) sep
        then some ("", drop_chars (count sep) (String.◌∷◌ c s))
        else none

-- `_admin_base`
unfoldable pub admin_base : String → Result String
unfolding last_split rstrip
admin_base realm_issuer = based (last_split "/realms/" (rstrip_slash realm_issuer))
  where
    refused : Result String
    refused = err (value_error (repr realm_issuer <> " is not a Keycloak realm issuer"))

    based : Option (String × String) → Result String
    based none = refused
    based (some (base, realm)) =
        if is_truthy realm then ok (base <> "/admin/realms/" <> realm) else refused

pub record Caller : Type 0 where
  pub subject : String
  pub username : String
  pub organizations : List String

pub record KeycloakClient : Type 0 where
  pub issuer : String
  pub admin_base : String
  pub client_id : String
  pub client_secret : String
  pub idp_alias : String

-- The client that `create_app` makes.
unfoldable pub keycloak_client : PatConfig → Result KeycloakClient
unfolding admin_base rstrip
keycloak_client pat = Errors.◌>>=◌ (admin_base (rstrip_slash pat.realm_issuer)) λ base. ok (record {
  issuer = rstrip_slash pat.realm_issuer;
  admin_base = base;
  client_id = pat.admin_client_id;
  client_secret = pat.admin_client_secret;
  idp_alias = pat.idp_alias;
})

-- A form that goes out under the name and the secret of the admin client.
abbrev pub admin_post : KeycloakClient → String → Dict String → Request
unfolding basic_auth
admin_post kc url fields = record {
  method = "POST";
  url = url;
  headers = ("Authorization", basic_auth kc.client_id kc.client_secret) ∷ [];
  sni_hostname = none;
  body = form fields;
}

abbrev pub failing : String → ℕ → Exception
failing what status = oauth (server_error (what <> " failed with HTTP " <> decimal status))

-- `response.json()`
unfoldable pub json_or_raise : Option Json → Result Json
json_or_raise none = err (value_error "the response is not JSON")
json_or_raise (some v) = ok v

-- `introspect`
unfoldable pub introspect : KeycloakClient → (access_token : String) → Prog Json
unfolding posted_reply json_or_raise admin_post
introspect kc access_token = do
  r ←
      send
        (admin_post kc (token_url kc.issuer <> "/introspect")
          (("token", access_token) ∷ ("token_type_hint", "access_token") ∷ []))
        posted_reply
  require (eqb r.status_code 200) (failing "token introspection" r.status_code)
  lift (json_or_raise r.json)

-- `r.json()["access_token"]`, as text.
unfoldable pub token_field : Option Json → Result String
unfolding lookup text_of
token_field none = err (value_error "the response is not JSON")
token_field (some (obj fs)) = named (lookup "access_token" (fields fs))
  where
    named : Option Json → Result String
    named none = err (type_error "KeyError: 'access_token'")
    named (some v) = ok (text_of v)
token_field (some _) = err (type_error "the response is not subscriptable")

-- `_admin_token`
unfoldable pub admin_token : KeycloakClient → Prog String
unfolding posted_reply token_field admin_post
admin_token kc = do
  r ←
      send (admin_post kc (token_url kc.issuer) (("grant_type", "client_credentials") ∷ []))
        posted_reply
  require (eqb r.status_code 200) (failing "admin client login" r.status_code)
  lift (token_field r.json)

-- What the loop of `ensure_link` iterates over.
unfoldable pub links_of : Option Json → Result (List Json)
links_of none = err (value_error "the response is not JSON")
links_of (some (arr vs)) = ok (items vs)
links_of (some (obj fs)) = ok (map (λ ((k, v) : String × Json). str k) (fields fs))
links_of (some (str s)) = ok (if is_truthy s then str s ∷ [] else [])
links_of (some _) = err (type_error "the response is not iterable")

-- Whether one of the links is the owner's at the proxy's provider.
unfoldable pub linked : (idp_alias subject : String) → List Json → Result Bool
unfolding lookup
linked idp_alias subject [] = ok false
linked idp_alias subject (obj fs ∷ links) =
    let rest = linked idp_alias subject links in
    if found_is (str_of (lookup "identityProvider" (fields fs))) idp_alias
    then (if found_is (str_of (lookup "userId" (fields fs))) subject
        then ok true
        else err (link_conflict "the owner is linked to the token issuer under another id"))
    else rest
linked idp_alias subject (_ ∷ links) = err (attribute_error "a link has no attribute 'get'")

abbrev links_url : KeycloakClient → Caller → String
links_url kc caller = kc.admin_base <> "/users/" <> caller.subject <> "/federated-identity"

abbrev pub read_links : KeycloakClient → Caller → (token : String) → Request
read_links kc caller token = record {
  method = "GET";
  url = links_url kc caller;
  headers = ("Authorization", "Bearer " <> token) ∷ [];
  sni_hostname = none;
  body = no_body;
}

abbrev pub write_link : KeycloakClient → Caller → (token : String) → Request
write_link kc caller token = record {
  method = "POST";
  url = links_url kc caller <> "/" <> kc.idp_alias;
  headers = ("Authorization", "Bearer " <> token) ∷ [];
  sni_hostname = none;
  body = json_body (
      object (
        ("identityProvider", str kc.idp_alias)
        ∷ ("userId", str caller.subject)
        ∷ ("userName", str (or_else (some caller.username) caller.subject))
        ∷ []));
}

-- The part of `ensure_link` behind its loop.
unfoldable pub link_unless : KeycloakClient → Caller → (token : String) → Bool → Prog (Unit {0})
unfolding posted_reply
link_unless kc caller token true = ret tt
link_unless kc caller token false = do
  created ← send (write_link kc caller token) posted_reply
  require (eqb created.status_code 201 || eqb created.status_code 204)
      (failing "linking the owner" created.status_code)

-- `ensure_link`
unfoldable pub ensure_link : KeycloakClient → Caller → Prog (Unit {0})
unfolding posted_reply admin_token links_of linked link_unless
ensure_link kc caller = do
  token ← admin_token kc
  existing ← send (read_links kc caller token) posted_reply
  require (eqb existing.status_code 200)
      (failing "reading the owner's identity links" existing.status_code)
  links ← lift (links_of existing.json)
  found ← lift (linked kc.idp_alias caller.subject links)
  link_unless kc caller token found
