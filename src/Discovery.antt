-- ===== src/Discovery.antt =====
-- src/cimd_proxy/discovery.py, and the discovery routes of src/cimd_proxy/app.py.
pub mod Announced
use cimd_proxy.Prelude.{
  String, ◌<>◌, Bool, true, not, Option, none, some, List, [], ◌∷◌, if◌then◌else◌, is_empty,
  rstrip_slash, rstrip,
}
use cimd_proxy.Prelude.Dict.{Dict, insert}
use cimd_proxy.Json.{Json, str, bool, arr, strings}
use cimd_proxy.Effects.{Prog}
use cimd_proxy.Config.{ProxyConfig}
use cimd_proxy.Token.{TokenParams, token_exchange}

unfoldable pub base_document : String → List String → Dict Json
unfolding rstrip
base_document public_url extra_grant_types =
    let base = rstrip_slash public_url in
    ("issuer", str base)
    ∷ ("authorization_endpoint", str (base <> "/authorize"))
    ∷ ("token_endpoint", str (base <> "/token"))
    ∷ ("response_types_supported", arr (strings ("code" ∷ [])))
    ∷ (
      "grant_types_supported",
      arr (strings ("authorization_code" ∷ "refresh_token" ∷ extra_grant_types)),
    )
    ∷ ("code_challenge_methods_supported", arr (strings ("S256" ∷ [])))
    ∷ ("token_endpoint_auth_methods_supported", arr (strings ("none" ∷ [])))
    ∷ ("client_id_metadata_document_supported", bool true)
    ∷ ("authorization_response_iss_parameter_supported", bool true)
    ∷ []

unfoldable pub build_discovery_document :
    String
    → (scopes_supported : List String) (registration_endpoint : Bool)
      (extra_grant_types : List String)
    → Dict Json
unfolding base_document insert rstrip
build_discovery_document public_url scopes_supported registration_endpoint extra_grant_types =
    let doc = base_document public_url extra_grant_types in
    let scoped =
      if not (is_empty scopes_supported)
      then insert "scopes_supported" (arr (strings scopes_supported)) doc
      else doc in
    if registration_endpoint
    then insert "registration_endpoint" (str (rstrip_slash public_url <> "/register")) scoped
    else scoped

-- `extra_grants` of `create_app`; the argument says whether there is a service for the exchange.
unfoldable pub extra_grants : Option (TokenParams → Prog (Dict Json)) → List String
extra_grants none = []
extra_grants (some exchange) = token_exchange ∷ []

-- The body of both discovery routes.
unfoldable pub discovery : ProxyConfig → Option (TokenParams → Prog (Dict Json)) → Dict Json
unfolding build_discovery_document
discovery config exchange =
    build_discovery_document config.public_url config.scopes_supported true (extra_grants exchange)
