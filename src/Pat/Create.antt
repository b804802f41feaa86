-- ===== src/Pat/Create.antt =====
-- src/cimd_proxy/pat.py: `parse_create` and the parsers that it uses.
pub mod Accepted
use Prim.Native.String.{count}
use cimd_proxy.Prelude.{
  ℕ, suc, String, ◌<>◌, Bool, true, false, not, ◌&&◌, ◌||◌, Option, none, some, List, [], ◌∷◌,
  if◌then◌else◌, leb, ltb, is_truthy, is_empty, all, keep, contains, strip, repr, repr_list,
}
use cimd_proxy.Prelude.Dict.{Dict, lookup}
use cimd_proxy.Prelude.Int.{ℤ, pos, negsuc}
use cimd_proxy.Json.{Json, null, bool, int, str, arr, obj, fields, all_strings, nil}
use cimd_proxy.Errors.{Result, ok, err, management_error, ◌>>=◌, ◌>>◌}
use cimd_proxy.Config.{ProxyConfig, PatConfig, ResourceEntry, resource_by_url, accepts_pat}

pub record CreateRequest : Type 0 where
  pub name : String
  pub resources : List String
  pub scopes : List String
  pub lifetime_days : ℕ
  pub allow_long_lifetime : Bool
  pub organization : Option String
  pub all_permitted_scopes : Bool

abbrev pub invalid {ℓ} : {A : Type ℓ} → (error description : String) → Result A
invalid error description = err (management_error 400 error description)

-- `if test: raise ManagementError(400, error, description)`
abbrev pub reject_if : Bool → (error description : String) → Result (Unit {0})
reject_if true error description = invalid error description
reject_if false error description = ok tt

unfoldable pub read_object : Json → Result (Dict Json)
read_object (obj fs) = ok (fields fs)
read_object _ = invalid "invalid_request" "the body must be a JSON object"

unfoldable pub read_name : Option Json → Result String
read_name (some (str s)) =
    let n = count (strip s) in
    if leb 1 n && leb n 100
    then ok (strip s)
    else invalid "invalid_request" "name must be 1 to 100 characters"
read_name _ = invalid "invalid_request" "name must be 1 to 100 characters"

-- `tuple(dict.fromkeys(value))`: the first of equal texts stays.
unfoldable pub distinct : List String → List String → List String
distinct seen [] = []
distinct seen (s ∷ ss) =
    let without = distinct seen ss in
    let with' = distinct (s ∷ seen) ss in if contains seen s then without else s ∷ with'

unfoldable pub texts_of : String → Option (List String) → Result (List String)
unfolding distinct
texts_of field none = invalid "invalid_request" (field <> " must be a list of strings")
texts_of field (some ss) =
    if all is_truthy ss
    then ok (distinct [] ss)
    else invalid "invalid_request" (field <> " must be a list of strings")

-- `_string_list`
unfoldable pub string_list : Json → String → Result (List String)
unfolding texts_of all_strings
string_list (arr vs) field = texts_of field (all_strings vs)
string_list _ field = invalid "invalid_request" (field <> " must be a list of strings")

-- `body.get(key, default)`
abbrev pub get_or : Json → Option Json → Json
get_or default none = default
get_or default (some v) = v

unfoldable pub read_bool : String → Json → Result Bool
read_bool message (bool b) = ok b
read_bool message _ = invalid "invalid_request" message

unfoldable pub read_days : Json → Result ℕ
read_days (int (pos n)) =
    if leb 1 n then ok n else invalid "invalid_request" "expires_in_days must be >= 1"
read_days _ = invalid "invalid_request" "expires_in_days must be >= 1"

-- `_lifetime`
unfoldable pub lifetime : Dict Json → Result (ℕ × Bool)
unfolding lookup read_days read_bool
lifetime body = do
  days ← read_days (get_or (int (pos 90)) (lookup "expires_in_days" body))
  long_ok ←
      read_bool "allow_long_lifetime must be a boolean"
        (get_or (bool false) (lookup "allow_long_lifetime" body))
  reject_if (ltb 365 days && not long_ok) "invalid_request"
      "a lifetime above 365 days needs allow_long_lifetime: true"
  ok (days, long_ok)

unfoldable pub read_organization : Option Json → Result (Option String)
read_organization none = ok none
read_organization (some null) = ok none
read_organization (some (str s)) = ok (some s)
read_organization (some _) = invalid "invalid_request" "organization must be a string"

-- A resource that accepts personal access tokens, by its configured URL.
unfoldable pub accepted_url : String → Option ResourceEntry → Result String
accepted_url url none =
    invalid "invalid_target" ("resource " <> repr url <> " does not accept personal tokens")
accepted_url url (some entry) =
    if accepts_pat entry
    then ok entry.url
    else invalid "invalid_target" ("resource " <> repr url <> " does not accept personal tokens")

-- The loop over the resources, with the URLs that the request keeps.
unfoldable pub configured_urls : ProxyConfig → List String → Result (List String)
unfolding accepted_url
configured_urls config [] = ok []
configured_urls config (url ∷ urls) = do
  found ← resource_by_url config url
  kept ← accepted_url url found
  rest ← configured_urls config urls
  ok (kept ∷ rest)

module _ (config : ProxyConfig) (pat : PatConfig) where
  unfoldable pub parse_object : Dict Json → Result CreateRequest
  unfolding lookup read_name string_list configured_urls read_bool lifetime read_organization
  parse_object body = do
    name ← read_name (lookup "name" body)
    named ← string_list (get_or null (lookup "resources" body)) "resources"
    reject_if (is_empty named) "invalid_request" "resources must name at least one"
    resources ← configured_urls config named
    scopes ← string_list (get_or (arr nil) (lookup "scopes" body)) "scopes"
    let outside = keep (λ s. not (contains pat.scopes s)) scopes
    reject_if (not (is_empty outside)) "invalid_scope"
        ("scopes not offered for personal tokens: " <> repr_list outside)
    all_permitted ←
        read_bool "all_permitted_scopes must be a boolean"
          (get_or (bool false) (lookup "all_permitted_scopes" body))
    reject_if (all_permitted && not (is_empty scopes)) "invalid_request"
        "name scopes or ask for all_permitted_scopes, not both"
    life ← lifetime body
    organization ← read_organization (lookup "organization" body)
    ok (record {
      name = name;
      resources = resources;
      scopes = scopes;
      lifetime_days = life.0;
      allow_long_lifetime = life.1;
      organization = organization;
      all_permitted_scopes = all_permitted;
    })

  -- `parse_create`
  unfoldable pub parse_create : Json → Result CreateRequest
  unfolding read_object parse_object
  parse_create body = do fs ← read_object body; parse_object fs
