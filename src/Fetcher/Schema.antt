-- ===== src/Fetcher/Schema.antt =====
-- src/cimd_proxy/fetcher.py: the rules of a metadata document.
use cimd_proxy.Prelude.{
  String, ◌<>◌, Bool, false, not, Option, none, some, List, [], ◌∷◌, ◌++◌, ◌==◌, if◌then◌else◌,
  is_truthy, contains, repr, join, is_empty, all, is_some,
}
use cimd_proxy.Prelude.Dict.{Dict, lookup}
use cimd_proxy.Json.{Json, obj, arr, fields, items, all_strings, str_of}
use cimd_proxy.Errors
use cimd_proxy.Errors.{
  Result, ok, err, Exception, redirect_uri_refused, fetch_error, ssrf_refused, document_invalid,
  value_error,
}
use cimd_proxy.RedirectUri.{accept_registered}

-- `raw` is the JSON object as it came.
pub record CimdDocument : Type 0 where
  pub client_id : String
  pub redirect_uris : List String
  pub raw : Dict Json
  pub cache_control : Option String

abbrev pub forbidden_methods : List String
forbidden_methods = "client_secret_post" ∷ "client_secret_basic" ∷ "client_secret_jwt" ∷ []

-- `except RedirectUriRefused as exc`: the message, of that exception alone.
unfoldable pub refusal : Exception → Option String
refusal (redirect_uri_refused message) = some message
refusal _ = none

abbrev drop_or_raise {ℓ} : {A : Type ℓ} → Exception → Option String → (String → Result A) → Result A
drop_or_raise e none drop_it = err e
drop_or_raise e (some message) drop_it = drop_it message

unfoldable pub sort_one {ℓ} :
    {A : Type ℓ} → Result (Unit {0}) → Result A → (String → Result A) → Result A
sort_one (ok _) keep_it drop_it = keep_it
sort_one (err e) keep_it drop_it = drop_or_raise e (refusal e) drop_it

-- The loop of `_usable_redirect_uris`.
unfoldable pub sort_uris :
    List String → List String → List String → Result (List String × List String)
sort_uris kept dropped [] = ok (kept, dropped)
sort_uris kept dropped (uri ∷ rest) =
    let keep_it = sort_uris (kept ++ uri ∷ []) dropped rest in
    let drop_it = λ (message : String). sort_uris kept (dropped ++ message ∷ []) rest in
    sort_one (accept_registered uri) keep_it drop_it

unfoldable pub usable_redirect_uris : List String → Result (List String)
unfolding join
usable_redirect_uris uris = Errors.◌>>=◌ (sort_uris [] [] uris) λ (kept, dropped).
    if is_empty kept
    then err (
        document_invalid
          ("CIMD document lists no usable redirect_uris entry: " <> join "; " dropped))
    else ok kept

unfoldable pub check_texts : Option (List String) → Result (List String)
check_texts none = err (document_invalid "every redirect_uris entry must be a non-empty string")
check_texts (some uris) =
    if all is_truthy uris
    then usable_redirect_uris uris
    else err (document_invalid "every redirect_uris entry must be a non-empty string")

-- The tests of `redirect_uris`, which give its texts.
unfoldable pub check_uris : Option Json → Result (List String)
unfolding all_strings
check_uris (some (arr vs)) =
    if is_empty (items vs)
    then err (document_invalid "CIMD document must carry a non-empty redirect_uris array")
    else check_texts (all_strings vs)
check_uris _ = err (document_invalid "CIMD document must carry a non-empty redirect_uris array")

-- `isinstance(method, str) and method in _FORBIDDEN_METHODS`
abbrev pub is_forbidden : Option String → Bool
is_forbidden none = false
is_forbidden (some m) = contains forbidden_methods m

abbrev or_empty : Option String → String
or_empty none = ""
or_empty (some s) = s

-- `validate_document` on a JSON object.
unfoldable pub validate_object : String → Dict Json → Option String → Result CimdDocument
unfolding lookup
validate_object url d none = err (document_invalid "CIMD document has no client_id")
validate_object url d (some client_id) =
    let method = str_of (lookup "token_endpoint_auth_method" d) in
    if not (client_id == url)
    then err (document_invalid "client_id in document does not match the URL byte-for-byte")
    else if is_some (lookup "client_secret" d)
    then err (document_invalid "CIMD document must not carry client_secret")
    else if is_some (lookup "client_secret_expires_at" d)
    then err (document_invalid "CIMD document must not carry client_secret_expires_at")
    else if is_forbidden method
    then err (
        document_invalid (
          "token_endpoint_auth_method "
          <> repr (or_empty method)
          <> " relies on a shared symmetric secret"))
    else Errors.◌>>=◌ (check_uris (lookup "redirect_uris" d)) λ uris.
      ok (record { client_id = client_id; redirect_uris = uris; raw = d; cache_control = none })

unfoldable pub validate_document : String → Json → Result CimdDocument
unfolding validate_object
validate_document url (obj fs) =
    validate_object url (fields fs) (str_of (lookup "client_id" (fields fs)))
validate_document url _ = err (document_invalid "CIMD document is not a JSON object")
