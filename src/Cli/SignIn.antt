-- ===== src/Cli/SignIn.antt =====
-- The sign-in of the commands of src/cimd_proxy/pat_cli.py.
use cimd_proxy.Prelude.{
  ℕ, ◌/◌, ◌^◌, String, ◌<>◌, Bool, not, Option, none, some, [], ◌∷◌, ◌++◌, ◌==◌, if◌then◌else◌, eqb,
  is_truthy, rstrip_slash, or_else, all_chars,
}
use cimd_proxy.Prelude.Dict.{Dict, lookup, has_key}
use cimd_proxy.Digits.{decimal}
use cimd_proxy.Json.{Json, str, arr, obj, strings, object, fields, str_of}
use cimd_proxy.Errors
use cimd_proxy.Errors.{Result, ok, err, cli_error, type_error, attribute_error}
use cimd_proxy.Effects.{
  Prog, ret, throw, send, ◌>>=◌, ◌>>◌, lift, require, entropy, Request, Response, form, json_body,
}
use cimd_proxy.Platform.{Platform, is_ascii_char}
use cimd_proxy.Pkce.{base64url, token_urlsafe}
use cimd_proxy.Url.Encode.{urlencode}
use cimd_proxy.Keycloak.{json_or_raise}
use cimd_proxy.Cli.{Endpoints, SignedIn, refuse_cli, response_of}
use cimd_proxy.Cli.Receiver.{callback_path}

-- `_refusal`
unfoldable pub refusal_text : Response → String
unfolding lookup
refusal_text r = "HTTP " <> decimal r.status_code <> detailed r.json
  where
    described : Option String → String
    described (some d) = if is_truthy d then ": " <> d else ""
    described none = ""

    named : Option String → Option String → String
    named none description = ""
    named (some e) description = " " <> e <> described description

    detailed : Option Json → String
    detailed (some (obj fs)) =
        named (str_of (lookup "error" (fields fs)))
          (str_of (lookup "error_description" (fields fs)))
    detailed _ = ""

-- `compare_digest` of the state that came back and the one that was sent, which is ASCII.
unfoldable pub same_state : (received state : String) → Result Bool
same_state received state =
    if all_chars is_ascii_char received
    then ok (received == state)
    else err (type_error "comparing strings with non-ASCII characters is not supported")

unfoldable pub check_redirect : Dict String → (state issuer : String) → Result String
unfolding lookup same_state
check_redirect received state issuer =
    Errors.◌>>=◌ (same_state (or_else (lookup "state" received) "") state) λ same.
      if not same
      then refuse_cli "the sign-in came back with a foreign state; nothing was created"
      else if not (rstrip_slash (or_else (lookup "iss" received) "") == issuer)
      then refuse_cli "the sign-in came back from another issuer; nothing was created"
      else if has_key "error" received
      then refuse_cli (
          "the sign-in was refused: "
          <> or_else (lookup "error" received) ""
          <> (let detail = or_else (lookup "error_description" received) "" in
              if is_truthy detail then ": " <> detail else "")
          <> "; nothing was created")
      else (let code = or_else (lookup "code" received) "" in
          if is_truthy code
          then ok code
          else refuse_cli "the sign-in came back without a code; nothing was created")

-- `response.json().get(key)`, where it has to be a text that is not empty.
unfoldable pub text_member : (key missing : String) → Option Json → Result String
unfolding json_or_raise lookup
text_member key missing json = Errors.◌>>=◌ (json_or_raise json) member
  where
    named : Option String → Result String
    named none = refuse_cli missing
    named (some s) = if is_truthy s then ok s else refuse_cli missing

    member : Json → Result String
    member (obj fs) = named (str_of (lookup key (fields fs)))
    member _ = err (attribute_error "the answer has no attribute 'get'")

abbrev pub registration_request : Endpoints → (redirect_uri : String) → Request
registration_request endpoints redirect_uri = record {
  method = "POST";
  url = endpoints.registration;
  headers = [];
  sni_hostname = none;
  body = json_body (
      object (
        ("redirect_uris", arr (strings (redirect_uri ∷ [])))
        ∷ ("token_endpoint_auth_method", str "none")
        ∷ ("grant_types", arr (strings ("authorization_code" ∷ [])))
        ∷ ("response_types", arr (strings ("code" ∷ [])))
        ∷ ("client_name", str "cimd-proxy pat command line")
        ∷ []));
}

-- `register`
unfoldable pub register_client : Endpoints → (redirect_uri : String) → Prog String
unfolding response_of refusal_text text_member
register_client endpoints redirect_uri = do
  r ← send (registration_request endpoints redirect_uri) response_of
  require (eqb r.status_code 201) (cli_error ("registration refused: " <> refusal_text r))
  lift (text_member "client_id" "registration returned no client_id" r.json)

abbrev pub redemption : Endpoints → (code verifier redirect_uri client_id : String) → Request
redemption endpoints code verifier redirect_uri client_id = record {
  method = "POST";
  url = endpoints.token;
  headers = ("Accept", "application/json") ∷ [];
  sni_hostname = none;
  body = form (
      ("grant_type", "authorization_code")
      ∷ ("code", code)
      ∷ ("code_verifier", verifier)
      ∷ ("redirect_uri", redirect_uri)
      ∷ ("client_id", client_id)
      ∷ []);
}

-- The sign-in URL.
abbrev pub sign_in_url :
    Endpoints → (client_id redirect_uri challenge state resource login_scope : String) → String
sign_in_url endpoints client_id redirect_uri challenge state resource login_scope =
    endpoints.authorization
    <> "?"
    <> urlencode (
        (("response_type", "code")
          ∷ ("client_id", client_id)
          ∷ ("redirect_uri", redirect_uri)
          ∷ ("code_challenge", challenge)
          ∷ ("code_challenge_method", "S256")
          ∷ ("state", state)
          ∷ ("resource", resource)
          ∷ [])
        ++ (if is_truthy login_scope then ("scope", login_scope) ∷ [] else []))

-- The browser and its user are a function: what the loopback receiver has received by the timeout when
-- a URL has been opened. `port` is the port of the receiver, `timeout` the text of the timeout.
module _ (P : Platform) (browse : String → Option (Dict String)) (port : ℕ) (timeout : String) where
  abbrev pub redirect_uri : String
  redirect_uri = "http://127.0.0.1:" <> decimal port <> callback_path

  -- The part of `sign_in` behind the browser.
  unfoldable pub redeem :
      Endpoints → (client_id verifier state : String) → Option (Dict String) → Prog SignedIn
  unfolding check_redirect response_of refusal_text text_member
  redeem endpoints client_id verifier state none =
      throw (cli_error ("no sign-in arrived within " <> timeout <> " seconds; nothing was created"))
  redeem endpoints client_id verifier state (some received) = do
    code ← lift (check_redirect received state endpoints.issuer)
    r ← send (redemption endpoints code verifier redirect_uri client_id) response_of
    require (eqb r.status_code 200)
        (cli_error ("the token endpoint refused the code: " <> refusal_text r))
    access_token ←
        lift (text_member "access_token" "the token endpoint returned no access token" r.json)
    ret (record { endpoints = endpoints; access_token = access_token })

  unfoldable pub sign_in : Endpoints → (resource login_scope : String) → Prog SignedIn
  unfolding register_client token_urlsafe base64url redeem
  sign_in endpoints resource login_scope = do
    client_id ← register_client endpoints redirect_uri
    random ← entropy
    let verifier = token_urlsafe random 64
    let challenge = base64url (P.sha256 verifier)
    -- The second draw: a world has one number, of which the first has the lower 512 bits.
    random' ← entropy
    let state = token_urlsafe (random' / 2 ^ 512) 32
    redeem endpoints client_id verifier state
        (browse (sign_in_url endpoints client_id redirect_uri challenge state resource login_scope))
