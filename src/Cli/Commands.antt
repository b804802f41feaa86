-- ===== src/Cli/Commands.antt =====
-- The three commands of src/cimd_proxy/pat_cli.py, on parsed arguments.
use cimd_proxy.Prelude.{
  ℕ, String, ◌<>◌, Bool, true, Option, none, some, List, [], ◌∷◌, ◌++◌, if◌then◌else◌, eqb,
  is_truthy, split_words, is_empty,
}
use cimd_proxy.Prelude.Dict.{Dict, lookup}
use cimd_proxy.Prelude.Int.{ℤ}
use cimd_proxy.Json.{Json, str, int, bool, arr, obj, strings, object, fields, str_of}
use cimd_proxy.Errors
use cimd_proxy.Errors.{
  Result, ok, err, Exception, cli_error, http_error, type_error, attribute_error,
}
use cimd_proxy.Effects.{
  Prog, ret, throw, send, ◌>>=◌, ◌>>◌, lift, require, catch, Request, no_body, json_body,
}
use cimd_proxy.Platform.{Platform}
use cimd_proxy.Keycloak.{json_or_raise}
use cimd_proxy.Cli.{
  SignedIn, pat_tokens, bearer_headers, refuse_cli, response_of, get_request, require_secure,
  discover_proxy, read_endpoints,
}
use cimd_proxy.Cli.SignIn.{refusal_text, sign_in}
use cimd_proxy.Cli.Printed.{listed_values, shown, describe, table}

-- `response.json().get(key)`
unfoldable pub member_of : String → Option Json → Result (Option Json)
unfolding json_or_raise lookup
member_of key json = Errors.◌>>=◌ (json_or_raise json) member
  where
    member : Json → Result (Option Json)
    member (obj fs) = ok (lookup key (fields fs))
    member _ = err (attribute_error "the answer has no attribute 'get'")

unfoldable pub created_of : Option Json → Result (Dict Json)
unfolding json_or_raise lookup
created_of json = Errors.◌>>=◌ (json_or_raise json) with_token
  where
    checked : Dict Json → Option String → Result (Dict Json)
    checked d (some token) = ok d
    checked d none = refuse_cli "the proxy answered without a token"

    with_token : Json → Result (Dict Json)
    with_token (obj fs) = checked (fields fs) (str_of (lookup "token" (fields fs)))
    with_token _ = err (attribute_error "the answer has no attribute 'get'")

abbrev pub creation : SignedIn → Json → Request
creation session body = record {
  method = "POST";
  url = pat_tokens session.endpoints;
  headers = bearer_headers session;
  sni_hostname = none;
  body = json_body body;
}

-- `create_token`
unfoldable pub post_token : SignedIn → Json → Prog (Dict Json)
unfolding response_of refusal_text created_of
post_token session body = do
  r ← send (creation session body) response_of
  require (eqb r.status_code 201) (cli_error ("the proxy refused the token: " <> refusal_text r))
  lift (created_of r.json)

-- `list_tokens`
unfoldable pub get_listing : SignedIn → Prog (List Json)
unfolding response_of refusal_text member_of listed_values
get_listing session = do
  r ← send (get_request (pat_tokens session.endpoints) (bearer_headers session)) response_of
  require (eqb r.status_code 200) (cli_error ("the proxy refused the listing: " <> refusal_text r))
  tokens ← lift (member_of "tokens" r.json)
  lift (listed_values tokens)

abbrev pub deletion : SignedIn → (token_id : String) → Request
deletion session token_id = record {
  method = "DELETE";
  url = pat_tokens session.endpoints <> "/" <> token_id;
  headers = bearer_headers session;
  sni_hostname = none;
  body = no_body;
}

-- `revoke_token`
unfoldable pub delete_token : SignedIn → (token_id : String) → Prog (Unit {0})
unfolding response_of refusal_text
delete_token session token_id = do
  r ← send (deletion session token_id) response_of
  require (eqb r.status_code 204)
      (cli_error ("the proxy refused the revocation: " <> refusal_text r))

-- What `argparse` gives, with the defaults of the environment.
pub record Arguments : Type 0 where
  pub resource : List String
  pub proxy : String
  pub login_scope : String
  pub name : String
  pub sets : List String
  pub expires_in_days : Option ℤ
  pub allow_long_lifetime : Bool
  pub organization : String
  pub id : String

-- What a command writes.
pub record Output : Type 0 where
  pub stdout : String
  pub stderr : String

-- The body of a creation.
unfoldable pub creation_body : Arguments → (resources : List String) → Json
creation_body args resources = object (
    ("name", str args.name)
    ∷ ("resources", arr (strings resources))
    ∷ ((if is_empty args.sets
          then ("all_permitted_scopes", bool true)
          else ("scopes", arr (strings args.sets)))
        ∷ (days args.expires_in_days
            ++ ((if args.allow_long_lifetime then ("allow_long_lifetime", bool true) ∷ [] else [])
                ++ (if is_truthy args.organization
                    then ("organization", str args.organization) ∷ []
                    else [])))))
  where
    days : Option ℤ → Dict Json
    days none = []
    days (some n) = ("expires_in_days", int n) ∷ []

module _ (P : Platform) (loopback : String → Option Bool) (browse : String → Option (Dict String))
    (port : ℕ) (timeout : String) (resource_variable : String) where
  unfoldable pub all_secure : List String → Result (List String)
  unfolding require_secure
  all_secure [] = ok []
  all_secure (r ∷ rs) =
      Errors.◌>>=◌ (require_secure loopback r "the resource")
        λ one. Errors.◌>>=◌ (all_secure rs) λ others. ok (one ∷ others)

  -- `_resources`
  unfoldable pub resources_of : Arguments → Result (List String)
  unfolding split_words all_secure
  resources_of args =
      let resources =
        if is_empty args.resource then split_words resource_variable else args.resource in
      if is_empty resources
      then refuse_cli "name the protected resource with --resource or CIMD_PAT_RESOURCE"
      else all_secure resources

  -- `_session`, with the first of the resources.
  unfoldable pub session_for : Arguments → List String → Prog (SignedIn × List String)
  unfolding discover_proxy read_endpoints sign_in
  session_for args [] = throw (cli_error "no resource")
  session_for args (resource ∷ resources) = do
    proxy ← if is_truthy args.proxy then ret args.proxy else discover_proxy resource
    endpoints ← read_endpoints loopback proxy
    session ← sign_in P browse port timeout endpoints resource args.login_scope
    ret (session, resource ∷ resources)

  unfoldable pub session_of : Arguments → Prog (SignedIn × List String)
  unfolding resources_of session_for
  session_of args = lift (resources_of args) >>= session_for args

  -- The action of `create_main`.
  unfoldable pub create_action : Arguments → Prog Output
  unfolding session_of creation_body post_token describe lookup
  create_action args = do
    opened ← session_of args
    created ← post_token opened.0 (creation_body args opened.1)
    line ← lift (describe created)
    ret (record { stdout = shown "token" created <> "\n"; stderr = line <> "\n" })

  -- The action of `list_main`.
  unfoldable pub list_action : Arguments → Prog Output
  unfolding session_of get_listing table
  list_action args = do
    opened ← session_of args
    tokens ← get_listing opened.0
    text ← lift (table tokens)
    ret (record { stdout = text <> "\n"; stderr = "" })

  -- The action of `revoke_main`.
  unfoldable pub revoke_action : Arguments → Prog Output
  unfolding session_of delete_token
  revoke_action args = do
    opened ← session_of args
    delete_token opened.0 args.id
    ret (record { stdout = ""; stderr = "revoked " <> args.id <> "\n" })

pub data Command : Type 0 where
  create_main : Command
  list_main : Command
  revoke_main : Command

-- `_run` with the parser's name.
abbrev pub program_name : Command → String
program_name create_main = "pat-create"
program_name list_main = "pat-list"
program_name revoke_main = "pat-revoke"

-- The two `except` clauses of `_run`.
unfoldable pub failed_run : (prog : String) → Exception → Prog (ℕ × Output)
failed_run prog (cli_error m) = ret (1, record { stdout = ""; stderr = prog <> ": " <> m <> "\n" })
failed_run prog (http_error m) =
    ret (
      1,
      record { stdout = ""; stderr = prog <> ": the proxy could not be reached: " <> m <> "\n" },
    )
failed_run prog e = throw e

-- `_run`: the exit code and what is written.
unfoldable pub run_action : (prog : String) → Prog Output → Prog (ℕ × Output)
unfolding failed_run
run_action prog action = catch (action >>= λ output. ret (0, output)) (failed_run prog)

module _ (P : Platform) (loopback : String → Option Bool) (browse : String → Option (Dict String))
    (port : ℕ) (timeout : String) (resource_variable : String) where
  unfoldable pub action_of : Command → Arguments → Prog Output
  unfolding create_action list_action revoke_action
  action_of create_main args = create_action P loopback browse port timeout resource_variable args
  action_of list_main args = list_action P loopback browse port timeout resource_variable args
  action_of revoke_main args = revoke_action P loopback browse port timeout resource_variable args

  -- `create_main`, `list_main` and `revoke_main`.
  unfoldable pub command_line : Command → Arguments → Prog (ℕ × Output)
  unfolding run_action action_of
  command_line command args = run_action (program_name command) (action_of command args)
