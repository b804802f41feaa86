-- ===== src/Tests/Cli.antt =====
-- A run of the command line.
use cimd_proxy.Prelude.{
  ℕ, String, ◌<>◌, ◌≡◌, refl, Bool, true, false, Option, none, some, List, [], ◌∷◌, ◌⊎◌, ◌==◌,
  if◌then◌else◌, is_empty,
}
use cimd_proxy.Prelude.Dict.{Dict}
use cimd_proxy.Json.{Json, str, arr, strings, object}
use cimd_proxy.Errors.{ok}
use cimd_proxy.Effects.{World, Request, Reply, answered, run, sent}
use cimd_proxy.Pat.Record.{row_count}
use cimd_proxy.Url.{SplitResult}
use cimd_proxy.Cli.{Endpoints, read_endpoints}
use cimd_proxy.Cli.Secure.{AreProxys, read_endpoints_sound}
use cimd_proxy.Cli.SignIn.{sign_in}
use cimd_proxy.Cli.Redeemed.{IsRedeemed, registering, sign_in-sent}
use cimd_proxy.Cli.Receiver.{serve}
use cimd_proxy.Cli.Received.{at_callback, first_params, told, serve_first}
use cimd_proxy.Cli.Commands.{Arguments, create_main, command_line}
use cimd_proxy.Tests.Setup.{platform}

abbrev proxy : String
proxy = "https://proxy.example"

-- An answer with a status and a JSON body.
abbrev answer : ℕ → Dict Json → Reply
answer status body =
    answered (record {
      status_code = status;
      cache_control = none;
      chunks = [];
      json = some (object body);
    })

abbrev metadata : Dict Json
metadata =
    ("issuer", str proxy)
    ∷ ("authorization_endpoint", str (proxy <> "/authorize"))
    ∷ ("token_endpoint", str (proxy <> "/token"))
    ∷ ("registration_endpoint", str (proxy <> "/register"))
    ∷ ("code_challenge_methods_supported", arr (strings ("S256" ∷ [])))
    ∷ []

abbrev servers : Request → Reply
servers q =
    if q.url == "https://mcp.example/.well-known/oauth-protected-resource"
    then answer 200 (
        ("resource", str "https://mcp.example")
        ∷ ("authorization_servers", arr (strings (proxy ∷ [])))
        ∷ [])
    else if q.url == "https://proxy.example/.well-known/oauth-authorization-server"
    then answer 200 metadata
    else if q.url == "https://proxy.example/register"
    then answer 201 (("client_id", str "c") ∷ [])
    else if q.url == "https://proxy.example/token"
    then answer 200 (("access_token", str "at") ∷ [])
    else answer 201 (("token", str "kmb_pat_x") ∷ ("name", str "ci") ∷ [])

abbrev world : World
world = record {
  now = 3;
  noise = 0;
  names = λ _. none;
  upstream = servers;
  table = λ _. row_count 0;
}

abbrev loopback : String → Option Bool
loopback host = if host == "127.0.0.1" then some true else none

-- The state that a random number of 0 gives.
abbrev state : String
state = "AAAAAAAAAAAAAAAAAAAAAAAAAAAAAAAAAAAAAAAAAAA"

abbrev browse : String → Option (Dict String)
browse url = some (("state", state) ∷ ("iss", proxy) ∷ ("code", "code0") ∷ [])

abbrev endpoints : Endpoints
endpoints = record {
  issuer = proxy;
  authorization = "https://proxy.example/authorize";
  token = "https://proxy.example/token";
  registration = "https://proxy.example/register";
}

abbrev arguments : Arguments
arguments = record {
  resource = "https://mcp.example/" ∷ [];
  proxy = "";
  login_scope = "openid";
  name = "ci";
  sets = [];
  expires_in_days = none;
  allow_long_lifetime = false;
  organization = "";
  id = "";
}

read : run world (read_endpoints loopback proxy) ≡ ok endpoints
unfolding read_endpoints
read = refl

read_endpoints_sound_example : AreProxys loopback world proxy endpoints
read_endpoints_sound_example = read_endpoints_sound loopback world proxy endpoints read

-- The token is written to the standard output, and its description beside it.
created :
    run world (command_line platform loopback browse 5000 "300" "" create_main arguments)
    ≡ ok (
      0,
      record {
        stdout = "kmb_pat_x\n";
        stderr =
            "created personal access token 'ci' (id None) for organization None: permission sets (none); resources ; expires None\n";
      },
    )
unfolding command_line cimd_proxy.Prelude.repr
created = refl

sign_in-sent_example :
    (sent world (sign_in platform browse 5000 "300" endpoints "https://mcp.example" "openid")
      ≡ registering platform browse 5000 "300" world endpoints ∷ [])
    ⊎ IsRedeemed platform browse 5000 "300" world endpoints "https://mcp.example" "openid"
        (sent world (sign_in platform browse 5000 "300" endpoints "https://mcp.example" "openid"))
sign_in-sent_example =
    sign_in-sent platform browse 5000 "300" world endpoints "https://mcp.example" "openid"

abbrev parse_qs : String → Dict (String × List String)
parse_qs query = ("code", (query, [])) ∷ []

abbrev at_path : (path query : String) → SplitResult
at_path path query = record { scheme = ""; netloc = ""; path = path; query = query; fragment = "" }

abbrev visits : List SplitResult
visits = at_path "/favicon.ico" "" ∷ at_path "/callback" "a" ∷ at_path "/callback" "b" ∷ []

serve_first_example :
    ((serve parse_qs none visits).1 ≡ first_params parse_qs (at_callback parse_qs visits))
    × (told parse_qs (serve parse_qs none visits).0
        ≡ (if is_empty (at_callback parse_qs visits) then 0 else 1))
serve_first_example = serve_first parse_qs visits
