-- ===== src/Cli/Confined.antt =====
-- Where the commands of src/cimd_proxy/pat_cli.py present the owner's access token.
use cimd_proxy.Prelude.{
  String, ◌<>◌, ◌⊎◌, ◌≡◌, refl, Bool, true, false, Option, none, some, List, [], ◌∷◌, All,
  is_truthy, if◌then◌else◌, rstrip_slash,
}
use cimd_proxy.Prelude.Dict.{Dict, lookup}
use cimd_proxy.Json.{Json}
use cimd_proxy.Errors.{Exception, ok}
use cimd_proxy.Effects.{
  World, Prog, send, run, sent, Request, Reply, failed, answered, Response, ◌>>=◌, ◌>>◌, lift,
  require,
}
use cimd_proxy.Effects.Every.{every_bind, every_lift}
use cimd_proxy.Url.{SplitResult, urlsplit}
use cimd_proxy.Cli.{
  Endpoints, response_of, get_request, document_of, get_json, named_server, decide, try_candidates,
  protected_resource, discover_proxy, require_secure, endpoints_of, read_endpoints,
}
use cimd_proxy.Cli.Secure.{AreProxys}

module _ (loopback : String → Option Bool) (w : World) (given : String) where
  -- The endpoints of the proxy that is given or, where none is, that a resource names.
  pub record IsChosen (e : Endpoints) : Type 0 where
    pub proxy : String
    pub chosen :
        ((is_truthy given ≡ true) × (proxy ≡ given))
        ⊎ ((is_truthy given ≡ false)
            × ((resource : String) × (run w (discover_proxy resource) ≡ ok proxy)))
    pub are_proxys : AreProxys loopback w proxy e

  -- A request without a bearer token, or one to the token management of the chosen proxy.
  pub data IsConfined (q : Request) : Type 0 where
    bare : lookup "Authorization" q.headers ≡ none → IsConfined q
    at_proxy : (e : Endpoints) → IsChosen e → q.url ≡ e.issuer <> "/pat/tokens" → IsConfined q
    at_token :
        (e : Endpoints) (id : String)
        → IsChosen e
        → q.url ≡ (e.issuer <> "/pat/tokens") <> "/" <> id
        → IsConfined q

  abbrev pub Confined : {A : Type 0} → Prog A → Type 0
  Confined m = All IsConfined (sent w m)

  response-Confined : (r : Reply) → Confined (response_of r)
  unfolding response_of
  response-Confined (failed m) = tt
  response-Confined (answered r) = tt

  pub require-Confined : (b : Bool) (e : Exception) → Confined (require b e)
  require-Confined true e = tt
  require-Confined false e = tt

  -- A request, a test of the answer, and a value read off it.
  pub asking-Confined :
      {A : Type 0} (q : Request) (f : Response → Prog A)
      → IsConfined q
      → ((r : Response) → Confined (f r))
      → Confined (send q response_of >>= f)
  asking-Confined q f c k =
      every_bind w IsConfined (send q response_of) f (c, response-Confined (w.upstream q))
        (λ r _. k r)

  pub checked-Confined :
      {A : Type 0} (b : Bool) (e : Exception) (m : Prog A)
      → Confined m
      → Confined (require b e >> m)
  checked-Confined b e m c =
      every_bind w IsConfined (require b e) (λ _. m) (require-Confined b e) (λ _ _. c)

  get-Confined : (url : String) → Confined (get_json url)
  unfolding get_json lookup
  get-Confined url =
      asking-Confined (get_request url (("Accept", "application/json") ∷ [])) _ (bare refl)
        (λ r. every_lift w IsConfined (document_of url r))

  decide-Confined :
      (resource place : String) (others : Prog String) (d : Option (Dict Json))
      → Confined others
      → Confined (decide resource place others d)
  unfolding decide
  decide-Confined resource place others none c = c
  decide-Confined resource place others (some document) c =
      every_lift w IsConfined (named_server resource place document)

  candidates-Confined :
      (resource : String) (parts : SplitResult) (paths : List String)
      → Confined (try_candidates resource parts paths)
  unfolding try_candidates
  candidates-Confined resource parts [] = tt
  candidates-Confined resource parts (path ∷ paths) =
      every_bind w IsConfined (get_json (parts.scheme <> "://" <> parts.netloc <> path)) _
        (get-Confined (parts.scheme <> "://" <> parts.netloc <> path))
        λ d _.
          decide-Confined resource (parts.netloc <> path) (try_candidates resource parts paths) d
            (candidates-Confined resource parts paths)

  pub discover-Confined : (resource : String) → Confined (discover_proxy resource)
  unfolding discover_proxy
  discover-Confined resource =
      every_bind w IsConfined (lift (urlsplit resource)) _
        (every_lift w IsConfined (urlsplit resource))
        (λ parts _.
          let path = rstrip_slash parts.path in
          candidates-Confined resource parts (
            (protected_resource <> path)
            ∷ (if is_truthy path then protected_resource ∷ [] else [])))

  pub endpoints-Confined : (proxy : String) → Confined (read_endpoints loopback proxy)
  unfolding read_endpoints
  endpoints-Confined proxy =
      every_bind w IsConfined (lift (require_secure loopback proxy "the proxy URL")) _
        (every_lift w IsConfined (require_secure loopback proxy "the proxy URL"))
        λ issuer _.
          every_bind w IsConfined (get_json (issuer <> "/.well-known/oauth-authorization-server")) _
            (get-Confined (issuer <> "/.well-known/oauth-authorization-server"))
            λ d _. every_lift w IsConfined (endpoints_of loopback issuer d)
