-- ===== src/Fetcher/ClientId.antt =====
-- src/cimd_proxy/fetcher.py: the URL that is a client id.
use cimd_proxy.Prelude.{
  ℕ, String, ◌<>◌, not, ◌||◌, Option, none, some, ◌==◌, if◌then◌else◌, is_truthy, eqb,
}
use cimd_proxy.Errors
use cimd_proxy.Errors.{
  Result, ok, err, Exception, redirect_uri_refused, fetch_error, ssrf_refused, document_invalid,
  value_error,
}
use cimd_proxy.Url.{SplitResult, urlsplit, hostname, port}
use cimd_proxy.RedirectUri.{has_userinfo}
use cimd_proxy.Digits.{decimal}

pub record ParsedClientIdUrl : Type 0 where
  pub scheme : String
  pub hostname : String
  pub port : ℕ
  pub path : String
  pub query : String

unfoldable pub authority : ParsedClientIdUrl → String
unfolding decimal
authority p =
    if eqb p.port (if p.scheme == "https" then 443 else 80)
    then p.hostname
    else p.hostname <> ":" <> decimal p.port

abbrev pub or_443 : Option ℕ → ℕ
or_443 none = 443
or_443 (some n) = n

-- The tests of `parse_client_id_url` after `urlsplit`.
unfoldable pub parse_split : SplitResult → Result ParsedClientIdUrl
parse_split split =
    if not (split.scheme == "https")
    then err (ssrf_refused "client_id must use https")
    else if is_truthy split.fragment
    then err (ssrf_refused "client_id must not carry a fragment")
    else if has_userinfo split
    then err (ssrf_refused "client_id must not carry a userinfo component")
    else host (hostname split)
  where
    host : Option String → Result ParsedClientIdUrl
    host none = err (ssrf_refused "client_id has no host")
    host (some h) =
        if not (is_truthy split.path) || split.path == "/"
        then err (ssrf_refused "client_id must have a non-empty path")
        else Errors.◌>>=◌ (port split) λ p. ok (record {
          scheme = split.scheme;
          hostname = h;
          port = or_443 p;
          path = split.path;
          query = split.query;
        })

unfoldable pub parse_client_id_url : String → Result ParsedClientIdUrl
unfolding parse_split
parse_client_id_url url =
    if is_truthy url
    then Errors.◌>>=◌ (urlsplit url) parse_split
    else err (ssrf_refused "client_id is empty")
