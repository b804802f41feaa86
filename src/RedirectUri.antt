-- ===== src/RedirectUri.antt =====
-- src/cimd_proxy/redirect_uri.py
pub mod Policy
use cimd_proxy.Prelude.{
  String, ◌<>◌, Bool, true, false, ◌&&◌, ◌||◌, not, Option, none, some, ◌==◌, if◌then◌else◌,
  is_truthy, is_char, any_char, repr,
}
use cimd_proxy.Errors.{Result, ok, err, redirect_uri_refused, ◌>>=◌}
use cimd_proxy.Url.{SplitResult, urlsplit, hostname}

-- `hostname in _LOOPBACK_LITERALS or hostname == _LOOPBACK_NAME`
abbrev pub is_loopback_host : Option String → Bool
is_loopback_host none = false
is_loopback_host (some h) = (h == "127.0.0.1" || h == "::1") || h == "localhost"

unfoldable pub is_loopback_http : SplitResult → Bool
is_loopback_http split = split.scheme == "http" && is_loopback_host (hostname split)

-- `"@" in netloc`
abbrev pub has_userinfo : SplitResult → Bool
has_userinfo split = any_char (is_char b'@') split.netloc

refuse : String → String → Result (Unit {0})
refuse uri why = err (redirect_uri_refused ("redirect_uri " <> repr uri <> " " <> why))

-- The tests after `urlsplit`.
unfoldable pub accept_split : String → SplitResult → Result (Unit {0})
unfolding refuse
accept_split uri split =
    if is_truthy split.fragment
    then refuse uri "must not carry a fragment"
    else if has_userinfo split
    then refuse uri "must not carry a userinfo component"
    else host_and_scheme (hostname split)
  where
    host_and_scheme : Option String → Result (Unit {0})
    host_and_scheme none = refuse uri "has no host"
    host_and_scheme (some h) =
        if split.scheme == "https"
        then ok tt
        else if split.scheme == "http"
        then (if is_loopback_host (some h)
            then ok tt
            else refuse uri
                "must use https (http is permitted only for the loopback hosts 127.0.0.1, [::1] and localhost)")
        else refuse uri "must use https or a loopback http scheme"

unfoldable pub accept_registered : String → Result (Unit {0})
unfolding accept_split
accept_registered uri = do split ← urlsplit uri; accept_split uri split

-- `r.hostname == s.hostname`
unfoldable pub same_host : Option String → Option String → Bool
same_host none none = true
same_host none (some h) = false
same_host (some g) none = false
same_host (some g) (some h) = g == h

-- The comparison of two loopback `http` URIs, port aside.
unfoldable pub match_split : SplitResult → SplitResult → Bool
match_split r s =
    if not (is_loopback_http r) || not (is_loopback_http s)
    then false
    else if is_truthy r.fragment || is_truthy s.fragment
    then false
    else if has_userinfo r || has_userinfo s
    then false
    else (same_host (hostname r) (hostname s) && r.path == s.path) && r.query == s.query

unfoldable pub uri_matches_registration : String → String → Result Bool
unfolding match_split
uri_matches_registration requested registered =
    if requested == registered
    then ok true
    else (do r ← urlsplit requested; s ← urlsplit registered; ok (match_split r s))
