-- ===== src/Url.antt =====
-- Python's `urllib.parse`, as far as the program calls it: `urlsplit` with the properties of its
-- result, and `urlencode` in the child `Encode`. Of a netloc beyond ASCII the NFKC test is left out.
mod Address
pub mod Encode
use cimd_proxy.Prelude.{
  ℕ, String, ◌<>◌, Char, code, Bool, true, false, not, ◌&&◌, ◌||◌, Option, none, some, List, [],
  ◌∷◌, ◌≡◌, refl, ◌==◌, starts_with, leb, eqb, if◌then◌else◌, is_char, is_digit, is_upper, is_lower,
  is_truthy, contains, lower, lstrip, rstrip, any_char, all_chars, partition, rpartition,
  span_until, remove_chars,
}
use cimd_proxy.Prelude.Int.{ℤ, pos, negsuc, parse_int}
use cimd_proxy.Errors.{Result, ok, err, value_error, ◌>>=◌, ◌>>◌}
use Address.{is_ipv6_host}

pub record SplitResult : Type 0 where
  pub scheme : String
  pub netloc : String
  pub path : String
  pub query : String
  pub fragment : String

is_alpha : Char → Bool
is_alpha c = is_upper c || is_lower c

is_scheme_char : Char → Bool
unfolding is_alpha
is_scheme_char c = is_alpha c || is_digit c || is_char b'+' c || is_char b'-' c || is_char b'.' c

begins_alpha : String → Bool
unfolding is_alpha
begins_alpha String.[] = false
begins_alpha (String.◌∷◌ c s) = is_alpha c

-- The scheme in front of the first colon, if one stands there, and the rest.
split_scheme : String → String × String
unfolding begins_alpha is_scheme_char partition all_chars lower
split_scheme url =
    let (head, found, rest) = partition (is_char b':') url in
    if found && begins_alpha head && all_chars is_scheme_char head
    then (lower head, rest)
    else ("", url)

after_slashes : String → Option String
after_slashes (String.◌∷◌ c (String.◌∷◌ d s)) =
    if is_char b'/' c && is_char b'/' d then some s else none
after_slashes _ = none

-- `_check_bracketed_netloc`: nothing before the bracket, a port or nothing behind it, and an IPv6
-- address within.
check_bracketed : String → Result (Unit {0})
unfolding rpartition partition
check_bracketed netloc =
    let (_, _, hostinfo) = rpartition (is_char b'@') netloc in
    let (before, opened, bracketed) = partition (is_char b'[') hostinfo in
    let (host, _, port) = partition (is_char b']') bracketed in
    let (host', _, _) = partition (is_char b':') hostinfo in
    if opened
    then (if is_truthy before || (is_truthy port && not (starts_with port ":"))
        then err (value_error "Invalid IPv6 URL")
        else check_host host)
    else check_host host'
  where
    check_host : String → Result (Unit {0})
    check_host h = if is_ipv6_host h then ok tt else err (value_error "invalid bracketed host")

check_netloc : String → Result (Unit {0})
unfolding check_bracketed any_char
check_netloc netloc =
    let opens = any_char (is_char b'[') netloc in
    let closes = any_char (is_char b']') netloc in
    if (opens && not closes) || (closes && not opens)
    then err (value_error "Invalid IPv6 URL")
    else if opens && closes
    then check_bracketed netloc
    else ok tt

-- Path, query and fragment of what stands behind the netloc.
split_tail : String → String → String → SplitResult
unfolding partition
split_tail scheme netloc url =
    let (front, _, fragment) = partition (is_char b'#') url in
    let (path, _, query) = partition (is_char b'?') front in
    record { scheme = scheme; netloc = netloc; path = path; query = query; fragment = fragment }

split_netloc : String → String → Option String → Result SplitResult
unfolding check_netloc split_tail span_until
split_netloc scheme rest none = ok (split_tail scheme "" rest)
split_netloc scheme rest (some authority) =
    let (netloc, url) =
      span_until (λ c. is_char b'/' c || is_char b'?' c || is_char b'#' c) authority in
    check_netloc netloc >> ok (split_tail scheme netloc url)

-- The characters that `urlsplit` strips in front, and those that it removes everywhere.
is_c0_or_space : Char → Bool
is_c0_or_space c = leb (code c) 32

is_unsafe : Char → Bool
is_unsafe c = eqb (code c) 9 || eqb (code c) 10 || eqb (code c) 13

unfoldable pub urlsplit : String → Result SplitResult
unfolding split_netloc split_scheme after_slashes is_c0_or_space is_unsafe lstrip remove_chars
    is_ipv6_host
urlsplit url =
    let clean = remove_chars is_unsafe (lstrip is_c0_or_space url) in
    let (scheme, rest) = split_scheme clean in split_netloc scheme rest (after_slashes rest)

-- The host and the port text of `_hostinfo`.
unfoldable pub hostinfo : String → String × String
unfolding rpartition partition
hostinfo netloc =
    let (_, _, info) = rpartition (is_char b'@') netloc in
    let (_, opened, bracketed) = partition (is_char b'[') info in
    let (host, _, behind) = partition (is_char b']') bracketed in
    let (_, _, port) = partition (is_char b':') behind in
    let (host', _, port') = partition (is_char b':') info in
    if opened then (host, port) else (host', port')

-- `split.hostname`: lower-cased up to a zone; `none` where it is empty.
unfoldable pub hostname : SplitResult → Option String
unfolding hostinfo lower
hostname split = cased (hostinfo split.netloc).0
  where
    cased : String → Option String
    cased String.[] = none
    cased (String.◌∷◌ c s) =
        let (host, found, zone) = partition (is_char b'%') (String.◌∷◌ c s) in
        some (lower host <> (if found then "%" <> zone else ""))

-- `split.port`; a `ValueError` where the text is no number up to 65535.
unfoldable pub port : SplitResult → Result (Option ℕ)
unfolding hostinfo all_chars parse_int
port split = number (hostinfo split.netloc).1
  where
    in_range : Option ℤ → Result (Option ℕ)
    in_range (some (pos n)) =
        if leb n 65535 then ok (some n) else err (value_error "Port out of range 0-65535")
    in_range _ = err (value_error "Port out of range 0-65535")

    number : String → Result (Option ℕ)
    number String.[] = ok none
    number (String.◌∷◌ c s) =
        if all_chars is_digit (String.◌∷◌ c s)
        then in_range (parse_int (String.◌∷◌ c s))
        else err (value_error "Port could not be cast to integer value")

-- The schemes that take a netloc, `urllib.parse.uses_netloc`.
abbrev uses_netloc : List String
uses_netloc =
    "ftp" ∷ "http" ∷ "gopher" ∷ "nntp" ∷ "telnet" ∷ "imap" ∷ "wais" ∷ "file" ∷ "mms" ∷ "https"
    ∷ "shttp" ∷ "snews" ∷ "prospero" ∷ "rtsp" ∷ "rtsps" ∷ "rtspu" ∷ "rsync" ∷ "svn" ∷ "svn+ssh"
    ∷ "sftp" ∷ "nfs" ∷ "git" ∷ "git+ssh" ∷ "ws" ∷ "wss" ∷ "itms-services" ∷ []

-- `urlunsplit(parts._replace(path=""))` of parts with no query and no fragment.
unfoldable pub without_path : SplitResult → String
without_path parts =
    (if is_truthy parts.scheme then parts.scheme <> ":" else "")
    <> (if is_truthy parts.netloc || contains uses_netloc parts.scheme
        then "//" <> parts.netloc
        else "")

split_example :
    urlsplit "HTTPS://u@Host:8443/a/b?q=1#f"
    ≡ ok (record {
      scheme = "https";
      netloc = "u@Host:8443";
      path = "/a/b";
      query = "q=1";
      fragment = "f";
    })
unfolding urlsplit
split_example = refl

bad_brackets :
    (urlsplit "https://[::1/x" ≡ err (value_error "Invalid IPv6 URL"))
    × (urlsplit "https://[zz]/x" ≡ err (value_error "invalid bracketed host"))
unfolding urlsplit
bad_brackets = (refl, refl)

abbrev bare : String → SplitResult
bare netloc = record { scheme = "https"; netloc = netloc; path = ""; query = ""; fragment = "" }

hosts :
    (hostname (bare "[::1]:80") ≡ some "::1")
    × (hostname (bare "LocalHost") ≡ some "localhost")
    × (port (bare "h:99999") ≡ err (value_error "Port out of range 0-65535"))
    × (port (bare "h:8443") ≡ ok (some 8443))
unfolding hostname port
hosts = (refl, refl, refl, refl)
