-- ===== src/Fetcher/Addresses.antt =====
-- src/cimd_proxy/fetcher.py: the addresses of a host. The zones of an address, which `ipaddress`
-- reads from IANA's tables, are an argument.
use cimd_proxy.Prelude.{
  String, ◌<>◌, Bool, Option, none, some, List, [], ◌∷◌, ◌++◌, if◌then◌else◌, is_char, partition,
  contains, repr,
}
use cimd_proxy.Errors
use cimd_proxy.Errors.{
  Result, ok, err, Exception, redirect_uri_refused, fetch_error, ssrf_refused, document_invalid,
  value_error,
}
use cimd_proxy.Effects.{Prog, resolve, lift}

-- The six tests of an `ip_address`.
pub record Zones : Type 0 where
  pub is_private : Bool
  pub is_loopback : Bool
  pub is_link_local : Bool
  pub is_reserved : Bool
  pub is_multicast : Bool
  pub is_unspecified : Bool

-- The first attribute that holds.
unfoldable pub forbidden_zone : Zones → Option String
forbidden_zone z =
    if z.is_private
    then some "is_private"
    else if z.is_loopback
    then some "is_loopback"
    else if z.is_link_local
    then some "is_link_local"
    else if z.is_reserved
    then some "is_reserved"
    else if z.is_multicast
    then some "is_multicast"
    else if z.is_unspecified
    then some "is_unspecified"
    else none

-- One address that was not seen before.
unfoldable pub check_zones : String → String → Option Zones → Result (Unit {0})
unfolding forbidden_zone
check_zones host raw none =
    err (value_error (repr raw <> " does not appear to be an IPv4 or IPv6 address"))
check_zones host raw (some z) = zone (forbidden_zone z)
  where
    zone : Option String → Result (Unit {0})
    zone none = ok tt
    zone (some attr) = err (
        ssrf_refused
          ("host " <> repr host <> " resolves to " <> raw <> " (" <> attr <> "); refusing"))

-- `ip_str.split("%", 1)[0]`
unfoldable pub without_scope : String → String
unfolding partition
without_scope ip = (partition (is_char b'%') ip).0

module _ (ip_address : String → Option Zones) where
  -- The loop over the resolved addresses. The list is both `ips` and `seen`.
  unfoldable pub check_all : String → List String → List String → Result (List String)
  check_all host ips [] = ok ips
  check_all host ips (ip ∷ rest) =
      let skip = check_all host ips rest in
      let go_on = check_all host (ips ++ without_scope ip ∷ []) rest in
      if contains ips (without_scope ip)
      then skip
      else Errors.◌>>◌ (check_zones host (without_scope ip) (ip_address (without_scope ip))) go_on

  -- What `getaddrinfo` gave: `none` is a `gaierror`.
  unfoldable pub check_infos : String → Option (List String) → Result (List String)
  unfolding check_all
  check_infos host none = err (ssrf_refused ("cannot resolve host " <> repr host))
  check_infos host (some []) = err (ssrf_refused ("cannot resolve host " <> repr host))
  check_infos host (some (ip ∷ ips)) = check_all host [] (ip ∷ ips)

  unfoldable pub resolve_and_check_ips : String → Prog (List String)
  resolve_and_check_ips host = resolve host (λ infos. lift (check_infos host infos))
