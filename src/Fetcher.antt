-- ===== src/Fetcher.antt =====
-- src/cimd_proxy/fetcher.py: `CimdFetcher`. A body arrives in the chunks of `Response.chunks`.
mod ClientId
mod Addresses
mod Schema
mod Body
pub mod Network
pub mod Document
unfoldable pub use ClientId.*
unfoldable pub use Addresses.*
unfoldable pub use Schema.*
unfoldable pub use Body.*
use Prim.Native.String.{len}
use cimd_proxy.Prelude.{
  ℕ, ◌+◌, String, ◌<>◌, Bool, true, false, not, ◌&&◌, ◌||◌, Option, none, some, List, [], ◌∷◌, ◌++◌,
  ◌==◌, if◌then◌else◌, is_truthy, is_char, any_char, partition, contains, ltb, eqb, repr, join,
  is_empty, found_is, all, is_some,
}
use cimd_proxy.Prelude.Dict.{Dict, lookup}
use cimd_proxy.Json.{
  Json, obj, arr, str, Fields, fields, Items, items, all_strings, as_str, str_of, object,
}
use cimd_proxy.Errors
use cimd_proxy.Errors.{
  Result, ok, err, Exception, redirect_uri_refused, fetch_error, ssrf_refused, document_invalid,
  value_error,
}
use cimd_proxy.Effects.{
  Prog, ret, throw, resolve, ◌>>=◌, ◌>>◌, lift, send, Reply, failed, answered, Response, Request,
  no_body,
}
use cimd_proxy.Platform.{Platform}
use cimd_proxy.Url.{SplitResult, urlsplit, hostname, port}
use cimd_proxy.RedirectUri.{has_userinfo, accept_registered}
use cimd_proxy.Digits.{decimal}

pub record FetchResult : Type 0 where
  pub document : CimdDocument
  pub resolved_ip : String

-- A `CimdFetcher`. The two bounds are positive, as its constructor demands.
pub record CimdFetcher : Type 0 where
  pub max_bytes : ℕ
  pub timeout_seconds : ℕ
  pub user_agent : String

module _ (P : Platform) (f : CimdFetcher) where
  -- The request that dials the pinned address.
  unfoldable pub pinned_request : ParsedClientIdUrl → String → Request
  unfolding decimal authority any_char
  pinned_request parsed pinned_ip =
      let host_for_url =
        if any_char (is_char b':') pinned_ip then "[" <> pinned_ip <> "]" else pinned_ip in
      let base =
        parsed.scheme <> "://" <> host_for_url <> ":" <> decimal parsed.port <> parsed.path in
      record {
        method = "GET";
        url = if is_truthy parsed.query then base <> "?" <> parsed.query else base;
        headers =
            ("Host", authority parsed)
            ∷ ("User-Agent", f.user_agent)
            ∷ ("Accept", "application/json")
            ∷ [];
        sni_hostname = some parsed.hostname;
        body = no_body;
      }

  unfoldable pub parse_payload : String → Option Json → Result CimdDocument
  parse_payload url none = err (document_invalid "CIMD document is not valid JSON")
  parse_payload url (some v) = validate_document url v

  abbrev pub with_cache_control : Option String → CimdDocument → CimdDocument
  with_cache_control cache_control d = record d { cache_control = cache_control }

  -- What is made of an answer.
  unfoldable pub read_reply : String → String → Reply → Result FetchResult
  unfolding parse_payload decimal
  read_reply url pinned_ip (failed message) =
      err (fetch_error ("cannot fetch CIMD document: " <> message))
  read_reply url pinned_ip (answered r) =
      if not (eqb r.status_code 200)
      then err
          (fetch_error ("upstream returned HTTP " <> decimal r.status_code <> " for CIMD document"))
      else Errors.◌>>=◌ (read_body f.max_bytes "" r.chunks) λ buf.
        Errors.◌>>=◌ (parse_payload url (P.loads buf)) λ doc.
          ok (record { document = with_cache_control r.cache_control doc; resolved_ip = pinned_ip })

  -- `_fetch_pinned`
  unfoldable pub fetch_pinned : String → ParsedClientIdUrl → String → Prog FetchResult
  unfolding pinned_request
  fetch_pinned url parsed pinned_ip =
      send (pinned_request parsed pinned_ip) (λ reply. lift (read_reply url pinned_ip reply))

  -- `ips[0]`
  unfoldable pub first_ip : List String → Result String
  first_ip [] = err (value_error "list index out of range")
  first_ip (ip ∷ ips) = ok ip

  module _ (ip_address : String → Option Zones) where
    unfoldable pub fetch : String → Prog FetchResult
    fetch url = do
      parsed ← lift (parse_client_id_url url)
      ips ← resolve_and_check_ips ip_address parsed.hostname
      pinned_ip ← lift (first_ip ips)
      fetch_pinned url parsed pinned_ip
