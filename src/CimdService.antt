-- ===== src/CimdService.antt =====
-- src/cimd_proxy/cimd_service.py. The cache is state: `obtain` takes it and gives it back, beside
-- the document or the exception.
pub mod Fetched
pub mod Sound
use cimd_proxy.Prelude.{ℕ, String, Option, none, some}
use cimd_proxy.Prelude.Int.{pos}
use cimd_proxy.Errors.{Result, ok, err}
use cimd_proxy.Effects.{Prog, ret, ◌>>=◌, attempt, time}
use cimd_proxy.Platform.{Platform}
use cimd_proxy.Cache.{TtlCache, get, put, choose_ttl}
use cimd_proxy.Fetcher.{CimdDocument, FetchResult, CimdFetcher, Zones, fetch}

pub record CimdService : Type 0 where
  pub fetcher : CimdFetcher
  pub ttl_min : ℕ
  pub ttl_max : ℕ

abbrev pub Documents : Type 0
Documents = TtlCache CimdDocument

module _ (P : Platform) (ip_address : String → Option Zones) (s : CimdService) where
  -- The end of `obtain` after a cache miss.
  unfoldable pub remember :
      Documents → String → Result FetchResult → Prog (Result CimdDocument × Documents)
  remember c url (err e) = ret (err e, c)
  remember c url (ok result) = do
    now ← time
    let ttl = choose_ttl result.document.cache_control (pos s.ttl_min) (pos s.ttl_max) none
    ret (ok result.document, put now url result.document ttl c)

  unfoldable pub obtain_cached :
      Documents → String → Option CimdDocument → Prog (Result CimdDocument × Documents)
  obtain_cached c url (some document) = ret (ok document, c)
  obtain_cached c url none = do
    result ← attempt (fetch P s.fetcher ip_address url)
    remember c url result

  unfoldable pub obtain : Documents → String → Prog (Result CimdDocument × Documents)
  obtain c url = do now ← time; let found = get now url c; obtain_cached found.1 url found.0
