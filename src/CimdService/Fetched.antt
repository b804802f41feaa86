-- ===== src/CimdService/Fetched.antt =====
-- What a fetch returns and the one request that it makes: src/cimd_proxy/fetcher.py.
use cimd_proxy.Prelude.{
  String, ◌≡◌, refl, sym, ap, ◌∙◌, ◌⊎◌, inl, inr, Option, none, some, List, [], ◌∷◌, arith,
  Bool-cases, Option-cases, ℕ, false, ◌<>◌, ◌==◌, ◌||◌, not, In, eq_iff, any_char, is_char,
  is_truthy, partition, if◌then◌else◌,
}
use cimd_proxy.Json.{Json}
use cimd_proxy.Errors.{ok, >>=-eq-ok, ok-injective, Result-cases}
use cimd_proxy.Prelude.{eqb}
use cimd_proxy.Effects.Laws.{sent-ok, sent-err, sent-lift}
use cimd_proxy.Effects.{World, run, sent, Request, Reply, answered, failed, no_body}
use cimd_proxy.Effects.Laws.{run-lift, lift_bind-eq-ok}
use cimd_proxy.Platform.{Platform}
use cimd_proxy.Fetcher.{
  parse_payload, CimdDocument, CimdFetcher, FetchResult, Zones, fetch, fetch_pinned, read_reply,
  read_body, parse_client_id_url, resolve_and_check_ips, check_infos, first_ip, pinned_request,
  ParsedClientIdUrl, authority, or_443, parse_split, without_scope,
}
use cimd_proxy.Url.{SplitResult, urlsplit, hostname, port}
use cimd_proxy.RedirectUri.{has_userinfo}
use cimd_proxy.Digits.{decimal}
use mathlib.Core.Path.{subst}
use cimd_proxy.Fetcher.Document.{IsValid, validate_document_sound}
use cimd_proxy.Fetcher.Network.{IsSafe, check_infos-IsSafe, check_infos-none, check_infos_origin}

IsValid-with_cache_control :
    (url : String) (d : CimdDocument) (c : Option String)
    → IsValid url d
    → IsValid url (record d { cache_control = c })
IsValid-with_cache_control url d c v = record {
  identity = v.identity;
  no_secret = v.no_secret;
  no_secret_expiry = v.no_secret_expiry;
  method = v.method;
  some_uri = v.some_uri;
  accepted = v.accepted;
}

-- What a URL that is a client identifier consists of.
pub record IsParsed (url : String) (parsed : ParsedClientIdUrl) : Type 0 where
  pub split : SplitResult
  pub splits : urlsplit url ≡ ok split
  pub https : (split.scheme ≡ "https") × (parsed.scheme ≡ "https")
  pub no_fragment : is_truthy split.fragment ≡ false
  pub no_userinfo : any_char (is_char b'@') split.netloc ≡ false
  pub host : hostname split ≡ some parsed.hostname
  pub numbered :
      (port split ≡ ok (some parsed.port)) ⊎ ((port split ≡ ok none) × (parsed.port ≡ 443))
  pub path : parsed.path ≡ split.path
  pub query : parsed.query ≡ split.query

or_443_sound : (o : Option ℕ) → (o ≡ some (or_443 o)) ⊎ ((o ≡ none) × (or_443 o ≡ 443))
or_443_sound none = inr (refl, refl)
or_443_sound (some n) = inl refl

parse_split_sound :
    (url : String) (split : SplitResult) (parsed : ParsedClientIdUrl)
    → urlsplit url ≡ ok split
    → parse_split split ≡ ok parsed
    → IsParsed url parsed
unfolding parse_split
parse_split_sound url split parsed splits h = elim (Bool-cases (split.scheme == "https")) [
  | inr other ↦ absurd (cc (rw other at h))
  | inl https ↦ elim (Bool-cases (is_truthy split.fragment)) [
    | inl with_fragment ↦ absurd (cc (rw (https, with_fragment) at h))
    | inr bare ↦ elim (Bool-cases (has_userinfo split)) [
      | inl with_user ↦ absurd (cc (rw (https, bare, with_user) at h))
      | inr plain ↦ elim (Option-cases (hostname split)) [
        | inl nowhere ↦ absurd (cc (rw (https, bare, plain, nowhere) at h))
        | inr (g, there) ↦ elim (Bool-cases (not (is_truthy split.path) || split.path == "/")) [
          | inl rootless ↦ absurd (cc (rw (https, bare, plain, there, rootless) at h))
          | inr deep ↦
              let (p, e, h1) =
                >>=-eq-ok (port split) _ (rw (https, bare, plain, there, deep) at h) in
              let same = (eq_iff split.scheme "https").0 https in
              subst (IsParsed url) (ok-injective h1) (record {
                split = split;
                splits = splits;
                https = (same, same);
                no_fragment = bare;
                no_userinfo = plain;
                host = there;
                numbered = elim (or_443_sound p) [
                  | inl given ↦ inl (e ∙ ap ok given)
                  | inr (absent', is) ↦ inr (e ∙ ap ok absent', is)
                ];
                path = refl;
                query = refl;
              })
        ]
      ]
    ]
  ]
]

parse_client_id_url_sound :
    (url : String) (parsed : ParsedClientIdUrl)
    → parse_client_id_url url ≡ ok parsed
    → IsParsed url parsed
unfolding parse_client_id_url
parse_client_id_url_sound url parsed h = elim (Bool-cases (is_truthy url)) [
  | inr empty ↦ absurd (cc (rw empty at h))
  | inl given ↦
      let (split, e, h1) = >>=-eq-ok (urlsplit url) _ (rw given at h) in
      parse_split_sound url split parsed e h1
]

module _ (P : Platform) (f : CimdFetcher) where
  parse_payload_sound :
      (url : String) (v : Option Json) (d : CimdDocument)
      → parse_payload P f url v ≡ ok d
      → IsValid url d
  unfolding parse_payload
  parse_payload_sound url none d h = absurd (cc h)
  parse_payload_sound url (some v) d h = validate_document_sound url v d h

  read_reply_sound :
      (url ip : String) (reply : Reply) (r : FetchResult)
      → read_reply P f url ip reply ≡ ok r
      → IsValid url r.document
  unfolding read_reply
  read_reply_sound url ip (failed m) r h = absurd (cc h)
  read_reply_sound url ip (answered a) r h = elim (Bool-cases (eqb a.status_code 200)) [
    | inr other ↦ absurd (ground (arith, (rw other at h)))
    | inl fine ↦
        let (buf, _, h1) = >>=-eq-ok (read_body f.max_bytes "" a.chunks) _ (rw fine at h) in
        let (doc, parsed, h2) = >>=-eq-ok (parse_payload P f url (P.loads buf)) _ h1 in
        rw (← (ok-injective h2)) (
          IsValid-with_cache_control url doc a.cache_control (parse_payload_sound url _ doc parsed))
  ]

  module _ (ip_address : String → Option Zones) (w : World) where
    -- What a fetch has gone through when it returns.
    record Fetch (url : String) (r : FetchResult) : Type 0 where
      parsed : ParsedClientIdUrl
      ips : List String
      ip : String
      parses : parse_client_id_url url ≡ ok parsed
      resolves : check_infos ip_address parsed.hostname (w.names parsed.hostname) ≡ ok ips
      first : first_ip P f ips ≡ ok ip
      reads : read_reply P f url ip (w.upstream (pinned_request P f parsed ip)) ≡ ok r

    fetch_steps :
        (url : String) (r : FetchResult) → run w (fetch P f ip_address url) ≡ ok r → Fetch url r
    unfolding fetch resolve_and_check_ips fetch_pinned
    fetch_steps url r h =
        let (parsed, parses, h1) = lift_bind-eq-ok w (parse_client_id_url url) _ h in
        let (ips, resolves, h2) =
          lift_bind-eq-ok w (check_infos ip_address parsed.hostname (w.names parsed.hostname)) _
            h1 in
        let (ip, first, h3) = lift_bind-eq-ok w (first_ip P f ips) _ h2 in
        record {
          parsed = parsed;
          ips = ips;
          ip = ip;
          parses = parses;
          resolves = resolves;
          first = first;
          reads =
              sym (run-lift w (read_reply P f url ip (w.upstream (pinned_request P f parsed ip))))
              ∙ h3;
        }

    pub fetch_sound :
        (url : String) (r : FetchResult)
        → run w (fetch P f ip_address url) ≡ ok r
        → IsValid url r.document
    fetch_sound url r h = let s = fetch_steps url r h in read_reply_sound url s.ip _ r s.reads

    -- The request of a fetch: a GET of the URL's path and query at an address of the URL's host, in the
    -- name of that host.
    pub record Dialled (url : String) (q : Request) : Type 0 where
      pub parsed : ParsedClientIdUrl
      pub ip : String
      pub raw : String
      pub names : List String
      pub parses : IsParsed url parsed
      pub resolved : w.names parsed.hostname ≡ some names
      pub one_of : In raw names
      pub scopeless : ip ≡ (partition (is_char b'%') raw).0
      pub safe : IsSafe ip_address ip
      pub request : q ≡ (
          let host = if any_char (is_char b':') ip then "[" <> ip <> "]" else ip in
          let base = parsed.scheme <> "://" <> host <> ":" <> decimal parsed.port <> parsed.path in
          record {
            method = "GET";
            url = if is_truthy parsed.query then base <> "?" <> parsed.query else base;
            headers =
                (
                  "Host",
                  if eqb parsed.port (if parsed.scheme == "https" then 443 else 80)
                      then parsed.hostname
                      else parsed.hostname <> ":" <> decimal parsed.port,
                )
                ∷ ("User-Agent", f.user_agent)
                ∷ ("Accept", "application/json")
                ∷ [];
            sni_hostname = some parsed.hostname;
            body = no_body;
          })

    -- The address at the head of the result.
    record Address (host ip : String) : Type 0 where
      raw : String
      names : List String
      resolved : w.names host ≡ some names
      one_of : In raw names
      is : ip ≡ without_scope raw
      safe : IsSafe ip_address ip

    first_ip_sound :
        (host : String) (infos : Option (List String)) (ips : List String) (ip : String)
        → w.names host ≡ infos
        → check_infos ip_address host infos ≡ ok ips
        → first_ip P f ips ≡ ok ip
        → Address host ip
    unfolding first_ip
    first_ip_sound host infos [] ip named h e = absurd (cc e)
    first_ip_sound host none (x ∷ xs) ip named h e =
        absurd (check_infos-none ip_address host (x ∷ xs) h)
    first_ip_sound host (some infos) (x ∷ xs) ip named h e =
        let (raw, one_of, is) = check_infos_origin ip_address host infos (x ∷ xs) h x (inl refl) in
        rw (← (ok-injective e)) (record {
          raw = raw;
          names = infos;
          resolved = named;
          one_of = one_of;
          is = is;
          safe = (check_infos-IsSafe ip_address host infos (x ∷ xs) h).0.0;
        })

    -- A fetch makes no request, or one: for an https URL without fragment and userinfo, a GET of its
    -- path and query that dials an address which the URL's host resolved to and which lies outside
    -- every forbidden zone, with the host as the Host header and as the name of the TLS handshake.
    pub fetch-sent :
        (url : String)
        → (sent w (fetch P f ip_address url) ≡ [])
          ⊎ ((q : Request) × (sent w (fetch P f ip_address url) ≡ q ∷ []) × Dialled url q)
    unfolding fetch resolve_and_check_ips fetch_pinned pinned_request authority without_scope
    fetch-sent url = elim (Result-cases (parse_client_id_url url)) [
      | inr (x, e) ↦ inl (sent-err w _ _ e)
      | inl (parsed, e) ↦
          elim (Result-cases (check_infos ip_address parsed.hostname (w.names parsed.hostname))) [
            | inr (x, e1) ↦ inl (sent-ok w _ _ e ∙ sent-err w _ _ e1)
            | inl (ips, e1) ↦ elim (Result-cases (first_ip P f ips)) [
              | inr (x, e2) ↦ inl (sent-ok w _ _ e ∙ sent-ok w _ _ e1 ∙ sent-err w _ _ e2)
              | inl (ip, e2) ↦
                  let a = first_ip_sound parsed.hostname _ ips ip refl e1 e2 in
                  inr (
                    pinned_request P f parsed ip,
                    sent-ok w _ _ e
                        ∙ sent-ok w _ _ e1
                        ∙ sent-ok w _ _ e2
                        ∙ ap (λ t. pinned_request P f parsed ip ∷ t) (sent-lift w _),
                    record {
                      parsed = parsed;
                      ip = ip;
                      raw = a.raw;
                      names = a.names;
                      parses = parse_client_id_url_sound url parsed e;
                      resolved = a.resolved;
                      one_of = a.one_of;
                      scopeless = a.is;
                      safe = a.safe;
                      request = refl;
                    },
                  )
            ]
          ]
    ]
