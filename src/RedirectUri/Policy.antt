-- ===== src/RedirectUri/Policy.antt =====
-- What the registration policy and the match at `/authorize` mean: src/cimd_proxy/redirect_uri.py.
use cimd_proxy.Prelude.{
  String, ◌≡◌, refl, sym, ap, ◌∙◌, ◌⊎◌, inl, inr, ◌↔◌, true, false, Option, none, some, arith, ◌==◌,
  eq_iff, eq_refl, is_truthy, is_char, any_char, Bool-cases, Option-cases,
}
use cimd_proxy.Errors.{ok, >>=-eq-ok, ok-injective}
use cimd_proxy.Url.{SplitResult, urlsplit, hostname}
use cimd_proxy.RedirectUri.{
  is_loopback_host, is_loopback_http, has_userinfo, accept_split, accept_registered, match_split,
  same_host, uri_matches_registration,
}

-- The three names of the machine itself.
abbrev pub IsLoopback : String → Type 0
IsLoopback host = (host ≡ "127.0.0.1") ⊎ (host ≡ "::1") ⊎ (host ≡ "localhost")

is_loopback_host-IsLoopback :
    (host : String) → (is_loopback_host (some host) ≡ true) ↔ IsLoopback host
is_loopback_host-IsLoopback host = (
  λ h. ground (arith, eq_iff host "127.0.0.1", eq_iff host "::1", eq_iff host "localhost"),
  λ h. ground (arith, eq_iff host "127.0.0.1", eq_iff host "::1", eq_iff host "localhost"),
)

-- The registration policy, stated apart from the code: no fragment, no userinfo, a host, and `https`
-- or a loopback host under `http`.
pub record IsAllowed (split : SplitResult) : Type 0 where
  pub host : String
  pub no_fragment : is_truthy split.fragment ≡ false
  pub no_userinfo : any_char (is_char b'@') split.netloc ≡ false
  pub has_host : hostname split ≡ some host
  pub scheme : (split.scheme ≡ "https") ⊎ ((split.scheme ≡ "http") × IsLoopback host)

-- Two URIs that differ in the port alone, on one loopback host under `http`.
pub record DifferInPort (r s : SplitResult) : Type 0 where
  pub host : String
  pub loopback : IsLoopback host
  pub schemes : (r.scheme ≡ "http") × (s.scheme ≡ "http")
  pub hosts : (hostname r ≡ some host) × (hostname s ≡ some host)
  pub paths : r.path ≡ s.path
  pub queries : r.query ≡ s.query
  pub no_fragment : (is_truthy r.fragment ≡ false) × (is_truthy s.fragment ≡ false)
  pub no_userinfo :
      (any_char (is_char b'@') r.netloc ≡ false) × (any_char (is_char b'@') s.netloc ≡ false)

accept_split_sound :
    (uri : String) (split : SplitResult) → accept_split uri split ≡ ok tt → IsAllowed split
unfolding accept_split
accept_split_sound uri split h = elim (Option-cases (hostname split)) [
  | inl e ↦ absurd (ground (arith, e))
  | inr (g, e) ↦ record {
    host = g;
    no_fragment = ground arith;
    no_userinfo = ground arith;
    has_host = e;
    scheme = ground (
      arith,
      eq_iff split.scheme "https",
      eq_iff split.scheme "http",
      (is_loopback_host-IsLoopback g).0,
    );
  }
]

accept_split_complete :
    (uri : String) (split : SplitResult) → IsAllowed split → accept_split uri split ≡ ok tt
unfolding accept_split
accept_split_complete uri split a = ground (
  arith,
  a.has_host,
  eq_iff split.scheme "https",
  eq_iff split.scheme "http",
  (is_loopback_host-IsLoopback a.host).1,
)

-- A redirect URI is accepted exactly when it splits and its parts are allowed.
pub accept_registered_iff :
    (uri : String)
    → (accept_registered uri ≡ ok tt)
      ↔ ((split : SplitResult) × (urlsplit uri ≡ ok split) × IsAllowed split)
unfolding accept_registered
accept_registered_iff uri = (
  λ h.
      let (split, e, accepted) = >>=-eq-ok (urlsplit uri) (accept_split uri) h in
      (split, e, accept_split_sound uri split accepted),
  λ (split, e, a). rw e (accept_split_complete uri split a),
)

is_loopback_http_sound :
    (split : SplitResult)
    → is_loopback_http split ≡ true
    → (host : String) × (hostname split ≡ some host)
      × (split.scheme ≡ "http")
      × (is_loopback_host (some host) ≡ true)
unfolding is_loopback_http
is_loopback_http_sound split h = elim (Option-cases (hostname split)) [
  | inl e ↦ absurd (ground (arith, e))
  | inr (g, e) ↦ (g, e, ground (arith, eq_iff split.scheme "http"), ground (arith, e))
]

same_host_sound : (g h : Option String) → same_host g h ≡ true → g ≡ h
unfolding same_host
same_host_sound none none e = refl
same_host_sound none (some h) e = absurd (cc e)
same_host_sound (some g) none e = absurd (cc e)
same_host_sound (some g) (some h) e = ap some ((eq_iff g h).0 e)

same_host_refl : (g : Option String) → same_host g g ≡ true
unfolding same_host
same_host_refl none = refl
same_host_refl (some g) = eq_refl g

-- The tests of a match, one by one.
record Tests (r s : SplitResult) : Type 0 where
  loopback : (is_loopback_http r ≡ true) × (is_loopback_http s ≡ true)
  fragment : (is_truthy r.fragment ≡ false) × (is_truthy s.fragment ≡ false)
  userinfo : (has_userinfo r ≡ false) × (has_userinfo s ≡ false)
  host : same_host (hostname r) (hostname s) ≡ true
  path : (r.path == s.path) ≡ true
  query : (r.query == s.query) ≡ true

match_split-Tests : (r s : SplitResult) → (match_split r s ≡ true) ↔ Tests r s
unfolding match_split
match_split-Tests r s = (λ h. ground arith, λ t. ground arith)

match_split_sound : (r s : SplitResult) → match_split r s ≡ true → DifferInPort r s
match_split_sound r s h =
    let t = (match_split-Tests r s).0 h in
    let (g, e, http_r, loops) = is_loopback_http_sound r t.loopback.0 in
    let (g', e', http_s, _) = is_loopback_http_sound s t.loopback.1 in
    record {
      host = g;
      loopback = (is_loopback_host-IsLoopback g).0 loops;
      schemes = (http_r, http_s);
      hosts = (e, sym (same_host_sound (hostname r) (hostname s) t.host) ∙ e);
      paths = (eq_iff r.path s.path).0 t.path;
      queries = (eq_iff r.query s.query).0 t.query;
      no_fragment = t.fragment;
      no_userinfo = t.userinfo;
    }

is_loopback_http_complete :
    (split : SplitResult) {host : String}
    → hostname split ≡ some host
    → split.scheme ≡ "http"
    → is_loopback_host (some host) ≡ true
    → is_loopback_http split ≡ true
unfolding is_loopback_http
is_loopback_http_complete split e http loops = rw e (ground (arith, eq_iff split.scheme "http"))

match_split_complete : (r s : SplitResult) → DifferInPort r s → match_split r s ≡ true
match_split_complete r s d =
    let loops = (is_loopback_host-IsLoopback d.host).1 d.loopback in
    (match_split-Tests r s).1 (record {
      loopback = (
        is_loopback_http_complete r d.hosts.0 d.schemes.0 loops,
        is_loopback_http_complete s d.hosts.1 d.schemes.1 loops,
      );
      fragment = d.no_fragment;
      userinfo = d.no_userinfo;
      host = rw (d.hosts.0, d.hosts.1) (same_host_refl (some d.host));
      path = (eq_iff r.path s.path).1 d.paths;
      query = (eq_iff r.query s.query).1 d.queries;
    })

DifferInPort-symm : (r s : SplitResult) → DifferInPort r s → DifferInPort s r
DifferInPort-symm r s d = record {
  host = d.host;
  loopback = d.loopback;
  schemes = (d.schemes.1, d.schemes.0);
  hosts = (d.hosts.1, d.hosts.0);
  paths = sym d.paths;
  queries = sym d.queries;
  no_fragment = (d.no_fragment.1, d.no_fragment.0);
  no_userinfo = (d.no_userinfo.1, d.no_userinfo.0);
}

pub uri_matches_iff :
    (requested registered : String)
    → (uri_matches_registration requested registered ≡ ok true) ↔ (
        (requested ≡ registered)
        ⊎ ((r : SplitResult) × (s : SplitResult) × (urlsplit requested ≡ ok r)
            × (urlsplit registered ≡ ok s)
            × DifferInPort r s))
unfolding uri_matches_registration
uri_matches_iff requested registered = elim (Bool-cases (requested == registered)) [
  | inl e ↦ (λ _. inl ((eq_iff requested registered).0 e), λ _. rw e)
  | inr e ↦ (
    λ h.
        let (r, er, h') = >>=-eq-ok (urlsplit requested) _ (rw e at h) in
        let (s, es, m) = >>=-eq-ok (urlsplit registered) _ h' in
        inr (r, s, er, es, match_split_sound r s (ok-injective m)),
    elim [
      | inl same ↦ rw ((eq_iff requested registered).1 same)
      | inr (r, s, er, es, d) ↦ rw (e, er, es) (ap ok (match_split_complete r s d))
    ],
  )
]

DifferInPort-IsAllowed : (r s : SplitResult) → DifferInPort r s → IsAllowed r
DifferInPort-IsAllowed r s d = record {
  host = d.host;
  no_fragment = d.no_fragment.0;
  no_userinfo = d.no_userinfo.0;
  has_host = d.hosts.0;
  scheme = inr (d.schemes.0, d.loopback);
}

-- A requested URI that matches an accepted registration satisfies the registration policy itself:
-- the port exception at `/authorize` opens nothing that the policy refuses.
pub match-accept_registered :
    (requested registered : String)
    → accept_registered registered ≡ ok tt
    → uri_matches_registration requested registered ≡ ok true
    → accept_registered requested ≡ ok tt
match-accept_registered requested registered a m =
    elim ((uri_matches_iff requested registered).0 m) [
      | inl same ↦ rw same a
      | inr (r, s, er, es, d) ↦
          (accept_registered_iff requested).1 (r, er, DifferInPort-IsAllowed r s d)
    ]

-- The order of the two URIs does not matter.
pub uri_matches_symm :
    (a b : String) → uri_matches_registration a b ≡ ok true → uri_matches_registration b a ≡ ok true
uri_matches_symm a b m = elim ((uri_matches_iff a b).0 m) [
  | inl same ↦ (uri_matches_iff b a).1 (inl (sym same))
  | inr (r, s, er, es, d) ↦ (uri_matches_iff b a).1 (inr (s, r, es, er, DifferInPort-symm r s d))
]
