-- ===== src/CimdService/Sound.antt =====
-- What the cache of documents holds, and when the network is used: src/cimd_proxy/cimd_service.py.
use mathlib.Core.Option.{some-injective}
use cimd_proxy.CimdService.Fetched.{fetch_sound}
use cimd_proxy.Prelude.{
  ◌<◌, ◌&&◌, &&-eq-true, ℕ, String, ◌≡◌, refl, sym, ap, ◌∙◌, inl, inr, Option, none, some, [], ◌==◌,
  eq_iff, Bool-cases,
}
use cimd_proxy.Prelude.Dict.{lookup}
use cimd_proxy.Prelude.Int.{ℤ}
use cimd_proxy.Errors.{Exception, Result, ok, err, ok-injective}
use cimd_proxy.Effects.{World, run, sent, attempt}
use cimd_proxy.Effects.Laws.{run-bind, run-attempt, bind-eq-ok}
use cimd_proxy.Platform.{Platform}
use cimd_proxy.Cache.{Entry, get, put}
use cimd_proxy.Cache.Entries.{get-live, lookup-get, lookup-put, is_positive, expiry}
use cimd_proxy.Fetcher.{CimdDocument, FetchResult, Zones, fetch}
use cimd_proxy.Fetcher.Document.{IsValid}
use cimd_proxy.CimdService.{CimdService, Documents, obtain, obtain_cached, remember}

-- Every document in the cache is a valid one for the URL under which it is kept.
pub record IsSound (c : Documents) : Type 0 where
  pub holds : (key : String) (e : Entry CimdDocument) → lookup key c ≡ some e → IsValid key e.value

pub get-IsSound : (now : ℕ) (url : String) (c : Documents) → IsSound c → IsSound (get now url c).1
get-IsSound now url c s = record {
  holds = λ key e found. elim (lookup-get now url key c) [
    | inl same ↦ s.holds key e (sym same ∙ found)
    | inr (_, _, _, gone) ↦ absurd (cc (gone, found))
  ];
}

pub put-IsSound :
    (now : ℕ) (url : String) (d : CimdDocument) (ttl : ℤ) (c : Documents)
    → IsSound c
    → IsValid url d
    → IsSound (put now url d ttl c)
put-IsSound now url d ttl c s v = record {
  holds = λ key e found. elim (Bool-cases (is_positive ttl && url == key)) [
    | inr other ↦ s.holds key e (sym (lookup-put now url key d ttl c ∙ rw other) ∙ found)
    | inl stored ↦
        let same : record { value = d; expires_at = expiry now ttl } ≡ e =
          some-injective _ _ (sym (lookup-put now url key d ttl c ∙ rw stored) ∙ found) in
        let url_key : url ≡ key =
          (eq_iff url key).0 (&&-eq-true (is_positive ttl) (url == key) stored).1 in
        rw (← same, ← url_key) v
  ];
}

-- Where a document comes from: the cache holds it, or a fetch has brought it.
pub data HasBrought (P : Platform) (ip_address : String → Option Zones) (s : CimdService)
    (w : World) (c : Documents) (url : String) (d : CimdDocument) : Type 0 where
  from_cache :
      (e : Entry CimdDocument)
      → lookup url c ≡ some e
      → e.value ≡ d
      → w.now < e.expires_at
      → HasBrought P ip_address s w c url d
  from_network :
      (r : FetchResult)
      → run w (fetch P s.fetcher ip_address url) ≡ ok r
      → r.document ≡ d
      → HasBrought P ip_address s w c url d

-- What `obtain` gives back: a sound cache, and a valid document if there is one.
pub record IsGood (url : String) (p : Result CimdDocument × Documents) : Type 0 where
  pub sound : IsSound p.1
  pub valid : (d : CimdDocument) → p.0 ≡ ok d → IsValid url d

refused_IsGood : (url : String) (e : Exception) (c : Documents) → IsSound c → IsGood url (err e, c)
refused_IsGood url e c s = record { sound = s; valid = λ d h. absurd (cc h) }

found_IsGood :
    (url : String) (d : CimdDocument) (c : Documents)
    → IsSound c
    → IsValid url d
    → IsGood url (ok d, c)
found_IsGood url d c s v = record { sound = s; valid = λ d' h. rw (← (ok-injective h)) v }

module _ (P : Platform) (ip_address : String → Option Zones) (s : CimdService) (w : World) where
  remember_sound :
      (c : Documents) (url : String) (r : Result FetchResult) (p : Result CimdDocument × Documents)
      → IsSound c
      → ((x : FetchResult) → r ≡ ok x → IsValid url x.document)
      → run w (remember P ip_address s c url r) ≡ ok p
      → IsGood url p
  unfolding remember
  remember_sound c url (err e) p sound valid h =
      rw (← (ok-injective h)) (refused_IsGood url e c sound)
  remember_sound c url (ok x) p sound valid h = rw (← (ok-injective h)) (
      found_IsGood url x.document _ (put-IsSound w.now url x.document _ c sound (valid x refl))
        (valid x refl))

  obtain_cached_sound :
      (c : Documents) (url : String) (found : Option CimdDocument)
      (p : Result CimdDocument × Documents)
      → IsSound c
      → ((d : CimdDocument) → found ≡ some d → IsValid url d)
      → run w (obtain_cached P ip_address s c url found) ≡ ok p
      → IsGood url p
  unfolding obtain_cached
  obtain_cached_sound c url (some d) p sound valid h =
      rw (← (ok-injective h)) (found_IsGood url d c sound (valid d refl))
  obtain_cached_sound c url none p sound valid h =
      let (r, fetched, h') = bind-eq-ok w (attempt (fetch P s.fetcher ip_address url)) _ h in
      let same : run w (fetch P s.fetcher ip_address url) ≡ r =
        ok-injective (sym (run-attempt w (fetch P s.fetcher ip_address url)) ∙ fetched) in
      remember_sound c url r p sound (λ x e. fetch_sound P s.fetcher ip_address w url x (same ∙ e))
        h'

  -- From a sound cache, `obtain` leaves a sound cache, and the document that it returns, whether it
  -- comes from the cache or from the network, is valid for the URL asked for.
  pub obtain_sound :
      (c : Documents) (url : String) (p : Result CimdDocument × Documents)
      → IsSound c
      → run w (obtain P ip_address s c url) ≡ ok p
      → IsGood url p
  unfolding obtain
  obtain_sound c url p sound h =
      obtain_cached_sound (get w.now url c).1 url (get w.now url c).0 p
        (get-IsSound w.now url c sound)
        (λ d found.
          let (e, there, value, _, _) = get-live w.now url c d found in
          rw value at (sound.holds url e there))
        h

  remember_origin :
      (c c0 : Documents) (url : String) (r : Result FetchResult)
      (p : Result CimdDocument × Documents) (d : CimdDocument)
      → run w (fetch P s.fetcher ip_address url) ≡ r
      → run w (remember P ip_address s c url r) ≡ ok p
      → p.0 ≡ ok d
      → HasBrought P ip_address s w c0 url d
  unfolding remember
  remember_origin c c0 url (err e) p d got h is =
      absurd (cc (ap (λ (x : Result CimdDocument × Documents). x.0) (ok-injective h), is))
  remember_origin c c0 url (ok x) p d got h is =
      from_network x got
        (ok-injective (ap (λ (y : Result CimdDocument × Documents). y.0) (ok-injective h) ∙ is))

  obtain_cached_origin :
      (c c0 : Documents) (url : String) (found : Option CimdDocument)
      (p : Result CimdDocument × Documents) (d : CimdDocument)
      → ((x : CimdDocument) → found ≡ some x → HasBrought P ip_address s w c0 url x)
      → run w (obtain_cached P ip_address s c url found) ≡ ok p
      → p.0 ≡ ok d
      → HasBrought P ip_address s w c0 url d
  unfolding obtain_cached
  obtain_cached_origin c c0 url (some x) p d there h is = there d (
      ap some
        (ok-injective (ap (λ (y : Result CimdDocument × Documents). y.0) (ok-injective h) ∙ is)))
  obtain_cached_origin c c0 url none p d there h is =
      let (r, got, h') = bind-eq-ok w (attempt (fetch P s.fetcher ip_address url)) _ h in
      remember_origin c c0 url r p d
        (ok-injective (sym (run-attempt w (fetch P s.fetcher ip_address url)) ∙ got)) h' is

  -- The document that `obtain` returns is that of a live entry of the cache or of a fetch.
  pub obtain_origin :
      (c : Documents) (url : String) (p : Result CimdDocument × Documents) (d : CimdDocument)
      → run w (obtain P ip_address s c url) ≡ ok p
      → p.0 ≡ ok d
      → HasBrought P ip_address s w c url d
  unfolding obtain
  obtain_origin c url p d h is =
      obtain_cached_origin (get w.now url c).1 c url (get w.now url c).0 p d
        (λ x found.
          let (e, there, value, live, _) = get-live w.now url c x found in
          from_cache e there value live)
        h is

  -- On a cache hit the network is not touched, and the cache stays.
  pub obtain_hit :
      (c : Documents) (url : String) (d : CimdDocument)
      → (get w.now url c).0 ≡ some d
      → (sent w (obtain P ip_address s c url) ≡ [])
        × (run w (obtain P ip_address s c url) ≡ ok (ok d, c))
  unfolding obtain obtain_cached
  obtain_hit c url d found =
      let (_, _, _, _, same) = get-live w.now url c d found in
      (
        ap (λ o. sent w (obtain_cached P ip_address s (get w.now url c).1 url o)) found,
        ap (λ o. run w (obtain_cached P ip_address s (get w.now url c).1 url o)) found ∙ rw same,
      )

  -- A refused fetch stores nothing.
  pub obtain_failed :
      (c : Documents) (url : String) (e : Exception)
      → (get w.now url c).0 ≡ none
      → run w (fetch P s.fetcher ip_address url) ≡ err e
      → run w (obtain P ip_address s c url) ≡ ok (err e, (get w.now url c).1)
  unfolding obtain obtain_cached remember
  obtain_failed c url e missed failed' =
      ap (λ o. run w (obtain_cached P ip_address s (get w.now url c).1 url o)) missed
      ∙ run-bind w (attempt (fetch P s.fetcher ip_address url)) _
      ∙ rw (run-attempt, failed')
