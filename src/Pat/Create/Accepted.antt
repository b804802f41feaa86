-- ===== src/Pat/Create/Accepted.antt =====
-- What a request for a personal access token has proved: `parse_create` of src/cimd_proxy/pat.py.
use Prim.Native.String.{count}
use mathlib.Core.Path.{subst}
use cimd_proxy.Prelude.{
  ℕ, ◌≤◌, String, ◌≡◌, refl, ap, ◌∙◌, inl, inr, Bool, true, false, not, ◌&&◌, Option, none, some,
  List, [], ◌∷◌, arith, In, All, Bool-cases, leb, ltb, is_empty, keep, contains, contains_iff,
  strip, ◌<>◌, repr_list,
}
use cimd_proxy.Prelude.Dict.{Dict, lookup}
use cimd_proxy.Prelude.Int.{pos, negsuc}
use cimd_proxy.Json.{Json, str, int, arr, null, bool, nil}
use cimd_proxy.Errors.{ok, >>=-eq-ok, ok-injective}
use cimd_proxy.Config.{ProxyConfig, PatConfig, ResourceEntry, resource_by_url, accepts_pat}
use cimd_proxy.Config.Lookup.{resource_by_url_sound}
use cimd_proxy.Pat.Create.{
  CreateRequest, reject_if, read_object, read_name, string_list, get_or, read_bool, read_days,
  lifetime, read_organization, accepted_url, configured_urls, parse_object, parse_create,
}

reject_if_sound : (b : Bool) (e d : String) → reject_if b e d ≡ ok tt → b ≡ false
reject_if_sound true e d h = absurd (cc h)
reject_if_sound false e d h = refl

read_name_sound :
    (v : Option Json) (name : String)
    → read_name v ≡ ok name
    → (1 ≤ count name) × (count name ≤ 100)
unfolding read_name
read_name_sound none name h = absurd (cc h)
read_name_sound (some (str s)) name h =
    elim (Bool-cases (leb 1 (count (strip s)) && leb (count (strip s)) 100)) [
      | inr bad ↦ absurd (ground (arith, (rw bad at h)))
      | inl good ↦ rw (← (ok-injective (rw good at h))) (ground arith, ground arith)
    ]
read_name_sound (some v) name h = absurd (cc h)

-- A URL of the table whose entry accepts personal access tokens.
pub Accepts : ProxyConfig → String → Type 0
Accepts config url =
    (e : ResourceEntry) × In e config.resources × (e.url ≡ url) × (accepts_pat e ≡ true)

accepted_url_sound :
    (url : String) (found : Option ResourceEntry) (kept : String)
    → accepted_url url found ≡ ok kept
    → (e : ResourceEntry) × (found ≡ some e) × (e.url ≡ kept) × (accepts_pat e ≡ true)
unfolding accepted_url
accepted_url_sound url none kept h = absurd (cc h)
accepted_url_sound url (some e) kept h = elim (Bool-cases (accepts_pat e)) [
  | inr closed ↦ absurd (ground (arith, (rw closed at h)))
  | inl fine ↦ (e, refl, ok-injective (rw fine at h), fine)
]

configured_urls_sound :
    (config : ProxyConfig) (named urls : List String)
    → configured_urls config named ≡ ok urls
    → All (Accepts config) urls × (is_empty urls ≡ is_empty named)
unfolding configured_urls Accepts
configured_urls_sound config [] urls h = rw (← (ok-injective h)) (tt, refl)
configured_urls_sound config (n ∷ named) urls h =
    let (found, there, h1) = >>=-eq-ok (resource_by_url config n) _ h in
    let (kept, accepted, h2) = >>=-eq-ok (accepted_url n found) _ h1 in
    let (rest, others, h3) = >>=-eq-ok (configured_urls config named) _ h2 in
    let (e, is, url, opened) = accepted_url_sound n found kept accepted in
    rw (← (ok-injective h3)) (
      (
        (e, (resource_by_url_sound config n e (there ∙ ap ok is)).0, url, opened),
        (configured_urls_sound config named rest others).0,
      ),
      refl,
    )

pub offered_sound :
    (offered scopes : List String)
    → is_empty (keep (λ s. not (contains offered s)) scopes) ≡ true
    → All (λ s. In s offered) scopes
offered_sound offered [] h = tt
offered_sound offered (s ∷ ss) h = elim (Bool-cases (contains offered s)) [
  | inl known ↦ ((contains_iff offered s).0 known, offered_sound offered ss (rw known at h))
  | inr other ↦ absurd (ground (arith, (rw other at h)))
]

read_days_sound : (v : Json) (n : ℕ) → read_days v ≡ ok n → 1 ≤ n
unfolding read_days
read_days_sound (int (pos k)) n h = elim (Bool-cases (leb 1 k)) [
  | inl fine ↦ rw (← (ok-injective (rw fine at h))) (ground arith)
  | inr short ↦ absurd (ground (arith, (rw short at h)))
]
read_days_sound (int (negsuc k)) n h = absurd (cc h)
read_days_sound null n h = absurd (cc h)
read_days_sound v n h = absurd (cc h)

lifetime_sound :
    (body : Dict Json) (life : ℕ × Bool)
    → lifetime body ≡ ok life
    → (1 ≤ life.0) × ((ltb 365 life.0 && not life.1) ≡ false)
unfolding lifetime
lifetime_sound body life h =
    let (days, e, h1) =
      >>=-eq-ok (read_days (get_or (int (pos 90)) (lookup "expires_in_days" body))) _ h in
    let (long_ok, _, h2) =
      >>=-eq-ok
        (read_bool "allow_long_lifetime must be a boolean"
          (get_or (bool false) (lookup "allow_long_lifetime" body)))
        _ h1 in
    let (_, short, h3) =
      >>=-eq-ok
        (reject_if (ltb 365 days && not long_ok) "invalid_request"
          "a lifetime above 365 days needs allow_long_lifetime: true")
        _ h2 in
    rw (← (ok-injective h3)) (
      read_days_sound (get_or (int (pos 90)) (lookup "expires_in_days" body)) days e,
      reject_if_sound (ltb 365 days && not long_ok) _ _ short,
    )

module _ (config : ProxyConfig) (pat : PatConfig) where
  pub record IsAllowed (r : CreateRequest) : Type 0 where
    pub named : (1 ≤ count r.name) × (count r.name ≤ 100)
    pub some_resource : is_empty r.resources ≡ false
    pub accepting : All (Accepts config) r.resources
    pub offered : All (λ s. In s pat.scopes) r.scopes
    pub exclusive : (r.all_permitted_scopes && not (is_empty r.scopes)) ≡ false
    pub lasting : 1 ≤ r.lifetime_days
    pub long_allowed : (ltb 365 r.lifetime_days && not r.allow_long_lifetime) ≡ false

  not-false : (b : Bool) → not b ≡ false → b ≡ true
  not-false true h = refl
  not-false false h = absurd (cc h)

  parse_object_sound :
      (body : Dict Json) (r : CreateRequest) → parse_object config pat body ≡ ok r → IsAllowed r
  unfolding parse_object
  parse_object_sound body r h =
      let (name, e0, h0) = >>=-eq-ok (read_name (lookup "name" body)) _ h in
      let (named, _, h1) =
        >>=-eq-ok (string_list (get_or null (lookup "resources" body)) "resources") _ h0 in
      let (_, full, h2) =
        >>=-eq-ok (reject_if (is_empty named) "invalid_request" "resources must name at least one")
          _ h1 in
      let (urls, e3, h3) = >>=-eq-ok (configured_urls config named) _ h2 in
      let (scopes, _, h4) =
        >>=-eq-ok (string_list (get_or (arr nil) (lookup "scopes" body)) "scopes") _ h3 in
      let outside = keep (λ s. not (contains pat.scopes s)) scopes in
      let (_, inside, h5) =
        >>=-eq-ok
          (reject_if (not (is_empty outside)) "invalid_scope"
            ("scopes not offered for personal tokens: " <> repr_list outside))
          _ h4 in
      let (all_permitted, _, h6) =
        >>=-eq-ok
          (read_bool "all_permitted_scopes must be a boolean"
            (get_or (bool false) (lookup "all_permitted_scopes" body)))
          _ h5 in
      let (_, one_way, h7) =
        >>=-eq-ok
          (reject_if (all_permitted && not (is_empty scopes)) "invalid_request"
            "name scopes or ask for all_permitted_scopes, not both")
          _ h6 in
      let (life, e8, h8) = >>=-eq-ok (lifetime body) _ h7 in
      let (organization, _, h9) = >>=-eq-ok (read_organization (lookup "organization" body)) _ h8 in
      let (accepting, kept) = configured_urls_sound config named urls e3 in
      let (lasting, long_allowed) = lifetime_sound body life e8 in
      subst IsAllowed (ok-injective h9) (record {
        named = read_name_sound (lookup "name" body) name e0;
        some_resource = kept ∙ reject_if_sound (is_empty named) _ _ full;
        accepting = accepting;
        offered =
            offered_sound pat.scopes scopes
              (not-false (is_empty outside) (reject_if_sound (not (is_empty outside)) _ _ inside));
        exclusive = reject_if_sound (all_permitted && not (is_empty scopes)) _ _ one_way;
        lasting = lasting;
        long_allowed = long_allowed;
      })

  -- A request for a token that `parse_create` accepts has a name of 1 to 100 characters, at least
  -- one resource, each of them the URL of a configured one that accepts personal access tokens,
  -- scopes that are all offered, not both scopes and the wish for all of them, and a lifetime of at
  -- least a day, which exceeds a year only where that is allowed in so many words.
  pub parse_create-IsAllowed :
      (body : Json) (r : CreateRequest) → parse_create config pat body ≡ ok r → IsAllowed r
  unfolding parse_create
  parse_create-IsAllowed body r h =
      let (fs, _, h') = >>=-eq-ok (read_object body) _ h in parse_object_sound fs r h'
