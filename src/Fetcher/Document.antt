-- ===== src/Fetcher/Document.antt =====
-- What an accepted metadata document guarantees: src/cimd_proxy/fetcher.py.
use mathlib.Core.List.{append-nil, append_assoc}
use cimd_proxy.Prelude.{
  String, ◌≡◌, refl, sym, ap, ◌∙◌, ◌⊎◌, inl, inr, Bool, true, false, Option, none, some, List, [],
  ◌∷◌, ◌++◌, arith, All, ◌==◌, eq_iff, Bool-cases, Option-cases, is_empty, is_some, absent,
  is_truthy, keep, all,
}
use cimd_proxy.Prelude.Dict.{Dict, lookup}
use cimd_proxy.Json.{Json, obj, arr, fields, items, all_strings, str_of}
use cimd_proxy.Errors.{Exception, Result, ok, err, >>=-eq-ok, ok-injective}
use cimd_proxy.RedirectUri.{accept_registered}
use cimd_proxy.Fetcher.Schema.{
  CimdDocument, refusal, sort_one, sort_uris, usable_redirect_uris, check_texts, check_uris,
  is_forbidden, validate_object, validate_document,
}

abbrev pub is_ok : Result (Unit {0}) → Bool
is_ok (ok _) = true
is_ok (err _) = false

unfolded_pair :
    (a b c d : List String)
    → ◌≡◌ {A = Result (List String × List String)} (ok (a, b)) (ok (c, d))
    → a ≡ c
unfolded_pair a b c d h = ap (λ (p : List String × List String). p.0) (ok-injective h)

ok_iff : (r : Result (Unit {0})) → is_ok r ≡ true → r ≡ ok tt
ok_iff (ok _) h = refl
ok_iff (err e) h = absurd (cc h)

Unit-cases : (r : Result (Unit {0})) → (r ≡ ok tt) ⊎ ((e : Exception) × (r ≡ err e))
Unit-cases (ok _) = inl refl
Unit-cases (err e) = inr (e, refl)

-- The entries that are kept are those that the policy accepts, in their order.
sort_uris_lem :
    (kept dropped uris : List String) (kept' dropped' : List String)
    → sort_uris kept dropped uris ≡ ok (kept', dropped')
    → kept' ≡ kept ++ keep (λ u. is_ok (accept_registered u)) uris
unfolding sort_uris sort_one
sort_uris_lem kept dropped [] kept' dropped' h =
    rw append-nil (sym (unfolded_pair kept dropped kept' dropped' h))
sort_uris_lem kept dropped (u ∷ us) kept' dropped' h = elim (Unit-cases (accept_registered u)) [
  | inl accepted ↦ rw accepted (
      sort_uris_lem (kept ++ u ∷ []) dropped us kept' dropped' (rw accepted at h)
      ∙ append_assoc kept (u ∷ []) _)
  | inr (x, e) ↦ elim (Option-cases (refusal x)) [
    | inl other ↦ absurd (ground (arith, (rw (e, other) at h)))
    | inr (m, refused) ↦
        rw e (sort_uris_lem kept (dropped ++ m ∷ []) us kept' dropped' (rw (e, refused) at h))
  ]
]

-- Where `_usable_redirect_uris` returns, it returns the entries that the registration policy accepts,
-- in their order, and there is at least one.
pub usable_lem :
    (uris kept : List String)
    → usable_redirect_uris uris ≡ ok kept
    → (kept ≡ keep (λ u. is_ok (accept_registered u)) uris) × (is_empty kept ≡ false)
unfolding usable_redirect_uris
usable_lem uris kept h =
    let ((kept', dropped), sorted, h') = >>=-eq-ok (sort_uris [] [] uris) _ h in
    elim (Bool-cases (is_empty kept')) [
      | inl none_left ↦ absurd (ground (arith, (rw none_left at h')))
      | inr some_left ↦
          let same = ok-injective (rw some_left at h') in
          (sym same ∙ sort_uris_lem [] [] uris kept' dropped sorted, rw (← same) some_left)
    ]

All-keep :
    (uris : List String)
    → All (λ u. accept_registered u ≡ ok tt) (keep (λ u. is_ok (accept_registered u)) uris)
All-keep [] = tt
All-keep (u ∷ us) = elim (Bool-cases (is_ok (accept_registered u))) [
  | inl yes' ↦ rw yes' (ok_iff (accept_registered u) yes', All-keep us)
  | inr no' ↦ rw no' (All-keep us)
]

-- A document that meets the rules: its identity is the URL, it carries no secret, and it lists at
-- least one redirect URI, each of which the policy accepts.
pub record IsValid (url : String) (d : CimdDocument) : Type 0 where
  pub identity : d.client_id ≡ url
  pub no_secret : lookup "client_secret" d.raw ≡ none
  pub no_secret_expiry : lookup "client_secret_expires_at" d.raw ≡ none
  pub method : is_forbidden (str_of (lookup "token_endpoint_auth_method" d.raw)) ≡ false
  pub some_uri : is_empty d.redirect_uris ≡ false
  pub accepted : All (λ u. accept_registered u ≡ ok tt) d.redirect_uris

check_texts_sound :
    (found : Option (List String)) (uris : List String)
    → check_texts found ≡ ok uris
    → (is_empty uris ≡ false) × All (λ u. accept_registered u ≡ ok tt) uris
unfolding check_texts
check_texts_sound none uris h = absurd (cc h)
check_texts_sound (some given) uris h = elim (Bool-cases (all is_truthy given)) [
  | inr bad ↦ absurd (ground (arith, (rw bad at h)))
  | inl good ↦
      let (same, full) = usable_lem given uris (rw good at h) in (full, rw same (All-keep given))
]

check_uris_sound :
    (v : Option Json) (uris : List String)
    → check_uris v ≡ ok uris
    → (is_empty uris ≡ false) × All (λ u. accept_registered u ≡ ok tt) uris
unfolding check_uris
check_uris_sound (some (arr vs)) uris h = elim (Bool-cases (is_empty (items vs))) [
  | inl empty ↦ absurd (ground (arith, (rw empty at h)))
  | inr full ↦ check_texts_sound (all_strings vs) uris (rw full at h)
]
check_uris_sound _ uris h = absurd (cc h)

module _ (url client_id : String) (d : Dict Json) (doc : CimdDocument)
    (accepted : validate_object url d (some client_id) ≡ ok doc) where
  same_url : (client_id == url) ≡ true
  unfolding validate_object
  same_url = ground arith

  without_secret : is_some (lookup "client_secret" d) ≡ false
  unfolding validate_object
  without_secret = ground arith

  without_expiry : is_some (lookup "client_secret_expires_at" d) ≡ false
  unfolding validate_object
  without_expiry = ground arith

  allowed_method : is_forbidden (str_of (lookup "token_endpoint_auth_method" d)) ≡ false
  unfolding validate_object
  allowed_method = ground arith

  made_of :
      (uris : List String) × (check_uris (lookup "redirect_uris" d) ≡ ok uris)
      × (doc
          ≡ record { client_id = client_id; redirect_uris = uris; raw = d; cache_control = none })
  unfolding validate_object
  made_of =
      let (uris, e, same) =
        >>=-eq-ok (check_uris (lookup "redirect_uris" d)) _
          (rw (same_url, without_secret, without_expiry, allowed_method) at accepted) in
      (uris, e, sym (ok-injective same))

  validate_object_sound : IsValid url doc
  validate_object_sound =
      let (uris, e, same) = made_of in
      let (full, good) = check_uris_sound (lookup "redirect_uris" d) uris e in
      rw same (record {
        identity = (eq_iff client_id url).0 same_url;
        no_secret = absent (lookup "client_secret" d) without_secret;
        no_secret_expiry = absent (lookup "client_secret_expires_at" d) without_expiry;
        method = allowed_method;
        some_uri = full;
        accepted = good;
      })

validate_found :
    (url : String) (d : Dict Json) (found : Option String) (doc : CimdDocument)
    → validate_object url d found ≡ ok doc
    → IsValid url doc
unfolding validate_object
validate_found url d none doc h = absurd (cc h)
validate_found url d (some client_id) doc h = validate_object_sound url client_id d doc h

-- A document that is accepted for a URL names that URL as its `client_id`, has no `client_secret`
-- and no `client_secret_expires_at`, no method that rests on a shared secret, and at least one
-- redirect URI, each of which the registration policy accepts.
pub validate_document_sound :
    (url : String) (v : Json) (doc : CimdDocument)
    → validate_document url v ≡ ok doc
    → IsValid url doc
unfolding validate_document
validate_document_sound url (obj fs) doc h = validate_found url (fields fs) _ doc h
validate_document_sound url _ doc h = absurd (cc h)
