-- ===== src/Register/Issued.antt =====
-- What a registration is issued for, and what the client identifier holds:
-- src/cimd_proxy/register.py.
use cimd_proxy.Prelude.{
  ℕ, String, ◌≡◌, refl, sym, ap, ◌∙◌, true, false, Option, none, some, List, [], ◌∷◌, arith, All,
  ◌==◌, eq_iff, inl, inr, is_empty, is_some, is_truthy, if◌then◌else◌, all, Bool-cases, contains,
  absent,
}
use cimd_proxy.Prelude.Int.{pos}
use cimd_proxy.Prelude.Dict.{Dict, lookup}
use cimd_proxy.Json.{
  Json, str, int, arr, items, object, strings, all_strings, all_strings_sound, Items,
}
use cimd_proxy.Errors.{Result, ok, err, ◌>>=◌, ◌>>◌, >>=-eq-ok, ok-injective, redirect_uri_refused}
use cimd_proxy.Effects.{World, run, sent}
use cimd_proxy.Platform.{Platform, IsLawful, ReadsBack}
use cimd_proxy.RedirectUri.{accept_registered}
use cimd_proxy.Envelope.{RegistrationEnvelope, payload, registration}
use cimd_proxy.Codec.{EnvelopeCodec, pack, open_registration}
use cimd_proxy.Codec.RoundTrip.{open_registration-pack}
use cimd_proxy.Http.{json_response, new_correlation_id}
use cimd_proxy.Fetcher.{forbidden_methods}
use cimd_proxy.Register.{
  read_json, reject_disallowed_redirect, check_each, non_empty_texts, check_uris, text_or,
  check_method, Accepted, validate, registration_body, issue, answer, register,
}

reject_sound : (r : Result (Unit {0})) → reject_disallowed_redirect r ≡ ok tt → r ≡ ok tt
unfolding reject_disallowed_redirect
reject_sound (ok _) h = refl
reject_sound (err (redirect_uri_refused m)) h = absurd (cc h)
reject_sound (err e) h = absurd (cc h)

check_each_sound :
    (uris : List String) → check_each uris ≡ ok tt → All (λ u. accept_registered u ≡ ok tt) uris
unfolding check_each
check_each_sound [] h = tt
check_each_sound (u ∷ us) h =
    let (_, e, h') = >>=-eq-ok (reject_disallowed_redirect (accept_registered u)) _ h in
    (reject_sound (accept_registered u) e, check_each_sound us h')

non_empty_texts_sound :
    (found : Option (List String)) (uris : List String)
    → non_empty_texts found ≡ ok uris
    → (found ≡ some uris) × (all is_truthy uris ≡ true)
unfolding non_empty_texts
non_empty_texts_sound none uris h = absurd (cc h)
non_empty_texts_sound (some given) uris h = elim (Bool-cases (all is_truthy given)) [
  | inr bad ↦ absurd (ground (arith, (rw bad at h)))
  | inl good ↦ let same = ok-injective (rw good at h) in (ap some same, rw (← same) good)
]

not_empty : (uris : List String) → is_empty (items (strings uris)) ≡ false → is_empty uris ≡ false
not_empty [] h = absurd (cc h)
not_empty (u ∷ us) h = refl

-- What is tested of the `redirect_uris`.
record AreAccepted (v : Option Json) (uris : List String) : Type 0 where
  given : v ≡ some (arr (strings uris))
  some_uri : is_empty uris ≡ false
  texts : all is_truthy uris ≡ true
  accepted : All (λ u. accept_registered u ≡ ok tt) uris

check_array_sound :
    (vs : Items) (uris : List String)
    → is_empty (items vs) ≡ false
    → (non_empty_texts (all_strings vs) >>= λ us. check_each us >> ok us) ≡ ok uris
    → AreAccepted (some (arr vs)) uris
check_array_sound vs uris full h =
    let (us, texts, h1) = >>=-eq-ok (non_empty_texts (all_strings vs)) _ h in
    let (_, each, h2) = >>=-eq-ok (check_each us) _ h1 in
    let (found, truthy) = non_empty_texts_sound (all_strings vs) us texts in
    let same = all_strings_sound vs us found in
    rw (← (ok-injective h2)) (record {
      given = ap (λ x. some (arr x)) same;
      some_uri = not_empty us (rw same at full);
      texts = truthy;
      accepted = check_each_sound us each;
    })

check_uris_sound :
    (v : Option Json) (uris : List String) → check_uris v ≡ ok uris → AreAccepted v uris
unfolding check_uris
check_uris_sound (some (arr vs)) uris h = elim (Bool-cases (is_empty (items vs))) [
  | inl empty ↦ absurd (ground (arith, (rw empty at h)))
  | inr full ↦ check_array_sound vs uris full (rw full at h)
]
check_uris_sound none uris h = absurd (cc h)
check_uris_sound (some v) uris h = absurd (cc h)

check_method_sound : (given method : String) → check_method given ≡ ok method → method ≡ "none"
unfolding check_method
check_method_sound given method h = elim (Bool-cases (contains forbidden_methods given)) [
  | inl symmetric ↦ absurd (ground (arith, (rw symmetric at h)))
  | inr allowed ↦ elim (Bool-cases (given == "none")) [
    | inr other ↦ absurd (ground (arith, (rw (allowed, other) at h)))
    | inl none' ↦ sym (ok-injective (rw (allowed, none') at h)) ∙ (eq_iff given "none").0 none'
  ]
]

-- What `_validate` has tested.
pub record IsAccepted (payload' : Dict Json) (a : Accepted) : Type 0 where
  pub no_secret : lookup "client_secret" payload' ≡ none
  pub some_uri : is_empty a.redirect_uris ≡ false
  pub texts : all is_truthy a.redirect_uris ≡ true
  pub accepted : All (λ u. accept_registered u ≡ ok tt) a.redirect_uris
  pub uris : lookup "redirect_uris" payload' ≡ some (arr (strings a.redirect_uris))
  pub public : a.auth_method ≡ "none"

-- A payload that `_validate` accepts has no `client_secret`; its redirect URIs are a non-empty array
-- of non-empty texts, each of which the registration policy accepts, and are taken as they are; and
-- its authentication method is `none`.
pub metadata_sound : (d : Dict Json) (a : Accepted) → validate d ≡ ok a → IsAccepted d a
unfolding validate
metadata_sound d a h = elim (Bool-cases (is_some (lookup "client_secret" d))) [
  | inl secret ↦ absurd (ground (arith, (rw secret at h)))
  | inr without ↦
      let (uris, e0, h0) = >>=-eq-ok (check_uris (lookup "redirect_uris" d)) _ (rw without at h) in
      let (given, _, h1) =
        >>=-eq-ok
          (text_or "none" "token_endpoint_auth_method must be a string"
            (lookup "token_endpoint_auth_method" d))
          _ h0 in
      let (method, e2, h2) = >>=-eq-ok (check_method given) _ h1 in
      let (name, _, h3) =
        >>=-eq-ok (text_or "" "client_name must be a string" (lookup "client_name" d)) _ h2 in
      let u = check_uris_sound (lookup "redirect_uris" d) uris e0 in
      rw (← (ok-injective h3)) (record {
        no_secret = absent (lookup "client_secret" d) without;
        some_uri = u.some_uri;
        texts = u.texts;
        accepted = u.accepted;
        uris = u.given;
        public = check_method_sound given method e2;
      })
]

-- The registration that a client identifier issued at a time holds.
abbrev pub registration_of : Accepted → ℕ → RegistrationEnvelope
registration_of a issued_at = record {
  redirect_uris = a.redirect_uris;
  token_endpoint_auth_method = a.auth_method;
  client_id_issued_at = issued_at;
  client_name = a.client_name;
}

module _ (P : Platform) (codec : EnvelopeCodec) (w : World) where
  -- Where the platform is lawful and the JSON of the envelope reads back, a body that is accepted is
  -- answered with 201 and, beside the redirect URIs, the method and the name that were accepted, a
  -- client identifier that opens, at any time, to these three and the time of the issue; nothing is
  -- sent.
  pub register_issued :
      IsLawful P
      → (w' : World) (body : Option Json) (d : Dict Json) (a : Accepted) → read_json body ≡ ok d
      → validate d ≡ ok a
      → ReadsBack P (object (payload (registration (registration_of a w.now))))
      → (client_id : String) × (run w (register P codec body)
          ≡ ok (
              json_response 201
                (object (
                  ("client_id", str client_id)
                  ∷ ("client_id_issued_at", int (pos w.now))
                  ∷ ("redirect_uris", arr (strings a.redirect_uris))
                  ∷ ("token_endpoint_auth_method", str a.auth_method)
                  ∷ ("grant_types", arr (strings ("authorization_code" ∷ "refresh_token" ∷ [])))
                  ∷ ("response_types", arr (strings ("code" ∷ [])))
                  ∷ (if is_truthy a.client_name
                      then ("client_name", str a.client_name) ∷ []
                      else [])))
                []))
        × (run w' (open_registration P codec client_id) ≡ ok (registration_of a w.now))
        × (sent w (register P codec body) ≡ [])
  unfolding register answer issue pack new_correlation_id registration_body
  register_issued lawful w' body d a read valid reads =
      let accepted : (read_json body >>= validate) ≡ ok a = rw read valid in
      let e = registration_of a w.now in
      let s = P.encrypt codec.key w.now w.noise (P.dumps (object (payload (registration e)))) in
      (
        s,
        ap (λ o. run w (answer P codec o)) accepted,
        open_registration-pack P lawful codec e reads w w' s refl,
        ap (λ o. sent w (answer P codec o)) accepted,
      )
