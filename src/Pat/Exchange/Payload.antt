-- ===== src/Pat/Exchange/Payload.antt =====
-- What `exchange` of src/cimd_proxy/pat.py gives the client.
use cimd_proxy.Prelude.{
  String, ◌≡◌, refl, ap, [], ◌∷◌, Option, rstrip_slash, sym, ◌∙◌, ◌≢◌, inl, inr, false, none, some,
  arith, Bool-cases, eqb, ◌==◌, eq_iff,
}
use cimd_proxy.Prelude.Dict.{Dict, lookup, lookup-insert, lookup-erase, erase}
use cimd_proxy.Json.{Json, str, obj, Fields, fields}
use cimd_proxy.Errors.{ok, ok-injective}
use cimd_proxy.Effects.{World, run, sent, Request, Reply, failed, answered, Response}
use cimd_proxy.Effects.Silent.{sent_behind_ok}
use cimd_proxy.Http.{token_url}
use cimd_proxy.Pat.Exchange.Sent.{sign_silent, replied_silent}
use cimd_proxy.Effects.Laws.{bind-eq-ok, lift_bind-eq-ok, sent-ok}
use cimd_proxy.Platform.{Platform}
use cimd_proxy.Config.{ProxyConfig, PatConfig}
use cimd_proxy.Assertion.{sign}
use cimd_proxy.Token.{TokenParams, post}
use cimd_proxy.Pat.Record.{instant, PatRecord, Time, find_by_hash}
use cimd_proxy.Pat.Format.{token_hash}
use cimd_proxy.Pat.Exchange.{
  access_token_type, first_row, jwt_bearer_grant, scope_param, json_of, resolve_resource,
  check_params, check_row, grant, grant_form, exchange, relayed, posted_reply,
}

-- A payload for the client, of the upstream's.
pub record IsRelayed (upstream d : Dict Json) : Type 0 where
  pub no_refresh : lookup "refresh_token" d ≡ none
  pub no_refresh_expiry : lookup "refresh_expires_in" d ≡ none
  pub issued : lookup "issued_token_type" d ≡ some (str access_token_type)
  pub others :
      (key : String)
      → key ≢ "refresh_token"
      → key ≢ "refresh_expires_in"
      → key ≢ "issued_token_type"
      → lookup key d ≡ lookup key upstream

differ : (s key : String) → key ≢ s → (s == key) ≡ false
differ s key other = let flipped : s ≢ key = λ e. other (sym e) in ground (arith, eq_iff s key)

relayed-IsRelayed : (d : Dict Json) → IsRelayed d (relayed d)
unfolding relayed
relayed-IsRelayed d =
    let less = erase "refresh_token" d in
    let bare = erase "refresh_expires_in" less in
    record {
      no_refresh =
          lookup-insert "issued_token_type" "refresh_token" (str access_token_type) bare
          ∙ lookup-erase "refresh_expires_in" "refresh_token" less
          ∙ lookup-erase "refresh_token" "refresh_token" d;
      no_refresh_expiry =
          lookup-insert "issued_token_type" "refresh_expires_in" (str access_token_type) bare
          ∙ lookup-erase "refresh_expires_in" "refresh_expires_in" less;
      issued = lookup-insert "issued_token_type" "issued_token_type" (str access_token_type) bare;
      others = λ key a b c.
          let at_a : ("refresh_token" == key) ≡ false = differ "refresh_token" key a in
          let at_b : ("refresh_expires_in" == key) ≡ false = differ "refresh_expires_in" key b in
          let at_c : ("issued_token_type" == key) ≡ false = differ "issued_token_type" key c in
          rw (
            lookup-insert "issued_token_type" key (str access_token_type) bare,
            at_c,
            lookup-erase "refresh_expires_in" key less,
            at_b,
            lookup-erase "refresh_token" key d,
            at_a,
          );
    }

module _ (P : Platform) (config : ProxyConfig) (pat : PatConfig) (w : World) where
  -- What an exchange has received from the realm, and what it returns of it.
  pub record IsAnswer (p : TokenParams) (d : Dict Json) : Type 0 where
    pub request : Request
    pub response : Response
    pub body : Fields
    pub sent_one : sent w (exchange P config pat p) ≡ request ∷ []
    pub received : w.upstream request ≡ answered response
    pub fine : response.status_code ≡ 200
    pub json : response.json ≡ some (obj body)
    pub relays : IsRelayed (fields body) d

  json_of_sound :
      (v : Option Json) (d : Dict Json)
      → run w (json_of v) ≡ ok d
      → (fs : Fields) × (v ≡ some (obj fs)) × (fields fs ≡ d)
  unfolding json_of
  json_of_sound none d h = absurd (cc h)
  json_of_sound (some (obj fs)) d h = (fs, refl, ok-injective h)
  json_of_sound (some v) d h = absurd (cc h)

  grant_sound :
      (r : PatRecord) (now : Time) (a : Response) (d : Dict Json)
      → run w (grant P config pat r now a) ≡ ok d
      → (fs : Fields) × (a.json ≡ some (obj fs)) × (a.status_code ≡ 200) × IsRelayed (fields fs) d
  unfolding grant
  grant_sound r now a d h =
      let (upstream, parsed, h') = bind-eq-ok w (json_of a.json) _ h in
      let (fs, json, same) = json_of_sound a.json upstream parsed in
      elim (Bool-cases (eqb a.status_code 200)) [
        | inl fine ↦ (
          fs,
          json,
          ground arith,
          rw (same, ← (ok-injective (rw fine at h'))) (relayed-IsRelayed upstream),
        )
        | inr other ↦ absurd (cc (rw other at h'))
      ]

  replied : (r : Reply) (a : Response) → run w (posted_reply r) ≡ ok a → r ≡ answered a
  unfolding posted_reply
  replied (failed m) a h = absurd (cc h)
  replied (answered b) a h = ap answered (ok-injective h)

  -- A token exchange that returns has sent one request, which the realm has answered with 200 and a
  -- JSON object. What it returns is that object without a refresh token and its lifetime, marked as
  -- an access token, and with every other field unchanged.
  pub exchange-IsRelayed :
      (p : TokenParams) (d : Dict Json) → run w (exchange P config pat p) ≡ ok d → IsAnswer p d
  unfolding exchange jwt_bearer_grant
  exchange-IsRelayed p d h =
      let (token, e0, h0) = lift_bind-eq-ok w (check_params P config pat p) _ h in
      let found = first_row (w.table (find_by_hash (token_hash P token))) in
      let (r, e1, h1) = lift_bind-eq-ok w (check_row P config pat found (instant w.now)) _ h0 in
      let (entry, e2, h2) = lift_bind-eq-ok w (resolve_resource config r p.resource) _ h1 in
      let (assertion, e3, h3) = bind-eq-ok w (sign P pat.signer r.owner_sub entry.issuer) _ h2 in
      let (a, e4, h4) =
        bind-eq-ok w (jwt_bearer_grant pat entry assertion (scope_param r.scopes r.tenant)) _ h3 in
      let (fs, json, fine, relays) = grant_sound r (instant w.now) a d h4 in
      let q =
        post (token_url (rstrip_slash pat.realm_issuer))
          (grant_form entry assertion (scope_param r.scopes r.tenant)) in
      record {
        request = q;
        response = a;
        body = fs;
        sent_one =
            sent-ok w (check_params P config pat p) _ e0
            ∙ sent-ok w (check_row P config pat found (instant w.now)) _ e1
            ∙ sent-ok w (resolve_resource config r p.resource) _ e2
            ∙ sent_behind_ok w (sign P pat.signer r.owner_sub entry.issuer) _
                (sign_silent P config pat w pat.signer r.owner_sub entry.issuer) e3
            ∙ ap (◌∷◌ q) (replied_silent P config pat w (w.upstream q) r (instant w.now));
        received = replied (w.upstream q) a e4;
        fine = fine;
        json = json;
        relays = relays;
      }
