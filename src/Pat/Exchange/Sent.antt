-- ===== src/Pat/Exchange/Sent.antt =====
-- What `exchange` of src/cimd_proxy/pat.py sends upstream.
use cimd_proxy.Prelude.{
  String, ◌≡◌, refl, sym, ap, ◌∙◌, ◌⊎◌, inl, inr, true, Option, none, some, List, [], ◌∷◌,
  Bool-cases, eqb, rstrip_slash,
}
use cimd_proxy.Prelude.Dict.{Dict}
use cimd_proxy.Json.{Json, null, obj}
use cimd_proxy.Errors.{ok}
use cimd_proxy.Effects.{
  World, run, sent, Prog, ◌>>=◌, lift, Request, Reply, failed, answered, Response,
}
use cimd_proxy.Effects.Laws.{run-lift, sent-lift}
use cimd_proxy.Effects.Silent.{sent_behind, silent-bind}
use cimd_proxy.Platform.{Platform}
use cimd_proxy.Config.{ProxyConfig, PatConfig, ResourceEntry}
use cimd_proxy.Assertion.{AssertionSigner, sign, key_with_kid}
use cimd_proxy.Http.{token_url}
use cimd_proxy.Token.{TokenParams, post}
use cimd_proxy.Pat.Record.{instant, PatRecord, Time, find_by_hash}
use cimd_proxy.Pat.Format.{is_well_formed, token_hash}
use cimd_proxy.Pat.Exchange.{
  first_row, grant_form, jwt_bearer_grant, posted_reply, scope_param, json_of, resolve_resource,
  check_params, check_row, grant, exchange,
}
use cimd_proxy.Pat.Exchange.Granted.{
  IsLive, IsNamed, check_params_sound, check_row_sound, resolve_resource_sound,
}

module _ (P : Platform) (config : ProxyConfig) (pat : PatConfig) (w : World) where
  pub sign_silent :
      (signer : AssertionSigner) (subject audience : String)
      → sent w (sign P signer subject audience) ≡ []
  unfolding sign
  sign_silent signer subject audience =
      silent-bind w (lift (key_with_kid signer.active_kid signer.keys)) _
        (sent-lift w (key_with_kid signer.active_kid signer.keys)) (λ key. refl)

  json_silent : (v : Option Json) → sent w (json_of v) ≡ []
  unfolding json_of
  json_silent none = refl
  json_silent (some (obj fs)) = refl
  json_silent (some null) = refl
  json_silent (some v) = refl

  grant_silent :
      (r : PatRecord) (now : Time) (a : Response) → sent w (grant P config pat r now a) ≡ []
  unfolding grant
  grant_silent r now a =
      silent-bind w (json_of a.json) _ (json_silent a.json)
        λ d. elim (Bool-cases (eqb a.status_code 200)) [ inl fine ↦ rw fine | inr other ↦ rw other ]

  pub replied_silent :
      (reply : Reply) (r : PatRecord) (now : Time)
      → sent w (posted_reply reply >>= grant P config pat r now) ≡ []
  unfolding posted_reply
  replied_silent (failed m) r now = refl
  replied_silent (answered a) r now = grant_silent r now a

  -- What is known when an exchange is sent upstream.
  pub record IsGrant (p : TokenParams) (q : Request) : Type 0 where
    pub token : String
    pub row : PatRecord
    pub entry : ResourceEntry
    pub assertion : String
    pub given : p.subject_token ≡ some token
    pub well_formed : is_well_formed token ≡ ok true
    pub found : first_row (w.table (find_by_hash (token_hash P token))) ≡ some row
    pub live : IsLive P config pat row (instant w.now)
    pub named : IsNamed P config pat row entry
    pub signed : run w (sign P pat.signer row.owner_sub entry.issuer) ≡ ok assertion
    pub request :
        q
        ≡ post
            (token_url (rstrip_slash pat.realm_issuer))
            (grant_form entry assertion (scope_param row.scopes row.tenant))

  -- Nothing is sent, or one request that exchanges the token.
  pub Grants : TokenParams → List Request → Type 0
  Grants p qs = (qs ≡ []) ⊎ ((q : Request) × (qs ≡ q ∷ []) × IsGrant p q)

  -- The part of `exchange` behind the row and the resource.
  abbrev granted : PatRecord → ResourceEntry → Prog (Dict Json)
  granted r entry = sign P pat.signer r.owner_sub entry.issuer >>= λ assertion.
      jwt_bearer_grant pat entry assertion (scope_param r.scopes r.tenant)
      >>= grant P config pat r (instant w.now)

  granted-sent :
      (p : TokenParams) (token : String) (r : PatRecord) (entry : ResourceEntry)
      → (p.subject_token ≡ some token) × (is_well_formed token ≡ ok true)
      → (first_row (w.table (find_by_hash (token_hash P token))) ≡ some r)
        × IsLive P config pat r (instant w.now)
      → IsNamed P config pat r entry
      → Grants p (sent w (granted r entry))
  unfolding Grants jwt_bearer_grant
  granted-sent p token r entry (given, formed) (found, live) named =
      let signing = sign P pat.signer r.owner_sub entry.issuer in
      elim (sent_behind w signing _ (sign_silent pat.signer r.owner_sub entry.issuer)) [
        | inl over ↦ inl over
        | inr (assertion, signed, there) ↦
            let q =
              post (token_url (rstrip_slash pat.realm_issuer))
                (grant_form entry assertion (scope_param r.scopes r.tenant)) in
            inr (
              q,
              there ∙ ap (◌∷◌ q) (replied_silent (w.upstream q) r (instant w.now)),
              record {
                token = token;
                row = r;
                entry = entry;
                assertion = assertion;
                given = given;
                well_formed = formed;
                found = found;
                live = live;
                named = named;
                signed = signed;
                request = refl;
              },
            )
      ]

  checked-sent :
      (p : TokenParams) (token : String)
      → (p.subject_token ≡ some token) × (is_well_formed token ≡ ok true)
      → let found = first_row (w.table (find_by_hash (token_hash P token))) in
        Grants p (
          sent w (
            lift (check_row P config pat found (instant w.now)) >>= λ r.
            lift (resolve_resource config r p.resource) >>= λ entry. granted r entry))
  unfolding Grants
  checked-sent p token known =
      let found = first_row (w.table (find_by_hash (token_hash P token))) in
      let row = check_row P config pat found (instant w.now) in
      elim (sent_behind w (lift row) _ (sent-lift w row)) [
        | inl over ↦ inl over
        | inr (r, e, there) ↦
            let resource = resolve_resource config r p.resource in
            elim (sent_behind w (lift resource) (λ entry. granted r entry) (sent-lift w resource)) [
              | inl over ↦ inl (there ∙ over)
              | inr (entry, e', there') ↦
                  rw (there, there')
                    (granted-sent p token r entry known
                      (check_row_sound P config pat found (instant w.now) r
                        (sym (run-lift w row) ∙ e))
                      (resolve_resource_sound P config pat r p.resource entry
                        (sym (run-lift w resource) ∙ e')))
            ]
      ]

  -- A token exchange sends at most one request, and only for a well-formed token whose row is found
  -- by its hash, is not revoked and not expired, belongs to the realm and is bound to an
  -- organization, and for a configured resource that the row names, that accepts personal access
  -- tokens and whose issuer is the row's realm. The request asks the realm for the row's scopes and
  -- organization, on an assertion signed for the row's owner.
  pub exchange-sent : (p : TokenParams) → Grants p (sent w (exchange P config pat p))
  unfolding Grants exchange
  exchange-sent p =
      let params = check_params P config pat p in
      elim (sent_behind w (lift params) _ (sent-lift w params)) [
        | inl over ↦ inl over
        | inr (token, e, there) ↦ rw there (
            checked-sent p token
              (check_params_sound P config pat p token (sym (run-lift w params) ∙ e)))
      ]
