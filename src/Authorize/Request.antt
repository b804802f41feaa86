-- ===== src/Authorize/Request.antt =====
-- The tests of `/authorize` on the parameters alone: src/cimd_proxy/authorize.py.
use cimd_proxy.Prelude.{
  String, ◌≡◌, refl, ap, ◌∙◌, inl, inr, true, Option, none, some, List, [], ◌∷◌, arith, In, ◌==◌,
  eq_iff, or_else, found_is, is_truthy, Bool-cases,
}
use cimd_proxy.Errors.{ok, >>=-eq-ok, ok-injective}
use cimd_proxy.Config.{ProxyConfig, ResourceEntry, resource_by_url}
use cimd_proxy.Config.Lookup.{resource_by_url_sound}
use cimd_proxy.RedirectUri.{uri_matches_registration}
use cimd_proxy.Authorize.{
  AuthorizeParams, Present, require_present, present, known_target, pick_resource, Checked,
  check_request, any_matches,
}

-- Some registered URI matches.
pub any_matches_sound :
    (uri : String) (rs : List String)
    → any_matches uri rs ≡ ok true
    → (r : String) × In r rs × (uri_matches_registration uri r ≡ ok true)
unfolding any_matches
any_matches_sound uri [] h = absurd (ground (arith, ok-injective h))
any_matches_sound uri (r ∷ rs) h =
    let (m, e, h') = >>=-eq-ok (uri_matches_registration uri r) _ h in
    elim (Bool-cases m) [
      | inl yes' ↦ (r, inl refl, e ∙ ap ok yes')
      | inr no' ↦
          let (x, there, good) = any_matches_sound uri rs (rw no' at h') in (x, inr there, good)
    ]

-- The parameters that every forwarded request carries.
pub record HasParams (p : AuthorizeParams) (q : Present) : Type 0 where
  pub response_type : p.response_type ≡ some "code"
  pub client_id : p.client_id ≡ some q.client_id
  pub redirect_uri : p.redirect_uri ≡ some q.redirect_uri
  pub code_challenge : p.code_challenge ≡ some q.code_challenge

present_sound : (m : String) (o : Option String) (s : String) → present m o ≡ ok s → o ≡ some s
unfolding present
present_sound m none s h = absurd (cc h)
present_sound m (some t) s h = ap some (ok-injective h)

require_present_sound :
    (p : AuthorizeParams) (q : Present) → require_present p ≡ ok q → HasParams p q
unfolding require_present
require_present_sound p q h =
    let (rt, e0, h0) = >>=-eq-ok (present "missing response_type" p.response_type) _ h in
    elim (Bool-cases (rt == "code")) [
      | inr other ↦ absurd (ground (arith, (rw other at h0)))
      | inl code ↦
          let (c, e1, h1) = >>=-eq-ok (present "missing client_id" p.client_id) _ (rw code at h0) in
          let (u, e2, h2) = >>=-eq-ok (present "missing redirect_uri" p.redirect_uri) _ h1 in
          let (k, e3, h3) = >>=-eq-ok (present "missing code_challenge" p.code_challenge) _ h2 in
          let same = ok-injective h3 in
          record {
            response_type = present_sound _ _ rt e0 ∙ ap some ((eq_iff rt "code").0 code);
            client_id = present_sound _ _ c e1 ∙ ap (λ (x : Present). some x.client_id) same;
            redirect_uri = present_sound _ _ u e2 ∙ ap (λ (x : Present). some x.redirect_uri) same;
            code_challenge =
                present_sound _ _ k e3 ∙ ap (λ (x : Present). some x.code_challenge) same;
          }
    ]

known_target_sound :
    (config : ProxyConfig) (chosen : String) (o : Option ResourceEntry) (e : ResourceEntry)
    → known_target config chosen o ≡ ok e
    → o ≡ some e
unfolding known_target
known_target_sound config chosen none e h = absurd (cc h)
known_target_sound config chosen (some x) e h = ap some (ok-injective h)

pick_resource_sound :
    (config : ProxyConfig) (resource : Option String) (e : ResourceEntry)
    → pick_resource config resource ≡ ok e
    → resource_by_url config (or_else resource config.default_resource) ≡ ok (some e)
unfolding pick_resource
pick_resource_sound config resource e h =
    elim (Bool-cases (is_truthy (or_else resource config.default_resource))) [
      | inr empty ↦ absurd (ground (arith, (rw empty at h)))
      | inl full ↦
          let (o, found, h') =
            >>=-eq-ok (resource_by_url config (or_else resource config.default_resource)) _
              (rw full at h) in
          found ∙ ap ok (known_target_sound config _ o e h')
    ]

-- What is known before the registration is looked at.
pub record IsRequest (config : ProxyConfig) (p : AuthorizeParams) (q : Checked) : Type 0 where
  pub params : HasParams p q.present
  pub method : p.code_challenge_method ≡ some "S256"
  pub resource :
      resource_by_url config (or_else p.resource config.default_resource) ≡ ok (some q.entry)
  pub in_table : In q.entry config.resources

found_is_sound : (o : Option String) (s : String) → found_is o s ≡ true → o ≡ some s
found_is_sound none s h = absurd (cc h)
found_is_sound (some t) s h = ap some ((eq_iff t s).0 h)

pub check_request_sound :
    (config : ProxyConfig) (p : AuthorizeParams) (q : Checked)
    → check_request config p ≡ ok q
    → IsRequest config p q
unfolding check_request
check_request_sound config p q h =
    let (present', e0, h0) = >>=-eq-ok (require_present p) _ h in
    let (entry, e1, h1) = >>=-eq-ok (pick_resource config p.resource) _ h0 in
    elim (Bool-cases (found_is p.code_challenge_method "S256")) [
      | inr other ↦ absurd (ground (arith, (rw other at h1)))
      | inl s256 ↦
          let found = pick_resource_sound config p.resource entry e1 in
          rw (← (ok-injective (rw s256 at h1))) (record {
            params = require_present_sound p present' e0;
            method = found_is_sound p.code_challenge_method "S256" s256;
            resource = found;
            in_table = (resource_by_url_sound config _ entry found).0;
          })
    ]
