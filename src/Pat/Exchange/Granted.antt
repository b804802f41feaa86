-- ===== src/Pat/Exchange/Granted.antt =====
-- When a personal access token is exchanged: `exchange` of src/cimd_proxy/pat.py.
use cimd_proxy.Prelude.{
  ◌<◌, String, ◌≡◌, refl, ap, ◌∙◌, inl, inr, true, not, ◌&&◌, Option, none, some, arith, In, ◌==◌,
  eq_iff, Bool-cases, leb, is_some, absent, is_truthy, or_else, found_is, contains, contains_iff,
  if◌then◌else◌,
}
use cimd_proxy.Errors
use cimd_proxy.Errors.{oauth, invalid_grant, Result, ok, err, >>=-eq-ok, ok-injective}
use cimd_proxy.Platform.{Platform}
use cimd_proxy.Config.{ProxyConfig, PatConfig, ResourceEntry, resource_by_url, accepts_pat}
use cimd_proxy.Config.Lookup.{resource_by_url_sound}
use cimd_proxy.Token.{TokenParams}
use cimd_proxy.Pat.Record.{PatRecord, Time}
use cimd_proxy.Pat.Format.{is_well_formed}
use cimd_proxy.Pat.Exchange.{
  access_token_type, named_resource, check_entry, resolve_resource, check_params, check_row,
}

module _ (P : Platform) (config : ProxyConfig) (pat : PatConfig) where
  -- A row that may be exchanged at an instant.
  pub record IsLive (r : PatRecord) (now : Time) : Type 0 where
    pub not_revoked : r.revoked_at ≡ none
    pub not_expired : now < r.expires_at
    pub realm : r.realm_issuer ≡ pat.realm_issuer
    pub bound : is_truthy r.tenant ≡ true

  pub check_row_sound :
      (found : Option PatRecord) (now : Time) (r : PatRecord)
      → check_row P config pat found now ≡ ok r
      → (found ≡ some r) × IsLive r now
  unfolding check_row
  check_row_sound none now r h = absurd (cc h)
  check_row_sound (some x) now r h = elim (Bool-cases (is_some x.revoked_at)) [
    | inl revoked ↦ absurd (ground (arith, (rw revoked at h)))
    | inr kept ↦ elim (Bool-cases (leb x.expires_at now)) [
      | inl over ↦ absurd (ground (arith, (rw (kept, over) at h)))
      | inr live ↦ elim (Bool-cases (x.realm_issuer == pat.realm_issuer)) [
        | inr other ↦ absurd (ground (arith, (rw (kept, live, other) at h)))
        | inl same ↦ elim (Bool-cases (is_truthy x.tenant)) [
          | inr unbound ↦ absurd (ground (arith, (rw (kept, live, same, unbound) at h)))
          | inl bound ↦
              let is : x ≡ r = ok-injective (rw (kept, live, same, bound) at h) in
              (
                ap some is,
                rw (← is) (record {
                  not_revoked = absent x.revoked_at kept;
                  not_expired = ground arith;
                  realm = (eq_iff x.realm_issuer pat.realm_issuer).0 same;
                  bound = bound;
                }),
              )
        ]
      ]
    ]
  ]

  -- A resource for which a row may be exchanged.
  pub record IsNamed (r : PatRecord) (entry : ResourceEntry) : Type 0 where
    pub in_table : In entry config.resources
    pub named : In entry.url r.resources
    pub accepts : accepts_pat entry ≡ true
    pub issuer : entry.issuer ≡ r.realm_issuer

  check_entry_sound :
      (r : PatRecord) (found : Option ResourceEntry) (e : ResourceEntry)
      → check_entry r found ≡ ok e
      → (found ≡ some e)
        × (contains r.resources e.url ≡ true)
        × (accepts_pat e ≡ true)
        × (e.issuer ≡ r.realm_issuer)
  unfolding check_entry
  check_entry_sound r none e h = absurd (cc h)
  check_entry_sound r (some x) e h = elim (Bool-cases (contains r.resources x.url)) [
    | inr other ↦ absurd (ground (arith, (rw other at h)))
    | inl named ↦ elim (Bool-cases (accepts_pat x)) [
      | inr closed ↦ absurd (ground (arith, (rw (named, closed) at h)))
      | inl opened ↦ elim (Bool-cases (x.issuer == r.realm_issuer)) [
        | inr other ↦ absurd (ground (arith, (rw (named, opened, other) at h)))
        | inl same ↦
            let is : x ≡ e = ok-injective (rw (named, opened, same) at h) in
            rw (← is) (refl, named, opened, (eq_iff x.issuer r.realm_issuer).0 same)
      ]
    ]
  ]

  pub resolve_resource_sound :
      (r : PatRecord) (resource : Option String) (e : ResourceEntry)
      → resolve_resource config r resource ≡ ok e
      → IsNamed r e
  unfolding resolve_resource
  resolve_resource_sound r resource e h =
      let (url, _, h1) = >>=-eq-ok (named_resource r.resources resource) _ h in
      let (found, there, h2) = >>=-eq-ok (resource_by_url config url) _ h1 in
      let (is, named, opened, issuer) = check_entry_sound r found e h2 in
      record {
        in_table = (resource_by_url_sound config url e (there ∙ ap ok is)).0;
        named = (contains_iff r.resources e.url).0 named;
        accepts = opened;
        issuer = issuer;
      }

  given_sound : (o : Option String) → is_truthy (or_else o "") ≡ true → o ≡ some (or_else o "")
  given_sound none h = absurd (cc h)
  given_sound (some s) h = elim (Bool-cases (is_truthy s)) [
    | inl full ↦ rw full
    | inr empty ↦ absurd (ground (arith, (rw empty at h)))
  ]

  formed :
      (p : TokenParams) (token : String)
      → is_truthy (or_else p.subject_token "") ≡ true
      → (Errors.◌>>=◌ (is_well_formed (or_else p.subject_token "")) λ good.
          if good
          then ok (or_else p.subject_token "")
          else err (oauth (invalid_grant "subject_token is not a valid personal access token")))
        ≡ ok token
      → (p.subject_token ≡ some token) × (is_well_formed token ≡ ok true)
  formed p token full h =
      let (good, e, h') = >>=-eq-ok (is_well_formed (or_else p.subject_token "")) _ h in
      elim (Bool-cases good) [
        | inr bad ↦ absurd (ground (arith, (rw bad at h')))
        | inl fine ↦
            let is = ok-injective (rw fine at h') in
            (given_sound p.subject_token full ∙ ap some is, rw (← is) (e ∙ ap ok fine))
      ]

  pub check_params_sound :
      (p : TokenParams) (token : String)
      → check_params P config pat p ≡ ok token
      → (p.subject_token ≡ some token) × (is_well_formed token ≡ ok true)
  unfolding check_params
  check_params_sound p token h =
      let asked =
        is_some p.requested_token_type && not (found_is p.requested_token_type access_token_type) in
      elim (Bool-cases (is_truthy (or_else p.subject_token ""))) [
        | inr empty ↦ absurd (ground (arith, (rw empty at h)))
        | inl full ↦ elim (Bool-cases (found_is p.subject_token_type access_token_type)) [
          | inr other ↦ absurd (ground (arith, (rw (full, other) at h)))
          | inl typed ↦ elim (Bool-cases asked) [
            | inl other ↦ absurd (ground (arith, (rw (full, typed, other) at h)))
            | inr plain ↦ formed p token full (rw (full, typed, plain) at h)
          ]
        ]
      ]
