-- ===== src/Config/Block.antt =====
-- What the block of the personal access tokens guarantees: `_load_pat` and `_load_signer` of
-- src/cimd_proxy/config.py.
use mathlib.Core.Path.{subst}
use cimd_proxy.Prelude.{
  ℕ, suc, String, ◌<>◌, ◌≡◌, refl, sym, ap, ◌∙◌, Option-cases, inl, inr, Bool, true, false, not,
  Option, none, some, List, [], ◌∷◌, ◌==◌, eq_iff, All, keep, is_empty, Bool-cases, length,
  is_truthy, strip, rstrip_slash, repr, join,
}
use cimd_proxy.Prelude.Dict.{lookup}
use cimd_proxy.Errors.{Result, ok, err, >>=-eq-ok, ok-injective}
use cimd_proxy.Config.{ResourceEntry, PatConfig, accepts_pat}
use cimd_proxy.Config.Env.{Env, refuse_if, value_or, required}
use cimd_proxy.Config.Signer.{
  Pem, names, sorted, is_higher, kids, all_different, finish_signer, finished, load_signer,
  read_keys,
}
use cimd_proxy.Config.Load.{
  is_schema_name, stray, check_issuers, Seconds, signer_or_raise, load_pat_block, load_pat,
}
use cimd_proxy.Config.Sound.{refuse_if_sound, IsSigner, assertion_signer_sound}
use cimd_proxy.Assertion.{SigningKey, AssertionSigner}
use cimd_proxy.Digits.{decimal}

not-false : (b : Bool) → not b ≡ false → b ≡ true
not-false true h = refl
not-false false h = absurd (cc h)

module _ (file : String → Option Pem) where
  finish_signer_sound :
      (env : Env) (public_url : String) (keys : List SigningKey) (end : ℕ) (s : AssertionSigner)
      → finish_signer file env public_url (keys, end) ≡ ok s
      → IsSigner s
  unfolding finish_signer
  finish_signer_sound env public_url keys end s h =
      let higher = sorted (keep (is_higher end) (names env)) in
      let (_, _, h1) =
        >>=-eq-ok
          (refuse_if (not (is_empty higher)) (
            "PAT_SIGNING_KEY table has a gap at index " <> decimal end <> ": " <> join ", " higher))
          _ h in
      let (_, _, h2) =
        >>=-eq-ok
          (refuse_if (is_empty keys)
            "PAT_SIGNING_KEY_0_KID and PAT_SIGNING_KEY_0_FILE are required")
          _ h1 in
      let (_, unique, h3) =
        >>=-eq-ok
          (refuse_if (not (all_different (kids keys)))
            "PAT_SIGNING_KEY_n_KID values must be unique")
          _ h2 in
      let (active, _, h4) = >>=-eq-ok (required env "PAT_SIGNING_KID") _ h3 in
      assertion_signer_sound _ keys active s
        (not-false (all_different (kids keys))
          (refuse_if_sound (not (all_different (kids keys))) _ unique))
        h4

  finished_sound :
      (env : Env) (public_url : String) (o : Option (Result (List SigningKey × ℕ)))
      (s : AssertionSigner)
      → signer_or_raise (finished file env public_url o) ≡ ok s
      → IsSigner s
  unfolding finished
  finished_sound env public_url none s h = absurd (cc h)
  finished_sound env public_url (some (err e)) s h = absurd (cc h)
  finished_sound env public_url (some (ok (keys, end))) s h =
      finish_signer_sound env public_url keys end s h

all_issuers :
    (realm : String) (rs : List ResourceEntry)
    → check_issuers realm rs ≡ ok tt
    → All (λ (r : ResourceEntry). r.issuer ≡ realm) rs
unfolding check_issuers
all_issuers realm [] h = tt
all_issuers realm (r ∷ rs) h =
    let (_, same, h1) =
      >>=-eq-ok
        (refuse_if (not (r.issuer == realm)) (
          "resource "
          <> repr r.url
          <> " accepts personal access tokens but its issuer "
          <> repr r.issuer
          <> " is not PAT_REALM_ISSUER "
          <> repr realm))
        _ h in
    (
      (eq_iff r.issuer realm).0
          (not-false (r.issuer == realm) (refuse_if_sound (not (r.issuer == realm)) _ same)),
      all_issuers realm rs h1,
    )

module _ (file : String → Option Pem) (seconds : String → Option Seconds) where
  -- The block of the personal access tokens, for a table of resources: there is a resource that takes
  -- them, each of these is of the block's realm, and the signer can sign.
  pub record IsBlock (resources : List ResourceEntry) (p : PatConfig) : Type 0 where
    pub schema : is_schema_name p.database_schema ≡ true
    pub some_resource : is_empty (keep accepts_pat resources) ≡ false
    pub of_realm :
        All (λ (r : ResourceEntry). r.issuer ≡ p.realm_issuer) (keep accepts_pat resources)
    pub signer : IsSigner p.signer

  load_pat_block_sound :
      (env : Env) (public_url : String) (resources : List ResourceEntry) (url : String)
      (p : PatConfig)
      → load_pat_block file seconds env public_url resources url ≡ ok p
      → IsBlock resources p × (p.database_url ≡ url)
  unfolding load_pat_block load_signer
  load_pat_block_sound env public_url resources url p h =
      let schema = strip (value_or "cimd_proxy" "PAT_DATABASE_SCHEMA" env) in
      let takers = keep accepts_pat resources in
      let (_, named, h1) =
        >>=-eq-ok
          (refuse_if (not (is_schema_name schema))
            ("PAT_DATABASE_SCHEMA " <> repr schema <> " is not a plain lower-case identifier"))
          _ h in
      let (realm, _, h2) = >>=-eq-ok (required env "PAT_REALM_ISSUER") _ h1 in
      let (scopes, _, h3) = >>=-eq-ok (required env "PAT_SCOPES") _ h2 in
      let (_, some_taker, h4) =
        >>=-eq-ok
          (refuse_if (is_empty takers)
            "PAT_DATABASE_URL is set but no RESOURCE_n_PAT_CLIENT_ID is; a personal access token could not name any resource")
          _ h3 in
      let (_, realms, h5) = >>=-eq-ok (check_issuers (rstrip_slash realm) takers) _ h4 in
      let (alias, _, h6) = >>=-eq-ok (required env "PAT_IDP_ALIAS") _ h5 in
      let (admin, _, h7) = >>=-eq-ok (required env "PAT_ADMIN_CLIENT_ID") _ h6 in
      let (secret, _, h8) = >>=-eq-ok (required env "PAT_ADMIN_CLIENT_SECRET") _ h7 in
      let keys = read_keys file (suc (length env)) env 0 in
      let (signer, signs, h9) =
        >>=-eq-ok (signer_or_raise (finished file env public_url keys)) _ h8 in
      subst (λ (x : PatConfig). IsBlock resources x × (x.database_url ≡ url)) (ok-injective h9)
        (
          record {
            schema =
                not-false (is_schema_name schema)
                  (refuse_if_sound (not (is_schema_name schema)) _ named);
            some_resource = refuse_if_sound (is_empty takers) _ some_taker;
            of_realm = all_issuers (rstrip_slash realm) takers realms;
            signer = finished_sound file env public_url keys signer signs;
          },
          refl,
        )

  abbrev pub text_of_set : Option String → String
  text_of_set none = ""
  text_of_set (some v) = v

  -- The URL of the database that the environment gives, without the white space round it.
  abbrev pub database : Env → String
  database env = strip (text_of_set (lookup "PAT_DATABASE_URL" env))

  -- Without the URL there is no block, and with it there is one.
  abbrev pub IsBlockOrOff : Env → List ResourceEntry → Option PatConfig → Type 0
  IsBlockOrOff env resources none = is_truthy (database env) ≡ false
  IsBlockOrOff env resources (some p) =
      (is_truthy (database env) ≡ true) × (p.database_url ≡ database env) × IsBlock resources p

  value_or_lem : (name : String) (env : Env) → value_or "" name env ≡ text_of_set (lookup name env)
  unfolding value_or
  value_or_lem name env = elim (Option-cases (lookup name env)) [
    | inl missing ↦ rw missing refl
    | inr (v, there) ↦ rw there refl
  ]

  pub load_pat_sound :
      (env : Env) (public_url : String) (resources : List ResourceEntry) (o : Option PatConfig)
      → load_pat file seconds env public_url resources ≡ ok o
      → IsBlockOrOff env resources o
  unfolding load_pat
  load_pat_sound env public_url resources o h =
      let url = strip (value_or "" "PAT_DATABASE_URL" env) in
      let same = ap strip (value_or_lem "PAT_DATABASE_URL" env) in
      elim (Bool-cases (is_truthy url)) [
        | inl on ↦
            let (p, loaded, h1) =
              >>=-eq-ok (load_pat_block file seconds env public_url resources url) _ (rw on at h) in
            let (block, from) = load_pat_block_sound env public_url resources url p loaded in
            subst (IsBlockOrOff env resources) (ok-injective h1)
              (ap is_truthy (sym same) ∙ on, from ∙ same, block)
        | inr off ↦
            let (_, _, h1) =
              >>=-eq-ok
                (refuse_if (not (is_empty (stray env))) (
                  join ", " (stray env)
                  <> " set but PAT_DATABASE_URL is not; personal access tokens are either fully configured or off"))
                _ (rw off at h) in
            subst (IsBlockOrOff env resources) (ok-injective h1) (ap is_truthy (sym same) ∙ off)
      ]
