-- ===== src/Pat/Manage/Created.antt =====
-- What `create` of src/cimd_proxy/pat.py has done when it returns.
use mathlib.Core.Path.{subst}
use cimd_proxy.Prelude.{
  ℕ, ◌+◌, ◌*◌, String, ◌≡◌, refl, sym, ap, ◌∙◌, inl, inr, true, false, not, ◌&&◌, Option, none,
  some, List, [], ◌∷◌, arith, In, Bool-cases, leb, any, contains, contains_iff,
}
use cimd_proxy.Errors.{Result, ok, err, link_conflict, ok-injective}
use cimd_proxy.Effects.Laws.{run-catch, caught}
use cimd_proxy.Effects.{World, Prog, run, ◌>>◌, query, catch, ret}
use cimd_proxy.Platform.{Platform}
use cimd_proxy.Config.{ProxyConfig, PatConfig}
use cimd_proxy.Keycloak.{KeycloakClient, Caller, ensure_link}
use cimd_proxy.Pat.Record.{PatRecord, Time, insert, instant}
use cimd_proxy.Pat.Format.{generate_from, generate, is_well_formed, token_hash}
use cimd_proxy.Pat.Format.WellFormed.{generate_from-is_well_formed}
use cimd_proxy.Pat.Table.{Table, execute, passes_checks, collides, new_row}
use cimd_proxy.Pat.Table.Play.{play}
use cimd_proxy.Pat.Table.Laws.{play_lifted, Tableless-returns}
use cimd_proxy.Pat.Create.{CreateRequest}
use cimd_proxy.Pat.Manage.{
  tenant_for, conflict, granted_scopes, expiry_of, year_10000, new_record, store_new, inserted,
  create,
}
use cimd_proxy.Pat.Uuid.{uuid4_number}
use cimd_proxy.Pat.Manage.Silent.{linking-Tableless, granted-Tableless}
use cimd_proxy.Pat.Manage.Scopes.{IsGranted, granted_sound}

-- The token is for an organization that the owner belongs to.
tenant_for_sound :
    (caller : Caller) (requested : Option String) (tenant : String)
    → tenant_for caller requested ≡ ok tenant
    → In tenant caller.organizations
unfolding tenant_for
tenant_for_sound caller (some r) tenant h = elim (Bool-cases (contains caller.organizations r)) [
  | inl there ↦
      rw (← (ok-injective (rw there at h))) ((contains_iff caller.organizations r).0 there)
  | inr other ↦ absurd (ground (arith, (rw other at h)))
]
tenant_for_sound caller none tenant h = only_one caller.organizations h
  where
    only_one :
        (ts : List String)
        → tenant_for (record caller { organizations = ts }) none ≡ ok tenant
        → In tenant ts
    only_one [] e = absurd (cc e)
    only_one (t ∷ []) e = inl (sym (ok-injective e))
    only_one (t ∷ u ∷ ts) e = absurd (cc e)

expiry_of_sound :
    (now : Time) (days : ℕ) (expires : Time)
    → expiry_of now days ≡ ok expires
    → expires ≡ now + days * 86400000000
unfolding expiry_of
expiry_of_sound now days expires h = elim (Bool-cases (leb year_10000 (now + days * 86400000000))) [
  | inl late ↦ absurd (ground (arith, (rw late at h)))
  | inr fine ↦ sym (ok-injective (rw fine at h))
]

subst2 :
    {A B : Type 0} (F : A → B → Type 0) {a a' : A} {b b' : B} → a ≡ a' → b ≡ b' → F a b → F a' b'
subst2 F {a} {a'} {b} {b'} p q h = subst (F a') q (subst (λ x. F x b) p h)

module _ (P : Platform) (config : ProxyConfig) (pat : PatConfig) (kc : KeycloakClient)
    (w : World) where
  -- A new token, and the table with its row.
  pub record IsCreated (caller : Caller) (request : CreateRequest) (t t' : Table) (r : PatRecord)
      (token : String) : Type 0 where
    pub linked : run w (ensure_link kc caller) ≡ ok tt
    pub member : In r.tenant caller.organizations
    pub granted : IsGranted P config pat kc w caller request r.tenant r.scopes
    pub recorded : r ≡ record {
      id = uuid4_number w.noise;
      tenant = r.tenant;
      realm_issuer = pat.realm_issuer;
      owner_sub = caller.subject;
      name = request.name;
      resources = request.resources;
      scopes = r.scopes;
      created_at = instant w.now;
      expires_at = instant w.now + request.lifetime_days * 86400000000;
      last_used_at = none;
      revoked_at = none;
    }
    pub formed : is_well_formed token ≡ ok true
    pub checked : passes_checks (new_row r (token_hash P token)) ≡ true
    pub fresh : any (collides (new_row r (token_hash P token))) t ≡ false
    pub stored : t' ≡ new_row r (token_hash P token) ∷ t

  unconflicting : (r : Result (Unit {0})) → caught w r conflict ≡ ok tt → r ≡ ok tt
  unfolding conflict
  unconflicting (ok _) h = refl
  unconflicting (err (link_conflict m)) h = absurd (cc h)
  unconflicting (err e) h = absurd (cc h)

  -- The statement at the end of `create`.
  abbrev stored_pair : PatRecord → String → Prog (PatRecord × String)
  unfolding inserted
  stored_pair r token = query (insert r (token_hash P token)) inserted >> ret (r, token)

  inserting :
      (t t' : Table) (r : PatRecord) (token : String) (made : PatRecord × String)
      → play w t (stored_pair r token) ≡ (ok made, t')
      → (passes_checks (new_row r (token_hash P token)) ≡ true)
        × (any (collides (new_row r (token_hash P token))) t ≡ false)
        × (t' ≡ new_row r (token_hash P token) ∷ t)
        × (made.0 ≡ r)
        × (made.1 ≡ token)
  unfolding execute stored_pair inserted
  inserting t t' r token made h =
      let row = new_row r (token_hash P token) in
      elim (Bool-cases (passes_checks row && not (any (collides row) t))) [
        | inl good ↦
            let done = rw good at h in
            let pair = ok-injective (ap (λ (o : Result (PatRecord × String) × Table). o.0) done) in
            (
              ground arith,
              ground arith,
              ap (λ (o : Result (PatRecord × String) × Table). o.1) (sym done),
              ap (λ (p : PatRecord × String). p.0) (sym pair),
              ap (λ (p : PatRecord × String). p.1) (sym pair),
            )
        | inr bad ↦ absurd (cc (rw bad at h))
      ]

  module _ (caller : Caller) (request : CreateRequest) (t t' : Table) (tenant : String)
      (scopes : List String) (expires : Time) (token : String) where
    abbrev the_record : PatRecord
    the_record =
        new_record P config pat kc caller request tenant scopes (instant w.now) expires
          (uuid4_number w.noise)

    created :
        run w (ensure_link kc caller) ≡ ok tt
        → In tenant caller.organizations
        → IsGranted P config pat kc w caller request tenant scopes
        → expires ≡ instant w.now + request.lifetime_days * 86400000000
        → is_well_formed token ≡ ok true
        → passes_checks (new_row the_record (token_hash P token)) ≡ true
        → any (collides (new_row the_record (token_hash P token))) t ≡ false
        → t' ≡ new_row the_record (token_hash P token) ∷ t
        → IsCreated caller request t t' the_record token
    unfolding new_record
    created linked member granted ends formed checked fresh stored = record {
      linked = linked;
      member = member;
      granted = granted;
      recorded =
          ap
            (λ (e : Time).
              new_record P config pat kc caller request tenant scopes (instant w.now) e
                (uuid4_number w.noise))
            ends;
      formed = formed;
      checked = checked;
      fresh = fresh;
      stored = stored;
    }

  pub create-IsCreated :
      (caller : Caller) (request : CreateRequest) (t t' : Table) (made : PatRecord × String)
      → play w t (create P config pat kc caller request) ≡ (ok made, t')
      → IsCreated caller request t t' made.0 made.1
  unfolding create store_new generate
  create-IsCreated caller request t t' made h =
      let (tenant, chosen, h1) =
        play_lifted w t (tenant_for caller request.organization) _ made t' h in
      let (_, linked, h2) =
        Tableless-returns w t (catch (ensure_link kc caller) conflict) _ made t'
          (linking-Tableless kc caller) h1 in
      let (scopes, granted, h3) =
        Tableless-returns w t (granted_scopes P config pat kc caller request tenant) _ made t'
          (granted-Tableless P config pat kc caller request tenant) h2 in
      let (expires, ends, h4) =
        play_lifted w t (expiry_of (instant w.now) request.lifetime_days) _ made t' h3 in
      let (token, drawn, h5) = play_lifted w t (generate_from w.noise) _ made t' h4 in
      let r = the_record caller request t t' tenant scopes expires token in
      let (checked, fresh, stored, is_r, is_token) = inserting t t' r token made h5 in
      let (token', drawn', formed) = generate_from-is_well_formed w.noise in
      let same = ok-injective (sym drawn' ∙ drawn) in
      subst2 (IsCreated caller request t t') (sym is_r) (sym is_token) (
        created caller request t t' tenant scopes expires token
          (unconflicting (run w (ensure_link kc caller))
            (sym (run-catch w (ensure_link kc caller) conflict) ∙ linked))
          (tenant_for_sound caller request.organization tenant chosen)
          (granted_sound P config pat kc w caller request tenant scopes granted)
          (expiry_of_sound (instant w.now) request.lifetime_days expires ends)
          (subst (λ s. is_well_formed s ≡ ok true) same formed) checked fresh stored)
