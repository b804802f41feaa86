-- ===== src/Pat/Manage/Revoked.antt =====
-- A revoked token and a later exchange: `revoke` and `exchange` of src/cimd_proxy/pat.py on the table.
use mathlib.Core.Option.{some-injective}
use mathlib.Core.Path.{subst}
use cimd_proxy.Prelude.{
  String, ◌≡◌, refl, sym, ap, ◌∙◌, inl, inr, Bool, true, false, Option, none, some, [], ◌∷◌, arith,
  In, Bool-cases, eqb, keep, length, absent, eq_iff,
}
use cimd_proxy.Errors.{Result, ok, err, Exception, oauth, invalid_grant}
use cimd_proxy.Effects.{World, Prog, ◌>>=◌, lift, require, time}
use cimd_proxy.Platform.{Platform}
use cimd_proxy.Config.{ProxyConfig, PatConfig}
use cimd_proxy.Keycloak.{KeycloakClient, Caller}
use cimd_proxy.Token.{TokenParams}
use cimd_proxy.Pat.Record.{PatRecord, Time, Uuid, rows, instant}
use cimd_proxy.Pat.Uuid.{parse_uuid}
use cimd_proxy.Pat.Format.{token_hash}
use cimd_proxy.Pat.Table.{Row, Table, tokens, execute, update, revocable, owned, mark_revoked}
use cimd_proxy.Pat.Table.Play.{play}
use cimd_proxy.Pat.Table.Laws.{play_lifted, play_raised}
use cimd_proxy.Pat.Table.WellFormed.{IsWellFormed, Reach-IsWellFormed}
use cimd_proxy.Pat.Table.Lasting.{Reach-Lasts}
use cimd_proxy.Pat.Table.Reach.{Reach, Reach-trans, play-Reach}
use cimd_proxy.Pat.Table.Find.{one_id, by_hash, first_by_hash}
use cimd_proxy.Assertion.{sign}
use cimd_proxy.Prelude.Dict.{Dict}
use cimd_proxy.Json.{Json}
use cimd_proxy.Pat.Exchange.{
  first_row, check_params, check_row, exchange, resolve_resource, jwt_bearer_grant, scope_param,
  grant,
}
use cimd_proxy.Pat.Manage.{revoke_own, parsed_id, one_row}

-- A statement that changes one row has found one.
found_one :
    (test : PatRecord → Bool) (t : Table)
    → eqb (length (keep test (tokens t))) 1 ≡ true
    → (r : Row) × In r t × (test r.token ≡ true)
found_one test [] h = absurd (cc h)
found_one test (x ∷ t) h = elim (Bool-cases (test x.token)) [
  | inl here ↦ (x, inl refl, here)
  | inr other ↦ let (r, m, e) = found_one test t (rw other at h) in (r, inr m, e)
]

updated :
    (test : PatRecord → Bool) (change : PatRecord → PatRecord) (t : Table) (r : Row)
    → In r t
    → test r.token ≡ true
    → In (record r { token = change r.token }) (update test change t)
unfolding update
updated test change [] r m e = absurd m
updated test change (x ∷ t) r (inl same) e = rw (← same) (rw e (inl refl))
updated test change (x ∷ t) r (inr m) e = inr (updated test change t r m e)

module _ (P : Platform) (config : ProxyConfig) (pat : PatConfig) (kc : KeycloakClient) where
  -- The row that a revocation has hit.
  pub record IsHit (caller : Caller) (id : Uuid) (r : Row) : Type 0 where
    pub id_is : r.token.id ≡ id
    pub realm_is : r.token.realm_issuer ≡ pat.realm_issuer
    pub owner_is : r.token.owner_sub ≡ caller.subject
    pub was_live : r.token.revoked_at ≡ none

  revocable_sound :
      (caller : Caller) (id : Uuid) (r : Row)
      → revocable pat.realm_issuer caller.subject id r.token ≡ true
      → IsHit caller id r
  unfolding revocable owned
  revocable_sound caller id r h = record {
    id_is = ground arith;
    realm_is = ground (arith, eq_iff r.token.realm_issuer pat.realm_issuer);
    owner_is = ground (arith, eq_iff r.token.owner_sub caller.subject);
    was_live = absent r.token.revoked_at (ground arith);
  }

  required :
      (w : World) (b : Bool) (e : Exception) (t t' : Table)
      → play w t (require b e) ≡ (ok tt, t')
      → (b ≡ true) × (t ≡ t')
  required w true e t t' h = (refl, ap (λ (x : Result (Unit {0}) × Table). x.1) h)
  required w false e t t' h = absurd (cc h)

  -- A revocation that returns has hit a live token of the caller's, and marks it.
  pub revoke_own_hits :
      (w : World) (t : Table) (caller : Caller) (token_id : String) (t' : Table)
      → play w t (revoke_own P config pat kc caller token_id) ≡ (ok tt, t')
      → (id : Uuid) × (parse_uuid token_id ≡ some id)
        × (r : Row) × In r t
        × IsHit caller id r
        × In (record r { token = mark_revoked (instant w.now) r.token }) t'
  unfolding revoke_own parsed_id one_row execute
  revoke_own_hits w t caller token_id t' h =
      let (id, parsed, h1) =
        play_lifted w t (parsed_id P config pat kc (parse_uuid token_id)) _ tt t' h in
      let test = revocable pat.realm_issuer caller.subject id in
      let (hit, same) =
        required w (eqb (length (keep test (tokens t))) 1) _
          (update test (mark_revoked (instant w.now)) t) t' h1 in
      let (r, here, e) = found_one test t hit in
      (
        id,
        id_parsed (parse_uuid token_id) id parsed,
        r,
        here,
        revocable_sound caller id r e,
        subst (In (record r { token = mark_revoked (instant w.now) r.token })) same
            (updated test (mark_revoked (instant w.now)) t r here e),
      )
    where
      id_parsed : (o : Option Uuid) (u : Uuid) → parsed_id P config pat kc o ≡ ok u → o ≡ some u
      id_parsed (some v) u e = ap some (cc e)
      id_parsed none u e = absurd (cc e)

  revoked_row :
      (r : PatRecord) (at' now : Time)
      → r.revoked_at ≡ some at'
      → check_row P config pat (some r) now
        ≡ err (oauth (invalid_grant "the personal access token is revoked"))
  unfolding check_row
  revoked_row r at' now h = rw h

  -- The part of `exchange` behind the look-up.
  abbrev from_row : TokenParams → Option PatRecord → Prog (Dict Json)
  from_row p found = do
    now ← time
    r ← lift (check_row P config pat found (instant now))
    entry ← lift (resolve_resource config r p.resource)
    assertion ← sign P pat.signer r.owner_sub entry.issuer
    response ← jwt_bearer_grant pat entry assertion (scope_param r.scopes r.tenant)
    grant P config pat r (instant now) response

  from_row_refused :
      (w : World) (t : Table) (p : TokenParams) (found : Option PatRecord) (e : Exception)
      → check_row P config pat found (instant w.now) ≡ err e
      → play w t (from_row p found) ≡ (err e, t)
  from_row_refused w t p found e h =
      play_raised w t (check_row P config pat found (instant w.now)) _ e h

  -- The exchange of a token whose row is revoked.
  exchange_refused :
      (w : World) (t : Table) (p : TokenParams) (token : String) (r : Row) (at' : Time)
      → IsWellFormed t
      → In r t
      → check_params P config pat p ≡ ok token
      → r.token_hash ≡ token_hash P token
      → r.token.revoked_at ≡ some at'
      → play w t (exchange P config pat p)
        ≡ (err (oauth (invalid_grant "the personal access token is revoked")), t)
  unfolding exchange execute
  exchange_refused w t p token r at' wf here good hash marked =
      let found : first_row (rows (by_hash (token_hash P token) t)) ≡ some r.token =
        rw (← hash) (first_by_hash t r wf.distinct here) in
      rw good (
        from_row_refused w t p (first_row (rows (by_hash (token_hash P token) t))) _ (
          ap (λ o. check_row P config pat o (instant w.now)) found
          ∙ revoked_row r.token at' (instant w.now) marked))

  is_marked : (now : Time) (r : PatRecord) → (mark_revoked now r).revoked_at ≡ some now
  unfolding mark_revoked
  is_marked now r = refl

  -- Once a revocation of the owner's has returned, the token it has hit, which was live and the
  -- caller's own, is never exchanged again: whatever statements of whatever handlers have followed, the
  -- exchange of a token with the hash of that row is refused as revoked, and leaves the table as it is.
  pub revoke-exchange :
      (w w' : World) (t t' u : Table) (caller : Caller) (token_id : String) (later : Reach t' u)
      (p : TokenParams) (token : String) (r : Row)
      → IsWellFormed t
      → play w t (revoke_own P config pat kc caller token_id) ≡ (ok tt, t')
      → In r t
      → parse_uuid token_id ≡ some r.token.id
      → r.token_hash ≡ token_hash P token
      → check_params P config pat p ≡ ok token
      → IsHit caller r.token.id r
        × (play w' u (exchange P config pat p)
            ≡ (err (oauth (invalid_grant "the personal access token is revoked")), u))
  revoke-exchange w w' t t' u caller token_id later p token r wf done here parsed hash good =
      let (id, parsed', x, there, hit, marked) = revoke_own_hits w t caller token_id t' done in
      let same_id : x.token.id ≡ r.token.id =
        hit.id_is ∙ some-injective _ _ (sym parsed' ∙ parsed) in
      let is_r = one_id t x r wf.distinct there here same_id in
      let (r', still, c) =
        Reach-Lasts later (record x { token = mark_revoked (instant w.now) x.token }) marked in
      let reached =
        subst (Reach t) (ap (λ (o : Result (Unit {0}) × Table). o.1) done)
          (play-Reach w t (revoke_own P config pat kc caller token_id)) in
      (
        record {
          id_is = refl;
          realm_is = ap (λ (y : Row). y.token.realm_issuer) (sym is_r) ∙ hit.realm_is;
          owner_is = ap (λ (y : Row). y.token.owner_sub) (sym is_r) ∙ hit.owner_is;
          was_live = ap (λ (y : Row). y.token.revoked_at) (sym is_r) ∙ hit.was_live;
        },
        exchange_refused w' u p token r' (instant w.now)
            (Reach-IsWellFormed (Reach-trans reached later) wf) still good
            (c.hash ∙ ap (λ (y : Row). y.token_hash) is_r ∙ hash)
            (c.stays (instant w.now) (is_marked (instant w.now) x.token)),
      )
