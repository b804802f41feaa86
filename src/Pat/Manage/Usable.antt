-- ===== src/Pat/Manage/Usable.antt =====
-- A token that `create` of src/cimd_proxy/pat.py has made, when `exchange` looks it up.
use mathlib.Core.Path.{subst}
use cimd_proxy.Prelude.{
  ℕ, ◌<◌, String, ◌≡◌, refl, sym, ap, ◌∙◌, ◌⊎◌, inl, inr, true, false, none, some, List, arith, In,
  Option-cases, is_truthy, leb, ◌==◌, eq_refl,
}
use cimd_proxy.Errors.{Result, ok, err, oauth, invalid_grant}
use cimd_proxy.Effects.{World}
use cimd_proxy.Platform.{Platform}
use cimd_proxy.Config.{ProxyConfig, PatConfig}
use cimd_proxy.Keycloak.{KeycloakClient, Caller}
use cimd_proxy.Pat.Record.{PatRecord, Time, rows, find_by_hash}
use cimd_proxy.Pat.Format.{token_hash}
use cimd_proxy.Pat.Table.{Table, execute, new_row, passes_checks}
use cimd_proxy.Pat.Table.Play.{play}
use cimd_proxy.Pat.Table.Reach.{Reach, Reach-trans, play-Reach}
use cimd_proxy.Pat.Table.WellFormed.{IsWellFormed, Reach-IsWellFormed}
use cimd_proxy.Pat.Table.Lasting.{Reach-Lasts}
use cimd_proxy.Pat.Table.Find.{by_hash, first_by_hash}
use cimd_proxy.Pat.Create.{CreateRequest}
use cimd_proxy.Pat.Exchange.{first_row, check_row}
use cimd_proxy.Pat.Manage.{create, new_record}
use cimd_proxy.Pat.Manage.Created.{IsCreated, create-IsCreated}

module _ (P : Platform) (config : ProxyConfig) (pat : PatConfig) (kc : KeycloakClient) where
  live_row :
      (r : PatRecord) (now : Time)
      → r.revoked_at ≡ none
      → now < r.expires_at
      → r.realm_issuer ≡ pat.realm_issuer
      → is_truthy r.tenant ≡ true
      → check_row P config pat (some r) now ≡ ok r
  unfolding check_row
  live_row r now live early realm bound =
      let late : leb r.expires_at now ≡ false = ground arith in
      let same : (r.realm_issuer == pat.realm_issuer) ≡ true =
        rw realm (eq_refl pat.realm_issuer) in
      rw (live, late, same, bound)

  revoked_row :
      (r : PatRecord) (at' now : Time)
      → r.revoked_at ≡ some at'
      → check_row P config pat (some r) now
        ≡ err (oauth (invalid_grant "the personal access token is revoked"))
  unfolding check_row
  revoked_row r at' now h = rw h

  checked_tenant :
      (r : PatRecord) (hash : List ℕ)
      → passes_checks (new_row r hash) ≡ true
      → is_truthy r.tenant ≡ true
  unfolding passes_checks new_row
  checked_tenant r hash h = ground arith

  new_realm :
      (caller : Caller) (request : CreateRequest) (w : World) (t t' : Table) (r : PatRecord)
      (token : String)
      → IsCreated P config pat kc w caller request t t' r token
      → r.realm_issuer ≡ pat.realm_issuer
  unfolding new_record
  new_realm caller request w t t' r token c = ap (λ (x : PatRecord). x.realm_issuer) c.recorded

  -- What the look-up of `exchange` makes of the row of a token, at an instant.
  pub record IsFound (u : Table) (now : Time) (made : PatRecord) (token : String) (r : PatRecord)
      : Type 0 where
    pub found : first_row (execute now (find_by_hash (token_hash P token)) u).0 ≡ some r
    pub same : r ≡ record made { last_used_at = r.last_used_at; revoked_at = r.revoked_at }
    pub verdict :
        ((r.revoked_at ≡ none) × (check_row P config pat (some r) now ≡ ok r))
        ⊎ ((at' : Time) × (r.revoked_at ≡ some at')
            × (check_row P config pat (some r) now
                ≡ err (oauth (invalid_grant "the personal access token is revoked"))))

  -- Whatever statements follow a creation, up to the end of its lifetime the token that it returned
  -- is found by its hash with the columns it was created with, and the checks of the exchange let it
  -- through unless it has been revoked.
  pub create-IsFound :
      (w : World) (caller : Caller) (request : CreateRequest) (t t' u : Table)
      (made : PatRecord × String) (later : Reach t' u) (now : Time)
      → IsWellFormed t
      → play w t (create P config pat kc caller request) ≡ (ok made, t')
      → now < made.0.expires_at
      → (r : PatRecord) × IsFound u now made.0 made.1 r
  unfolding execute new_row
  create-IsFound w caller request t t' u made later now wf done early =
      let c = create-IsCreated P config pat kc w caller request t t' made done in
      let row = new_row made.0 (token_hash P made.1) in
      let (r', still, k) = Reach-Lasts later row (subst (In row) (sym c.stored) (inl refl)) in
      let reached =
        subst (Reach t) (ap (λ (o : Result (PatRecord × String) × Table). o.1) done)
          (play-Reach w t (create P config pat kc caller request)) in
      let wf' = Reach-IsWellFormed (Reach-trans reached later) wf in
      let realm = new_realm caller request w t t' made.0 made.1 c in
      let bound = checked_tenant made.0 (token_hash P made.1) c.checked in
      (
        r'.token,
        record {
          found =
              subst (λ hash. first_row (rows (by_hash hash u)) ≡ some r'.token) k.hash
                (first_by_hash u r' wf'.distinct still);
          same = k.same;
          verdict = elim (Option-cases r'.token.revoked_at) [
            | inl live ↦ inl (
              live,
              live_row r'.token now live (rw (ap (λ (x : PatRecord). x.expires_at) k.same) early)
                  (ap (λ (x : PatRecord). x.realm_issuer) k.same ∙ realm)
                  (rw (ap (λ (x : PatRecord). x.tenant) k.same) bound),
            )
            | inr (at', gone) ↦ inr (at', gone, revoked_row r'.token at' now gone)
          ];
        },
      )
