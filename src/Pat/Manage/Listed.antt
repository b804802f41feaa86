-- ===== src/Pat/Manage/Listed.antt =====
-- What the listing of src/cimd_proxy/pat.py returns.
use mathlib.Core.List.{Perm}
use cimd_proxy.Prelude.{◌≡◌, refl, ◌&&◌, ◌||◌, List, ◌==◌, eqb, leb, ltb, keep}
use cimd_proxy.Prelude.Sort.{IsSorted, sort-perm, sort-IsSorted}
use cimd_proxy.Errors.{ok}
use cimd_proxy.Effects.{World}
use cimd_proxy.Platform.{Platform}
use cimd_proxy.Config.{ProxyConfig, PatConfig}
use cimd_proxy.Keycloak.{KeycloakClient, Caller}
use cimd_proxy.Pat.Record.{PatRecord}
use cimd_proxy.Pat.Table.{Table, tokens, execute, owned, precedes, ordered}
use cimd_proxy.Pat.Table.Find.{precedes_total}
use cimd_proxy.Pat.Table.Play.{play}
use cimd_proxy.Pat.Manage.{list_own, listed}

module _ (P : Platform) (config : ProxyConfig) (pat : PatConfig) (kc : KeycloakClient)
    (w : World) where
  -- A caller's listing succeeds and changes nothing. It has exactly the tokens of the table whose realm
  -- is the configuration's and whose owner is the caller's subject, each as often as it stands there,
  -- by creation time and, at the same time, by id.
  pub list_own_lem :
      (caller : Caller) (t : Table)
      → (rs : List PatRecord) × (play w t (list_own P config pat kc caller) ≡ (ok rs, t))
        × Perm rs (
            keep
              (λ r. r.realm_issuer == pat.realm_issuer && r.owner_sub == caller.subject)
              (tokens t))
        × IsSorted
            (λ a b.
              ltb a.created_at b.created_at || (eqb a.created_at b.created_at && leb a.id b.id))
            rs
  unfolding list_own listed execute ordered owned precedes
  list_own_lem caller t =
      let mine = keep (owned pat.realm_issuer caller.subject) (tokens t) in
      (ordered mine, refl, sort-perm precedes mine, sort-IsSorted precedes precedes_total mine)
