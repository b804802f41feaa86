-- ===== src/Pat/Manage/Scopes.antt =====
-- Which scopes `_granted_scopes` of src/cimd_proxy/pat.py gives a new token.
use mathlib.Core.Path.{subst}
use cimd_proxy.Prelude.{
  String, ◌≡◌, sym, ◌⊎◌, inl, inr, true, false, not, List, [], ◌∷◌, arith, All, In, All-from,
  In-keep, Bool-cases, is_empty, keep, contains, contains_iff,
}
use cimd_proxy.Errors.{ok, ok-injective}
use cimd_proxy.Effects.{World, run}
use cimd_proxy.Effects.Laws.{bind-eq-ok, lift_bind-eq-ok}
use cimd_proxy.Effects.Silent.{require_bind-eq-ok}
use cimd_proxy.Platform.{Platform}
use cimd_proxy.Config.{ProxyConfig, PatConfig, ResourceEntry}
use cimd_proxy.Keycloak.{KeycloakClient, Caller}
use cimd_proxy.Pat.Create.{CreateRequest}
use cimd_proxy.Pat.Create.Accepted.{offered_sound}
use cimd_proxy.Pat.Manage.{entry_of, trial_exchange, check_named, narrow, granted_scopes}

module _ (P : Platform) (config : ProxyConfig) (pat : PatConfig) (kc : KeycloakClient)
    (w : World) where
  -- A trial exchange at the resource has granted each of the scopes.
  pub record Carries (caller : Caller) (tenant : String) (scopes : List String) (url : String)
      : Type 0 where
    pub entry : ResourceEntry
    pub asked : List String
    pub granted : List String
    pub known : entry_of P config pat kc url ≡ ok entry
    pub tried : run w (trial_exchange P config pat kc caller entry asked tenant) ≡ ok granted
    pub whole : All (λ s. In s granted) scopes

  check_named_sound :
      (caller : Caller) (scopes : List String) (tenant : String) (urls : List String)
      → run w (check_named P config pat kc caller scopes tenant urls) ≡ ok tt
      → All (Carries caller tenant scopes) urls
  unfolding check_named
  check_named_sound caller scopes tenant [] h = tt
  check_named_sound caller scopes tenant (url ∷ urls) h =
      let (entry, known, h1) = lift_bind-eq-ok w (entry_of P config pat kc url) _ h in
      let (granted, tried, h2) =
        bind-eq-ok w (trial_exchange P config pat kc caller entry scopes tenant) _ h1 in
      let (none_missing, h3) =
        require_bind-eq-ok w (is_empty (keep (λ s. not (contains granted s)) scopes)) _ _ h2 in
      (
        record {
          entry = entry;
          asked = scopes;
          granted = granted;
          known = known;
          tried = tried;
          whole = offered_sound granted scopes none_missing;
        },
        check_named_sound caller scopes tenant urls h3,
      )

  narrow_sound :
      (caller : Caller) (tenant : String) (urls permitted scopes : List String)
      → run w (narrow P config pat kc caller tenant urls permitted) ≡ ok scopes
      → ((s : String) → In s scopes → In s permitted) × All (Carries caller tenant scopes) urls
  unfolding narrow
  narrow_sound caller tenant [] permitted scopes h = (λ s m. rw (ok-injective h) m, tt)
  narrow_sound caller tenant (url ∷ urls) permitted scopes h =
      let (entry, known, h1) = lift_bind-eq-ok w (entry_of P config pat kc url) _ h in
      let (granted, tried, h2) =
        bind-eq-ok w (trial_exchange P config pat kc caller entry permitted tenant) _ h1 in
      let (within, others) =
        narrow_sound caller tenant urls (keep (λ s. contains granted s) permitted) scopes h2 in
      (
        λ s m. (In-keep (λ s. contains granted s) permitted s (within s m)).0,
        (
          record {
            entry = entry;
            asked = permitted;
            granted = granted;
            known = known;
            tried = tried;
            whole = All-from scopes (λ s m.
                (contains_iff granted s).0
                  (In-keep (λ s. contains granted s) permitted s (within s m)).1);
          },
          others,
        ),
      )

  -- Every resource that the request names carries every scope, which are those that the request
  -- names, or, where it asks for all, some that are offered.
  pub record IsGranted (caller : Caller) (request : CreateRequest) (tenant : String)
      (scopes : List String) : Type 0 where
    pub carried : All (Carries caller tenant scopes) request.resources
    pub chosen :
        ((request.all_permitted_scopes ≡ false) × (scopes ≡ request.scopes))
        ⊎ ((request.all_permitted_scopes ≡ true)
            × (is_empty scopes ≡ false)
            × All (λ s. In s pat.scopes) scopes)

  pub granted_sound :
      (caller : Caller) (request : CreateRequest) (tenant : String) (scopes : List String)
      → run w (granted_scopes P config pat kc caller request tenant) ≡ ok scopes
      → IsGranted caller request tenant scopes
  unfolding granted_scopes
  granted_sound caller request tenant scopes h = elim (Bool-cases request.all_permitted_scopes) [
    | inr named ↦
        let (_, tried, h1) =
          bind-eq-ok w (check_named P config pat kc caller request.scopes tenant request.resources)
            _ (rw named at h) in
        let same = ok-injective h1 in
        record {
          carried =
              subst (λ ss. All (Carries caller tenant ss) request.resources) same
                (check_named_sound caller request.scopes tenant request.resources tried);
          chosen = inl (named, sym same);
        }
    | inl all_of ↦
        let (permitted, tried, h1) =
          bind-eq-ok w (narrow P config pat kc caller tenant request.resources pat.scopes) _
            (rw all_of at h) in
        let (some_left, h2) = require_bind-eq-ok w (not (is_empty permitted)) _ _ h1 in
        let same = ok-injective h2 in
        let (within, others) =
          narrow_sound caller tenant request.resources pat.scopes permitted tried in
        record {
          carried = subst (λ ss. All (Carries caller tenant ss) request.resources) same others;
          chosen = inr (
            all_of,
            subst (λ ss. is_empty ss ≡ false) same (ground arith),
            subst (All (λ s. In s pat.scopes)) same (All-from permitted within),
          );
        }
  ]
