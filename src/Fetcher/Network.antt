-- ===== src/Fetcher/Network.antt =====
-- What the address rules of src/cimd_proxy/fetcher.py guarantee.
use cimd_proxy.Prelude.{
  String, ◌≡◌, refl, sym, ◌⊎◌, inl, inr, false, Option, none, some, List, [], ◌∷◌, ◌++◌, arith, All,
  In, contains, contains_iff, Bool-cases, Option-cases,
}
use mathlib.Core.Path.{subst}
use cimd_proxy.Errors.{ok, >>=-eq-ok, ok-injective}
use cimd_proxy.Fetcher.Addresses.{
  Zones, forbidden_zone, check_zones, without_scope, check_all, check_infos,
}

-- An address outside every forbidden zone.
pub record IsPublic (z : Zones) : Type 0 where
  pub private : z.is_private ≡ false
  pub loopback : z.is_loopback ≡ false
  pub link_local : z.is_link_local ≡ false
  pub reserved : z.is_reserved ≡ false
  pub multicast : z.is_multicast ≡ false
  pub unspecified : z.is_unspecified ≡ false

forbidden_zone-none : (z : Zones) → forbidden_zone z ≡ none → IsPublic z
unfolding forbidden_zone
forbidden_zone-none z h = ground arith

check_zones_sound :
    (host raw : String) (found : Option Zones)
    → check_zones host raw found ≡ ok tt
    → (z : Zones) × (found ≡ some z) × IsPublic z
unfolding check_zones
check_zones_sound host raw none h = absurd (cc h)
check_zones_sound host raw (some z) h = elim (Option-cases (forbidden_zone z)) [
  | inl e ↦ (z, refl, forbidden_zone-none z e)
  | inr (attr, e) ↦ absurd (ground (arith, e))
]

module _ (ip_address : String → Option Zones) where
  -- The text is an address, and a public one.
  abbrev pub IsSafe : String → Type 0
  IsSafe ip = (z : Zones) × (ip_address ip ≡ some z) × IsPublic z

  -- Every address of the result is safe, and every resolved address is in the result.
  record Checked (before resolved ips : List String) : Type 0 where
    safe : All IsSafe ips
    kept : (ip : String) → In ip before → In ip ips
    complete : All (λ ip. In (without_scope ip) ips) resolved
    origin :
        (ip : String)
        → In ip ips
        → In ip before ⊎ ((raw : String) × In raw resolved × (ip ≡ without_scope raw))

  module _ (host : String) where
    In-concat_left : (xs : List String) (y x : String) → In x xs → In x (xs ++ y ∷ [])
    In-concat_left [] y x m = absurd m
    In-concat_left (z ∷ zs) y x (inl e) = inl e
    In-concat_left (z ∷ zs) y x (inr m) = inr (In-concat_left zs y x m)

    In-concat_right : (xs : List String) (y : String) → In y (xs ++ y ∷ [])
    In-concat_right [] y = inl refl
    In-concat_right (z ∷ zs) y = inr (In-concat_right zs y)

    In-concat_cases : (xs : List String) (y x : String) → In x (xs ++ y ∷ []) → In x xs ⊎ (x ≡ y)
    In-concat_cases [] y x (inl e) = inr e
    In-concat_cases [] y x (inr m) = absurd m
    In-concat_cases (z ∷ zs) y x (inl e) = inl (inl e)
    In-concat_cases (z ∷ zs) y x (inr m) = elim (In-concat_cases zs y x m) [
      | inl before ↦ inl (inr before)
      | inr is ↦ inr is
    ]

    All-concat :
        (xs : List String) (y : String) → All IsSafe xs → IsSafe y → All IsSafe (xs ++ y ∷ [])
    All-concat [] y h k = (k, tt)
    All-concat (z ∷ zs) y (here, h) k = (here, All-concat zs y h k)

    check_all_sound :
        (before resolved ips : List String)
        → All IsSafe before
        → check_all ip_address host before resolved ≡ ok ips
        → Checked before resolved ips
    unfolding check_all
    check_all_sound before [] ips safe h =
        let same = ok-injective h in
        record {
          safe = rw same at safe;
          kept = λ ip m. rw same at m;
          complete = tt;
          origin = λ ip m. inl (subst (In ip) (sym same) m);
        }
    check_all_sound before (ip ∷ rest) ips safe h =
        elim (Bool-cases (contains before (without_scope ip))) [
          | inl seen ↦
              let c = check_all_sound before rest ips safe (rw seen at h) in
              record {
                safe = c.safe;
                kept = c.kept;
                complete = (
                  c.kept (without_scope ip) ((contains_iff before (without_scope ip)).0 seen),
                  c.complete,
                );
                origin = λ x m. elim (c.origin x m) [
                  | inl earlier ↦ inl earlier
                  | inr (raw, there, is) ↦ inr (raw, inr there, is)
                ];
              }
          | inr fresh ↦
              let (_, checked, h') =
                >>=-eq-ok (check_zones host (without_scope ip) (ip_address (without_scope ip))) _
                  (rw fresh at h) in
              let here =
                check_zones_sound host (without_scope ip) (ip_address (without_scope ip)) checked in
              let c =
                check_all_sound (before ++ without_scope ip ∷ []) rest ips
                  (All-concat before (without_scope ip) safe here) h' in
              record {
                safe = c.safe;
                kept = λ x m. c.kept x (In-concat_left before (without_scope ip) x m);
                complete = (
                  c.kept (without_scope ip) (In-concat_right before (without_scope ip)),
                  c.complete,
                );
                origin = λ x m. elim (c.origin x m) [
                  | inl earlier ↦ elim (In-concat_cases before (without_scope ip) x earlier) [
                    | inl before' ↦ inl before'
                    | inr is ↦ inr (ip, inl refl, is)
                  ]
                  | inr (raw, there, is) ↦ inr (raw, inr there, is)
                ];
              }
        ]

    -- One address in a forbidden zone fails the whole resolution: where it succeeds, every address that
    -- the name has is in the result, and every address of the result is public.
    pub check_infos-IsSafe :
        (infos ips : List String)
        → check_infos ip_address host (some infos) ≡ ok ips
        → All IsSafe ips × All (λ ip. In (without_scope ip) ips) infos
    unfolding check_infos
    check_infos-IsSafe [] ips h = absurd (cc h)
    check_infos-IsSafe (ip ∷ rest) ips h =
        let c = check_all_sound [] (ip ∷ rest) ips tt h in (c.safe, c.complete)

    -- Every address of the result is one that the name has, without its scope.
    pub check_infos_origin :
        (infos ips : List String)
        → check_infos ip_address host (some infos) ≡ ok ips
        → (ip : String) → In ip ips
        → (raw : String) × In raw infos × (ip ≡ without_scope raw)
    unfolding check_infos
    check_infos_origin [] ips h ip m = absurd (cc h)
    check_infos_origin (x ∷ rest) ips h ip m =
        let c = check_all_sound [] (x ∷ rest) ips tt h in
        elim (c.origin ip m) [ inl nothing ↦ absurd nothing | inr found ↦ found ]

    -- A name that does not resolve is refused.
    pub check_infos-none : (ips : List String) → check_infos ip_address host none ≡ ok ips → ⊥
    unfolding check_infos
    check_infos-none ips h = cc h
