-- ===== src/Config/Lookup.antt =====
-- What `resource_by_url` of src/cimd_proxy/config.py finds.
use cimd_proxy.Prelude.{
  String, ◌≡◌, refl, ap, sym, ◌∙◌, ◌⊎◌, inl, inr, ◌≢◌, false, none, some, List, [], ◌∷◌, arith,
  ◌==◌, eq_iff, In, is_truthy, Bool-cases, All, not, ◌&&◌,
}
use cimd_proxy.Errors.{ok, >>=-eq-ok, ok-injective}
use cimd_proxy.Url.{SplitResult, urlsplit, without_path}
use cimd_proxy.Config.{
  ResourceEntry, ProxyConfig, fold_root, normalise_requested_url, entry_with_url, resource_by_url,
}

pub entry_with_url_sound :
    (target : String) (es : List ResourceEntry) (e : ResourceEntry)
    → entry_with_url target es ≡ some e
    → (e.url ≡ target) × In e es
unfolding entry_with_url
entry_with_url_sound target [] e h = absurd (cc h)
entry_with_url_sound target (x ∷ xs) e h = elim (Bool-cases (x.url == target)) [
  | inl same ↦
      let found : x ≡ e = ground (arith, h) in
      ((rw (← found) ((eq_iff x.url target).0 same)), inl (sym found))
  | inr other ↦
      let (url, here) = entry_with_url_sound target xs e (rw other at h) in (url, inr here)
]

-- Nothing is found exactly when no entry has the URL.
entry_with_url-none :
    (target : String) (es : List ResourceEntry)
    → entry_with_url target es ≡ none
    → All (λ (e : ResourceEntry). e.url ≢ target) es
unfolding entry_with_url
entry_with_url-none target [] h = tt
entry_with_url-none target (x ∷ xs) h = elim (Bool-cases (x.url == target)) [
  | inl same ↦ absurd (ground (arith, h))
  | inr other ↦ (ground (arith, eq_iff x.url target), entry_with_url-none target xs (rw other at h))
]

empty_of : (s : String) → is_truthy s ≡ false → s ≡ ""
empty_of String.[] p = refl
empty_of (String.◌∷◌ c s) p = absurd (cc p)

-- A URL whose path is the root, with no query and no fragment.
pub record HasRootPath (url : String) (parts : SplitResult) : Type 0 where
  pub split : urlsplit url ≡ ok parts
  pub path : parts.path ≡ "/"
  pub query : parts.query ≡ ""
  pub fragment : parts.fragment ≡ ""

fold_root_lem :
    (url : String) (parts : SplitResult)
    → urlsplit url ≡ ok parts
    → (fold_root url parts ≡ url)
      ⊎ (HasRootPath url parts × (fold_root url parts ≡ without_path parts))
unfolding fold_root
fold_root_lem url parts e =
    elim (Bool-cases
      (parts.path == "/" && not (is_truthy parts.query) && not (is_truthy parts.fragment))) [
        | inr other ↦ inl (rw other)
        | inl root ↦ inr (
          record {
            split = e;
            path = ground (arith, eq_iff parts.path "/");
            query = empty_of parts.query (ground arith);
            fragment = empty_of parts.fragment (ground arith);
          },
          rw root,
        )
      ]

-- The requested URL is looked up as it stands, or, where it has a root path and no query and no
-- fragment, without that path. Nothing else happens to it.
pub normalise_lem :
    (url target : String)
    → normalise_requested_url url ≡ ok target
    → (target ≡ url)
      ⊎ ((parts : SplitResult) × HasRootPath url parts × (target ≡ without_path parts))
unfolding normalise_requested_url
normalise_lem url target h = elim (Bool-cases (is_truthy url)) [
  | inr empty ↦ inl (sym (ok-injective (rw empty at h)))
  | inl full ↦
      let (parts, e, h') = >>=-eq-ok (urlsplit url) _ (rw full at h) in
      let same = ok-injective h' in
      elim (fold_root_lem url parts e) [
        | inl kept ↦ inl (sym same ∙ kept)
        | inr (root, dropped) ↦ inr (parts, root, sym same ∙ dropped)
      ]
]

-- An entry that `resource_by_url` returns stands in the table, and its URL is the normalised request.
pub resource_by_url_sound :
    (config : ProxyConfig) (url : String) (e : ResourceEntry)
    → resource_by_url config url ≡ ok (some e)
    → In e config.resources × (normalise_requested_url url ≡ ok e.url)
unfolding resource_by_url
resource_by_url_sound config url e h =
    let (target, norm, found) = >>=-eq-ok (normalise_requested_url url) _ h in
    let (same, here) = entry_with_url_sound target config.resources e (ok-injective found) in
    (here, norm ∙ ap ok (sym same))

-- `None` means that no entry of the table has the normalised URL.
pub resource_by_url-none :
    (config : ProxyConfig) (url : String)
    → resource_by_url config url ≡ ok none
    → (target : String) × (normalise_requested_url url ≡ ok target)
      × All (λ (e : ResourceEntry). e.url ≢ target) config.resources
unfolding resource_by_url
resource_by_url-none config url h =
    let (target, norm, found) = >>=-eq-ok (normalise_requested_url url) _ h in
    (target, norm, entry_with_url-none target config.resources (ok-injective found))
