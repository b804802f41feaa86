-- ===== src/Discovery/Announced.antt =====
-- The discovery document and the endpoint that it describes: src/cimd_proxy/discovery.py with
-- src/cimd_proxy/token.py.
use mathlib.Core.Path.{subst}
use cimd_proxy.Prelude.{
  String, ◌≡◌, refl, sym, ap, ◌∙◌, inl, inr, true, false, Bool, Option, none, some, List, [], ◌∷◌,
  In, Bool-cases, found_is, is_truthy, or_else, eq_iff, arith, is_empty,
}
use cimd_proxy.Prelude.Dict.{Dict, lookup, insert}
use cimd_proxy.Json.{Json, Items, arr, nil, strings, all_strings, all_strings-strings}
use cimd_proxy.Errors.{OAuthError, err, oauth}
use cimd_proxy.Effects.{World, run, sent, Prog}
use cimd_proxy.Platform.{Platform}
use cimd_proxy.Config.{ProxyConfig}
use cimd_proxy.Codec.{EnvelopeCodec}
use cimd_proxy.Http.{HttpResponse}
use cimd_proxy.Token.{TokenParams, token_exchange, dispatch, exchange_or_refuse, refuse_grant}
use cimd_proxy.Discovery.{build_discovery_document, base_document, discovery, extra_grants}

abbrev texts : Option (List String) → List String
texts (some ss) = ss
texts none = []

pub discovery_grants :
    (config : ProxyConfig) (exchange : Option (TokenParams → Prog (Dict Json)))
    → lookup "grant_types_supported" (discovery config exchange)
      ≡ some (arr (strings ("authorization_code" ∷ "refresh_token" ∷ extra_grants exchange)))
unfolding discovery build_discovery_document base_document lookup insert
discovery_grants config exchange = elim (Bool-cases (is_empty config.scopes_supported)) [
  | inl none_known ↦ rw none_known refl
  | inr known ↦ rw known refl
]

strings-injective : (xs ys : List String) → strings xs ≡ strings ys → xs ≡ ys
strings-injective xs ys h =
    ap texts (sym (all_strings-strings xs) ∙ ap all_strings h ∙ all_strings-strings ys)

abbrev arr_items : Option Json → Items
arr_items (some (arr vs)) = vs
arr_items _ = nil

found_is-other : (o : Option String) (g x : String) → o ≡ some g → ¬ (g ≡ x) → found_is o x ≡ false
found_is-other o g x asked h = rw asked (ground (arith, eq_iff g x))

module _ (P : Platform) (codec : EnvelopeCodec) (config : ProxyConfig) (w : World) where
  pub IsRefused : Prog HttpResponse → Type 0
  IsRefused m = (e : OAuthError) × (run w m ≡ err (oauth e)) × (sent w m ≡ [])

  refuse_grant-IsRefused :
      (pat : Bool) (g : Option String) → IsRefused (refuse_grant P codec config pat g)
  unfolding refuse_grant IsRefused
  refuse_grant-IsRefused pat g = elim (Bool-cases (is_truthy (or_else g ""))) [
    | inl named ↦ rw named (_, refl, refl)
    | inr missing ↦ rw missing (_, refl, refl)
  ]

  -- The rest of the endpoint's choice, once neither grant of the proxy itself is asked for.
  exchange_or_refuse-IsRefused :
      (exchange : Option (TokenParams → Prog (Dict Json))) (p : TokenParams) (g : String)
      → p.grant_type ≡ some g
      → ¬ In g (extra_grants exchange)
      → IsRefused (exchange_or_refuse P codec config exchange p)
  unfolding exchange_or_refuse extra_grants
  exchange_or_refuse-IsRefused none p g asked missing = refuse_grant-IsRefused false p.grant_type
  exchange_or_refuse-IsRefused (some exchange) p g asked missing =
      rw (found_is-other p.grant_type g token_exchange asked (λ e. missing (inl e)))
        (refuse_grant-IsRefused true p.grant_type)

  -- A grant type that the discovery document does not list is refused with an OAuth error, and no
  -- request is sent.
  pub dispatch_unannounced :
      (exchange : Option (TokenParams → Prog (Dict Json))) (p : TokenParams) (g : String)
      (gs : List String)
      → p.grant_type ≡ some g
      → lookup "grant_types_supported" (discovery config exchange) ≡ some (arr (strings gs))
      → ¬ In g gs
      → IsRefused (dispatch P codec config exchange p)
  unfolding dispatch
  dispatch_unannounced exchange p g gs asked lists missing =
      let same =
        strings-injective gs ("authorization_code" ∷ "refresh_token" ∷ extra_grants exchange)
          (ap arr_items (sym lists ∙ discovery_grants config exchange)) in
      let outside = subst (λ xs. ¬ In g xs) same missing in
      rw
        (
          found_is-other p.grant_type g "authorization_code" asked (λ e. outside (inl e)),
          found_is-other p.grant_type g "refresh_token" asked (λ e. outside (inr (inl e))),
        )
        (exchange_or_refuse-IsRefused exchange p g asked (λ m. outside (inr (inr m))))
