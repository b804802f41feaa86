-- ===== src/Tests/Discovery.antt =====
-- A run of the token endpoint for a grant type that is not announced.
use cimd_proxy.Prelude.{
  ◌≡◌, refl, sym, ◌∙◌, true, false, In, none, some, [], ◌∷◌, contains, contains_iff,
}
use cimd_proxy.Prelude.Dict.{lookup}
use cimd_proxy.Json.{arr, strings}
use cimd_proxy.Token.{TokenParams, dispatch, token_exchange}
use cimd_proxy.Discovery.{discovery}
use cimd_proxy.Discovery.Announced.{IsRefused, discovery_grants, dispatch_unannounced}
use cimd_proxy.Tests.Setup.{platform, config, codec, world}
use cimd_proxy.Tests.Handled.{accented}

abbrev asking : TokenParams
asking = record accented { grant_type = some token_exchange }

exchange_other : contains ("authorization_code" ∷ "refresh_token" ∷ []) token_exchange ≡ false
exchange_other = refl

false-true : ¬ (false ≡ true)
false-true h = cc h

exchange_unlisted : ¬ In token_exchange ("authorization_code" ∷ "refresh_token" ∷ [])
exchange_unlisted m = false-true (
    sym exchange_other
    ∙ (contains_iff ("authorization_code" ∷ "refresh_token" ∷ []) token_exchange).1 m)

lists :
    lookup "grant_types_supported" (discovery config none)
    ≡ some (arr (strings ("authorization_code" ∷ "refresh_token" ∷ [])))
unfolding cimd_proxy.Discovery.extra_grants
lists = discovery_grants config none

dispatch_unannounced_example :
    IsRefused platform codec config (world 9) (dispatch platform codec config none asking)
dispatch_unannounced_example =
    dispatch_unannounced platform codec config (world 9) none asking token_exchange
      ("authorization_code" ∷ "refresh_token" ∷ []) refl lists exchange_unlisted
