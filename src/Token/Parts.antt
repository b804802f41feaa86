-- ===== src/Token/Parts.antt =====
-- The steps that the grants of src/cimd_proxy/token.py share.
use cimd_proxy.Prelude.{String, ◌≡◌, refl, ap, Option, none, some, [], ◌∷◌}
use cimd_proxy.Prelude.Dict.{Dict}
use cimd_proxy.Errors.{Result, ok, err, envelope_error, ok-injective}
use cimd_proxy.Effects.{World, run, sent, Prog, ◌>>=◌, Reply, Response, failed, answered}
use cimd_proxy.Config.{ResourceEntry}
use cimd_proxy.Http.{HttpResponse}
use cimd_proxy.Token.{opened, configured, post, reply_or_error, post_form}

pub opened_sound {ℓ} :
    {A : Type ℓ} (w : World) (wording : String → String) (r : Result A) (a : A)
    → run w (opened wording r) ≡ ok a
    → r ≡ ok a
unfolding opened
opened_sound w wording (ok a) b h = h
opened_sound w wording (err (envelope_error m)) b h = absurd (cc h)
opened_sound w wording (err e) b h = absurd (cc h)

pub opened_silent {ℓ} :
    {A : Type ℓ} (w : World) (wording : String → String) (r : Result A)
    → sent w (opened wording r) ≡ []
unfolding opened
opened_silent w wording (ok a) = refl
opened_silent w wording (err (envelope_error m)) = refl
opened_silent w wording (err e) = refl

pub configured_sound :
    (w : World) (resource what : String) (found : Option ResourceEntry) (entry : ResourceEntry)
    → run w (configured resource what found) ≡ ok entry
    → found ≡ some entry
unfolding configured
configured_sound w resource what none entry h = absurd (cc h)
configured_sound w resource what (some x) entry h = ap some (ok-injective h)

pub configured_silent :
    (w : World) (resource what : String) (found : Option ResourceEntry)
    → sent w (configured resource what found) ≡ []
unfolding configured
configured_silent w resource what none = refl
configured_silent w resource what (some x) = refl

reply_silent :
    (w : World) (r : Reply) (k : Response → Prog HttpResponse)
    → ((r : Response) → sent w (k r) ≡ [])
    → sent w (reply_or_error r >>= k) ≡ []
unfolding reply_or_error
reply_silent w (failed m) k silent = refl
reply_silent w (answered r) k silent = silent r

pub posted :
    (w : World) (url : String) (fields : Dict String) (k : Response → Prog HttpResponse)
    → ((r : Response) → sent w (k r) ≡ [])
    → sent w (post_form url fields >>= k) ≡ post url fields ∷ []
unfolding post_form
posted w url fields k silent =
    ap (◌∷◌ (post url fields)) (reply_silent w (w.upstream (post url fields)) k silent)
