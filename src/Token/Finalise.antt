-- ===== src/Token/Finalise.antt =====
-- What becomes of an upstream token response: `_finalise_upstream_response` of
-- src/cimd_proxy/token.py.
use cimd_proxy.Prelude.{
  ◌≤◌, ◌<◌, String, ◌≡◌, refl, sym, ◌∙◌, ◌≢◌, true, false, Option, none, some, [], arith, ◌==◌,
  eq_iff, leb, Bool-cases, inl, inr,
}
use cimd_proxy.Prelude.Dict.{Dict, lookup, insert, lookup-insert}
use cimd_proxy.Json.{Json, null, bool, int, float, str, arr, obj, fields, object, Fields}
use cimd_proxy.Errors.{ok}
use cimd_proxy.Effects.{World, run, sent, Response}
use cimd_proxy.Effects.Silent.{silent-bind}
use cimd_proxy.Platform.{Platform, IsLawful, ReadsBack}
use cimd_proxy.Envelope.{RefreshEnvelope, payload, refresh}
use cimd_proxy.Codec.{EnvelopeCodec, pack, open_refresh}
use cimd_proxy.Codec.RoundTrip.{open_refresh-pack}
use cimd_proxy.Http.{json_response}
use cimd_proxy.Token.{payload_of, seal_refresh, finalise_upstream_response}

module _ (P : Platform) (codec : EnvelopeCodec) (w : World) where
  payload_of_silent : (v : Option Json) → sent w (payload_of v) ≡ []
  unfolding payload_of
  payload_of_silent none = refl
  payload_of_silent (some (obj fs)) = refl
  payload_of_silent (some null) = refl
  payload_of_silent (some (bool b)) = refl
  payload_of_silent (some (int n)) = refl
  payload_of_silent (some (float s)) = refl
  payload_of_silent (some (str s)) = refl
  payload_of_silent (some (arr vs)) = refl

  seal_refresh_silent :
      (resource : String) (d : Dict Json) (v : Option Json)
      → sent w (seal_refresh P codec resource d v) ≡ []
  unfolding seal_refresh pack
  seal_refresh_silent resource d none = refl
  seal_refresh_silent resource d (some v) = refl

  pub finalise_silent :
      (r : Response) (resource : String)
      → sent w (finalise_upstream_response P codec r resource) ≡ []
  unfolding finalise_upstream_response
  finalise_silent r resource = silent-bind w (payload_of r.json) _ (payload_of_silent r.json) λ d.
      elim (Bool-cases (leb 400 r.status_code)) [
        | inl refused ↦ rw refused
        | inr taken ↦ rw taken (
            silent-bind w (seal_refresh P codec resource d (lookup "refresh_token" d)) _
              (seal_refresh_silent resource d (lookup "refresh_token" d)) (λ x. refl))
      ]

  -- An upstream error, which is a JSON object with a status from 400 on, goes to the client with
  -- its status and its fields unchanged.
  pub finalise_error :
      (r : Response) (resource : String) (fs : Fields)
      → r.json ≡ some (obj fs)
      → 400 ≤ r.status_code
      → run w (finalise_upstream_response P codec r resource)
        ≡ ok (json_response r.status_code (object (fields fs)) [])
  unfolding finalise_upstream_response payload_of
  finalise_error r resource fs json refused =
      let test : leb 400 r.status_code ≡ true = ground arith in rw (json, test)

  -- A success without a refresh token goes to the client with its fields unchanged.
  pub finalise_plain :
      (r : Response) (resource : String) (fs : Fields)
      → r.json ≡ some (obj fs)
      → r.status_code < 400
      → lookup "refresh_token" (fields fs) ≡ none
      → run w (finalise_upstream_response P codec r resource)
        ≡ ok (json_response 200 (object (fields fs)) [])
  unfolding finalise_upstream_response payload_of seal_refresh
  finalise_plain r resource fs json taken absent =
      let test : leb 400 r.status_code ≡ false = ground arith in rw (json, test, absent)

  -- What the client receives in place of a payload with a refresh token.
  pub record IsSealed (w' : World) (resource : String) (token : Json) (before after : Dict Json)
      : Type 0 where
    pub sealed : String
    pub replaced : lookup "refresh_token" after ≡ some (str sealed)
    pub opens :
        run w' (open_refresh P codec sealed)
        ≡ ok (record { resource = resource; upstream_refresh_token = token })
    pub others : (key : String) → key ≢ "refresh_token" → lookup key after ≡ lookup key before

  -- Where the platform is lawful and the JSON of the new envelope reads back, an upstream response
  -- with a status below 400 and a JSON object with a refresh token reaches the client with another refresh token, which opens at
  -- any time to the resource and the upstream's token, and with every other field unchanged.
  pub finalise-IsSealed :
      IsLawful P
      → (w' : World) (r : Response) (resource : String) (token : Json) (fs : Fields)
      → ReadsBack P (
          object
            (payload (refresh (record { resource = resource; upstream_refresh_token = token }))))
      → r.json ≡ some (obj fs)
      → r.status_code < 400
      → lookup "refresh_token" (fields fs) ≡ some token
      → (d : Dict Json) × (run w (finalise_upstream_response P codec r resource)
          ≡ ok (json_response 200 (object d) []))
        × IsSealed w' resource token (fields fs) d
  unfolding finalise_upstream_response payload payload_of seal_refresh pack
  finalise-IsSealed lawful w' r resource token fs reads json taken there =
      let test : leb 400 r.status_code ≡ false = ground arith in
      let e : RefreshEnvelope = record { resource = resource; upstream_refresh_token = token } in
      let s = P.encrypt codec.key w.now w.noise (P.dumps (object (payload (refresh e)))) in
      (
        insert "refresh_token" (str s) (fields fs),
        rw (json, test, there) refl,
        record {
          sealed = s;
          replaced = lookup-insert "refresh_token" "refresh_token" (str s) (fields fs);
          opens = open_refresh-pack P lawful codec e reads w w' s refl;
          others = λ key other.
              let flipped : "refresh_token" ≢ key = λ e. other (sym e) in
              let differ : ("refresh_token" == key) ≡ false =
                ground (arith, eq_iff "refresh_token" key) in
              lookup-insert "refresh_token" key (str s) (fields fs) ∙ rw differ;
        },
      )
