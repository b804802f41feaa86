-- ===== src/Codec/RoundTrip.antt =====
-- A sealed envelope opens as itself and as nothing else: src/cimd_proxy/envelope.py.
use cimd_proxy.Prelude.{
  ℕ, ◌+◌, ◌≤◌, ◌<◌, String, ◌<>◌, ◌≡◌, refl, ◌≢◌, ◌∙◌, true, false, none, some, arith, ◌==◌, eq_iff,
  eq_refl, repr, repr_option, [], ◌∷◌, ap, all_chars, leb, Option, Bool-cases, ◌⊎◌, inl, inr,
}
use cimd_proxy.Prelude.Dict.{Dict, lookup}
use cimd_proxy.Json.{Json, object, str, to_fields, fields}
use cimd_proxy.Errors.{ok, err, ok-injective, envelope_error}
use cimd_proxy.Effects.{World, run, ret, throw}
use cimd_proxy.Effects.Laws.{run-bind}
use cimd_proxy.Platform.{Platform, IsLawful, ReadsBack, is_ascii_char}
use cimd_proxy.Envelope.{
  Envelope, AuthorizeEnvelope, CodeEnvelope, RefreshEnvelope, RegistrationEnvelope, authorize, code,
  refresh, registration, payload, tag,
}
use cimd_proxy.Envelope.Decode.{
  decode_authorize-payload, decode_code-payload, decode_refresh-payload,
  decode_registration-payload,
}
use cimd_proxy.Codec.{
  EnvelopeCodec, pack, open_payload, open_authorize, open_code, open_refresh, open_registration,
  check_blob,
}

lookup-tag : (env : Envelope) → lookup "tag" (payload env) ≡ some (str (tag env))
unfolding lookup payload
lookup-tag (authorize e) = refl
lookup-tag (code e) = refl
lookup-tag (refresh e) = refl
lookup-tag (registration e) = refl

fields-to_fields : (d : Dict Json) → fields (to_fields d) ≡ d
fields-to_fields [] = refl
fields-to_fields ((k, v) ∷ d) = rw (fields-to_fields d)

module _ (P : Platform) (lawful : IsLawful P) (c : EnvelopeCodec) (env : Envelope)
    (reads : ReadsBack P (object (payload env))) where
  -- The token of the envelope, made at a time and with an initialisation vector.
  abbrev pub sealed : ℕ → ℕ → String
  sealed now iv = P.encrypt c.key now iv (P.dumps (object (payload env)))

  sealed_ascii : (made iv : ℕ) → all_chars is_ascii_char (sealed made iv) ≡ true
  sealed_ascii made iv =
      lawful.encrypt_ascii c.key made iv (P.dumps (object (payload env))) (lawful.dumps_ascii _)

  check_blob_self :
      check_blob P c (tag env) (some (P.dumps (object (payload env)))) ≡ ret (payload env)
  unfolding check_blob
  check_blob_self = rw (reads, fields-to_fields, lookup-tag env, eq_refl)

  check_blob_other :
      (expected : String)
      → tag env ≢ expected
      → check_blob P c expected (some (P.dumps (object (payload env))))
        ≡ throw (
            envelope_error (
              "envelope tag mismatch (expected "
              <> repr expected
              <> ", got "
              <> repr (tag env)
              <> ")"))
  unfolding check_blob repr_option
  check_blob_other expected other =
      let differ : (tag env == expected) ≡ false = ground (arith, eq_iff (tag env) expected) in
      rw (reads, fields-to_fields, lookup-tag env, differ)

  -- An envelope without a time to live opens at any time.
  open_payload_any :
      (made iv : ℕ) → open_payload P c (sealed made iv) (tag env) none ≡ ret (payload env)
  unfolding open_payload
  open_payload_any made iv = rw (sealed_ascii made iv, lawful.decrypt-encrypt) check_blob_self

  open_payload_live :
      (w : World) (made iv ttl : ℕ)
      → made ≤ w.now
      → w.now ≤ made + ttl
      → run w (open_payload P c (sealed made iv) (tag env) (some ttl)) ≡ ok (payload env)
  unfolding open_payload
  open_payload_live w made iv ttl begun live = rw (sealed_ascii made iv) (
      ap (λ o. run w (check_blob P c (tag env) o))
        (lawful.decrypt-encrypt_live c.key made iv ttl w.now _ begun live)
      ∙ ap (run w) check_blob_self)

  open_payload_stale :
      (w : World) (made iv ttl : ℕ) (expected : String)
      → made + ttl < w.now
      → run w (open_payload P c (sealed made iv) expected (some ttl))
        ≡ err (envelope_error "envelope invalid or expired")
  unfolding open_payload check_blob
  open_payload_stale w made iv ttl expected stale = rw (sealed_ascii made iv) (
      ap (λ o. run w (check_blob P c expected o))
        (lawful.decrypt-encrypt_stale c.key made iv ttl w.now _ stale))

  -- Where the platform is lawful and the envelope's JSON reads back, a sealed envelope that is
  -- opened as another kind than its own, at its making or later, is refused whether or not the
  -- opening has a time to live: with an error that names both tags or, where a time to live is
  -- given and over, as expired.
  pub open_payload_other :
      (w : World) (made iv : ℕ) (expected : String) (ttl : Option ℕ)
      → made ≤ w.now
      → tag env ≢ expected
      → (run w (open_payload P c (sealed made iv) expected ttl)
          ≡ err (
              envelope_error (
                "envelope tag mismatch (expected "
                <> repr expected
                <> ", got "
                <> repr (tag env)
                <> ")")))
        ⊎ ((seconds : ℕ) × (ttl ≡ some seconds)
            × (made + seconds < w.now)
            × (run w (open_payload P c (sealed made iv) expected ttl)
                ≡ err (envelope_error "envelope invalid or expired")))
  unfolding open_payload
  open_payload_other w made iv expected none begun other = inl (
      rw (sealed_ascii made iv, lawful.decrypt-encrypt)
        (ap (run w) (check_blob_other expected other)))
  open_payload_other w made iv expected (some seconds) begun other =
      elim (Bool-cases (leb w.now (made + seconds))) [
        | inl live ↦ inl (
            rw (sealed_ascii made iv) (
              ap (λ o. run w (check_blob P c expected o))
                (lawful.decrypt-encrypt_live c.key made iv seconds w.now _ begun (ground arith))
              ∙ ap (run w) (check_blob_other expected other)))
        | inr stale ↦ inr (
          seconds,
          refl,
          ground arith,
          open_payload_stale w made iv seconds expected (ground arith),
        )
      ]

  pub run-pack : (w : World) → run w (pack P c env) ≡ ok (sealed w.now w.noise)
  unfolding pack
  run-pack w = refl

module _ (P : Platform) (lawful : IsLawful P) (c : EnvelopeCodec) where
  -- Where the platform is lawful and the envelope's JSON reads back, a sealed state opens as itself,
  -- with every field, from its second on and up to ten minutes later.
  pub open_authorize-pack :
      (e : AuthorizeEnvelope)
      → ReadsBack P (object (payload (authorize e)))
      → (w w' : World) (token : String) → run w (pack P c (authorize e)) ≡ ok token
      → w.now ≤ w'.now
      → w'.now ≤ w.now + 600
      → run w' (open_authorize P c token) ≡ ok e
  unfolding open_authorize pack
  open_authorize-pack e reads w w' token made begun live = rw (← (ok-injective made)) (
      run-bind w'
        (open_payload P c (sealed P lawful c (authorize e) reads w.now w.noise) "az" (some 600)) _
      ∙ rw (open_payload_live P lawful c (authorize e) reads w' w.now w.noise 600 begun live)
          (rw (decode_authorize-payload e)))

  -- After ten minutes it is refused.
  pub open_authorize-pack_stale :
      (e : AuthorizeEnvelope)
      → ReadsBack P (object (payload (authorize e)))
      → (w w' : World) (token : String) → run w (pack P c (authorize e)) ≡ ok token
      → w.now + 600 < w'.now
      → run w' (open_authorize P c token) ≡ err (envelope_error "envelope invalid or expired")
  unfolding open_authorize pack
  open_authorize-pack_stale e reads w w' token made stale = rw (← (ok-injective made)) (
      run-bind w'
        (open_payload P c (sealed P lawful c (authorize e) reads w.now w.noise) "az" (some 600)) _
      ∙ rw (open_payload_stale P lawful c (authorize e) reads w' w.now w.noise 600 "az" stale))

  pub open_code-pack :
      (e : CodeEnvelope)
      → ReadsBack P (object (payload (code e)))
      → (w w' : World) (token : String) → run w (pack P c (code e)) ≡ ok token
      → run w' (open_code P c token) ≡ ok e
  unfolding open_code pack
  open_code-pack e reads w w' token made =
      rw (← (ok-injective made), open_payload_any P lawful c (code e) reads, decode_code-payload)

  pub open_refresh-pack :
      (e : RefreshEnvelope)
      → ReadsBack P (object (payload (refresh e)))
      → (w w' : World) (token : String) → run w (pack P c (refresh e)) ≡ ok token
      → run w' (open_refresh P c token) ≡ ok e
  unfolding open_refresh pack
  open_refresh-pack e reads w w' token made =
      rw (
        ← (ok-injective made),
        open_payload_any P lawful c (refresh e) reads,
        decode_refresh-payload,
      )

  pub open_registration-pack :
      (e : RegistrationEnvelope)
      → ReadsBack P (object (payload (registration e)))
      → (w w' : World) (token : String) → run w (pack P c (registration e)) ≡ ok token
      → run w' (open_registration P c token) ≡ ok e
  unfolding open_registration pack
  open_registration-pack e reads w w' token made = rw (
    ← (ok-injective made),
    open_payload_any P lawful c (registration e) reads,
    decode_registration-payload,
  )
