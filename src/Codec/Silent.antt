-- ===== src/Codec/Silent.antt =====
-- Opening an envelope sends no request: src/cimd_proxy/envelope.py.
use cimd_proxy.Prelude.{
  String, ◌≡◌, refl, inl, inr, Option, none, some, [], Bool-cases, found_is, all_chars,
}
use cimd_proxy.Prelude.Dict.{Dict, lookup}
use cimd_proxy.Json.{Json, null, bool, float, obj, arr, str, int, fields, str_of}
use cimd_proxy.Effects.{World, sent}
use cimd_proxy.Effects.Laws.{sent-lift}
use cimd_proxy.Effects.Silent.{silent-bind}
use cimd_proxy.Platform.{Platform, is_ascii_char}
use cimd_proxy.Envelope.Decode.{decode_code, decode_refresh}
use cimd_proxy.Codec.{
  EnvelopeCodec, check_tag, check_object, check_json, check_blob, decrypt, open_payload, open_code,
  open_refresh,
}

module _ (P : Platform) (c : EnvelopeCodec) (w : World) where
  check_tag_silent : (expected : String) (d : Dict Json) → sent w (check_tag P c expected d) ≡ []
  unfolding check_tag
  check_tag_silent expected d = elim (Bool-cases (found_is (str_of (lookup "tag" d)) expected)) [
    | inl same ↦ rw same
    | inr other ↦ rw other
  ]

  check_object_silent : (expected : String) (v : Json) → sent w (check_object P c expected v) ≡ []
  unfolding check_object
  check_object_silent expected (obj fs) = check_tag_silent expected (fields fs)
  check_object_silent expected null = refl
  check_object_silent expected (bool b) = refl
  check_object_silent expected (int n) = refl
  check_object_silent expected (float s) = refl
  check_object_silent expected (str s) = refl
  check_object_silent expected (arr vs) = refl

  check_json_silent :
      (expected : String) (v : Option Json) → sent w (check_json P c expected v) ≡ []
  unfolding check_json
  check_json_silent expected none = refl
  check_json_silent expected (some v) = check_object_silent expected v

  check_blob_silent :
      (expected : String) (b : Option String) → sent w (check_blob P c expected b) ≡ []
  unfolding check_blob
  check_blob_silent expected none = refl
  check_blob_silent expected (some blob) = check_json_silent expected (P.loads blob)

  open_payload_silent :
      (token expected : String) → sent w (open_payload P c token expected none) ≡ []
  unfolding open_payload decrypt
  open_payload_silent token expected = elim (Bool-cases (all_chars is_ascii_char token)) [
    | inl ascii ↦ rw ascii (check_blob_silent expected (P.decrypt c.key none 0 token))
    | inr other ↦ rw other
  ]

  pub open_code_silent : (token : String) → sent w (open_code P c token) ≡ []
  unfolding open_code
  open_code_silent token =
      silent-bind w (open_payload P c token "cd" none) _ (open_payload_silent token "cd")
        (λ d. sent-lift w (decode_code d))

  pub open_refresh_silent : (token : String) → sent w (open_refresh P c token) ≡ []
  unfolding open_refresh
  open_refresh_silent token =
      silent-bind w (open_payload P c token "rt" none) _ (open_payload_silent token "rt")
        (λ d. sent-lift w (decode_refresh d))
