-- ===== src/Codec.antt =====
-- src/cimd_proxy/envelope.py: `EnvelopeCodec`. A codec is its key.
pub mod RoundTrip
pub mod Silent
use cimd_proxy.Prelude.{
  ℕ, String, ◌<>◌, Bool, Option, none, some, if◌then◌else◌, found_is, all_chars, repr, repr_option,
}
use cimd_proxy.Prelude.Dict.{Dict, lookup}
use cimd_proxy.Json.{Json, obj, fields, object, str_of}
use cimd_proxy.Errors.{envelope_error, attribute_error}
use cimd_proxy.Effects.{Prog, ret, throw, ◌>>=◌, lift, time, entropy}
use cimd_proxy.Platform.{Platform, is_ascii_char}
use cimd_proxy.Envelope.{
  Envelope, AuthorizeEnvelope, CodeEnvelope, RefreshEnvelope, RegistrationEnvelope, authorize, code,
  refresh, registration, payload,
}
use cimd_proxy.Envelope.Decode.{decode_authorize, decode_code, decode_refresh, decode_registration}

pub record EnvelopeCodec : Type 0 where
  pub key : String

module _ (P : Platform) (c : EnvelopeCodec) where
  -- `_pack`
  -- `_pack`, on the payload with the tag.
  abbrev pub pack_payload : Dict Json → Prog String
  pack_payload d = do now ← time; iv ← entropy; ret (P.encrypt c.key now iv (P.dumps (object d)))

  unfoldable pub pack : Envelope → Prog String
  pack env = pack_payload (payload env)

  abbrev pub pack_authorize : AuthorizeEnvelope → Prog String
  pack_authorize e = pack (authorize e)

  abbrev pub pack_code : CodeEnvelope → Prog String
  pack_code e = pack (code e)

  abbrev pub pack_refresh : RefreshEnvelope → Prog String
  pack_refresh e = pack (refresh e)

  abbrev pub pack_registration : RegistrationEnvelope → Prog String
  pack_registration e = pack (registration e)

  -- The test of the tag.
  check_tag : String → Dict Json → Prog (Dict Json)
  unfolding lookup
  check_tag expected d =
      if found_is (str_of (lookup "tag" d)) expected
      then ret d
      else throw (
          envelope_error (
            "envelope tag mismatch (expected "
            <> repr expected
            <> ", got "
            <> repr_option (str_of (lookup "tag" d))
            <> ")"))

  check_object : String → Json → Prog (Dict Json)
  unfolding check_tag
  check_object expected (obj fs) = check_tag expected (fields fs)
  check_object expected _ = throw (attribute_error "the payload has no attribute 'get'")

  check_json : String → Option Json → Prog (Dict Json)
  unfolding check_object
  check_json expected none = throw (envelope_error "envelope payload not JSON")
  check_json expected (some v) = check_object expected v

  check_blob : String → Option String → Prog (Dict Json)
  unfolding check_json
  check_blob expected none = throw (envelope_error "envelope invalid or expired")
  check_blob expected (some blob) = check_json expected (P.loads blob)

  -- `Fernet.decrypt` reads the clock only where it is given a time to live.
  decrypt : String → Option ℕ → Prog (Option String)
  decrypt token none = ret (P.decrypt c.key none 0 token)
  decrypt token (some ttl) = do now ← time; ret (P.decrypt c.key (some ttl) now token)

  -- `_open`
  unfoldable pub open_payload : String → String → Option ℕ → Prog (Dict Json)
  unfolding check_blob decrypt
  open_payload token expected ttl =
      if all_chars is_ascii_char token
      then (do blob ← decrypt token ttl; check_blob expected blob)
      else throw (envelope_error "envelope malformed")

  unfoldable pub open_authorize : String → Prog AuthorizeEnvelope
  open_authorize token = do d ← open_payload token "az" (some 600); lift (decode_authorize d)

  unfoldable pub open_code : String → Prog CodeEnvelope
  open_code token = do d ← open_payload token "cd" none; lift (decode_code d)

  unfoldable pub open_refresh : String → Prog RefreshEnvelope
  open_refresh token = do d ← open_payload token "rt" none; lift (decode_refresh d)

  unfoldable pub open_registration : String → Prog RegistrationEnvelope
  open_registration token = do d ← open_payload token "rg" none; lift (decode_registration d)
