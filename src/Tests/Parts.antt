-- ===== src/Tests/Parts.antt =====
-- Inputs of the components for which the conditions of their properties hold.
use Prim.Native.String.{len}
use cimd_proxy.Prelude.{
  ℕ, ◌+◌, ◌<◌, some, ◌≤◌, String, ◌<>◌, ◌≡◌, ◌↔◌, ◌⊎◌, refl, [], ◌∷◌, arith, In, repr,
}
use cimd_proxy.Prelude.{All, In}
use cimd_proxy.Errors.{ok, err, envelope_error}
use cimd_proxy.Effects.{run, sent, Request}
use cimd_proxy.Envelope
use cimd_proxy.Codec.{open_payload}
use cimd_proxy.Codec.RoundTrip.{open_payload_other, sealed}
use cimd_proxy.Url.{SplitResult, urlsplit}
use cimd_proxy.RedirectUri.{accept_registered}
use cimd_proxy.RedirectUri.Policy.{IsAllowed, accept_registered_iff}
use cimd_proxy.Fetcher.{fetch, read_body, joined, read_body_bounds}
use cimd_proxy.Fetcher.{without_scope}
use cimd_proxy.Fetcher.Network.{IsSafe, check_infos-IsSafe}
use cimd_proxy.CimdService.Fetched.{Dialled, fetch-sent}
use cimd_proxy.CimdService.Sound.{IsGood, obtain_sound}
use cimd_proxy.Tests.Setup.{
  platform, ip_address, cimd, codec, world, document, client_url, back, code_of, lawful, reads_code,
}
use cimd_proxy.Tests.Facts.{empty-IsSound, filled}
use cimd_proxy.Tests.Handled.{obtained, tags_differ, infos_checked}

fetch-sent_example :
    (sent (world 3) (fetch platform cimd.fetcher ip_address client_url) ≡ [])
    ⊎ ((q : Request) × (sent (world 3) (fetch platform cimd.fetcher ip_address client_url) ≡ q ∷ [])
        × Dialled platform cimd.fetcher ip_address (world 3) client_url q)
fetch-sent_example = fetch-sent platform cimd.fetcher ip_address (world 3) client_url

obtain_sound_example : IsGood client_url (ok document, filled)
obtain_sound_example =
    obtain_sound platform ip_address cimd (world 3) [] client_url (ok document, filled)
      empty-IsSound obtained

open_payload_other_example :
    (run (world 700) (
        open_payload platform codec
          (sealed platform lawful codec (Envelope.code code_of) reads_code 5 0)
          "rt"
          (some 600))
      ≡ err (
          envelope_error
            ("envelope tag mismatch (expected " <> repr "rt" <> ", got " <> repr "cd" <> ")")))
    ⊎ ((seconds : ℕ) × (some 600 ≡ some seconds)
        × (5 + seconds < 700)
        × (run (world 700) (
              open_payload platform codec
                (sealed platform lawful codec (Envelope.code code_of) reads_code 5 0)
                "rt"
                (some 600))
            ≡ err (envelope_error "envelope invalid or expired")))
open_payload_other_example =
    open_payload_other platform lawful codec (Envelope.code code_of) reads_code (world 700) 5 0 "rt"
      (some 600) (omega arith) tags_differ

accept_registered_iff_example :
    (accept_registered back ≡ ok tt)
    ↔ ((split : SplitResult) × (urlsplit back ≡ ok split) × IsAllowed split)
accept_registered_iff_example = accept_registered_iff back

read_body_bounds_example : (len "abcd" ≤ 4) × ("abcd" ≡ joined "" ("ab" ∷ "cd" ∷ []))
unfolding read_body
read_body_bounds_example = read_body_bounds 4 "" "abcd" ("ab" ∷ "cd" ∷ []) (omega arith) refl

check_infos-IsSafe_example :
    All (IsSafe ip_address) ("93.184.216.34" ∷ [])
    × All (λ ip. In (without_scope ip) ("93.184.216.34" ∷ [])) ("93.184.216.34" ∷ [])
check_infos-IsSafe_example =
    check_infos-IsSafe ip_address "app.example" ("93.184.216.34" ∷ []) ("93.184.216.34" ∷ [])
      infos_checked
