-- ===== src/Tests/Fernet.antt =====
-- A sealing of texts that has Fernet's laws and shows what it seals.
use Prim.Native.Char.{char, code}
use Prim.Native.Nat.{zero, suc}
use cimd_proxy.Prelude.{
  ℕ, ◌+◌, ◌≤◌, ◌<◌, String, ◌≡◌, refl, true, false, Option, none, some, all_chars, if◌then◌else◌,
  leb, eqb, arith,
}
use cimd_proxy.Platform.{is_ascii_char}

-- The time in strokes, a dot and the text.
unfoldable pub mark : ℕ → String → String
mark zero blob = String.◌∷◌ (char 46 tt) blob
mark (suc n) blob = String.◌∷◌ (char 43 tt) (mark n blob)

abbrev later : Option (ℕ × String) → Option (ℕ × String)
later none = none
later (some (n, s)) = some (suc n, s)

unmark : String → Option (ℕ × String)
unmark String.[] = none
unmark (String.◌∷◌ c s) = if eqb (code c) 43 then later (unmark s) else some (0, s)

unmark-mark : (n : ℕ) (blob : String) → unmark (mark n blob) ≡ some (n, blob)
unfolding mark unmark
unmark-mark zero blob = refl
unmark-mark (suc n) blob = rw (unmark-mark n blob)

abbrev within : Option ℕ → ℕ → Option (ℕ × String) → Option String
within ttl now none = none
within none now (some (made, s)) = some s
within (some ttl) now (some (made, s)) = if leb now (made + ttl) then some s else none

unfoldable pub unseal : Option ℕ → ℕ → String → Option String
unfolding unmark
unseal ttl now token = within ttl now (unmark token)

pub unseal-mark : (made now : ℕ) (blob : String) → unseal none now (mark made blob) ≡ some blob
unfolding unseal
unseal-mark made now blob = rw (unmark-mark made blob)

pub unseal-mark_live :
    (made ttl now : ℕ) (blob : String)
    → now ≤ made + ttl
    → unseal (some ttl) now (mark made blob) ≡ some blob
unfolding unseal
unseal-mark_live made ttl now blob live =
    let test : leb now (made + ttl) ≡ true = ground arith in rw (unmark-mark made blob, test)

pub unseal-mark_stale :
    (made ttl now : ℕ) (blob : String)
    → made + ttl < now
    → unseal (some ttl) now (mark made blob) ≡ none
unfolding unseal
unseal-mark_stale made ttl now blob stale =
    let test : leb now (made + ttl) ≡ false = ground arith in rw (unmark-mark made blob, test)

pub mark_ascii :
    (made : ℕ) (blob : String)
    → all_chars is_ascii_char blob ≡ true
    → all_chars is_ascii_char (mark made blob) ≡ true
unfolding mark all_chars
mark_ascii zero blob h = h
mark_ascii (suc n) blob h = mark_ascii n blob h
