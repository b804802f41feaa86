-- ===== src/Digits.antt =====
-- `str(n)` of a number.
use Prim.Native.String.{char_at}
use cimd_proxy.Prelude.{ℕ, zero, suc, ◌/◌, ◌%◌, String, ◌≡◌, refl, ltb, if◌then◌else◌}

-- The fuel `n` is more than the number of the digits of `n`.
unfoldable pub digits_before : ℕ → ℕ → String → String
digits_before zero n tail = tail
digits_before (suc fuel) n tail =
    let one = String.◌∷◌ (char_at "0123456789" (n % 10)) tail in
    let more = digits_before fuel (n / 10) one in if ltb n 10 then one else more

unfoldable pub decimal : ℕ → String
unfolding digits_before
decimal n = digits_before (suc n) n ""

printed : decimal 8443 ≡ "8443"
unfolding decimal
printed = refl
