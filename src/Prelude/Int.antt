-- ===== src/Prelude/Int.antt =====
-- Python's `int`, as far as the program uses it: an order, a minimum and a maximum, and `int(text)`.
use Prim.Native.Nat.{ℕ, zero, suc, ◌+◌, ◌-◌, ◌*◌}
use Prim.Native.Char.{code}
use Prim.Native.String.{String}
use mathlib.Core.Path.{◌≡◌, refl}
use mathlib.Core.Bool.{Bool, true, false, ◌&&◌}
use mathlib.Core.Option.{Option, none, some}
use native.Mathlib.Omega.{arith}
use cimd_proxy.Prelude.Tests.{leb, if◌then◌else◌}
use cimd_proxy.Prelude.Text.{is_digit, is_char, strip}

-- `negsuc n` is -(n + 1).
pub data ℤ : Type 0 where
  pos : ℕ → ℤ
  negsuc : ℕ → ℤ

abbrev pub leb_ℤ : ℤ → ℤ → Bool
leb_ℤ (pos a) (pos b) = leb a b
leb_ℤ (pos a) (negsuc b) = false
leb_ℤ (negsuc a) (pos b) = true
leb_ℤ (negsuc a) (negsuc b) = leb b a

infix 50 ◌≤ℤ◌
abbrev pub ◌≤ℤ◌ : ℤ → ℤ → Type 0
a ≤ℤ b = leb_ℤ a b ≡ true

-- Python's `min(a, b)` and `max(a, b)`: the first argument where the two are equal.
abbrev pub min_ℤ : ℤ → ℤ → ℤ
min_ℤ a b = if leb_ℤ a b then a else b

abbrev pub max_ℤ : ℤ → ℤ → ℤ
max_ℤ a b = if leb_ℤ b a then a else b

pub ≤ℤ_clamp :
    (lo base hi : ℤ)
    → lo ≤ℤ hi
    → (lo ≤ℤ max_ℤ lo (min_ℤ base hi)) × (max_ℤ lo (min_ℤ base hi) ≤ℤ hi)
≤ℤ_clamp (pos a) (pos b) (pos c) h = ground arith
≤ℤ_clamp (pos a) (negsuc b) (pos c) h = ground arith
≤ℤ_clamp (negsuc a) (pos b) (pos c) h = ground arith
≤ℤ_clamp (negsuc a) (negsuc b) (pos c) h = ground arith
≤ℤ_clamp (pos a) b (negsuc c) h = absurd (cc h)
≤ℤ_clamp (negsuc a) (pos b) (negsuc c) h = ground arith
≤ℤ_clamp (negsuc a) (negsuc b) (negsuc c) h = ground arith

-- The digits of `int(text)`, with single underscores between them. The flag says that a digit
-- stands before.
digits : Bool → ℕ → String → Option ℕ
digits seen acc String.[] = if seen then some acc else none
digits seen acc (String.◌∷◌ c s) =
    let rest = digits true (acc * 10 + (code c - b'0')) s in
    let gap = digits false acc s in
    if is_digit c then rest else if is_char b'_' c && seen then gap else none

abbrev negative : Option ℕ → Option ℤ
negative none = none
negative (some zero) = some (pos 0)
negative (some (suc n)) = some (negsuc n)

abbrev positive : Option ℕ → Option ℤ
positive none = none
positive (some n) = some (pos n)

signed : String → Option ℤ
unfolding digits
signed String.[] = none
signed (String.◌∷◌ c s) =
    if is_char b'-' c
    then negative (digits false 0 s)
    else if is_char b'+' c
    then positive (digits false 0 s)
    else positive (digits false 0 (String.◌∷◌ c s))

-- `int(text)`; `none` is the `ValueError`. Only ASCII digits are read.
unfoldable pub parse_int : String → Option ℤ
unfolding signed strip
parse_int s = signed (strip s)

parsed :
    (parse_int " 3_600 " ≡ some (pos 3600))
    × (parse_int "-5" ≡ some (negsuc 4))
    × (parse_int "1__0" ≡ none)
unfolding parse_int
parsed = (refl, refl, refl)
