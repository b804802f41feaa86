-- ===== src/Pat/Format/WellFormed.antt =====
-- Every generated token is well formed: src/cimd_proxy/pat_format.py.
use Prim.Native.Nat.pow
use Prim.Native.String.append
use Prim.Native.String.count as counts
use Prim.Native.Char.{Char}
use Prim.Native.String.{char_at, count}
use text.Mathlib.TextLemmas.{append_assoc}
use text.Mathlib.TextPositions.{starts_with-append}
use cimd_proxy.Prelude.{
  ℕ, zero, suc, ◌+◌, ◌/◌, ◌%◌, ◌^◌, ◌<◌, String, ◌<>◌, ◌≡◌, refl, sym, ap, ◌∙◌, Bool, true, ◌&&◌,
  &&-eq-true, arith, eqb, all_chars, any_char, starts_with, eq_refl, inl, inr, Bool-cases,
}
use cimd_proxy.Errors.{ok}
use cimd_proxy.Pkce.{take_chars}
use cimd_proxy.Pat.Format.{
  prefix, alphabet, base62_loop, base62, checksum, crc32, generate_from, drop_chars, in_alphabet,
  is_well_formed,
}

digit_of : ℕ → Char
digit_of n = char_at alphabet (n % 62)

-- The digits of a number, as `base62_loop` puts them in front of a text.
digits : ℕ → ℕ → String → String
digits value zero tail = tail
digits value (suc width) tail = digits (value / 62) width (String.◌∷◌ (digit_of value) tail)

base62_loop_lem :
    (value width : ℕ) (tail : String)
    → value < 62 ^ width
    → base62_loop value width tail ≡ ok (digits value width tail)
unfolding base62_loop digits digit_of
base62_loop_lem value zero tail h = ground arith
base62_loop_lem value (suc width) tail h =
    base62_loop_lem (value / 62) width (String.◌∷◌ (digit_of value) tail)
      (omega (arith, pow.suc 62 width, h))

count-digits :
    (value width : ℕ) (tail : String) → count (digits value width tail) ≡ width + count tail
unfolding digits
count-digits value zero tail = omega arith
count-digits value (suc width) tail =
    count-digits (value / 62) width (String.◌∷◌ (digit_of value) tail)
    ∙ rw (counts.cons (digit_of value) tail) (omega arith)

count-append : (s t : String) → count (s <> t) ≡ count s + count t
count-append String.[] t = rw (append.nil t, counts.nil) (omega arith)
count-append (String.◌∷◌ c s) t =
    rw (append.cons c s t, counts.cons c (s <> t), counts.cons c s)
      (omega (arith, count-append s t))

pub drop_chars-append : (s t : String) → drop_chars (count s) (s <> t) ≡ t
unfolding drop_chars
drop_chars-append String.[] t = append.nil t
drop_chars-append (String.◌∷◌ c s) t = rw (append.cons c s t, counts.cons) (drop_chars-append s t)

take_chars-append : (s t : String) → take_chars (count s) (s <> t) ≡ s
unfolding take_chars
take_chars-append String.[] t = refl
take_chars-append (String.◌∷◌ c s) t =
    rw (append.cons c s t, counts.cons) (ap (String.◌∷◌ c) (take_chars-append s t))

all_chars-append :
    (p : Char → Bool) (s t : String)
    → all_chars p s ≡ true
    → all_chars p t ≡ true
    → all_chars p (s <> t) ≡ true
unfolding all_chars
all_chars-append p String.[] t a b = rw (append.nil t) b
all_chars-append p (String.◌∷◌ c s) t a b =
    let (first, rest) = &&-eq-true (p c) (all_chars p s) a in
    rw (append.cons c s t, first) (all_chars-append p s t rest b)

-- A test of all numbers below a bound.
below : ℕ → (ℕ → Bool) → Bool
below zero p = true
below (suc n) p = p n && below n p

below_sound : (n k : ℕ) (p : ℕ → Bool) → below n p ≡ true → k < n → p k ≡ true
unfolding below
below_sound zero k p h small = absurd (omega arith)
below_sound (suc n) k p h small =
    let (last, rest) = &&-eq-true (p n) (below n p) h in
    elim (Bool-cases (eqb k n)) [
      | inl same ↦ let is : k ≡ n = ground arith in rw is last
      | inr other ↦ below_sound n k p rest (ground arith)
    ]

alphabet_digits : below 62 (λ k. in_alphabet (char_at alphabet k)) ≡ true
unfolding below any_char in_alphabet
alphabet_digits = refl

in_alphabet-digit_of : (value : ℕ) → in_alphabet (digit_of value) ≡ true
unfolding digit_of
in_alphabet-digit_of value =
    below_sound 62 (value % 62) (λ k. in_alphabet (char_at alphabet k)) alphabet_digits
      (omega arith)

all_chars-digits :
    (value width : ℕ) (tail : String)
    → all_chars in_alphabet tail ≡ true
    → all_chars in_alphabet (digits value width tail) ≡ true
unfolding digits all_chars
all_chars-digits value zero tail h = h
all_chars-digits value (suc width) tail h =
    all_chars-digits (value / 62) width (String.◌∷◌ (digit_of value) tail)
      (rw (in_alphabet-digit_of value) h)

crc32_bound : (s : String) → crc32 s < 62 ^ 6
unfolding crc32
crc32_bound s = omega arith

random_bound : (noise : ℕ) → noise % 2 ^ 256 < 62 ^ 43
random_bound noise = omega arith

-- The two parts of a generated token, and their lengths.
module _ (noise : ℕ) where
  random : String
  random = digits (noise % 2 ^ 256) 43 ""

  body : String
  unfolding random
  body = prefix <> random

  check : String
  unfolding body
  check = digits (crc32 body) 6 ""

  count-body : count body ≡ 51
  unfolding body random
  count-body = count-append prefix random ∙ ap (λ n. 8 + n) (count-digits (noise % 2 ^ 256) 43 "")

  count-check : count check ≡ 6
  unfolding check
  count-check = count-digits (crc32 body) 6 ""

  checksum-body : checksum body ≡ ok check
  unfolding checksum base62 check
  checksum-body = base62_loop_lem (crc32 body) 6 "" (crc32_bound body)

  generate_from_lem : generate_from noise ≡ ok (body <> check)
  unfolding generate_from base62 body random
  generate_from_lem =
      let made : base62_loop (noise % 2 ^ 256) 43 "" ≡ ok random =
        base62_loop_lem (noise % 2 ^ 256) 43 "" (random_bound noise) in
      rw (made, checksum-body)

  begins : starts_with (body <> check) prefix ≡ true
  unfolding body
  begins = rw (append_assoc prefix random check) (starts_with-append prefix (random <> check))

  tail_in_alphabet : all_chars in_alphabet (drop_chars 8 (body <> check)) ≡ true
  unfolding body random check all_chars
  tail_in_alphabet =
      rw (append_assoc prefix random check, drop_chars-append prefix (random <> check))
        (all_chars-append in_alphabet random check (all_chars-digits (noise % 2 ^ 256) 43 "" refl)
          (all_chars-digits (crc32 body) 6 "" refl))

  -- Whatever the random number, `generate` returns a token, and the token is well formed.
  pub generate_from-is_well_formed :
      (token : String) × (generate_from noise ≡ ok token) × (is_well_formed token ≡ ok true)
  unfolding is_well_formed
  generate_from-is_well_formed =
      let long : eqb (count (body <> check)) 57 ≡ true =
        ground (arith, count-append body check, count-body, count-check) in
      let front : take_chars 51 (body <> check) ≡ body =
        ap (λ n. take_chars n (body <> check)) (sym count-body) ∙ take_chars-append body check in
      let back : drop_chars 51 (body <> check) ≡ check =
        ap (λ n. drop_chars n (body <> check)) (sym count-body) ∙ drop_chars-append body check in
      (
        body <> check,
        generate_from_lem,
        rw (long, begins, tail_in_alphabet, front, back, checksum-body) (ap ok (eq_refl check)),
      )
