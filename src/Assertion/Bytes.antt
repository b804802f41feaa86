-- ===== src/Assertion/Bytes.antt =====
-- The bytes of a key's numbers: `public_jwk` of src/cimd_proxy/assertion.py.
use cimd_proxy.Prelude.{
  ℕ, zero, suc, ◌+◌, ◌*◌, ◌/◌, ◌%◌, ◌<◌, ◌≡◌, sym, ap, ◌∙◌, inl, inr, List, [], ◌∷◌, arith, All,
  Bool-cases, eqb,
}
use cimd_proxy.Assertion.{bytes_before, to_bytes}

-- `int.from_bytes(bytes, "big")`, behind a number.
abbrev from_bytes : ℕ → List ℕ → ℕ
from_bytes acc [] = acc
from_bytes acc (b ∷ bs) = from_bytes (acc * 256 + b) bs

before_sound :
    (fuel n : ℕ) (tail : List ℕ)
    → n < fuel
    → All (λ b. b < 256) tail
    → (from_bytes 0 (bytes_before fuel n tail) ≡ from_bytes n tail)
      × All (λ b. b < 256) (bytes_before fuel n tail)
unfolding bytes_before
before_sound zero n tail h small = absurd (omega arith)
before_sound (suc fuel) n tail h small = elim (Bool-cases (eqb n 0)) [
  | inl none_left ↦
      let nothing : n ≡ 0 = ground arith in
      rw none_left (ap (λ k. from_bytes k tail) (sym nothing), small)
  | inr more ↦
      let some_left : 0 < n = ground arith in
      let (value, bytes) =
        before_sound fuel (n / 256) (n % 256 ∷ tail) (omega arith) (omega arith, small) in
      rw more (value ∙ ap (λ k. from_bytes k tail) (omega arith), bytes)
]

-- The bytes of a number are bytes, and read back as the number.
to_bytes_sound : (n : ℕ) → (from_bytes 0 (to_bytes n) ≡ n) × All (λ b. b < 256) (to_bytes n)
unfolding to_bytes
to_bytes_sound n = before_sound (suc n) n [] (omega arith) tt
