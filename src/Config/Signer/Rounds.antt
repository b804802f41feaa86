-- ===== src/Config/Signer/Rounds.antt =====
-- The loop of the signing keys ends: `_load_signer` of src/cimd_proxy/config.py.
use Prim.Native.String.append
use Prim.Native.String.{char_at}
use cimd_proxy.Prelude.{
  ℕ, zero, suc, ◌+◌, ◌/◌, ◌%◌, ◌≤◌, ◌<◌, String, ◌<>◌, ◌≡◌, ◌≢◌, refl, sym, ap, ◌∙◌, inl, inr, code,
  true, ◌||◌, Option, some, List, [], ◌∷◌, ◌==◌, arith, eq_iff, Bool-cases, ltb, length, is_digit,
  is_some,
}
use cimd_proxy.Prelude.Dict.{lookup, erase, has_key, lookup-erase}
use cimd_proxy.Errors.{Result, ok, err, Result-cases}
use cimd_proxy.Digits.{decimal, digits_before}
use cimd_proxy.Pat.Format.{drop_chars}
use cimd_proxy.Pat.Format.WellFormed.{drop_chars-append}
use cimd_proxy.Assertion.{SigningKey, AssertionSigner}
use cimd_proxy.Config.Env.{Env}
use cimd_proxy.Config.Signer.{
  Pem, key_prefix, kid_name, file_name, has_index, number_until, read_key, read_keys, load_signer,
}

-- The characters of the ten digits.
digit_lem :
    (d : ℕ)
    → d < 10
    → (is_digit (char_at "0123456789" d) ≡ true) × (code (char_at "0123456789" d) ≡ 48 + d)
digit_lem zero h = (refl, refl)
digit_lem (suc zero) h = (refl, refl)
digit_lem (suc (suc zero)) h = (refl, refl)
digit_lem (suc (suc (suc zero))) h = (refl, refl)
digit_lem (suc (suc (suc (suc zero)))) h = (refl, refl)
digit_lem (suc (suc (suc (suc (suc zero))))) h = (refl, refl)
digit_lem (suc (suc (suc (suc (suc (suc zero)))))) h = (refl, refl)
digit_lem (suc (suc (suc (suc (suc (suc (suc zero))))))) h = (refl, refl)
digit_lem (suc (suc (suc (suc (suc (suc (suc (suc zero)))))))) h = (refl, refl)
digit_lem (suc (suc (suc (suc (suc (suc (suc (suc (suc zero))))))))) h = (refl, refl)
digit_lem (suc (suc (suc (suc (suc (suc (suc (suc (suc (suc d)))))))))) h = absurd (omega arith)

-- A printed number reads back, in front of any text.
number_until-digits :
    (fuel n : ℕ) (tail : String)
    → n < fuel
    → number_until 0 (digits_before fuel n tail) ≡ number_until n tail
unfolding digits_before number_until
number_until-digits zero n tail h = absurd (omega arith)
number_until-digits (suc fuel) n tail h = elim (Bool-cases (ltb n 10)) [
  | inl small ↦
      let small' : n < 10 = ground arith in
      let (digit, value) = digit_lem (n % 10) (omega arith) in
      rw (small, digit, value) (ap (λ (v : ℕ). number_until v tail) (omega arith))
  | inr large ↦
      let (digit, value) = digit_lem (n % 10) (omega arith) in
      rw large (
        number_until-digits fuel (n / 10) _ (ground arith)
        ∙ rw (digit, value) (ap (λ (v : ℕ). number_until v tail) (omega arith)))
]

digits_before-append :
    (fuel n : ℕ) (tail t : String)
    → (digits_before fuel n tail <> t) ≡ digits_before fuel n (tail <> t)
unfolding digits_before
digits_before-append zero n tail t = refl
digits_before-append (suc fuel) n tail t = elim (Bool-cases (ltb n 10)) [
  | inl small ↦ rw small (append.cons (char_at "0123456789" (n % 10)) tail t)
  | inr large ↦
      let digit = char_at "0123456789" (n % 10) in
      rw large (
        digits_before-append fuel (n / 10) (String.◌∷◌ digit tail) t
        ∙ ap (digits_before fuel (n / 10)) (append.cons digit tail t))
]

-- The index that a name of the table holds.
index_in : String → ℕ
unfolding drop_chars
index_in name = number_until 0 (drop_chars 16 name)

-- Any text that goes on with a character that is no digit.
index_in-name :
    (n : ℕ) (t : String) → number_until n t ≡ n → index_in (key_prefix <> (decimal n <> t)) ≡ n
unfolding index_in decimal
index_in-name n t stops =
    ap (number_until 0) (drop_chars-append key_prefix (decimal n <> t))
    ∙ ap (number_until 0)
        (digits_before-append (suc n) n "" t ∙ ap (digits_before (suc n) n) (append.nil t))
    ∙ number_until-digits (suc n) n t (omega arith)
    ∙ stops

stops_kid : (n : ℕ) → number_until n "_KID" ≡ n
unfolding number_until
stops_kid n = refl

stops_file : (n : ℕ) → number_until n "_FILE" ≡ n
unfolding number_until
stops_file n = refl

index_in-kid : (n : ℕ) → index_in (kid_name n) ≡ n
index_in-kid n = index_in-name n "_KID" (stops_kid n)

index_in-file : (n : ℕ) → index_in (file_name n) ≡ n
index_in-file n = index_in-name n "_FILE" (stops_file n)

-- The environment without the two names of an index.
without : ℕ → Env → Env
unfolding erase
without n env = erase (kid_name n) (erase (file_name n) env)

length-erase : (k : String) (env : Env) → length (erase k env) ≤ length env
unfolding erase
length-erase k [] = omega arith
length-erase k ((j, v) ∷ env) = ground (arith, length-erase k env)

length-erase_present :
    (k : String) (env : Env) → has_key k env ≡ true → length (erase k env) < length env
unfolding erase lookup
length-erase_present k [] h = absurd (cc h)
length-erase_present k ((j, v) ∷ env) h = elim (Bool-cases (j == k)) [
  | inl here ↦ rw here (omega (arith, length-erase k env))
  | inr other ↦ rw other (omega (arith, length-erase_present k env (rw other at h)))
]

erase_keeps :
    (k j : String) (env : Env) → index_in j ≢ index_in k → has_key k (erase j env) ≡ has_key k env
erase_keeps k j env apart = elim (Bool-cases (j == k)) [
  | inl same ↦ absurd (apart (ap index_in ((eq_iff j k).0 same)))
  | inr other ↦ ap is_some (lookup-erase j k env ∙ rw other)
]

without_keeps : (n i : ℕ) (env : Env) → n ≢ i → has_index (without n env) i ≡ has_index env i
unfolding has_index without
without_keeps n i env apart =
    let drop_file = λ (k : String) (e : index_in k ≡ i).
      erase_keeps k (file_name n) env (λ p. apart (sym (index_in-file n) ∙ p ∙ e)) in
    let drop_kid = λ (k : String) (e : index_in k ≡ i).
      erase_keeps k (kid_name n) (erase (file_name n) env)
        (λ p. apart (sym (index_in-kid n) ∙ p ∙ e)) in
    rw (
      drop_kid (kid_name i) (index_in-kid i),
      drop_kid (file_name i) (index_in-file i),
      drop_file (kid_name i) (index_in-kid i),
      drop_file (file_name i) (index_in-file i),
    )

erase_both :
    (a b : String) (env : Env)
    → (has_key a env || has_key b env) ≡ true
    → length (erase a (erase b env)) < length env
erase_both a b env h = elim (Bool-cases (has_key b env)) [
  | inl there ↦ omega (arith, length-erase a (erase b env), length-erase_present b env there)
  | inr gone ↦
      let here : has_key a env ≡ true = ground arith in
      elim (Bool-cases (b == a)) [
        | inl same ↦
            absurd (
              cc (sym here ∙ ap (λ (k : String). has_key k env) (sym ((eq_iff b a).0 same)) ∙ gone))
        | inr other ↦ omega (
          arith,
          length-erase b env,
          length-erase_present a (erase b env)
              (ap is_some (lookup-erase b a env ∙ rw other) ∙ here),
        )
      ]
]

-- An environment has at least as many entries as indices.
indices-le-length :
    (n : ℕ) (env : Env) → ((i : ℕ) → i < n → has_index env i ≡ true) → n ≤ length env
unfolding has_index without
indices-le-length zero env h = omega arith
indices-le-length (suc n) env h = omega (
  arith,
  indices-le-length n (without n env)
      (λ i lt. without_keeps n i env (omega arith) ∙ h i (omega arith)),
  erase_both (kid_name n) (file_name n) env (h n (omega arith)),
)

module _ (file : String → Option Pem) where
  -- The loop ends when it may make more rounds than are left entries of the environment.
  read_keys_ends :
      (fuel index : ℕ) (env : Env)
      → ((i : ℕ) → i < index → has_index env i ≡ true)
      → length env < index + fuel
      → (r : Result (List SigningKey × ℕ)) × (read_keys file fuel env index ≡ some r)
  unfolding read_keys
  read_keys_ends zero index env full short =
      absurd (omega (arith, indices-le-length index env full))
  read_keys_ends (suc fuel) index env full short = elim (Bool-cases (has_index env index)) [
    | inr over ↦ rw over (ok ([], index), refl)
    | inl here ↦
        let (r, ih) =
          read_keys_ends fuel (index + 1) env
            (λ i lt. elim (Bool-cases (ltb i index)) [
              | inl less ↦ full i (ground arith)
              | inr eq ↦ let same : i ≡ index = ground arith in rw same here
            ])
            (omega arith) in
        elim (Result-cases (read_key file env index)) [
          | inl (key, e) ↦ rw (here, e, ih) (_, refl)
          | inr (x, e) ↦ rw (here, e) (err x, refl)
        ]
  ]

  -- Whatever the environment, as many rounds as it has entries and one more are enough: the table of
  -- signing keys is read to its end, and a signer or a refusal results.
  pub load_signer_ends :
      (env : Env) (public_url : String)
      → (r : Result AssertionSigner) × (load_signer file env public_url ≡ some r)
  unfolding load_signer
  load_signer_ends env public_url =
      let (r, e) =
        read_keys_ends (suc (length env)) 0 env (λ i lt. absurd (omega arith)) (omega arith) in
      elim (Result-cases r) [
        | inl (found, good) ↦ rw (e, good) (_, refl)
        | inr (x, bad) ↦ rw (e, bad) (err x, refl)
      ]
