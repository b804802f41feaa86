-- ===== src/Prelude/Lists.antt =====
-- Lists over the native numbers: Python's `len`, `in`, `any`, `all`, and predicates by recursion.
use Prim.Native.Nat.{ℕ, suc}
use Prim.Native.String.{String}
use mathlib.Core.Path.{◌≡◌, refl, sym, subst}
use mathlib.Core.Logic.{◌↔◌, ◌⊎◌, inl, inr}
use mathlib.Core.Bool.{Bool, true, false, ◌&&◌, ◌||◌}
use mathlib.Core.List.{List, [], ◌∷◌}
use native.Mathlib.Omega.{arith}
use text.Mathlib.Text.{◌==◌}
use text.Mathlib.TextEquality.{eq_iff}
use cimd_proxy.Prelude.Tests.{if◌then◌else◌, Bool-cases}

module _ {ℓ} {A : Type ℓ} where
  abbrev pub length : List A → ℕ
  length [] = 0
  length (x ∷ xs) = suc (length xs)

  abbrev pub any : (A → Bool) → List A → Bool
  any p [] = false
  any p (x ∷ xs) = p x || any p xs

  abbrev pub all : (A → Bool) → List A → Bool
  all p [] = true
  all p (x ∷ xs) = p x && all p xs

  -- `[x for x in xs if p(x)]`
  abbrev pub keep : (A → Bool) → List A → List A
  keep p [] = []
  keep p (x ∷ xs) = if p x then x ∷ keep p xs else keep p xs

  abbrev pub is_empty : List A → Bool
  is_empty [] = true
  is_empty (x ∷ xs) = false

module _ {ℓ κ} {A : Type ℓ} (P : A → Type κ) where
  abbrev pub All : List A → Type κ
  All [] = Unit
  All (x ∷ xs) = P x × All xs

module _ {A : Type 0} where
  -- `x` stands in the list.
  abbrev pub In : A → List A → Type 0
  In x [] = ⊥
  In x (y ∷ ys) = (x ≡ y) ⊎ In x ys

  pub any_sound : (p : A → Bool) (xs : List A) → any p xs ≡ true → (x : A) × In x xs × (p x ≡ true)
  any_sound p [] h = absurd (cc h)
  any_sound p (x ∷ xs) h = elim (Bool-cases (p x)) [
    | inl e ↦ (x, inl refl, e)
    | inr e ↦ let (y, here, e') = any_sound p xs (ground (arith, h)) in (y, inr here, e')
  ]

  pub any_complete : (p : A → Bool) (xs : List A) (x : A) → In x xs → p x ≡ true → any p xs ≡ true
  any_complete p [] x m e = absurd m
  any_complete p (y ∷ ys) x (inl same) e = rw (← same) (rw e)
  any_complete p (y ∷ ys) x (inr later) e = ground (arith, any_complete p ys x later e)

  pub all_sound : (p : A → Bool) (xs : List A) → all p xs ≡ true → All (λ x. p x ≡ true) xs
  all_sound p [] h = tt
  all_sound p (x ∷ xs) h = (ground arith, all_sound p xs (ground arith))

  pub All-In {κ} : (P : A → Type κ) (xs : List A) → All P xs → (x : A) → In x xs → P x
  All-In P [] h x m = absurd m
  All-In P (y ∷ ys) (here, h) x (inl same) = subst P (sym same) here
  All-In P (y ∷ ys) (here, h) x (inr later) = All-In P ys h x later

  pub All-from {κ} : {P : A → Type κ} (xs : List A) → ((x : A) → In x xs → P x) → All P xs
  All-from [] f = tt
  All-from (x ∷ xs) f = (f x (inl refl), All-from xs (λ y m. f y (inr m)))

  kept_behind :
      (p : A → Bool) (y : A) (ys zs : List A) (x : A)
      → p y ≡ true
      → (In x zs → In x ys × (p x ≡ true))
      → In x (y ∷ zs)
      → In x (y ∷ ys) × (p x ≡ true)
  kept_behind p y ys zs x good f (inl same) = (inl same, rw same good)
  kept_behind p y ys zs x good f (inr m) = let (later, e) = f m in (inr later, e)

  pub In-keep : (p : A → Bool) (xs : List A) (x : A) → In x (keep p xs) → In x xs × (p x ≡ true)
  In-keep p [] x m = absurd m
  In-keep p (y ∷ ys) x m = elim (Bool-cases (p y)) [
    | inl good ↦ kept_behind p y ys (keep p ys) x good (In-keep p ys x) (rw good at m)
    | inr bad ↦ let (later, e) = In-keep p ys x (rw bad at m) in (inr later, e)
  ]

-- `s in xs` on texts
abbrev pub contains : List String → String → Bool
contains xs s = any (λ x. s == x) xs

pub contains_iff : (xs : List String) (s : String) → (contains xs s ≡ true) ↔ In s xs
contains_iff [] s = (λ h. absurd (cc h), λ m. absurd m)
contains_iff (x ∷ xs) s = ground (arith, eq_iff s x, contains_iff xs s)
