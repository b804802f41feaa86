-- ===== src/Prelude/Sort.antt =====
-- Sorting by insertion, for a test whether one value may stand before another.
use mathlib.Core.List.{Perm}
use mathlib.Core.List.Perm
use mathlib.Core.Path.{◌≡◌}
use mathlib.Core.Logic.{inl, inr}
use mathlib.Core.Bool.{Bool, true, false}
use mathlib.Core.List.{List, [], ◌∷◌}
use cimd_proxy.Prelude.Tests.{Bool-cases, if◌then◌else◌}

module _ {A : Type 0} (before : A → A → Bool) where
  unfoldable pub place : A → List A → List A
  place a [] = a ∷ []
  place a (x ∷ xs) = if before a x then a ∷ x ∷ xs else x ∷ place a xs

  unfoldable pub sort : List A → List A
  unfolding place
  sort [] = []
  sort (a ∷ as') = place a (sort as')

  place-perm : (a : A) (xs : List A) → Perm (place a xs) (a ∷ xs)
  unfolding place
  place-perm a [] = Perm.refl (a ∷ [])
  place-perm a (x ∷ xs) = elim (Bool-cases (before a x)) [
    | inl first ↦ rw first (Perm.refl (a ∷ x ∷ xs))
    | inr later ↦ rw later (Perm.trans (Perm.cons x (place-perm a xs)) (Perm.swap a x xs))
  ]

  pub sort-perm : (as' : List A) → Perm (sort as') as'
  unfolding sort
  sort-perm [] = Perm.refl []
  sort-perm (a ∷ as') = Perm.trans (place-perm a (sort as')) (Perm.cons a (sort-perm as'))

  -- Each value may stand before the next.
  abbrev pub IsSorted : List A → Type 0
  IsSorted [] = Unit
  IsSorted (a ∷ []) = Unit
  IsSorted (a ∷ b ∷ bs) = (before a b ≡ true) × IsSorted (b ∷ bs)

  module _ (total : (a b : A) → before a b ≡ false → before b a ≡ true) where
    place_behind :
        (s a : A) (xs : List A)
        → before s a ≡ true
        → IsSorted (s ∷ xs)
        → IsSorted (place a xs)
        → IsSorted (s ∷ place a xs)
    unfolding place
    place_behind s a [] p o o' = (p, tt)
    place_behind s a (x ∷ xs) p o o' = elim (Bool-cases (before a x)) [
      | inl first ↦ rw first (p, rw first at o')
      | inr later ↦ rw later (o.0, rw later at o')
    ]

    place-IsSorted : (a : A) (xs : List A) → IsSorted xs → IsSorted (place a xs)
    unfolding place
    place-IsSorted a [] o = tt
    place-IsSorted a (x ∷ []) o = elim (Bool-cases (before a x)) [
      | inl first ↦ rw first (first, tt)
      | inr later ↦ rw later (total a x later, tt)
    ]
    place-IsSorted a (x ∷ y ∷ xs) o = elim (Bool-cases (before a x)) [
      | inl first ↦ rw first (first, o)
      | inr later ↦
          rw later (place_behind x a (y ∷ xs) (total a x later) o (place-IsSorted a (y ∷ xs) o.1))
    ]

    pub sort-IsSorted : (as' : List A) → IsSorted (sort as')
    unfolding sort
    sort-IsSorted [] = tt
    sort-IsSorted (a ∷ as') = place-IsSorted a (sort as') (sort-IsSorted as')
