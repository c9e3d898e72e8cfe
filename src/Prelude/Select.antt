-- ===== src/Prelude/Select.antt =====
-- Lists searched, filtered and sorted by a Boolean test.
use mathlib.Core.Path.{◌≡◌, refl}
use mathlib.Core.Logic.{inl, inr}
use mathlib.Core.Bool.{Bool, true, false, ◌||◌, not}
use mathlib.Core.List.{List, [], ◌∷◌, ◌++◌}
use mathlib.Core.Option.{Option, none, some}
use native.Mathlib.Omega.{arith}
use brdns.Prelude.Tests.{if◌then◌else◌, Bool-cases}
use brdns.Prelude.Lists.{All, All-imp}

module _ {ℓ} {A : Type ℓ} where
  abbrev pub filter : (A → Bool) → List A → List A
  filter p [] = []
  filter p (x ∷ xs) = let rest = filter p xs in if p x then x ∷ rest else rest

  abbrev pub exists : (A → Bool) → List A → Bool
  exists p [] = false
  exists p (x ∷ xs) = p x || exists p xs

  abbrev pub first : List A → Option A
  first [] = none
  first (x ∷ xs) = some x

  abbrev pub insert_by : (A → A → Bool) → A → List A → List A
  insert_by le x [] = x ∷ []
  insert_by le x (y ∷ ys) = let rest = insert_by le x ys in if le x y then x ∷ y ∷ ys else y ∷ rest

  abbrev pub sort_by : (A → A → Bool) → List A → List A
  sort_by le [] = []
  sort_by le (x ∷ xs) = insert_by le x (sort_by le xs)

  pub filter-append :
      (p : A → Bool) (xs ys : List A) → filter p (xs ++ ys) ≡ filter p xs ++ filter p ys
  filter-append p [] ys = refl
  filter-append p (x ∷ xs) ys = elim (Bool-cases (p x)) [
    | inl h ↦ rw (h, filter-append p xs ys)
    | inr h ↦ rw (h, filter-append p xs ys)
  ]

  -- Where the test holds of each element, and where it holds of none.
  pub filter_all : (p : A → Bool) (xs : List A) → All (λ x. p x ≡ true) xs → filter p xs ≡ xs
  filter_all p [] h = refl
  filter_all p (x ∷ xs) h = rw (h.0, filter_all p xs h.1)

  pub filter_none : (p : A → Bool) (xs : List A) → All (λ x. p x ≡ false) xs → filter p xs ≡ []
  filter_none p [] h = refl
  filter_none p (x ∷ xs) h = rw (h.0) (filter_none p xs h.1)

  pub filter-All : (p : A → Bool) (xs : List A) → All (λ x. p x ≡ true) (filter p xs)
  filter-All p [] = tt
  filter-All p (x ∷ xs) = elim (Bool-cases (p x)) [
    | inl h ↦ rw h (h, filter-All p xs)
    | inr h ↦ rw h (filter-All p xs)
  ]

  -- A list in order is sorted.
  abbrev pub AtMostAll : (A → A → Bool) → A → List A → Type 0
  AtMostAll le x [] = Unit
  AtMostAll le x (y ∷ ys) = (le x y ≡ true) × AtMostAll le x ys

  abbrev pub IsSorted : (A → A → Bool) → List A → Type 0
  IsSorted le [] = Unit
  IsSorted le (x ∷ xs) = AtMostAll le x xs × IsSorted le xs

  pub insert_by_first :
      (le : A → A → Bool) (x : A) (xs : List A) → AtMostAll le x xs → insert_by le x xs ≡ x ∷ xs
  insert_by_first le x [] h = refl
  insert_by_first le x (y ∷ ys) h = rw (h.0)

  pub sort_by_sorted : (le : A → A → Bool) (xs : List A) → IsSorted le xs → sort_by le xs ≡ xs
  sort_by_sorted le [] h = refl
  sort_by_sorted le (x ∷ xs) h = rw (sort_by_sorted le xs h.1) (insert_by_first le x xs h.0)

  pub All-filter {κ} :
      (P : A → Type κ) (p : A → Bool) (xs : List A) → All P xs → All P (filter p xs)
  All-filter P p [] h = tt
  All-filter P p (x ∷ xs) h = elim (Bool-cases (p x)) [
    | inl e ↦ rw e (h.0, All-filter P p xs h.1)
    | inr e ↦ rw e (All-filter P p xs h.1)
  ]

  pub first-none : (xs : List A) → first xs ≡ none → xs ≡ []
  first-none [] h = refl
  first-none (x ∷ xs) h = cc

  -- The first element that passes a test.
  pub first-filter :
      (p : A → Bool) (xs : List A) (x : A) → first (filter p xs) ≡ some x → p x ≡ true
  first-filter p [] x h = cc
  first-filter p (y ∷ ys) x h = ground (arith, h, first-filter p ys x)

  pub exists-first :
      (p q : A → Bool) (xs : List A) (x : A)
      → first (filter p xs) ≡ some x
      → q x ≡ true
      → exists q xs ≡ true
  exists-first p q [] x h k = cc
  exists-first p q (y ∷ ys) x h k = ground (arith, exists-first p q ys x)

  pub exists-append :
      (q : A → Bool) (xs ys : List A) → exists q (xs ++ ys) ≡ (exists q xs || exists q ys)
  exists-append q [] ys = refl
  exists-append q (x ∷ xs) ys = ground (arith, exists-append q xs ys)

  pub filter-not : (p : A → Bool) (xs : List A) → filter p (filter (λ x. not (p x)) xs) ≡ []
  filter-not p xs =
      filter_none p (filter (λ x. not (p x)) xs)
        (All-imp (λ x h. ground arith) _ (filter-All (λ x. not (p x)) xs))

  pub insert_by-All {κ} :
      (P : A → Type κ) (le : A → A → Bool) (x : A) (ys : List A)
      → P x
      → All P ys
      → All P (insert_by le x ys)
  insert_by-All P le x [] h k = (h, tt)
  insert_by-All P le x (y ∷ ys) h k = elim (Bool-cases (le x y)) [
    | inl e ↦ rw e (h, k)
    | inr e ↦ rw e (k.0, insert_by-All P le x ys h k.1)
  ]

  pub sort_by-All {κ} :
      (P : A → Type κ) (le : A → A → Bool) (xs : List A) → All P xs → All P (sort_by le xs)
  sort_by-All P le [] h = tt
  sort_by-All P le (x ∷ xs) h = insert_by-All P le x (sort_by le xs) h.0 (sort_by-All P le xs h.1)

  -- A test that passes what another passes.
  pub filter-filter :
      (p q : A → Bool) (xs : List A)
      → ((x : A) → p x ≡ true → q x ≡ true)
      → filter p (filter q xs) ≡ filter p xs
  filter-filter p q [] h = refl
  filter-filter p q (x ∷ xs) h = elim (Bool-cases (p x)) [
    | inl e ↦ rw (h x e, e, filter-filter p q xs h) refl
    | inr e ↦ elim (Bool-cases (q x)) [
      | inl f ↦ rw (f, e) (filter-filter p q xs h)
      | inr f ↦ rw (f, e) (filter-filter p q xs h)
    ]
  ]
