-- ===== src/Prelude/Lexical.antt =====
-- Sorting by a key and, within a key, by a test.
use Prim.Native.Nat.{ℕ, ◌≤◌, ◌<◌}
use mathlib.Core.Path.{◌≡◌, refl, ap, ◌∙◌}
use mathlib.Core.Logic.{inl, inr}
use mathlib.Core.Bool.{Bool, true, false, ◌&&◌, ◌||◌}
use mathlib.Core.List.{List, [], ◌∷◌}
use native.Mathlib.Omega.{arith}
use brdns.Prelude.Tests.{ltb, ◌==◌, Bool-cases}
use brdns.Prelude.Lists.{All, All-imp}
use brdns.Prelude.Select.{filter, insert_by, sort_by, filter_none, insert_by-All}

module _ {ℓ} {A : Type ℓ} (key : A → ℕ) (le : A → A → Bool) where
  abbrev pub lexical : A → A → Bool
  lexical x y = ltb (key x) (key y) || (key x == key y && le x y)

  abbrev IsKeySorted : List A → Type 0
  IsKeySorted [] = Unit
  IsKeySorted (x ∷ xs) = All (λ y. key x ≤ key y) xs × IsKeySorted xs

  insert_by-IsKeySorted :
      (x : A) (ys : List A) → IsKeySorted ys → IsKeySorted (insert_by lexical x ys)
  insert_by-IsKeySorted x [] h = (tt, tt)
  insert_by-IsKeySorted x (y ∷ ys) h = elim (Bool-cases (lexical x y)) [
    | inl e ↦
        let l : key x ≤ key y = ground (arith, e) in
        rw e ((l, All-imp (λ z k. omega (arith, l, k)) ys h.0), h)
    | inr e ↦
        let l : key y ≤ key x = ground (arith, e) in
        rw e (insert_by-All (λ z. key y ≤ key z) lexical x ys l h.0, insert_by-IsKeySorted x ys h.1)
  ]

  sort_by-IsKeySorted : (xs : List A) → IsKeySorted (sort_by lexical xs)
  sort_by-IsKeySorted [] = tt
  sort_by-IsKeySorted (x ∷ xs) =
      insert_by-IsKeySorted x (sort_by lexical xs) (sort_by-IsKeySorted xs)

  filter-insert_by_other :
      (a : ℕ) (x : A) (ys : List A)
      → (key x == a) ≡ false
      → filter (λ z. key z == a) (insert_by lexical x ys) ≡ filter (λ z. key z == a) ys
  filter-insert_by_other a x [] h = rw h refl
  filter-insert_by_other a x (y ∷ ys) h = elim (Bool-cases (lexical x y)) [
    | inl e ↦ rw (e, h) refl
    | inr e ↦ rw (e, filter-insert_by_other a x ys h) refl
  ]

  above-apart :
      (a : ℕ) (y : A) (ys : List A)
      → a < key y
      → All (λ z. key y ≤ key z) ys
      → filter (λ z. key z == a) ys ≡ []
  above-apart a y ys h k =
      filter_none (λ z. key z == a) ys (All-imp (λ z l. ground (arith, h, l)) ys k)

  filter-insert_by :
      (a : ℕ) (x : A) (ys : List A)
      → (key x == a) ≡ true
      → IsKeySorted ys
      → filter (λ z. key z == a) (insert_by lexical x ys)
        ≡ insert_by le x (filter (λ z. key z == a) ys)
  filter-insert_by a x [] h s = rw h refl
  filter-insert_by a x (y ∷ ys) h s = elim (Bool-cases (key y == a)) [
    | inl e ↦
        let l : lexical x y ≡ le x y = ground (arith, h, e) in
        elim (Bool-cases (le x y)) [
          | inl f ↦ rw (l, f, h, e) (rw f refl)
          | inr f ↦ rw (l, f, e) (rw f (ap (λ r. y ∷ r) (filter-insert_by a x ys h s.1)))
        ]
    | inr e ↦ elim (Bool-cases (lexical x y)) [
      | inl f ↦ let n = above-apart a y ys (ground (arith, h, e, f)) s.0 in rw (f, h, e, n) refl
      | inr f ↦ rw (f, e) (filter-insert_by a x ys h s.1)
    ]
  ]

  -- The elements of one key come in the order of the test.
  pub filter-sort_by :
      (a : ℕ) (xs : List A)
      → filter (λ z. key z == a) (sort_by lexical xs) ≡ sort_by le (filter (λ z. key z == a) xs)
  filter-sort_by a [] = refl
  filter-sort_by a (x ∷ xs) = elim (Bool-cases (key x == a)) [
    | inl e ↦
        filter-insert_by a x (sort_by lexical xs) e (sort_by-IsKeySorted xs)
        ∙ rw (e, filter-sort_by a xs) refl
    | inr e ↦ filter-insert_by_other a x (sort_by lexical xs) e ∙ rw e (filter-sort_by a xs)
  ]
