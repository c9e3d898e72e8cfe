-- ===== src/Prelude/Maps.antt =====
-- A hash map as an association list over an equality test: a key is looked up at its first entry,
-- and an insertion overwrites that entry or adds one at the end.
use Prim.Native.Nat.{ℕ}
use mathlib.Core.Path.{◌≡◌, refl, ◌∙◌}
use mathlib.Core.Logic.{◌↔◌, inl, inr}
use mathlib.Core.Bool.{Bool, true, false, ◌&&◌}
use mathlib.Core.List.{List, [], ◌∷◌}
use mathlib.Core.Option.{Option, none, some}
use native.Mathlib.Omega.{arith}
use brdns.Prelude.Tests.{◌==◌, ==_iff, if◌then◌else◌, Bool-cases}
use brdns.Prelude.Int.{ℤ, pos, negsuc}
use brdns.Prelude.Text.{Text, text_eq, text_eq_iff}

pub record Eq {ℓ} (A : Type ℓ) : Type ℓ where
  pub beq : A → A → Bool
  pub beq_iff : (a b : A) → (beq a b ≡ true) ↔ (a ≡ b)

instance abbrev pub nat_eq : Eq ℕ
nat_eq = record { beq = ◌==◌; beq_iff = ==_iff }

instance abbrev pub text_Eq : Eq Text
text_Eq = record { beq = text_eq; beq_iff = text_eq_iff }

pub beq_refl {ℓ} : {K : Type ℓ} ⦃e : Eq K⦄ (k : K) → e.beq k k ≡ true
beq_refl ⦃e⦄ k = (e.beq_iff k k).1 refl

-- A pair of a number and an integer, as a key.
abbrev pub int_beq : ℤ → ℤ → Bool
int_beq (pos a) (pos b) = a == b
int_beq (pos a) (negsuc b) = false
int_beq (negsuc a) (pos b) = false
int_beq (negsuc a) (negsuc b) = a == b

int_beq_iff : (a b : ℤ) → (int_beq a b ≡ true) ↔ (a ≡ b)
int_beq_iff a b = ground arith

abbrev pub pair_beq : ℕ × ℤ → ℕ × ℤ → Bool
pair_beq (a, x) (b, y) = a == b && int_beq x y

pub pair_beq_iff : (p q : ℕ × ℤ) → (pair_beq p q ≡ true) ↔ (p ≡ q)
pair_beq_iff (a, x) (b, y) = ground arith

instance abbrev pub pair_eq : Eq (ℕ × ℤ)
pair_eq = record { beq = pair_beq; beq_iff = pair_beq_iff }

module _ {ℓ κ} {K : Type ℓ} {V : Type κ} ⦃e : Eq K⦄ where
  unfoldable pub lookup : K → List (K × V) → Option V
  lookup k [] = none
  lookup k ((j, v) ∷ m) = if e.beq j k then some v else lookup k m

  unfoldable pub insert : K → V → List (K × V) → List (K × V)
  insert k v [] = (k, v) ∷ []
  insert k v ((j, w) ∷ m) = if e.beq j k then (j, v) ∷ m else (j, w) ∷ insert k v m

  -- An insertion is read back at its key, and nowhere else.
  pub lookup-insert :
      (k j : K) (v : V) (m : List (K × V))
      → lookup j (insert k v m) ≡ (if e.beq k j then some v else lookup j m)
  unfolding lookup insert
  lookup-insert k j v [] = refl
  lookup-insert k j v ((i, w) ∷ m) =
      ground (arith, e.beq_iff k j, e.beq_iff i k, e.beq_iff i j, lookup-insert k j v m)

  pub lookup-insert_self : (k : K) (v : V) (m : List (K × V)) → lookup k (insert k v m) ≡ some v
  lookup-insert_self k v m = rw lookup-insert (rw beq_refl)

  -- `into_iter().collect()`: each entry is inserted in turn.
  unfoldable pub collect : List (K × V) → List (K × V) → List (K × V)
  unfolding insert
  collect [] m = m
  collect ((k, v) ∷ entries) m = collect entries (insert k v m)

  -- No key has two entries.
  abbrev pub IsMap : List (K × V) → Type κ
  IsMap [] = Unit
  IsMap ((k, v) ∷ m) = (lookup k m ≡ none) × IsMap m

  pub insert-IsMap : (k : K) (v : V) (m : List (K × V)) → IsMap m → IsMap (insert k v m)
  unfolding insert
  insert-IsMap k v [] w = (unfold lookup in refl, tt)
  insert-IsMap k v ((j, x) ∷ m) w = elim (Bool-cases (e.beq j k)) [
    | inl h ↦ rw h w
    | inr h ↦ rw h (
      lookup-insert k j v m ∙ ground (arith, w.0, h, e.beq_iff j k, e.beq_iff k j),
      insert-IsMap k v m w.1,
    )
  ]

  -- An entry of the collected map is that of the list, or of the map in front.
  pub lookup-collect :
      (k : K) (entries m : List (K × V))
      → IsMap entries
      → lookup k (collect entries m)
        ≡ elim (lookup k entries) [ none ↦ lookup k m | some v ↦ some v ]
  unfolding collect lookup
  lookup-collect k [] m w = refl
  lookup-collect k ((j, v) ∷ entries) m w =
      lookup-collect k entries (insert j v m) w.1
      ∙ ground (arith, w.0, e.beq_iff j k, lookup-insert j k v m)
