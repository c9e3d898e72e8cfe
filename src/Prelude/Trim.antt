-- ===== src/Prelude/Trim.antt =====
-- Trimming a character off the end of a text, and what it commutes with.
use Prim.Native.Nat.{ℕ, zero, suc}
use mathlib.Core.Path.{◌≡◌, refl, sym, ◌∙◌}
use mathlib.Core.Logic.{◌↔◌, ◌≢◌, inl, inr}
use mathlib.Core.Bool.{true, false, ◌&&◌}
use mathlib.Core.List.{[], ◌∷◌, ◌++◌, map}
use native.Mathlib.Omega.{arith}
use brdns.Prelude.Tests.{◌==◌, ==_refl, if◌then◌else◌, Bool-cases}
use brdns.Prelude.Lists.{replicate, All}
use brdns.Prelude.Text.{Text, dot, is_empty, lower_byte, to_ascii_lowercase, trim_end, contains}

pub is_empty_iff : (s : Text) → (is_empty s ≡ true) ↔ (s ≡ [])
unfolding is_empty
is_empty_iff [] = ((λ _. refl), λ _. refl)
is_empty_iff (x ∷ xs) = ((λ h. cc), λ h. cc)

-- One round: the character is dropped where nothing stays behind it.
trim_end_cons :
    (c x : ℕ) (s : Text)
    → trim_end c (x ∷ s) ≡ (if is_empty (trim_end c s) && x == c then [] else x ∷ trim_end c s)
unfolding trim_end
trim_end_cons c x s = refl

lower_byte-dot : (x : ℕ) → (lower_byte x == dot) ≡ (x == dot)
unfolding lower_byte
lower_byte-dot x = ground arith

is_empty-map : (f : ℕ → ℕ) (s : Text) → is_empty (map f s) ≡ is_empty s
unfolding is_empty
is_empty-map f [] = refl
is_empty-map f (x ∷ s) = refl

pub trim_end-lower :
    (s : Text) → trim_end dot (to_ascii_lowercase s) ≡ to_ascii_lowercase (trim_end dot s)
unfolding to_ascii_lowercase
trim_end-lower [] = unfold trim_end in refl
trim_end-lower (x ∷ s) = ground (
  arith,
  trim_end_cons dot x s,
  trim_end_cons dot (lower_byte x) (map lower_byte s),
  trim_end-lower s,
  lower_byte-dot x,
  is_empty-map lower_byte (trim_end dot s),
)

pub trim_end_idem : (c : ℕ) (s : Text) → trim_end c (trim_end c s) ≡ trim_end c s
trim_end_idem c [] = unfold trim_end in refl
trim_end_idem c (x ∷ s) = elim (Bool-cases (is_empty (trim_end c s) && x == c)) [
  | inl e ↦ rw (trim_end_cons c x s, e) (unfold trim_end in refl)
  | inr e ↦
      rw (trim_end_cons c x s, e) (trim_end_cons c x (trim_end c s) ∙ rw (trim_end_idem c s, e))
]

trim_end-replicate : (c n : ℕ) → trim_end c (replicate n c) ≡ []
trim_end-replicate c zero = unfold trim_end in refl
trim_end-replicate c (suc n) =
    trim_end_cons c c (replicate n c)
    ∙ rw (trim_end-replicate c n) (unfold is_empty in rw (==_refl c))

pub trim_end-append_replicate :
    (c : ℕ) (s : Text) (n : ℕ) → trim_end c (s ++ replicate n c) ≡ trim_end c s
trim_end-append_replicate c [] n = trim_end-replicate c n ∙ unfold trim_end in refl
trim_end-append_replicate c (x ∷ s) n =
    trim_end_cons c x (s ++ replicate n c)
    ∙ rw (trim_end-append_replicate c s n) (sym (trim_end_cons c x s))

-- A text without the character is left alone.
pub contains-false_iff : (s : Text) (c : ℕ) → (contains s c ≡ false) ↔ All (λ x. x ≢ c) s
unfolding contains
contains-false_iff [] c = ((λ _. tt), λ _. refl)
contains-false_iff (x ∷ s) c = ground (arith, contains-false_iff s c)

append-ne-nil_right : (s t : Text) → t ≢ [] → s ++ t ≢ []
append-ne-nil_right [] t n h = n h
append-ne-nil_right (x ∷ s) t n h = cc h

-- Only the end of a longer text is trimmed.
pub trim_end-append :
    (c : ℕ) (s t : Text) → trim_end c t ≢ [] → trim_end c (s ++ t) ≡ s ++ trim_end c t
unfolding trim_end
trim_end-append c [] t n = refl
trim_end-append c (x ∷ s) t n =
    rw (trim_end-append c s t n)
      (ground (arith, is_empty_iff (s ++ trim_end c t), append-ne-nil_right s (trim_end c t) n))
