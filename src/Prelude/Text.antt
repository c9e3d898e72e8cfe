-- ===== src/Prelude/Text.antt =====
-- Text as the program holds it: a `String` or `&str` is the list of its UTF-8 bytes, and the
-- library methods that the program calls on it walk those bytes.
use Prim.Native.Char.{code}
use Prim.Native.String.{String}
use Prim.Native.Nat.{ℕ, ◌+◌}
use mathlib.Core.Path.{◌≡◌, refl, sym, ap, ap₂, ◌∙◌}
use mathlib.Core.Logic.{◌≢◌, ◌↔◌, inl, inr}
use mathlib.Core.Bool.{Bool, true, false, ◌&&◌, ◌||◌}
use mathlib.Core.List.{List, [], ◌∷◌, ◌++◌, map}
use mathlib.Core.Option.{Option, none, some}
use native.Mathlib.Omega.{arith}
use brdns.Prelude.Tests.{leb, ◌==◌, ==_iff, if◌then◌else◌, Bool-cases, Option-cases}
use brdns.Prelude.Lists.{length, length-append}

abbrev pub Text : Type 0
Text = List ℕ

-- The bytes of an ASCII literal.
abbrev pub bytes : String → Text
bytes String.[] = []
bytes (String.◌∷◌ c s) = code c ∷ bytes s

abbrev pub dot : ℕ
dot = b'.'

abbrev pub star : ℕ
star = b'*'

unfoldable pub text_eq : Text → Text → Bool
text_eq [] [] = true
text_eq [] (y ∷ ys) = false
text_eq (x ∷ xs) [] = false
text_eq (x ∷ xs) (y ∷ ys) = x == y && text_eq xs ys

unfoldable pub is_empty : Text → Bool
is_empty [] = true
is_empty (x ∷ xs) = false

-- `u8::to_ascii_lowercase`, and `str::to_ascii_lowercase` byte by byte.
unfoldable pub lower_byte : ℕ → ℕ
lower_byte c = if leb b'A' c && leb c b'Z' then c + 32 else c

unfoldable pub to_ascii_lowercase : Text → Text
to_ascii_lowercase s = map lower_byte s

-- `trim_end_matches(c)` and `trim_start_matches(c)` for an ASCII character.
unfoldable pub trim_end : ℕ → Text → Text
unfolding is_empty
trim_end c [] = []
trim_end c (x ∷ xs) = let r = trim_end c xs in if is_empty r && x == c then [] else x ∷ r

unfoldable pub trim_start : ℕ → Text → Text
trim_start c [] = []
trim_start c (x ∷ xs) = let r = trim_start c xs in if x == c then r else x ∷ xs

-- `trim_start_matches("*.")`: the prefix is removed as often as it stands there.
unfoldable pub trim_star_dot : Text → Text
trim_star_dot [] = []
trim_star_dot (x ∷ []) = x ∷ []
trim_star_dot (x ∷ y ∷ s) =
    let r = trim_star_dot s in if x == star && y == dot then r else x ∷ y ∷ s

unfoldable pub ends_with : Text → Text → Bool
unfolding text_eq
ends_with [] p = text_eq [] p
ends_with (x ∷ xs) p = text_eq (x ∷ xs) p || ends_with xs p

-- What stands before a suffix.
unfoldable pub strip_suffix : Text → Text → Option Text
unfolding text_eq
strip_suffix [] p = if text_eq [] p then some [] else none
strip_suffix (x ∷ xs) p =
    let shorter = strip_suffix xs p in
    if text_eq (x ∷ xs) p
    then some []
    else elim shorter [ none ↦ none | some front ↦ some (x ∷ front) ]

-- What stands behind a prefix.
unfoldable pub strip_prefix : Text → Text → Option Text
strip_prefix s [] = some s
strip_prefix [] (y ∷ ys) = none
strip_prefix (x ∷ xs) (y ∷ ys) = let rest = strip_prefix xs ys in if x == y then rest else none

unfoldable pub contains : Text → ℕ → Bool
contains [] c = false
contains (x ∷ xs) c = x == c || contains xs c

-- `split(c)`: a text without `c` is one piece, the empty text too.
abbrev pub onto_first : ℕ → List Text → List Text
onto_first x [] = (x ∷ []) ∷ []
onto_first x (p ∷ ps) = (x ∷ p) ∷ ps

unfoldable pub split : ℕ → Text → List Text
split c [] = [] ∷ []
split c (x ∷ xs) = let ps = split c xs in if x == c then [] ∷ ps else onto_first x ps

-- `join(c)`
unfoldable pub join : ℕ → List Text → Text
join c [] = []
join c (p ∷ []) = p
join c (p ∷ q ∷ ps) = p ++ (c ∷ join c (q ∷ ps))

pub text_eq_iff : (s t : Text) → (text_eq s t ≡ true) ↔ (s ≡ t)
unfolding text_eq
text_eq_iff [] [] = ((λ _. refl), λ _. refl)
text_eq_iff [] (y ∷ ys) = ((λ h. cc), λ h. cc)
text_eq_iff (x ∷ xs) [] = ((λ h. cc), λ h. cc)
text_eq_iff (x ∷ xs) (y ∷ ys) = ground (arith, text_eq_iff xs ys)

pub text_eq_refl : (s : Text) → text_eq s s ≡ true
text_eq_refl s = (text_eq_iff s s).1 refl

-- A suffix test is true exactly where the text is some front and the suffix.
pub ends_with-append : (front p : Text) → ends_with (front ++ p) p ≡ true
unfolding ends_with
ends_with-append [] [] = refl
ends_with-append [] (y ∷ p) = rw (text_eq_refl (y ∷ p))
ends_with-append (x ∷ front) p = ground (arith, ends_with-append front p)

pub ends_with_front : (s p : Text) → ends_with s p ≡ true → (front : Text) × (s ≡ front ++ p)
unfolding ends_with
ends_with_front [] p h = ([], (text_eq_iff [] p).0 h)
ends_with_front (x ∷ xs) p h = elim (Bool-cases (text_eq (x ∷ xs) p)) [
  | inl e ↦ ([], (text_eq_iff (x ∷ xs) p).0 e)
  | inr e ↦
      let (front, q) = ends_with_front xs p (rw e at h) in (x ∷ front, ap (λ (t : Text). x ∷ t) q)
]

pub strip_suffix_front :
    (s p : Text) {front : Text} → strip_suffix s p ≡ some front → s ≡ front ++ p
unfolding strip_suffix
strip_suffix_front [] p h = ground (arith, text_eq_iff [] p)
strip_suffix_front (x ∷ xs) p h = elim (Option-cases (strip_suffix xs p)) [
  | inl e ↦ ground (arith, text_eq_iff (x ∷ xs) p)
  | inr (f, e) ↦ ground (arith, text_eq_iff (x ∷ xs) p, strip_suffix_front xs p {front = f} e)
]

length-ne : (x : ℕ) (front p : Text) → x ∷ (front ++ p) ≢ p
length-ne x front p h = omega (arith, ap length h, length-append front p)

pub strip_suffix-append : (front p : Text) → strip_suffix (front ++ p) p ≡ some front
unfolding strip_suffix
strip_suffix-append [] [] = refl
strip_suffix-append [] (y ∷ p) = rw (text_eq_refl (y ∷ p))
strip_suffix-append (x ∷ front) p =
    ground
      (arith, length-ne x front p, text_eq_iff (x ∷ (front ++ p)) p, strip_suffix-append front p)

pub split-ne-nil : (c : ℕ) (s : Text) → split c s ≢ []
unfolding split
split-ne-nil c [] h = cc
split-ne-nil c (x ∷ xs) h = elim (Bool-cases (x == c)) [
  | inl e ↦ cc (rw e at h)
  | inr e ↦ first_cons (split c xs) (rw e at h)
]
  where
    first_cons : (ps : List Text) → onto_first x ps ≡ [] → ⊥
    first_cons [] k = cc
    first_cons (p ∷ ps) k = cc

join-onto_first : (c x : ℕ) (ps : List Text) → ps ≢ [] → join c (onto_first x ps) ≡ x ∷ join c ps
unfolding join
join-onto_first c x [] h = absurd (h refl)
join-onto_first c x (p ∷ []) h = refl
join-onto_first c x (p ∷ q ∷ ps) h = refl

join_cons : (c : ℕ) (ps : List Text) → ps ≢ [] → join c ([] ∷ ps) ≡ c ∷ join c ps
unfolding join
join_cons c [] h = absurd (h refl)
join_cons c (p ∷ ps) h = refl

pub join-split : (c : ℕ) (s : Text) → join c (split c s) ≡ s
unfolding split
join-split c [] = unfold join in refl
join-split c (x ∷ xs) = elim (Bool-cases (x == c)) [
  | inl e ↦
      rw (e, split)
        (join_cons c (split c xs) (split-ne-nil c xs)
          ∙ ap₂ (λ (a : ℕ) (t : Text). a ∷ t) (sym ((==_iff x c).0 e)) (join-split c xs))
  | inr e ↦
      rw (e, split)
        (join-onto_first c x (split c xs) (split-ne-nil c xs)
          ∙ ap (λ (t : Text). x ∷ t) (join-split c xs))
]

pub lower_byte_idem : (c : ℕ) → lower_byte (lower_byte c) ≡ lower_byte c
unfolding lower_byte
lower_byte_idem c = ground arith

pub to_ascii_lowercase_idem :
    (s : Text) → to_ascii_lowercase (to_ascii_lowercase s) ≡ to_ascii_lowercase s
unfolding to_ascii_lowercase
to_ascii_lowercase_idem [] = refl
to_ascii_lowercase_idem (c ∷ s) = cc (lower_byte_idem c, to_ascii_lowercase_idem s)
