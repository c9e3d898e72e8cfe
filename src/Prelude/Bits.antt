-- ===== src/Prelude/Bits.antt =====
-- Bit operations at variables: a digit recursion for `bit_or`, and tables over a byte.
use Prim.Native.Nat.{
  ℕ, zero, suc, ◌+◌, ◌*◌, ◌/◌, ◌%◌, ◌^◌, ◌≤◌, ◌<◌, min, max, bit_and, bit_or, bit_xor, digits,
  differ, bit_xor-bitwise, bit_and-bitwise, bit_or-bitwise, bitwise,
}
use mathlib.Core.Path.{◌≡◌, refl, ap, sym, ◌∙◌}
use mathlib.Core.Logic.{◌↔◌}
use mathlib.Core.Bool.{Bool, true, false, not, ◌&&◌}
use native.Mathlib.Omega.{arith}
use native.Mathlib.Decide.{dec_lt}
use native.Mathlib.Nat.{pow-suc}

-- A test at every number below a bound, by evaluation.
unfoldable pub each_below : ℕ → (ℕ → Bool) → Bool
each_below zero test = true
each_below (suc bound) test = each_below bound test && test bound

pub each_below_lem :
    (test : ℕ → Bool) (bound k : ℕ) → k < bound → each_below bound test ≡ true → test k ≡ true
unfolding each_below
each_below_lem test zero k few all = absurd (omega (arith, few))
each_below_lem test (suc bound) k few all = elim (dec_lt k bound) [
  | yes less ↦ each_below_lem test bound k less (ground (arith, all))
  | no last ↦ let e : k ≡ bound = omega arith in rw e (ground (arith, all))
]

-- The recursion on binary digits that a native operation stands for: `tail` is its value where the
-- first number has no digits left, and `join` that of two digits. Enough rounds all agree.
module _ (tail : ℕ → ℕ) (join : ℕ → ℕ → ℕ) where
  rounds_done : (fuel b : ℕ) → digits tail join fuel 0 b ≡ tail b
  rounds_done zero b = refl
  rounds_done (suc fuel) b = refl

  rounds_agree :
      (a fuel other b : ℕ)
      → a ≤ fuel
      → a ≤ other
      → digits tail join fuel a b ≡ digits tail join other a b
  rounds_agree zero fuel other b p q = rounds_done fuel b ∙ sym (rounds_done other b)
  rounds_agree (suc a) zero other b p q = absurd (omega (arith, p))
  rounds_agree (suc a) (suc fuel) zero b p q = absurd (omega (arith, q))
  rounds_agree (suc a) (suc fuel) (suc other) b p q =
      ap (λ (t : ℕ). t * 2 + join (suc a % 2) (b % 2))
        (rounds_agree (suc a / 2) fuel other (b / 2) (omega (arith, p)) (omega (arith, q)))

  -- The lowest digit apart from the others.
  digit_apart :
      (a b : ℕ)
      → bitwise tail join (suc a) b
        ≡ bitwise tail join (suc a / 2) (b / 2) * 2 + join (suc a % 2) (b % 2)
  digit_apart a b =
      ap (λ (t : ℕ). t * 2 + join (suc a % 2) (b % 2))
        (rounds_agree (suc a / 2) a (suc a / 2) (b / 2) (omega arith) (omega arith))

or_digit : (a b : ℕ) → bit_or a b ≡ bit_or (a / 2) (b / 2) * 2 + max (a % 2) (b % 2)
or_digit zero b = omega (arith, bit_or-bitwise 0 b, bit_or-bitwise 0 (b / 2))
or_digit (suc a) b =
    bit_or-bitwise (suc a) b
    ∙ digit_apart (λ y. y) max a b
    ∙ ap (λ (t : ℕ). t * 2 + max (suc a % 2) (b % 2)) (sym (bit_or-bitwise (suc a / 2) (b / 2)))

-- Halving ends, so a law that holds at 0 and passes from the half holds everywhere.
by_halves :
    (P : ℕ → Type 0) → P 0 → ((a : ℕ) → P (suc a / 2) → P (suc a)) → (bound a : ℕ) → a ≤ bound → P a
by_halves P base step bound zero p = base
by_halves P base step zero (suc a) p = absurd (omega (arith, p))
by_halves P base step (suc bound) (suc a) p =
    step a (by_halves P base step bound (suc a / 2) (omega (arith, p)))

or_none : (a : ℕ) → bit_or a 0 ≡ a
or_none a =
    by_halves (λ x. bit_or x 0 ≡ x) refl (λ x ih. omega (arith, or_digit (suc x) 0, ih)) a a
      (omega arith)

high_half : (h k : ℕ) → h * 2 ^ suc k ≡ h * 2 ^ k * 2
high_half h k = omega (arith, ap (λ (t : ℕ). h * t) (pow-suc 2 k))

-- `(h << k) | l` is a sum where `l` has at most `k` bits.
pub bit_or_add : (k h l : ℕ) → l < 2 ^ k → bit_or (h * 2 ^ k) l ≡ h * 2 ^ k + l
bit_or_add zero h l fits = ground (arith, or_none h)
bit_or_add (suc k) h l fits =
    ground (arith, or_digit (h * 2 ^ suc k) l, high_half h k, pow-suc 2 k, bit_or_add k h (l / 2))

and_digit : (a b : ℕ) → bit_and a b ≡ bit_and (a / 2) (b / 2) * 2 + min (a % 2) (b % 2)
and_digit zero b = omega (arith, bit_and-bitwise 0 b, bit_and-bitwise 0 (b / 2))
and_digit (suc a) b =
    bit_and-bitwise (suc a) b
    ∙ digit_apart (λ y. 0) min a b
    ∙ ap (λ (t : ℕ). t * 2 + min (suc a % 2) (b % 2)) (sym (bit_and-bitwise (suc a / 2) (b / 2)))

and_none : (a : ℕ) → bit_and a 0 ≡ 0
and_none a =
    by_halves (λ x. bit_and x 0 ≡ 0) refl (λ x ih. omega (arith, and_digit (suc x) 0, ih)) a a
      (omega arith)

-- A mask of low bits is a remainder; each mask takes one digit more.
bit_and_1 : (a : ℕ) → bit_and a 0x01 ≡ a % 2
bit_and_1 a = omega (arith, and_digit a 0x01, and_none (a / 2))

bit_and_2 : (a : ℕ) → bit_and a 0x03 ≡ a % 2 ^ 2
bit_and_2 a = omega (arith, and_digit a 0x03, bit_and_1 (a / 2))

bit_and_4 : (a : ℕ) → bit_and a 0x0F ≡ a % 2 ^ 4
bit_and_4 a = omega (arith, and_digit a 0x0F, and_digit (a / 2) 0x07, bit_and_2 (a / 2 / 2))

bit_and_6 : (a : ℕ) → bit_and a 0x3F ≡ a % 2 ^ 6
bit_and_6 a = omega (arith, and_digit a 0x3F, and_digit (a / 2) 0x1F, bit_and_4 (a / 2 / 2))

pub bit_and_byte : (a : ℕ) → bit_and a 0xFF ≡ a % 2 ^ 8
bit_and_byte a = omega (arith, and_digit a 0xFF, and_digit (a / 2) 0x7F, bit_and_6 (a / 2 / 2))

pub bit_and_nibble : (a : ℕ) → bit_and a 0x0F ≡ a % 2 ^ 4
bit_and_nibble a = bit_and_4 a

-- Every pair of a flag's values.
unfoldable pub both : (Bool → Bool) → Bool
both p = p true && p false

pub both_sound : (p : Bool → Bool) (b : Bool) → both p ≡ true → p b ≡ true
unfolding both
both_sound p true h = ground arith
both_sound p false h = ground arith

unfoldable pub same : Bool → Bool → Bool
same true b = b
same false b = not b

differ-same : (x : ℕ) → differ x x ≡ 0
differ-same zero = refl
differ-same (suc x) = differ-same x

differ-zero : (x y : ℕ) → differ x y ≡ 0 → x ≡ y
differ-zero zero y h = sym h
differ-zero (suc x) zero h = h
differ-zero (suc x) (suc y) h = ap suc (differ-zero x y h)

xor_digit : (a b : ℕ) → bit_xor a b ≡ bit_xor (a / 2) (b / 2) * 2 + differ (a % 2) (b % 2)
xor_digit zero b = omega (arith, bit_xor-bitwise 0 b, bit_xor-bitwise 0 (b / 2))
xor_digit (suc a) b =
    bit_xor-bitwise (suc a) b
    ∙ digit_apart (λ y. y) differ a b
    ∙ ap (λ (t : ℕ). t * 2 + differ (suc a % 2) (b % 2)) (sym (bit_xor-bitwise (suc a / 2) (b / 2)))

xor_same : (a : ℕ) → bit_xor a a ≡ 0
xor_same a =
    by_halves (λ x. bit_xor x x ≡ 0) refl
      (λ x ih. omega (arith, xor_digit (suc x) (suc x), ih, differ-same (suc x % 2))) a a
      (omega arith)

xor_apart : (a b : ℕ) → bit_xor a b ≡ 0 → a ≡ b
xor_apart a b h =
    by_halves (λ x. (y : ℕ) → bit_xor x y ≡ 0 → x ≡ y)
      (λ y k. omega (arith, bit_xor-bitwise 0 y, k))
      (λ x ih y k.
        let d = xor_digit (suc x) y in
        let low = differ-zero (suc x % 2) (y % 2) (omega (arith, d, k)) in
        omega (arith, low, ih (y / 2) (omega (arith, d, k))))
      a a (omega arith) b h

-- Two numbers have no digit apart exactly where they are equal.
pub bit_xor_zero_iff : (a b : ℕ) → (bit_xor a b ≡ 0) ↔ (a ≡ b)
bit_xor_zero_iff a b = (xor_apart a b, λ e. rw e (xor_same b))

or_zero_step : (a b : ℕ) → bit_or a b ≡ 0 → (a ≡ 0) × (b ≡ 0)
or_zero_step a b h =
    by_halves (λ x. (y : ℕ) → bit_or x y ≡ 0 → (x ≡ 0) × (y ≡ 0))
      (λ y k. (refl, omega (arith, bit_or-bitwise 0 y, k)))
      (λ x ih y k.
        let d = or_digit (suc x) y in
        let r = ih (y / 2) (omega (arith, d, k)) in
        (omega (arith, d, k, r.0), omega (arith, d, k, r.1)))
      a a (omega arith) b h

-- Gathered digits are none exactly where both numbers have none.
pub bit_or_zero_iff : (a b : ℕ) → (bit_or a b ≡ 0) ↔ ((a ≡ 0) × (b ≡ 0))
bit_or_zero_iff a b = (or_zero_step a b, λ e. rw (e.0, e.1) refl)
