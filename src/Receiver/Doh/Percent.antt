-- ===== src/Receiver/Doh/Percent.antt =====
-- Percent decoding, against an encoding of every byte.
use brdns.Prelude.{
  ℕ, ◌+◌, ◌/◌, ◌%◌, ◌≡◌, refl, ◌∙◌, Bool, true, false, Option, none, some, List, [], ◌∷◌, arith,
  All, ltb, ◌==◌, if◌then◌else◌,
}
use brdns.Prelude.Bits.{each_below, each_below_lem}
use brdns.Prelude.Text.{Text}
use brdns.Buffer.Reading.{IsByte}
use brdns.Receiver.Doh.{hex_value, from_hex, at_boundary, push, decode_bytes}

-- A digit of a number below 16, with capitals.
abbrev pub hex_digit : ℕ → ℕ
hex_digit n = if ltb n 10 then n + b'0' else n + 55

-- Every byte as `%` and two digits.
abbrev pub percent_encode : List ℕ → Text
percent_encode [] = []
percent_encode (c ∷ s) = b'%' ∷ hex_digit (c / 16) ∷ hex_digit (c % 16) ∷ percent_encode s

abbrev is_some : Option ℕ → ℕ → Bool
is_some none v = false
is_some (some n) v = n == v

hex_table :
    each_below 256 (λ c. is_some (from_hex (hex_digit (c / 16)) (hex_digit (c % 16))) c) ≡ true
unfolding each_below from_hex hex_value
hex_table = refl

is_some_lem : (o : Option ℕ) (v : ℕ) → is_some o v ≡ true → o ≡ some v
is_some_lem none v h = absurd (cc h)
is_some_lem (some n) v h = ground arith

from_hex_digits : (c : ℕ) → IsByte c → from_hex (hex_digit (c / 16)) (hex_digit (c % 16)) ≡ some c
from_hex_digits c w = is_some_lem _ c (
    each_below_lem (λ c. is_some (from_hex (hex_digit (c / 16)) (hex_digit (c % 16))) c) 256 c w
      hex_table)

at_boundary-percent_encode : (s : List ℕ) → at_boundary (percent_encode s) ≡ true
unfolding at_boundary
at_boundary-percent_encode [] = refl
at_boundary-percent_encode (c ∷ s) = refl

decode_bytes_step :
    (a b v : ℕ) (rest : Text)
    → at_boundary rest ≡ true
    → from_hex a b ≡ some v
    → decode_bytes (b'%' ∷ a ∷ b ∷ rest) ≡ push v (decode_bytes rest)
unfolding decode_bytes
decode_bytes_step a b v rest h e = rw (h, decode_bytes) (rw (e, decode_bytes))

-- Bytes that are sent with each of them percent-encoded are decoded to themselves, without a panic.
pub decode_bytes-percent_encode :
    (s : List ℕ) → All IsByte s → decode_bytes (percent_encode s) ≡ some s
decode_bytes-percent_encode [] w = unfold decode_bytes in refl
decode_bytes-percent_encode (c ∷ s) w =
    decode_bytes_step (hex_digit (c / 16)) (hex_digit (c % 16)) c (percent_encode s)
      (at_boundary-percent_encode s) (from_hex_digits c w.0)
    ∙ rw (decode_bytes-percent_encode s w.1)
