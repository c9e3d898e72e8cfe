-- ===== src/Receiver/Doh.antt =====
-- lib/receiver/doh.rs: the query in the parameters of a GET request.
pub mod Percent
pub mod Request
pub mod Methods
use brdns.Prelude.{
  ℕ, zero, suc, ◌+◌, ◌-◌, ◌*◌, Bool, true, false, ◌&&◌, not, Option, none, some, List, [], ◌∷◌, leb,
  ◌==◌, if◌then◌else◌,
}
use brdns.Prelude.Text.{Text, bytes, split, strip_prefix}

-- The value of the first pair with the name.
unfoldable pub first_dns : List Text → Option Text
unfolding strip_prefix
first_dns [] = none
first_dns (pair ∷ pairs) = elim (strip_prefix pair (bytes "dns=")) [
  | some value ↦ some value
  | none ↦ first_dns pairs
]

unfoldable pub dns_query_param : Option Text → Option Text
unfolding first_dns split
dns_query_param none = none
dns_query_param (some query) = first_dns (split b'&' query)

unfoldable pub hex_value : ℕ → Option ℕ
hex_value c =
    if leb b'0' c && leb c b'9'
    then some (c - b'0')
    else if leb b'a' c && leb c b'f'
    then some (c - b'a' + 10)
    else if leb b'A' c && leb c b'F'
    then some (c - b'A' + 10)
    else none

-- `u8::from_str_radix(hex, 16)` of two bytes, which takes a sign `+` in front.
unfoldable pub from_hex : ℕ → ℕ → Option ℕ
unfolding hex_value
from_hex a b = if a == b'+' then hex_value b else elim (hex_value a) [
  | none ↦ none
  | some high ↦ elim (hex_value b) [ none ↦ none | some low ↦ some (high * 16 + low) ]
]

-- A character ends here: the text ends, or its next byte continues no character.
unfoldable pub at_boundary : Text → Bool
at_boundary [] = true
at_boundary (c ∷ s) = not (leb 0x80 c && leb c 0xBF)

abbrev pub push : ℕ → Option (List ℕ) → Option (List ℕ)
push c none = none
push c (some out) = some (c ∷ out)

-- The loop over the bytes; `none` is a panic, where the slice ends inside a character.
unfoldable pub decode_bytes : Text → Option (List ℕ)
unfolding from_hex at_boundary
decode_bytes [] = some []
decode_bytes (c ∷ []) = some (c ∷ [])
decode_bytes (c ∷ a ∷ []) = some (c ∷ a ∷ [])
decode_bytes (c ∷ a ∷ b ∷ rest) = elim (c == b'%') [
  | false ↦ push c (decode_bytes (a ∷ b ∷ rest))
  | true ↦ elim (at_boundary rest) [
    | false ↦ none
    | true ↦ elim (from_hex a b) [
      | some v ↦ push v (decode_bytes rest)
      | none ↦ push c (decode_bytes (a ∷ b ∷ rest))
    ]
  ]
]

-- `lossy` is the standard library's reading of bytes as UTF-8.
unfoldable pub percent_decode : (List ℕ → Text) → Text → Option Text
unfolding decode_bytes
percent_decode lossy input = elim (decode_bytes input) [ none ↦ none | some out ↦ some (lossy out) ]
