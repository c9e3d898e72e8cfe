-- ===== src/Buffer.antt =====
-- lib/buffer.rs: the growable byte buffer with a position that messages are read from and written
-- to. A method that fails drops the buffer, as each caller in the program does.
pub mod Reading
pub mod Writing
pub mod Qname
pub mod Labels
pub mod Pointer
pub mod Fuel
pub mod Bounds
pub mod WriteName
pub mod Patch
pub mod Ensures
use brdns.Prelude.{
  ℕ, suc, ◌+◌, ◌-◌, ◌*◌, ◌/◌, ◌%◌, ◌^◌, ◌≡◌, bit_or, List, [], ◌∷◌, ◌++◌, Option, none, some, arith,
  leb, ltb, if◌then◌else◌, length, get_elem?, set, take, drop, replicate,
}

-- `out_of_fuel` is no error of the program: a loop of the model used up its rounds.
pub data Error : Type 0 where
  end_of_buffer jump_limit label_too_long out_of_fuel : Error

pub data Result {ℓ} (A : Type ℓ) : Type ℓ where
  ok : A → Result A
  err : Error → Result A

pub record BytePacketBuffer : Type 0 where
  pub buf : List ℕ
  pub pos : ℕ

abbrev pub M {ℓ} : Type ℓ → Type ℓ
M A = BytePacketBuffer → Result (A × BytePacketBuffer)

infixl 5 ◌>>=◌ ◌>>◌
abbrev pub ◌>>=◌ {ℓ κ} : {A : Type ℓ} {B : Type κ} → M A → (A → M B) → M B
◌>>=◌ m f b = elim (m b) [ err e ↦ err e | ok (a, b') ↦ f a b' ]

abbrev pub ◌>>◌ {ℓ} : {B : Type ℓ} → M (Unit {0}) → M B → M B
m >> k = m >>= λ _. k

abbrev pub return {ℓ} : {A : Type ℓ} → A → M A
return a b = ok (a, b)

abbrev pub fail {ℓ} : {A : Type ℓ} → Error → M A
fail e b = err e

unfoldable pub new : BytePacketBuffer
new = record { buf = replicate 512 0; pos = 0 }

unfoldable pub with_capacity : ℕ → BytePacketBuffer
with_capacity cap = record { buf = replicate cap 0; pos = 0 }

unfoldable pub from_bytes : List ℕ → BytePacketBuffer
from_bytes bytes = record { buf = bytes; pos = 0 }

-- `buffer.pos()`
unfoldable pub position : M ℕ
position b = ok (b.pos, b)

unfoldable pub step : ℕ → M (Unit {0})
step n b = ok (tt, record b { pos = b.pos + n })

unfoldable pub seek : ℕ → M (Unit {0})
seek p b = ok (tt, record b { pos = p })

-- A read past the end is an error; the byte at an index below the length is there.
unfoldable pub read : M ℕ
read b = elim (get_elem? b.buf b.pos) [
  | none ↦ err end_of_buffer
  | some v ↦ ok (v, record b { pos = b.pos + 1 })
]

unfoldable pub get : List ℕ → ℕ → Result ℕ
get buf p = elim (get_elem? buf p) [ none ↦ err end_of_buffer | some v ↦ ok v ]

unfoldable pub get_range : List ℕ → ℕ → ℕ → Result (List ℕ)
get_range buf start len =
    if ltb (length buf) (start + len) then err end_of_buffer else ok (take len (drop start buf))

unfoldable pub read_u16 : M ℕ
unfolding read
read_u16 = do hi ← read; lo ← read; return (bit_or (hi * 2 ^ 8 % 2 ^ 16) lo)

unfoldable pub read_u32 : M ℕ
unfolding read
read_u32 = do
  a ← read
  b ← read
  c ← read
  d ← read
  return
      (bit_or (bit_or (bit_or (a * 2 ^ 24 % 2 ^ 32) (b * 2 ^ 16 % 2 ^ 32)) (c * 2 ^ 8 % 2 ^ 32)) d)

-- The store of a byte at the position, which grows the buffer with zeros where it is too short.
unfoldable pub put : BytePacketBuffer → ℕ → BytePacketBuffer
put b val =
    let grown =
      if leb (length b.buf) b.pos then b.buf ++ replicate (b.pos + 1 - length b.buf) 0 else b.buf in
    record { buf = set grown b.pos val; pos = b.pos + 1 }

unfoldable pub write : ℕ → M (Unit {0})
unfolding put
write val b = ok (tt, put b val)

unfoldable pub write_u8 : ℕ → M (Unit {0})
unfolding write
write_u8 val = write val

unfoldable pub write_u16 : ℕ → M (Unit {0})
unfolding write
write_u16 val = do write (val / 2 ^ 8 % 2 ^ 8); write (val % 2 ^ 8)

unfoldable pub write_u32 : ℕ → M (Unit {0})
unfolding write
write_u32 val = do
  write (val / 2 ^ 24 % 2 ^ 8)
  write (val / 2 ^ 16 % 2 ^ 8)
  write (val / 2 ^ 8 % 2 ^ 8)
  write (val % 2 ^ 8)

-- The written portion of the buffer.
unfoldable pub as_bytes : BytePacketBuffer → List ℕ
as_bytes b = take b.pos b.buf
