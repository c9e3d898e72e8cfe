-- ===== src/Buffer/Qname.antt =====
-- `read_qname` and `write_qname` of lib/buffer.rs: domain names on the wire.
use brdns.Prelude.{
  ℕ, zero, suc, ◌+◌, ◌*◌, ◌%◌, ◌^◌, ◌<◌, ◌≡◌, bit_and, bit_or, bit_xor, Bool, true, false, List, [],
  ◌∷◌, ◌++◌, ltb, ◌==◌, if◌then◌else◌, length, All,
}
use brdns.Prelude.Text.{Text, dot, to_ascii_lowercase, split}
use brdns.Buffer.{
  BytePacketBuffer, M, Result, ok, err, jump_limit, label_too_long, out_of_fuel, ◌>>◌, fail, return,
  get, get_range, write_u8,
}

abbrev pub IsAscii : ℕ → Type 0
IsAscii c = c < 128

-- `String::from_utf8_lossy(bytes).to_lowercase()` of the standard library. Its Unicode tables are
-- left open; on ASCII bytes it lowers the letters.
pub record Unicode : Type 0 where
  pub lossy_lower : Text → Text
  pub lossy_lower_ascii : (s : Text) → All IsAscii s → lossy_lower s ≡ to_ascii_lowercase s

-- The loop's variables, and the position of the buffer.
pub record Scan : Type 0 where
  pub cursor : ℕ
  pub jumped : Bool
  pub jumps : ℕ
  pub delim : Text
  pub out : Text
  pub pos : ℕ

-- One round of the loop breaks or goes on.
pub data Turn : Type 0 where
  stop : Scan → Turn
  again : Scan → Turn

abbrev pub max_jumps : ℕ
max_jumps = 5

-- A length byte with both top bits set starts a pointer.
unfoldable pub is_pointer : ℕ → Bool
is_pointer len = bit_and len 0xC0 == 0xC0

unfoldable pub offset_of : ℕ → ℕ → ℕ
offset_of len b2 = bit_or (bit_xor len 0xC0 * 2 ^ 8 % 2 ^ 16) b2

unfoldable pub follow : List ℕ → Scan → ℕ → Result Turn
unfolding get offset_of
follow buf s len = elim (get buf (s.cursor + 1)) [
  | err e ↦ err e
  | ok b2 ↦ ok (
      again (record s {
        cursor = offset_of len b2;
        jumped = true;
        jumps = s.jumps + 1;
        pos = if s.jumped then s.pos else s.cursor + 2;
      }))
]

module _ ⦃u : Unicode⦄ where
  unfoldable pub take_label : List ℕ → Scan → ℕ → Result Turn
  unfolding get_range
  take_label buf s len =
      if len == 0
      then ok (stop (record s { cursor = s.cursor + 1 }))
      else elim (get_range buf (s.cursor + 1) len) [
        | err e ↦ err e
        | ok str ↦ ok (
            again (record s {
              cursor = s.cursor + 1 + len;
              delim = dot ∷ [];
              out = (s.out ++ s.delim) ++ u.lossy_lower str;
            }))
      ]

  unfoldable pub turn : List ℕ → Scan → Result Turn
  unfolding get is_pointer follow take_label
  turn buf s = if ltb max_jumps s.jumps then err jump_limit else elim (get buf s.cursor) [
    | err e ↦ err e
    | ok len ↦ if is_pointer len then follow buf s len else take_label buf s len
  ]

  unfoldable pub qname_loop : ℕ → List ℕ → Scan → Result Scan
  unfolding turn
  qname_loop zero buf s = err out_of_fuel
  qname_loop (suc fuel) buf s = elim (turn buf s) [
    | err e ↦ err e
    | ok (stop s') ↦ ok s'
    | ok (again s') ↦ qname_loop fuel buf s'
  ]

  -- Each pointer is followed by at most a pass over the buffer.
  abbrev pub qname_fuel : List ℕ → ℕ
  qname_fuel buf = 7 * (length buf + 2)

  abbrev pub scan_from : BytePacketBuffer → Text → Scan
  scan_from b out = record {
    cursor = b.pos;
    jumped = false;
    jumps = 0;
    delim = [];
    out = out;
    pos = b.pos;
  }

  abbrev pub finish : BytePacketBuffer → Scan → Result (Text × BytePacketBuffer)
  finish b s = ok (s.out, record b { pos = if s.jumped then s.pos else s.cursor })

  -- `outstr` is the text that the name is appended to.
  unfoldable pub read_qname : Text → M Text
  unfolding qname_loop
  read_qname outstr b = elim (qname_loop (qname_fuel b.buf) b.buf (scan_from b outstr)) [
    | err e ↦ err e
    | ok s ↦ finish b s
  ]

unfoldable pub write_bytes : List ℕ → M (Unit {0})
unfolding write_u8
write_bytes [] = return tt
write_bytes (x ∷ xs) = do write_u8 x; write_bytes xs

unfoldable pub write_labels : List Text → M (Unit {0})
unfolding write_u8 write_bytes
write_labels [] = return tt
write_labels (l ∷ ls) =
    let body = (do write_u8 (length l % 2 ^ 8); write_bytes l; write_labels ls) in
    if ltb 0x3f (length l) then fail label_too_long else body

unfoldable pub write_qname : Text → M (Unit {0})
unfolding write_u8 write_labels split
write_qname qname = do write_labels (split dot qname); write_u8 0
