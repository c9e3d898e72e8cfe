-- ===== src/Protocol/Header/RoundTrip.antt =====
-- Writing a header, and reading it back.
use brdns.Prelude.{ℕ, ◌+◌, ◌*◌, ◌/◌, ◌%◌, ◌^◌, ◌<◌, ◌≡◌, bit_and, List, [], ◌∷◌, ◌++◌, arith}
use mathlib.Core.Path.{ap₂, subst}
use brdns.Prelude.Bits.{bit_and_byte}
use brdns.Buffer.{M, read_u16}
use brdns.Buffer.Reading.{Reads, Reads-bind, Reads-last, Reads-read_u16, u16_bytes, IsU16, IsByte}
use brdns.Buffer.Writing.{Writes, Writes-bind, Writes-write_u8, Writes-write_u16}
use brdns.Protocol.Header.{
  DnsHeader, read_header, write_header, high_flags, low_flags, from_num, flag,
}
use brdns.Protocol.Header.Flags.{high_flags_holds, low_flags_holds, from_num-to_num}

-- The fields are in the ranges of their types, and the opcode in its four bits.
pub record IsHeader (h : DnsHeader) : Type 0 where
  pub id : IsU16 h.id
  pub opcode : h.opcode < 16
  pub questions : IsU16 h.questions
  pub answers : IsU16 h.answers
  pub authoritative_entries : IsU16 h.authoritative_entries
  pub resource_entries : IsU16 h.resource_entries

abbrev pub count_bytes : DnsHeader → List ℕ
count_bytes h =
    u16_bytes h.questions
    ++ (u16_bytes h.answers ++ (u16_bytes h.authoritative_entries ++ u16_bytes h.resource_entries))

abbrev pub header_bytes : DnsHeader → List ℕ
header_bytes h = u16_bytes h.id ++ ((high_flags h ∷ []) ++ ((low_flags h ∷ []) ++ count_bytes h))

pub Writes-write_header : (h : DnsHeader) → Writes (write_header h) (header_bytes h)
unfolding write_header
Writes-write_header h = Writes-bind _ _ _ _ (Writes-write_u16 h.id) (
    Writes-bind _ _ _ _ (Writes-write_u8 (high_flags h)) (
      Writes-bind _ _ _ _ (Writes-write_u8 (low_flags h)) (
        Writes-bind _ _ _ _ (Writes-write_u16 h.questions) (
          Writes-bind _ _ _ _ (Writes-write_u16 h.answers) (
            Writes-bind _ _ _ _ (Writes-write_u16 h.authoritative_entries)
              (Writes-write_u16 h.resource_entries))))))

pub Reads-two :
    (hi lo : ℕ) → IsByte hi → IsByte lo → Reads read_u16 (hi ∷ lo ∷ []) (hi * 2 ^ 8 + lo)
Reads-two hi lo p q =
    let e : u16_bytes (hi * 2 ^ 8 + lo) ≡ hi ∷ lo ∷ [] =
      unfold u16_bytes in ap₂ (λ (x y : ℕ). x ∷ y ∷ []) (omega arith) (omega arith) in
    rw e at (Reads-read_u16 (hi * 2 ^ 8 + lo) (omega arith))

-- What `read` makes of the six words.
abbrev build : ℕ → ℕ → ℕ → ℕ → ℕ → ℕ → DnsHeader
build id flags questions answers authorities resources =
    let a = flags / 2 ^ 8 % 2 ^ 8 in
    let b = bit_and flags 0xFF % 2 ^ 8 in
    record {
      id = id;
      recursion_desired = flag a 0;
      truncated_message = flag a 1;
      authoritative_answer = flag a 2;
      opcode = bit_and (a / 2 ^ 3) 0x0F;
      response = flag a 7;
      rescode = from_num (bit_and b 0x0F);
      checking_disabled = flag b 4;
      authed_data = flag b 5;
      z = flag b 6;
      recursion_available = flag b 7;
      questions = questions;
      answers = answers;
      authoritative_entries = authorities;
      resource_entries = resources;
    }

build_lem :
    (h : DnsHeader)
    → IsHeader h
    → build h.id
        (high_flags h * 2 ^ 8 + low_flags h)
        h.questions
        h.answers
        h.authoritative_entries
        h.resource_entries
      ≡ h
build_lem h w =
    let hi = high_flags h in
    let lo = low_flags h in
    let high = high_flags_holds h w.opcode in
    let low = low_flags_holds h in
    let a : (hi * 2 ^ 8 + lo) / 2 ^ 8 % 2 ^ 8 ≡ hi = omega (arith, high.byte, low.byte) in
    let b : bit_and (hi * 2 ^ 8 + lo) 0xFF % 2 ^ 8 ≡ lo =
      omega (arith, bit_and_byte (hi * 2 ^ 8 + lo), high.byte, low.byte) in
    rw (
      a,
      b,
      high.rd_lem,
      high.tc_lem,
      high.aa_lem,
      high.op_lem,
      high.qr_lem,
      low.code_lem,
      low.cd_lem,
      low.ad_lem,
      low.z_lem,
      low.ra_lem,
      from_num-to_num h.rescode,
    )

Reads-eq {ℓ} : {A : Type ℓ} (m : M A) (bs : List ℕ) (x a : A) → x ≡ a → Reads m bs x → Reads m bs a
Reads-eq m bs x a e h = subst (λ y. Reads m bs y) e h

-- The bytes of a header are read as the header.
pub Reads-read_header : (h : DnsHeader) → IsHeader h → Reads read_header (header_bytes h) h
unfolding read_header
Reads-read_header h w = Reads-eq _ (header_bytes h) _ h (build_lem h w) (
    Reads-bind read_u16 _ (u16_bytes h.id) (high_flags h ∷ low_flags h ∷ count_bytes h) _ _
      (Reads-read_u16 h.id w.id)
      (Reads-bind read_u16 _ (high_flags h ∷ low_flags h ∷ []) (count_bytes h) _ _
        (Reads-two (high_flags h) (low_flags h) (high_flags_holds h w.opcode).byte
          (low_flags_holds h).byte)
        (Reads-bind read_u16 _ (u16_bytes h.questions) _ _ _
          (Reads-read_u16 h.questions w.questions)
          (Reads-bind read_u16 _ (u16_bytes h.answers) _ _ _ (Reads-read_u16 h.answers w.answers) (
            Reads-bind read_u16 _ (u16_bytes h.authoritative_entries) _ _ _
              (Reads-read_u16 h.authoritative_entries w.authoritative_entries)
              (Reads-last read_u16 _ (u16_bytes h.resource_entries) _
                (Reads-read_u16 h.resource_entries w.resource_entries)))))))
