-- ===== src/Protocol/Header.antt =====
-- lib/protocol/header.rs: the twelve bytes in front of a message.
pub mod Flags
pub mod RoundTrip
use brdns.Prelude.{
  ℕ, ◌+◌, ◌*◌, ◌/◌, ◌%◌, ◌^◌, bit_and, bit_or, Bool, true, false, ltb, ◌==◌, if◌then◌else◌, List,
  ◌≡◌,
}
use brdns.Buffer.{M, ◌>>=◌, ◌>>◌, return, read_u16, write_u8, write_u16}

pub data ResultCode : Type 0 where
  noerror formerr servfail nxdomain notimp refused : ResultCode

unfoldable pub from_num : ℕ → ResultCode
from_num n =
    if n == 1
    then formerr
    else if n == 2
    then servfail
    else if n == 3
    then nxdomain
    else if n == 4
    then notimp
    else if n == 5
    then refused
    else noerror

-- `self.rescode as u8`
unfoldable pub to_num : ResultCode → ℕ
to_num noerror = 0
to_num formerr = 1
to_num servfail = 2
to_num nxdomain = 3
to_num notimp = 4
to_num refused = 5

pub record DnsHeader : Type 0 where
  pub id : ℕ
  pub recursion_desired : Bool
  pub truncated_message : Bool
  pub authoritative_answer : Bool
  pub opcode : ℕ
  pub response : Bool
  pub rescode : ResultCode
  pub checking_disabled : Bool
  pub authed_data : Bool
  pub z : Bool
  pub recursion_available : Bool
  pub questions : ℕ
  pub answers : ℕ
  pub authoritative_entries : ℕ
  pub resource_entries : ℕ

unfoldable pub new_header : DnsHeader
new_header = record {
  id = 0;
  recursion_desired = false;
  truncated_message = false;
  authoritative_answer = false;
  opcode = 0;
  response = false;
  rescode = noerror;
  checking_disabled = false;
  authed_data = false;
  z = false;
  recursion_available = false;
  questions = 0;
  answers = 0;
  authoritative_entries = 0;
  resource_entries = 0;
}

-- `(a & (1 << k)) > 0`
abbrev pub flag : ℕ → ℕ → Bool
flag a k = ltb 0 (bit_and a (2 ^ k))

-- `b as u8` of a flag.
abbrev pub as_u8 : Bool → ℕ
as_u8 true = 1
as_u8 false = 0

-- `self.read(buffer)` sets every field.
unfoldable pub read_header : M DnsHeader
unfolding read_u16 from_num
read_header = do
  id ← read_u16
  flags ← read_u16
  let a = flags / 2 ^ 8 % 2 ^ 8
  let b = bit_and flags 0xFF % 2 ^ 8
  questions ← read_u16
  answers ← read_u16
  authoritative_entries ← read_u16
  resource_entries ← read_u16
  return (record {
    id = id;
    recursion_desired = flag a 0;
    truncated_message = flag a 1;
    authoritative_answer = flag a 2;
    opcode = bit_and (a / 2 ^ 3) 0x0F;
    response = flag a 7;
    rescode = from_num (bit_and b 0x0F);
    checking_disabled = flag b 4;
    authed_data = flag b 5;
    z = flag b 6;
    recursion_available = flag b 7;
    questions = questions;
    answers = answers;
    authoritative_entries = authoritative_entries;
    resource_entries = resource_entries;
  })

-- The two bytes of flags that `write` puts together.
unfoldable pub high_flags : DnsHeader → ℕ
high_flags h =
    bit_or
      (bit_or
        (bit_or (bit_or (as_u8 h.recursion_desired) (as_u8 h.truncated_message * 2 ^ 1))
          (as_u8 h.authoritative_answer * 2 ^ 2))
        (h.opcode * 2 ^ 3 % 2 ^ 8))
      (as_u8 h.response * 2 ^ 7)

unfoldable pub low_flags : DnsHeader → ℕ
unfolding to_num
low_flags h =
    bit_or
      (bit_or
        (bit_or (bit_or (to_num h.rescode) (as_u8 h.checking_disabled * 2 ^ 4))
          (as_u8 h.authed_data * 2 ^ 5))
        (as_u8 h.z * 2 ^ 6))
      (as_u8 h.recursion_available * 2 ^ 7)

unfoldable pub write_header : DnsHeader → M (Unit {0})
unfolding write_u16 write_u8 high_flags low_flags
write_header h = do
  write_u16 h.id
  write_u8 (high_flags h)
  write_u8 (low_flags h)
  write_u16 h.questions
  write_u16 h.answers
  write_u16 h.authoritative_entries
  write_u16 h.resource_entries
