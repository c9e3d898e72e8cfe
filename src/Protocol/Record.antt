-- ===== src/Protocol/Record.antt =====
-- lib/protocol/record.rs: query types and resource records.
pub mod RoundTrip
pub mod Parsed
pub mod Total
use brdns.Prelude.{
  ℕ, zero, suc, ◌+◌, ◌-◌, ◌*◌, ◌/◌, ◌%◌, ◌^◌, bit_and, Bool, true, false, ltb, ◌==◌, if◌then◌else◌,
  List, [], ◌∷◌, ◌++◌, set,
}
use brdns.Prelude.Text.{Text}
use brdns.Buffer.{
  BytePacketBuffer, M, Result, ok, err, out_of_fuel, ◌>>=◌, ◌>>◌, return, position, read, read_u16,
  read_u32, step, write_u8, write_u16, write_u32,
}
use brdns.Buffer.Qname.{Unicode, read_qname, write_qname, write_bytes}

pub data QueryType : Type 0 where
  unknown : ℕ → QueryType
  a aaaa cname mx ns txt : QueryType

unfoldable pub to_num : QueryType → ℕ
to_num (QueryType.unknown x) = x
to_num QueryType.a = 1
to_num QueryType.aaaa = 28
to_num QueryType.cname = 5
to_num QueryType.mx = 15
to_num QueryType.ns = 2
to_num QueryType.txt = 16

unfoldable pub from_num : ℕ → QueryType
from_num num =
    if num == 1
    then QueryType.a
    else if num == 28
    then QueryType.aaaa
    else if num == 5
    then QueryType.cname
    else if num == 15
    then QueryType.mx
    else if num == 2
    then QueryType.ns
    else if num == 16
    then QueryType.txt
    else QueryType.unknown num

-- `std::net::Ipv4Addr` by its octets, and `Ipv6Addr` by its sixteen.
pub record Ipv4Addr : Type 0 where
  pub a : ℕ
  pub b : ℕ
  pub c : ℕ
  pub d : ℕ

pub record Ipv6Addr : Type 0 where
  pub octets : List ℕ

pub data DnsRecord : Type 0 where
  unknown : Text → ℕ → ℕ → ℕ → DnsRecord
  a : Text → Ipv4Addr → ℕ → DnsRecord
  aaaa : Text → Ipv6Addr → ℕ → DnsRecord
  cname : Text → Text → ℕ → DnsRecord
  mx : Text → ℕ → Text → ℕ → DnsRecord
  ns : Text → Text → ℕ → DnsRecord
  txt : Text → Text → ℕ → DnsRecord

-- `String::push(b as char)`: the UTF-8 bytes of a code point below 256.
unfoldable pub push_char : Text → ℕ → Text
push_char s c = if ltb c 128 then s ++ (c ∷ []) else s ++ ((0xC0 + c / 64) ∷ (0x80 + c % 64) ∷ [])

-- `for _ in 0..len { data.push(buffer.read()? as char) }`
unfoldable pub read_chars : ℕ → Text → M Text
unfolding read push_char
read_chars zero text = return text
read_chars (suc n) text = do c ← read; read_chars n (push_char text c)

-- `while buffer.pos() < end`; a round takes one byte at least.
unfoldable pub read_strings : ℕ → ℕ → Text → M Text
unfolding read read_chars
read_strings zero end text b = if ltb b.pos end then err out_of_fuel else ok (text, b)
read_strings (suc fuel) end text b = elim (ltb b.pos end) [
  | false ↦ ok (text, b)
  | true ↦ (read >>= λ len. read_chars len text >>= λ longer. read_strings fuel end longer) b
]

unfoldable pub read_octets : ℕ → M (List ℕ)
unfolding read
read_octets zero = return []
read_octets (suc n) = do x ← read; xs ← read_octets n; return (x ∷ xs)

abbrev pub ipv4_of : ℕ → Ipv4Addr
ipv4_of raw = record {
  a = raw / 2 ^ 24 % 2 ^ 8;
  b = raw / 2 ^ 16 % 2 ^ 8;
  c = raw / 2 ^ 8 % 2 ^ 8;
  d = raw % 2 ^ 8;
}

module _ ⦃u : Unicode⦄ where
  -- The part behind the length, by the query type.
  unfoldable pub read_data : Text → ℕ → ℕ → ℕ → QueryType → M DnsRecord
  unfolding read_u32 read_octets read_qname read_u16 read_strings
  read_data domain qtype_num ttl data_len QueryType.a = do
    raw_addr ← read_u32
    return (DnsRecord.a domain (ipv4_of raw_addr) ttl)
  read_data domain qtype_num ttl data_len QueryType.aaaa = do
    octets ← read_octets 16
    return (DnsRecord.aaaa domain (record { octets = octets }) ttl)
  read_data domain qtype_num ttl data_len QueryType.cname = do
    host ← read_qname []
    return (DnsRecord.cname domain host ttl)
  read_data domain qtype_num ttl data_len QueryType.ns = do
    host ← read_qname []
    return (DnsRecord.ns domain host ttl)
  read_data domain qtype_num ttl data_len QueryType.mx = do
    priority ← read_u16
    host ← read_qname []
    return (DnsRecord.mx domain priority host ttl)
  read_data domain qtype_num ttl data_len QueryType.txt = do
    start ← position
    text ← read_strings data_len (start + data_len) []
    return (DnsRecord.txt domain text ttl)
  read_data domain qtype_num ttl data_len (QueryType.unknown _) = do
    step data_len
    return (DnsRecord.unknown domain qtype_num data_len ttl)

  unfoldable pub read_record : M DnsRecord
  unfolding read_qname read_u16 read_u32 read_data from_num
  read_record = do
    domain ← read_qname []
    qtype_num ← read_u16
    class ← read_u16
    ttl ← read_u32
    data_len ← read_u16
    read_data domain qtype_num ttl data_len (from_num qtype_num)

-- The length of a name that has been written is stored in front of it.
unfoldable pub patch_len : ℕ → M (Unit {0})
patch_len pos_before b =
    let len = (b.pos - pos_before - 2) % 2 ^ 16 in
    ok (
      tt,
      record b {
        buf = set (set b.buf pos_before (len / 2 ^ 8 % 2 ^ 8)) (pos_before + 1) (len % 2 ^ 8);
      },
    )

unfoldable pub write_cname_data : Text → M (Unit {0})
write_cname_data host b = (write_u16 0 >> (write_qname host >> patch_len b.pos)) b

unfoldable pub write_data : DnsRecord → M (Unit {0})
unfolding write_qname write_u16 write_u32 write_bytes write_cname_data to_num
write_data (DnsRecord.a domain addr ttl) = do
  write_qname domain
  write_u16 (to_num QueryType.a)
  write_u16 1
  write_u32 ttl
  write_u16 4
  write_bytes (addr.a ∷ addr.b ∷ addr.c ∷ addr.d ∷ [])
write_data (DnsRecord.aaaa domain addr ttl) = do
  write_qname domain
  write_u16 (to_num QueryType.aaaa)
  write_u16 1
  write_u32 ttl
  write_u16 16
  write_bytes addr.octets
write_data (DnsRecord.cname domain host ttl) = do
  write_qname domain
  write_u16 (to_num QueryType.cname)
  write_u16 1
  write_u32 ttl
  write_cname_data host
write_data (DnsRecord.unknown _ _ _ _) = return tt
write_data (DnsRecord.mx _ _ _ _) = return tt
write_data (DnsRecord.ns _ _ _) = return tt
write_data (DnsRecord.txt _ _ _) = return tt

-- The number of bytes that were written.
unfoldable pub write_record : DnsRecord → M ℕ
unfolding write_data
write_record r b = elim (write_data r b) [ err e ↦ err e | ok (_, b') ↦ ok (b'.pos - b.pos, b') ]
