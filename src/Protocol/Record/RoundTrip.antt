-- ===== src/Protocol/Record/RoundTrip.antt =====
-- Writing a record of the kinds that the program writes, and reading it back.
use brdns.Prelude.{
  ℕ, ◌+◌, ◌-◌, ◌*◌, ◌/◌, ◌%◌, ◌^◌, ◌≡◌, ap, ◌∙◌, List, [], ◌∷◌, ◌++◌, arith, All, length,
}
use mathlib.Core.Path.{subst}
use brdns.Prelude.Text.{Text, split}
use brdns.Buffer.{BytePacketBuffer, ok, read, read_u16, read_u32, write_u16, write_u32}
use brdns.Buffer.Reading.{
  Reads, Reads-bind, Reads-last, Reads-return, Reads-read, Reads-read_u16, Reads-read_u32,
  u16_bytes, u32_bytes, IsU16, IsU32, IsByte,
}
use brdns.Buffer.Writing.{
  Writes, Writes-bind, Writes-write_u16, Writes-write_u32, put_all, put_all-Fits, pos-put_all,
  bind_ok,
}
use brdns.Buffer.Patch.{patch_two}
use brdns.Buffer.Qname.{Unicode, read_qname, write_qname}
use brdns.Buffer.WriteName.{Writes-write_bytes}
use brdns.Protocol.Question.RoundTrip.{IsName, wire_name, Writes-name, Reads-name}
use brdns.Protocol.Record.{
  DnsRecord, Ipv4Addr, Ipv6Addr, to_num, from_num, ipv4_of, read_octets, read_data, read_record,
  patch_len, write_cname_data, write_data,
}

abbrev pub octets4 : Ipv4Addr → List ℕ
octets4 x = x.a ∷ x.b ∷ x.c ∷ x.d ∷ []

-- The records that `write` supports, with their fields in range.
abbrev pub IsWritable : DnsRecord → Type 0
IsWritable (DnsRecord.a domain addr ttl) = IsName domain × All IsByte (octets4 addr) × IsU32 ttl
IsWritable (DnsRecord.aaaa domain addr ttl) = IsName domain × (length addr.octets ≡ 16) × IsU32 ttl
IsWritable (DnsRecord.cname domain host ttl) = IsName domain × IsName host × IsU32 ttl
IsWritable (DnsRecord.unknown _ _ _ _) = ⊥
IsWritable (DnsRecord.mx _ _ _ _) = ⊥
IsWritable (DnsRecord.ns _ _ _) = ⊥
IsWritable (DnsRecord.txt _ _ _) = ⊥

-- Owner, type, class, time to live and length, in front of the data.
abbrev front_bytes : Text → ℕ → ℕ → ℕ → List ℕ → List ℕ
front_bytes domain type ttl len rest =
    wire_name domain
    ++ (u16_bytes type ++ (u16_bytes 1 ++ (u32_bytes ttl ++ (u16_bytes len ++ rest))))

abbrev pub record_bytes : DnsRecord → List ℕ
record_bytes (DnsRecord.a domain addr ttl) = front_bytes domain 1 ttl 4 (octets4 addr)
record_bytes (DnsRecord.aaaa domain addr ttl) = front_bytes domain 28 ttl 16 addr.octets
record_bytes (DnsRecord.cname domain host ttl) =
    front_bytes domain 5 ttl (length (wire_name host) % 2 ^ 16) (wire_name host)
record_bytes (DnsRecord.unknown _ _ _ _) = []
record_bytes (DnsRecord.mx _ _ _ _) = []
record_bytes (DnsRecord.ns _ _ _) = []
record_bytes (DnsRecord.txt _ _ _) = []

-- The length of the host name is stored where the placeholder stood.
Writes-write_cname_data :
    (host : Text)
    → IsName host
    → Writes
        (write_cname_data host)
        (u16_bytes (length (wire_name host) % 2 ^ 16) ++ wire_name host)
unfolding write_cname_data patch_len u16_bytes put_all split
Writes-write_cname_data host w b f =
    let wire = wire_name host in
    let zeros = u16_bytes 0 in
    let b1 = put_all b zeros in
    let f1 = put_all-Fits zeros b f in
    let len : (put_all b1 wire).pos - b.pos - 2 ≡ length wire =
      omega (arith, pos-put_all wire b1, pos-put_all zeros b) in
    bind_ok (write_u16 0) _ b (Writes-write_u16 0 b f)
    ∙ bind_ok (write_qname host) _ b1 (Writes-name host w b1 f1)
    ∙ rw len (ap (λ (c : BytePacketBuffer). ok (tt, c)) (patch_two b 0 0 _ _ wire f))

pub Writes-write_data : (r : DnsRecord) → IsWritable r → Writes (write_data r) (record_bytes r)
unfolding write_data to_num
Writes-write_data (DnsRecord.a domain addr ttl) w =
    Writes-bind (write_qname domain) _ (wire_name domain) _ (Writes-name domain w.0) (
      Writes-bind (write_u16 1) _ (u16_bytes 1) _ (Writes-write_u16 1) (
        Writes-bind (write_u16 1) _ (u16_bytes 1) _ (Writes-write_u16 1) (
          Writes-bind (write_u32 ttl) _ (u32_bytes ttl) _ (Writes-write_u32 ttl) (
            Writes-bind (write_u16 4) _ (u16_bytes 4) _ (Writes-write_u16 4)
              (Writes-write_bytes (octets4 addr))))))
Writes-write_data (DnsRecord.aaaa domain addr ttl) w =
    Writes-bind (write_qname domain) _ (wire_name domain) _ (Writes-name domain w.0) (
      Writes-bind (write_u16 28) _ (u16_bytes 28) _ (Writes-write_u16 28) (
        Writes-bind (write_u16 1) _ (u16_bytes 1) _ (Writes-write_u16 1) (
          Writes-bind (write_u32 ttl) _ (u32_bytes ttl) _ (Writes-write_u32 ttl) (
            Writes-bind (write_u16 16) _ (u16_bytes 16) _ (Writes-write_u16 16)
              (Writes-write_bytes addr.octets)))))
Writes-write_data (DnsRecord.cname domain host ttl) w =
    Writes-bind (write_qname domain) _ (wire_name domain) _ (Writes-name domain w.0) (
      Writes-bind (write_u16 5) _ (u16_bytes 5) _ (Writes-write_u16 5) (
        Writes-bind (write_u16 1) _ (u16_bytes 1) _ (Writes-write_u16 1) (
          Writes-bind (write_u32 ttl) _ (u32_bytes ttl) _ (Writes-write_u32 ttl)
            (Writes-write_cname_data host w.1))))
Writes-write_data (DnsRecord.unknown _ _ _ _) w = absurd w
Writes-write_data (DnsRecord.mx _ _ _ _) w = absurd w
Writes-write_data (DnsRecord.ns _ _ _) w = absurd w
Writes-write_data (DnsRecord.txt _ _ _) w = absurd w

Reads-read_octets : (xs : List ℕ) → Reads (read_octets (length xs)) xs xs
unfolding read_octets
Reads-read_octets [] = Reads-return []
Reads-read_octets (x ∷ xs) =
    Reads-bind read _ (x ∷ []) xs _ _ (Reads-read x)
      (Reads-last (read_octets (length xs)) (λ ys. x ∷ ys) xs xs (Reads-read_octets xs))

-- The four octets as the number that is read.
abbrev joined : Ipv4Addr → ℕ
joined x = x.a * 2 ^ 24 + x.b * 2 ^ 16 + x.c * 2 ^ 8 + x.d

joined_lem :
    (x : Ipv4Addr)
    → All IsByte (octets4 x)
    → IsU32 (joined x) × (u32_bytes (joined x) ≡ octets4 x) × (ipv4_of (joined x) ≡ x)
unfolding u32_bytes
joined_lem x w =
    let n = joined x in
    let a : n / 2 ^ 24 % 2 ^ 8 ≡ x.a = omega arith in
    let b : n / 2 ^ 16 % 2 ^ 8 ≡ x.b = omega arith in
    let c : n / 2 ^ 8 % 2 ^ 8 ≡ x.c = omega arith in
    let d : n % 2 ^ 8 ≡ x.d = omega arith in (omega arith, rw (a, b, c, d), rw (a, b, c, d))

module _ ⦃u : Unicode⦄ where
  -- What stands in front of the data is read, and the data by the type that it names.
  read_front :
      (domain : Text) (type ttl len : ℕ) (data_bytes : List ℕ) (r : DnsRecord)
      → IsName domain
      → IsU16 type
      → IsU32 ttl
      → IsU16 len
      → Reads (read_data domain type ttl len (from_num type)) data_bytes r
      → Reads read_record (front_bytes domain type ttl len data_bytes) r
  unfolding read_record
  read_front domain type ttl len data_bytes r wd wt wl wn h =
      Reads-bind (read_qname []) _ (wire_name domain) _ _ _ (Reads-name domain wd) (
        Reads-bind read_u16 _ (u16_bytes type) _ _ _ (Reads-read_u16 type wt) (
          Reads-bind read_u16 _ (u16_bytes 1) _ _ _ (Reads-read_u16 1 (omega arith)) (
            Reads-bind read_u32 _ (u32_bytes ttl) _ _ _ (Reads-read_u32 ttl wl)
              (Reads-bind read_u16 _ (u16_bytes len) _ _ _ (Reads-read_u16 len wn) h))))

  read_data_a :
      (domain : Text) (addr : Ipv4Addr) (ttl : ℕ)
      → All IsByte (octets4 addr)
      → Reads (read_data domain 1 ttl 4 (from_num 1)) (octets4 addr) (DnsRecord.a domain addr ttl)
  unfolding read_data from_num
  read_data_a domain addr ttl w =
      let (range, same, back) = joined_lem addr w in
      rw (same, back) at
        (Reads-last read_u32 (λ raw. DnsRecord.a domain (ipv4_of raw) ttl) (u32_bytes (joined addr))
          (joined addr) (Reads-read_u32 (joined addr) range))

  read_data_aaaa :
      (domain : Text) (addr : Ipv6Addr) (ttl : ℕ)
      → length addr.octets ≡ 16
      → Reads
          (read_data domain 28 ttl 16 (from_num 28))
          addr.octets
          (DnsRecord.aaaa domain addr ttl)
  unfolding read_data from_num
  read_data_aaaa domain addr ttl w =
      Reads-last (read_octets 16) (λ xs. DnsRecord.aaaa domain (record { octets = xs }) ttl)
        addr.octets addr.octets
        (subst (λ n. Reads (read_octets n) addr.octets addr.octets) w
          (Reads-read_octets addr.octets))

  read_data_cname :
      (domain host : Text) (ttl len : ℕ)
      → IsName host
      → Reads
          (read_data domain 5 ttl len (from_num 5))
          (wire_name host)
          (DnsRecord.cname domain host ttl)
  unfolding read_data from_num
  read_data_cname domain host ttl len w =
      Reads-last (read_qname []) (λ h. DnsRecord.cname domain h ttl) (wire_name host) host
        (Reads-name host w)

  -- The bytes of a record that the program can write are read as the record.
  pub Reads-read_record : (r : DnsRecord) → IsWritable r → Reads read_record (record_bytes r) r
  Reads-read_record (DnsRecord.a domain addr ttl) w =
      read_front domain 1 ttl 4 (octets4 addr) _ w.0 (omega arith) w.2 (omega arith)
        (read_data_a domain addr ttl w.1)
  Reads-read_record (DnsRecord.aaaa domain addr ttl) w =
      read_front domain 28 ttl 16 addr.octets _ w.0 (omega arith) w.2 (omega arith)
        (read_data_aaaa domain addr ttl w.1)
  Reads-read_record (DnsRecord.cname domain host ttl) w =
      read_front domain 5 ttl (length (wire_name host) % 2 ^ 16) (wire_name host) _ w.0
        (omega arith) w.2 (omega arith)
        (read_data_cname domain host ttl (length (wire_name host) % 2 ^ 16) w.1)
  Reads-read_record (DnsRecord.unknown _ _ _ _) w = absurd w
  Reads-read_record (DnsRecord.mx _ _ _ _) w = absurd w
  Reads-read_record (DnsRecord.ns _ _ _) w = absurd w
  Reads-read_record (DnsRecord.txt _ _ _) w = absurd w
