-- ===== src/Protocol/Packet/Parsed.antt =====
-- What is known of a message that was parsed from bytes.
use brdns.Prelude.{ℕ, zero, suc, ◌<◌, ◌≡◌, refl, ap, List, [], ◌∷◌, arith, All, length, bit_and}
use brdns.Prelude.Bits.{bit_and_nibble}
use brdns.Buffer.{BytePacketBuffer, M, ok, read_u16, from_bytes}
use brdns.Buffer.Reading.{IsByte, IsU16}
use brdns.Buffer.Qname.{Unicode, read_qname}
use brdns.Buffer.Ensures.{
  Ensures, Ensures-bind, Ensures-return, Ensures-read_u16, Ensures-read_qname, Any,
}
use brdns.Protocol.Header.{read_header}
use brdns.Protocol.Header.RoundTrip.{IsHeader}
use brdns.Protocol.Question.{DnsQuestion, read_question}
use brdns.Protocol.Question.RoundTrip.{IsQueryType}
use brdns.Protocol.Record.Parsed.{from_num-IsQueryType, Ensures-read_record}
use brdns.Protocol.Packet.{DnsPacket, read_many, blank_question, from_buffer}

opcode_range : (a : ℕ) → bit_and a 0x0F < 16
opcode_range a = omega (arith, bit_and_nibble a)

pub Ensures-read_header : Ensures read_header IsHeader
unfolding read_header
Ensures-read_header = Ensures-bind read_u16 _ IsU16 IsHeader Ensures-read_u16 (λ id p.
    Ensures-bind read_u16 _ IsU16 IsHeader Ensures-read_u16 (λ flags _.
      Ensures-bind read_u16 _ IsU16 IsHeader Ensures-read_u16 (λ qs q.
        Ensures-bind read_u16 _ IsU16 IsHeader Ensures-read_u16 (λ as' a.
          Ensures-bind read_u16 _ IsU16 IsHeader Ensures-read_u16 (λ ns n.
            Ensures-bind read_u16 _ IsU16 IsHeader Ensures-read_u16 (λ rs r.
              Ensures-return _ IsHeader (record {
                id = p;
                opcode = opcode_range _;
                questions = q;
                answers = a;
                authoritative_entries = n;
                resource_entries = r;
              })))))))

abbrev Counted : {A : Type 0} → (A → Type 0) → ℕ → List A → Type 0
Counted P n xs = All P xs × (length xs ≡ n)

Ensures-read_many :
    {A : Type 0} (n : ℕ) (m : M A) (P : A → Type 0)
    → Ensures m P
    → Ensures (read_many n m) (Counted P n)
unfolding read_many
Ensures-read_many zero m P h = Ensures-return [] (Counted P 0) (tt, refl)
Ensures-read_many (suc n) m P h = Ensures-bind m _ P (Counted P (suc n)) h (λ x p.
    Ensures-bind (read_many n m) _ (Counted P n) (Counted P (suc n)) (Ensures-read_many n m P h)
      (λ xs q. Ensures-return (x ∷ xs) (Counted P (suc n)) ((p, q.0), ap suc q.1)))

abbrev pub HasType : DnsQuestion → Type 0
HasType q = IsQueryType q.qtype

-- The header is in range, the sections are as long as it says, and each type is canonical.
pub record IsParsed (p : DnsPacket) : Type 0 where
  pub header : IsHeader p.header
  pub types : All HasType p.questions
  pub questions : length p.questions ≡ p.header.questions
  pub answers : length p.answers ≡ p.header.answers
  pub authorities : length p.authorities ≡ p.header.authoritative_entries
  pub resources : length p.resources ≡ p.header.resource_entries

module _ ⦃u : Unicode⦄ where
  Ensures-read_question : (q : DnsQuestion) → Ensures (read_question q) HasType
  unfolding read_question
  Ensures-read_question q =
      Ensures-bind (read_qname q.name) _ Any HasType (Ensures-read_qname q.name) (λ name _.
        Ensures-bind read_u16 _ IsU16 HasType Ensures-read_u16 (λ t p.
          Ensures-bind read_u16 _ IsU16 HasType Ensures-read_u16
            (λ _ _. Ensures-return _ HasType (from_num-IsQueryType t p))))

  Ensures-from_buffer : Ensures from_buffer IsParsed
  unfolding from_buffer
  Ensures-from_buffer = Ensures-bind read_header _ IsHeader IsParsed Ensures-read_header (λ h w.
      Ensures-bind _ _ (Counted HasType h.questions) IsParsed
        (Ensures-read_many h.questions _ HasType (Ensures-read_question blank_question))
        (λ qs q.
          Ensures-bind _ _ (Counted Any h.answers) IsParsed
            (Ensures-read_many h.answers _ Any Ensures-read_record)
            (λ as' a.
              Ensures-bind _ _ (Counted Any h.authoritative_entries) IsParsed
                (Ensures-read_many h.authoritative_entries _ Any Ensures-read_record)
                (λ ns n.
                  Ensures-bind _ _ (Counted Any h.resource_entries) IsParsed
                    (Ensures-read_many h.resource_entries _ Any Ensures-read_record)
                    (λ rs r. Ensures-return _ IsParsed (record {
                      header = w;
                      types = q.0;
                      questions = q.1;
                      answers = a.1;
                      authorities = n.1;
                      resources = r.1;
                    }))))))

  -- A message that is parsed from bytes has its header fields in range, query types that are told
  -- from their numbers, and each section as long as the header says.
  pub from_buffer-IsParsed :
      (raw : List ℕ) (p : DnsPacket) (b : BytePacketBuffer)
      → All IsByte raw
      → from_buffer (from_bytes raw) ≡ ok (p, b)
      → IsParsed p
  from_buffer-IsParsed raw p b w h =
      (Ensures-from_buffer (from_bytes raw) b p (unfold from_bytes in w) h).0
