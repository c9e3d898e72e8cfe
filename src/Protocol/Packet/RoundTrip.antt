-- ===== src/Protocol/Packet/RoundTrip.antt =====
-- Writing a message, and reading it back with the counts that `write` sets.
use brdns.Prelude.{
  ℕ, ◌-◌, ◌<◌, ◌≡◌, refl, sym, ap, ◌∙◌, List, [], ◌∷◌, ◌++◌, append-nil, arith, All, length,
}
use native.Mathlib.Nat.{zero-add}
use brdns.Buffer.{BytePacketBuffer, M, Result, ok, return, new, from_bytes, as_bytes}
use brdns.Buffer.Reading.{advance, Reads, Reads-bind, Reads-last, Reads-return, IsU16}
use brdns.Buffer.Writing.{
  Writes, Writes-bind, put_all, put_all-append, put_all-Fits, as_bytes-put_all, new-Fits, bind_ok,
}
use brdns.Buffer.Qname.{Unicode}
use brdns.Protocol.Header.{read_header, write_header}
use brdns.Protocol.Header.RoundTrip.{IsHeader, header_bytes, Writes-write_header, Reads-read_header}
use brdns.Protocol.Question.{DnsQuestion, read_question, write_question}
use brdns.Protocol.Question.RoundTrip.{
  IsQuestion, question_bytes, Writes-write_question, Reads-read_question,
}
use brdns.Protocol.Record.{DnsRecord, read_record, write_data, write_record}
use brdns.Protocol.Record.RoundTrip.{IsWritable, record_bytes, Writes-write_data, Reads-read_record}
use brdns.Protocol.Packet.{
  DnsPacket, read_many, blank_question, from_buffer, write_questions, write_records, counted,
  write_packet,
}

-- Every part can be sent: names in wire form, records of the kinds that `write` supports, and at
-- most 65535 entries in each section.
pub record IsPacket (p : DnsPacket) : Type 0 where
  pub id : IsU16 p.header.id
  pub opcode : p.header.opcode < 16
  pub questions : All IsQuestion p.questions
  pub answers : All IsWritable p.answers
  pub authorities : All IsWritable p.authorities
  pub resources : All IsWritable p.resources
  pub questions_count : IsU16 (length p.questions)
  pub answers_count : IsU16 (length p.answers)
  pub authorities_count : IsU16 (length p.authorities)
  pub resources_count : IsU16 (length p.resources)

abbrev pub concat : {A : Type 0} → (A → List ℕ) → List A → List ℕ
concat f [] = []
concat f (x ∷ xs) = f x ++ concat f xs

abbrev pub packet_bytes : DnsPacket → List ℕ
packet_bytes p =
    header_bytes (counted p)
    ++ (concat question_bytes p.questions
        ++ (concat record_bytes p.answers
            ++ (concat record_bytes p.authorities ++ concat record_bytes p.resources)))

Writes-return : Writes (return tt) []
unfolding put_all
Writes-return b h = refl

Writes-write_questions :
    (qs : List DnsQuestion)
    → All IsQuestion qs
    → Writes (write_questions qs) (concat question_bytes qs)
unfolding write_questions
Writes-write_questions [] w = Writes-return
Writes-write_questions (q ∷ qs) w =
    Writes-bind (write_question q) (write_questions qs) (question_bytes q)
      (concat question_bytes qs) (Writes-write_question q w.0) (Writes-write_questions qs w.1)

write_record_lem :
    (r : DnsRecord) (b : BytePacketBuffer) {b' : BytePacketBuffer}
    → write_data r b ≡ ok (tt, b')
    → write_record r b ≡ ok (b'.pos - b.pos, b')
unfolding write_record
write_record_lem r b h = rw (h, write_record)

Writes-write_records :
    (rs : List DnsRecord) → All IsWritable rs → Writes (write_records rs) (concat record_bytes rs)
unfolding write_records
Writes-write_records [] w b f = Writes-return b f
Writes-write_records (r ∷ rs) w b f =
    bind_ok (write_record r) _ b (write_record_lem r b (Writes-write_data r w.0 b f))
    ∙ Writes-write_records rs w.1 (put_all b (record_bytes r)) (put_all-Fits (record_bytes r) b f)
    ∙ ap (λ (c : BytePacketBuffer). ok (tt, c))
        (sym (put_all-append (record_bytes r) (concat record_bytes rs) b))

pub Writes-write_packet : (p : DnsPacket) → IsPacket p → Writes (write_packet p) (packet_bytes p)
unfolding write_packet
Writes-write_packet p w =
    Writes-bind (write_header (counted p)) _ (header_bytes (counted p)) _
      (Writes-write_header (counted p))
      (Writes-bind (write_questions p.questions) _ (concat question_bytes p.questions) _
        (Writes-write_questions p.questions w.questions)
        (Writes-bind (write_records p.answers) _ (concat record_bytes p.answers) _
          (Writes-write_records p.answers w.answers)
          (Writes-bind (write_records p.authorities) _ (concat record_bytes p.authorities) _
            (Writes-write_records p.authorities w.authorities)
            (Writes-write_records p.resources w.resources))))

Reads-read_many :
    {A : Type 0} (m : M A) (f : A → List ℕ) (P : A → Type 0) (xs : List A)
    → ((x : A) → P x → Reads m (f x) x)
    → All P xs
    → Reads (read_many (length xs) m) (concat f xs) xs
unfolding read_many
Reads-read_many m f P [] h w = Reads-return []
Reads-read_many m f P (x ∷ xs) h w = Reads-bind m _ (f x) (concat f xs) _ _ (h x w.0) (
    Reads-last (read_many (length xs) m) (λ ys. x ∷ ys) (concat f xs) xs
      (Reads-read_many m f P xs h w.1))

-- The message as it is read back.
abbrev pub sent : DnsPacket → DnsPacket
sent p = record p { header = counted p }

counted-IsHeader : (p : DnsPacket) → IsPacket p → IsHeader (counted p)
unfolding counted
counted-IsHeader p w = record {
  id = w.id;
  opcode = w.opcode;
  questions = omega arith;
  answers = omega arith;
  authoritative_entries = omega arith;
  resource_entries = omega arith;
}

module _ ⦃u : Unicode⦄ where
  read_many_as :
      {A : Type 0} (m : M A) (f : A → List ℕ) (P : A → Type 0) (xs : List A) (n : ℕ)
      → n ≡ length xs
      → ((x : A) → P x → Reads m (f x) x)
      → All P xs
      → Reads (read_many n m) (concat f xs) xs
  read_many_as m f P xs n e h w = rw e (Reads-read_many m f P xs h w)

  -- The bytes of a message are read as the message.
  pub Reads-from_buffer : (p : DnsPacket) → IsPacket p → Reads from_buffer (packet_bytes p) (sent p)
  unfolding from_buffer counted
  Reads-from_buffer p w =
      Reads-bind read_header _ (header_bytes (counted p)) _ _ _
        (Reads-read_header (counted p) (counted-IsHeader p w))
        (Reads-bind _ _ (concat question_bytes p.questions) _ _ _
          (read_many_as (read_question blank_question) question_bytes IsQuestion p.questions
            (counted p).questions (omega (arith, w.questions_count))
            (λ q h. Reads-read_question q blank_question.qtype h) w.questions)
          (Reads-bind _ _ (concat record_bytes p.answers) _ _ _
            (read_many_as read_record record_bytes IsWritable p.answers (counted p).answers
              (omega (arith, w.answers_count)) Reads-read_record w.answers)
            (Reads-bind _ _ (concat record_bytes p.authorities) _ _ _
              (read_many_as read_record record_bytes IsWritable p.authorities
                (counted p).authoritative_entries (omega (arith, w.authorities_count))
                Reads-read_record w.authorities)
              (Reads-last _ (λ rs. record p { header = counted p; resources = rs })
                (concat record_bytes p.resources) _
                (read_many_as read_record record_bytes IsWritable p.resources
                  (counted p).resource_entries (omega (arith, w.resources_count)) Reads-read_record
                  w.resources)))))

  at_end :
      (p : DnsPacket) (bs : List ℕ)
      → ◌≡◌ {A = Result (DnsPacket × BytePacketBuffer)}
          (ok (sent p, advance (from_bytes bs) (length bs)))
          (ok (sent p, record { buf = bs; pos = length bs }))
  unfolding from_bytes
  at_end p bs = ap (λ (n : ℕ). ok (sent p, record { buf = bs; pos = n })) (zero-add (length bs))

  -- A message that can be sent is written into a new buffer, and its bytes are read back as the
  -- message with the counts of its sections in the header.
  pub from_buffer-write_packet :
      (p : DnsPacket)
      → IsPacket p
      → (out : BytePacketBuffer) × (write_packet p new ≡ ok (tt, out))
        × (from_buffer (from_bytes (as_bytes out))
            ≡ ok (sent p, record { buf = as_bytes out; pos = length (as_bytes out) }))
  from_buffer-write_packet p w =
      let bs = packet_bytes p in
      let e : as_bytes (put_all new bs) ≡ bs =
        as_bytes-put_all bs new new-Fits ∙ unfold as_bytes new in refl in
      (
        put_all new bs,
        Writes-write_packet p w new new-Fits,
        rw e (
            Reads-from_buffer p w (from_bytes bs) [] (unfold from_bytes in sym (append-nil bs))
            ∙ at_end p bs),
      )
