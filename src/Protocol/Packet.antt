-- ===== src/Protocol/Packet.antt =====
-- lib/protocol/packet.rs: a whole message.
pub mod RoundTrip
pub mod Parsed
pub mod Total
use brdns.Prelude.{ℕ, zero, suc, ◌%◌, ◌^◌, List, [], ◌∷◌, length}
use brdns.Buffer.{M, ◌>>=◌, ◌>>◌, return}
use brdns.Buffer.Qname.{Unicode}
use brdns.Protocol.Header.{DnsHeader, new_header, read_header, write_header}
use brdns.Protocol.Question.{DnsQuestion, read_question, write_question}
use brdns.Protocol.Record.{QueryType, DnsRecord, read_record, write_record}

pub record DnsPacket : Type 0 where
  pub header : DnsHeader
  pub questions : List DnsQuestion
  pub answers : List DnsRecord
  pub authorities : List DnsRecord
  pub resources : List DnsRecord

unfoldable pub new_packet : DnsPacket
unfolding new_header
new_packet = record {
  header = new_header;
  questions = [];
  answers = [];
  authorities = [];
  resources = [];
}

-- `for _ in 0..n { v.push(read(buffer)?) }`
unfoldable pub read_many : {A : Type 0} → ℕ → M A → M (List A)
read_many zero m = return []
read_many (suc n) m = do x ← m; xs ← read_many n m; return (x ∷ xs)

abbrev pub blank_question : DnsQuestion
blank_question = record { name = []; qtype = QueryType.unknown 0 }

module _ ⦃u : Unicode⦄ where
  unfoldable pub from_buffer : M DnsPacket
  unfolding read_header read_many read_question read_record
  from_buffer = do
    header ← read_header
    questions ← read_many header.questions (read_question blank_question)
    answers ← read_many header.answers read_record
    authorities ← read_many header.authoritative_entries read_record
    resources ← read_many header.resource_entries read_record
    return (record {
      header = header;
      questions = questions;
      answers = answers;
      authorities = authorities;
      resources = resources;
    })

unfoldable pub write_questions : List DnsQuestion → M (Unit {0})
unfolding write_question
write_questions [] = return tt
write_questions (q ∷ qs) = do write_question q; write_questions qs

unfoldable pub write_records : List DnsRecord → M (Unit {0})
unfolding write_record
write_records [] = return tt
write_records (r ∷ rs) = do n ← write_record r; write_records rs

-- The counts that `write` sets in the header, `len() as u16`.
unfoldable pub counted : DnsPacket → DnsHeader
counted p =
    let h = p.header in
    record h {
      questions = length p.questions % 2 ^ 16;
      answers = length p.answers % 2 ^ 16;
      authoritative_entries = length p.authorities % 2 ^ 16;
      resource_entries = length p.resources % 2 ^ 16;
    }

unfoldable pub write_packet : DnsPacket → M (Unit {0})
unfolding counted write_header write_questions write_records
write_packet p = do
  write_header (counted p)
  write_questions p.questions
  write_records p.answers
  write_records p.authorities
  write_records p.resources
