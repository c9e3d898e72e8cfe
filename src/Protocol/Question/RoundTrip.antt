-- ===== src/Protocol/Question/RoundTrip.antt =====
-- Writing a question, and reading it back.
use brdns.Prelude.{ℕ, ◌≡◌, List, [], ◌++◌, arith, All, All-imp}
use brdns.Prelude.Text.{Text, dot, split, join-split}
use brdns.Buffer.{read_u16, write_u16}
use brdns.Buffer.Reading.{Reads, Reads-bind, Reads-last, Reads-read_u16, u16_bytes, IsU16}
use brdns.Buffer.Writing.{Writes, Writes-bind, Writes-write_u16}
use brdns.Buffer.Qname.{Unicode, read_qname, write_qname}
use brdns.Buffer.WriteName.{name_bytes, Writes-write_qname}
use brdns.Buffer.Labels.{IsLabel, Reads-read_qname}
use brdns.Protocol.Record.{QueryType, to_num, from_num}
use brdns.Protocol.Question.{DnsQuestion, read_question, write_question}

-- A name whose labels are sent and shown as they are.
abbrev pub IsName : Text → Type 0
IsName name = All IsLabel (split dot name)

abbrev pub wire_name : Text → List ℕ
wire_name name = name_bytes (split dot name)

pub Writes-name : (name : Text) → IsName name → Writes (write_qname name) (wire_name name)
Writes-name name w = Writes-write_qname name (All-imp (λ l x. x.short) (split dot name) w)

-- A type that the program can tell from its number.
pub record IsQueryType (t : QueryType) : Type 0 where
  pub word : IsU16 (to_num t)
  pub canonical : from_num (to_num t) ≡ t

pub record IsQuestion (q : DnsQuestion) : Type 0 where
  pub name : IsName q.name
  pub qtype : IsQueryType q.qtype

abbrev pub question_bytes : DnsQuestion → List ℕ
question_bytes q = wire_name q.name ++ (u16_bytes (to_num q.qtype) ++ u16_bytes 1)

pub Writes-write_question :
    (q : DnsQuestion) → IsQuestion q → Writes (write_question q) (question_bytes q)
unfolding write_question
Writes-write_question q w =
    Writes-bind (write_qname q.name) _ (wire_name q.name) _ (Writes-name q.name w.name) (
      Writes-bind (write_u16 (to_num q.qtype)) (write_u16 1) (u16_bytes (to_num q.qtype))
        (u16_bytes 1) (Writes-write_u16 (to_num q.qtype)) (Writes-write_u16 1))

module _ ⦃u : Unicode⦄ where
  pub Reads-name : (name : Text) → IsName name → Reads (read_qname []) (wire_name name) name
  Reads-name name w = rw (join-split dot name) at (Reads-read_qname [] (split dot name) w)

  pub Reads-read_question :
      (q : DnsQuestion) (t : QueryType)
      → IsQuestion q
      → Reads (read_question (record { name = []; qtype = t })) (question_bytes q) q
  unfolding read_question
  Reads-read_question q t w =
      let made : DnsQuestion = record { name = q.name; qtype = from_num (to_num q.qtype) } in
      let read : Reads (read_question (record { name = []; qtype = t })) (question_bytes q) made =
        Reads-bind (read_qname []) _ (wire_name q.name) _ _ _ (Reads-name q.name w.name) (
          Reads-bind read_u16 _ (u16_bytes (to_num q.qtype)) _ _ _
            (Reads-read_u16 (to_num q.qtype) w.qtype.word)
            (Reads-last read_u16 (λ _. made) (u16_bytes 1) 1 (Reads-read_u16 1 (omega arith)))) in
      rw w.qtype.canonical at read
