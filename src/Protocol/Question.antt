-- ===== src/Protocol/Question.antt =====
-- lib/protocol/question.rs: what a message asks for.
pub mod RoundTrip
use brdns.Prelude.{ℕ, List, []}
use brdns.Prelude.Text.{Text}
use brdns.Buffer.{M, ◌>>=◌, ◌>>◌, return, read_u16, write_u16}
use brdns.Buffer.Qname.{Unicode, read_qname, write_qname}
use brdns.Protocol.Record.{QueryType, to_num, from_num}

pub record DnsQuestion : Type 0 where
  pub name : Text
  pub qtype : QueryType

module _ ⦃u : Unicode⦄ where
  -- `question.read(buffer)`, which appends to the question's name; the class is read and dropped.
  unfoldable pub read_question : DnsQuestion → M DnsQuestion
  unfolding read_qname read_u16 from_num
  read_question q = do
    name ← read_qname q.name
    qtype ← read_u16
    class ← read_u16
    return (record { name = name; qtype = from_num qtype })

unfoldable pub write_question : DnsQuestion → M (Unit {0})
unfolding write_qname write_u16 to_num
write_question q = do write_qname q.name; write_u16 (to_num q.qtype); write_u16 1
