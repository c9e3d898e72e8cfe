-- ===== src/Blocking.antt =====
-- lib/blocking.rs: the answer that is made up for a query that is denied or over its quota.
pub mod Reply
use brdns.Prelude.{
  ℕ, Bool, true, false, List, [], ◌∷◌, Option, none, some, if◌then◌else◌, replicate,
}
use brdns.Prelude.Text.{Text}
use brdns.Buffer.{BytePacketBuffer, Result, ok, err, new, from_bytes, as_bytes}
use brdns.Buffer.Qname.{Unicode}
use brdns.Protocol.Header.{DnsHeader, ResultCode, noerror}
use brdns.Protocol.Question.{DnsQuestion}
use brdns.Protocol.Record.{QueryType, DnsRecord, Ipv4Addr, Ipv6Addr}
use brdns.Protocol.Packet.{DnsPacket, from_buffer, write_packet}

-- `BlockResponse` of lib/config.rs.
pub data BlockResponse : Type 0 where
  nxdomain refused null custom : BlockResponse

-- `PolicyConfig` of lib/config.rs.
pub record PolicyConfig : Type 0 where
  pub block_response : BlockResponse
  pub custom_ipv4 : Text
  pub custom_ipv6 : Text

pub record BlockPolicy : Type 0 where
  pub response : BlockResponse
  pub ipv4 : Ipv4Addr
  pub ipv6 : Ipv6Addr

abbrev pub unspecified4 : Ipv4Addr
unspecified4 = record { a = 0; b = 0; c = 0; d = 0 }

abbrev pub unspecified6 : Ipv6Addr
unspecified6 = record { octets = replicate 16 0 }

-- The address parsers are the standard library's.
unfoldable pub from_config :
    (Text → Option Ipv4Addr) → (Text → Option Ipv6Addr) → PolicyConfig → BlockPolicy
from_config parse4 parse6 c = record {
  response = c.block_response;
  ipv4 = elim (parse4 c.custom_ipv4) [ none ↦ unspecified4 | some x ↦ x ];
  ipv6 = elim (parse6 c.custom_ipv6) [ none ↦ unspecified6 | some x ↦ x ];
}

-- The name of the first question, or the empty name.
unfoldable pub first_name : List DnsQuestion → Text
first_name [] = []
first_name (q ∷ qs) = q.name

abbrev pub first_type : List DnsQuestion → Option QueryType
first_type [] = none
first_type (q ∷ qs) = some q.qtype

abbrev pub rescode_for : BlockResponse → ResultCode
rescode_for BlockResponse.nxdomain = ResultCode.nxdomain
rescode_for BlockResponse.refused = ResultCode.refused
rescode_for BlockResponse.null = noerror
rescode_for BlockResponse.custom = noerror

-- The answers for `null` and `custom`; other query types get none.
unfoldable pub address_answers : Bool → BlockPolicy → Text → Option QueryType → List DnsRecord
address_answers is_custom policy qname none = []
address_answers is_custom policy qname (some QueryType.a) =
    DnsRecord.a qname (if is_custom then policy.ipv4 else unspecified4) 60 ∷ []
address_answers is_custom policy qname (some QueryType.aaaa) =
    DnsRecord.aaaa qname (if is_custom then policy.ipv6 else unspecified6) 60 ∷ []
address_answers is_custom policy qname (some _) = []

unfoldable pub answers_for : BlockPolicy → Text → Option QueryType → List DnsRecord
unfolding address_answers
answers_for policy qname qtype = elim policy.response [
  | BlockResponse.nxdomain ↦ []
  | BlockResponse.refused ↦ []
  | BlockResponse.null ↦ address_answers false policy qname qtype
  | BlockResponse.custom ↦ address_answers true policy qname qtype
]

-- The parsed query, turned into its answer.
unfoldable pub respond : BlockPolicy → DnsPacket → DnsPacket
unfolding first_name answers_for
respond policy packet =
    let h = packet.header in
    record packet {
      header = record h { response = true; rescode = rescode_for policy.response };
      answers = answers_for policy (first_name packet.questions) (first_type packet.questions);
      authorities = [];
      resources = [];
    }

unfoldable pub send : DnsPacket → Result (List ℕ)
unfolding write_packet new as_bytes
send packet = elim (write_packet packet new) [ err e ↦ err e | ok (_, out) ↦ ok (as_bytes out) ]

module _ ⦃u : Unicode⦄ where
  unfoldable pub parse : List ℕ → Result DnsPacket
  unfolding from_buffer from_bytes
  parse raw = elim (from_buffer (from_bytes raw)) [ err e ↦ err e | ok (packet, _) ↦ ok packet ]

  unfoldable pub synthesize : List ℕ → BlockPolicy → Result (List ℕ)
  unfolding parse respond send
  synthesize raw_query policy = elim (parse raw_query) [
    | err e ↦ err e
    | ok packet ↦ send (respond policy packet)
  ]
