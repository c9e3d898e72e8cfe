-- ===== src/Tests/Messages.antt =====
-- Whole messages of lib/protocol, and the answers of lib/blocking.rs.
use brdns.Prelude.{ℕ, ◌≡◌, ◌≢◌, refl, List, [], ◌∷◌, arith, length}
use brdns.Prelude.Text.{lower_byte, to_ascii_lowercase}
use brdns.Buffer.{BytePacketBuffer, ok, err, new, from_bytes, as_bytes, out_of_fuel}
use brdns.Protocol.Header.RoundTrip.{IsHeader}
use brdns.Protocol.Record.{DnsRecord, to_num, from_num}
use brdns.Protocol.Record.RoundTrip.{IsWritable}
use brdns.Protocol.Packet.{DnsPacket, from_buffer, write_packet}
use brdns.Protocol.Packet.RoundTrip.{IsPacket, sent, from_buffer-write_packet}
use brdns.Protocol.Packet.Parsed.{IsParsed, from_buffer-IsParsed}
use brdns.Protocol.Packet.Total.{from_buffer-ne-out_of_fuel}
use brdns.Blocking.{parse, synthesize}
use brdns.Blocking.Reply.{IsReply, synthesize-IsReply}
use brdns.Tests.Data.{
  ascii, example_com, example_com-IsName, query, query_header, query_packet, address, custom_policy,
}

query_header-IsHeader : IsHeader query_header
query_header-IsHeader = record {
  id = omega arith;
  opcode = omega arith;
  questions = omega arith;
  answers = omega arith;
  authoritative_entries = omega arith;
  resource_entries = omega arith;
}

abbrev at_start : List ℕ → BytePacketBuffer
at_start raw = record { buf = raw; pos = 0 }

abbrev answer : DnsRecord
answer = DnsRecord.a example_com address 60

answer-IsWritable : IsWritable answer
answer-IsWritable = (example_com-IsName, ground arith, omega arith)

abbrev packet : DnsPacket
packet = record query_packet { answers = answer ∷ [] }

packet-IsPacket : IsPacket packet
packet-IsPacket = record {
  id = omega arith;
  opcode = omega arith;
  questions = (
    record {
      name = example_com-IsName;
      qtype = record {
        word = unfold to_num in omega arith;
        canonical = unfold to_num from_num in refl;
      };
    },
    tt,
  );
  answers = (answer-IsWritable, tt);
  authorities = tt;
  resources = tt;
  questions_count = omega arith;
  answers_count = omega arith;
  authorities_count = omega arith;
  resources_count = omega arith;
}

from_buffer-write_packet_example :
    (out : BytePacketBuffer) × (write_packet packet new ≡ ok (tt, out))
    × (from_buffer (from_bytes (as_bytes out))
        ≡ ok (sent packet, record { buf = as_bytes out; pos = length (as_bytes out) }))
from_buffer-write_packet_example = from_buffer-write_packet packet packet-IsPacket

from_buffer-ne-out_of_fuel_example : from_buffer (from_bytes query) ≢ err out_of_fuel
from_buffer-ne-out_of_fuel_example = from_buffer-ne-out_of_fuel (from_bytes query)

-- What is parsed from the bytes of the query.
query_read : from_buffer (at_start query) ≡ ok (query_packet, record { buf = query; pos = 29 })
unfolding from_buffer lower_byte to_ascii_lowercase
query_read = refl

from_buffer-IsParsed_example : IsParsed query_packet
unfolding from_bytes
from_buffer-IsParsed_example =
    from_buffer-IsParsed query query_packet (record { buf = query; pos = 29 }) (ground arith)
      query_read

query_parsed : parse query ≡ ok query_packet
unfolding parse lower_byte to_ascii_lowercase
query_parsed = refl

synthesize-IsReply_example :
    (out : List ℕ) × (reply : DnsPacket) × (synthesize query custom_policy ≡ ok out)
    × (parse out ≡ ok reply)
    × IsReply custom_policy query_packet reply
synthesize-IsReply_example =
    synthesize-IsReply query custom_policy query_packet (ground arith)
      (record { ipv4 = ground arith; ipv6 = refl }) query_parsed (example_com-IsName, tt)
