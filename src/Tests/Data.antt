-- ===== src/Tests/Data.antt =====
-- Inputs that the tests share: the query of the tests in lib/pipeline.rs, and rules for its name.
use brdns.Prelude.{ℕ, refl, true, false, Option, none, some, List, [], ◌∷◌, ◌++◌, arith}
use brdns.Prelude.Int.{ℤ}
use brdns.Prelude.Text.{Text, bytes, to_ascii_lowercase, lower_byte, split}
use brdns.Buffer.Qname.{Unicode}
use brdns.Buffer.Labels.{IsLabel}
use brdns.Protocol.Header.{DnsHeader, noerror}
use brdns.Protocol.Question.{DnsQuestion}
use brdns.Protocol.Question.RoundTrip.{IsName}
use brdns.Protocol.Record.{QueryType, Ipv4Addr}
use brdns.Protocol.Packet.{DnsPacket}
use brdns.Blocking.{BlockPolicy, BlockResponse, unspecified6}
use brdns.Model.{Action, TargetType, Window, Rule, NewRule, Upstream, UpstreamProtocol}

-- A case mapping that leaves all but ASCII capitals.
instance abbrev pub ascii : Unicode
ascii = record { lossy_lower = to_ascii_lowercase; lossy_lower_ascii = λ s _. refl }

abbrev pub example : Text
example = bytes "example"

abbrev pub com_label : Text
com_label = bytes "com"

abbrev pub example_com : Text
example_com = bytes "example.com"

pub example-IsLabel : IsLabel example
unfolding to_ascii_lowercase lower_byte
example-IsLabel = record {
  filled = omega arith;
  short = omega arith;
  ascii = ground arith;
  lower = refl;
}

pub com_label-IsLabel : IsLabel com_label
unfolding to_ascii_lowercase lower_byte
com_label-IsLabel = record {
  filled = omega arith;
  short = omega arith;
  ascii = ground arith;
  lower = refl;
}

pub example_com-IsName : IsName example_com
unfolding split
example_com-IsName = (example-IsLabel, (com_label-IsLabel, tt))

-- A query for the address of example.com.
abbrev pub query : List ℕ
query =
    0x12
    ∷ 0x34
    ∷ 1
    ∷ 0
    ∷ 0
    ∷ 1
    ∷ 0
    ∷ 0
    ∷ 0
    ∷ 0
    ∷ 0
    ∷ 0
    ∷ 7
    ∷ (example ++ (3 ∷ (com_label ++ (0 ∷ 0 ∷ 1 ∷ 0 ∷ 1 ∷ []))))

abbrev pub query_header : DnsHeader
query_header = record {
  id = 0x1234;
  recursion_desired = true;
  truncated_message = false;
  authoritative_answer = false;
  opcode = 0;
  response = false;
  rescode = noerror;
  checking_disabled = false;
  authed_data = false;
  z = false;
  recursion_available = false;
  questions = 1;
  answers = 0;
  authoritative_entries = 0;
  resource_entries = 0;
}

abbrev pub question : DnsQuestion
question = record { name = example_com; qtype = QueryType.a }

abbrev pub query_packet : DnsPacket
query_packet = record {
  header = query_header;
  questions = question ∷ [];
  answers = [];
  authorities = [];
  resources = [];
}

abbrev pub address : Ipv4Addr
address = record { a = 192; b = 0; c = 2; d = 1 }

abbrev pub custom_policy : BlockPolicy
custom_policy = record { response = BlockResponse.custom; ipv4 = address; ipv6 = unspecified6 }

abbrev pub rule : ℕ → Action → TargetType → Text → Option ℤ → Rule
rule n action target value count = record {
  id = n;
  account_id = 1;
  position = 0;
  action = action;
  target_type = target;
  target_value = value;
  limit_count = count;
  limit_window = some Window.day;
  enabled = true;
}

abbrev pub new_rule : Action → TargetType → Text → NewRule
new_rule action target value = record {
  action = action;
  target_type = target;
  target_value = value;
  limit_count = none;
  limit_window = none;
  enabled = true;
}

abbrev pub upstream : Text → Upstream
upstream host = record {
  id = 1;
  account_id = some 1;
  name = host;
  protocol = UpstreamProtocol.dot;
  host = host;
  port = 853;
  addr = none;
  is_preset = false;
}
