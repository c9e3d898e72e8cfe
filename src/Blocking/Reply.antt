-- ===== src/Blocking/Reply.antt =====
-- The synthesized answer, as the client parses it.
use brdns.Prelude.{
  ℕ, ◌≤◌, ◌≡◌, refl, Bool, true, false, List, [], ◌∷◌, arith, All, length, Option, none, some,
}
use brdns.Prelude.Text.{Text}
use brdns.Buffer.{BytePacketBuffer, Error, Result, ok, err, new, from_bytes, as_bytes}
use brdns.Buffer.Reading.{IsByte}
use brdns.Buffer.Qname.{Unicode}
use brdns.Protocol.Question.{DnsQuestion}
use brdns.Protocol.Question.RoundTrip.{IsName, IsQuestion}
use brdns.Protocol.Record.{QueryType}
use brdns.Protocol.Record.RoundTrip.{IsWritable, octets4}
use brdns.Protocol.Packet.{DnsPacket, from_buffer, write_packet, counted}
use brdns.Protocol.Packet.RoundTrip.{IsPacket, sent, from_buffer-write_packet}
use brdns.Protocol.Packet.Parsed.{IsParsed, HasType, from_buffer-IsParsed}
use brdns.Blocking.{
  BlockResponse, BlockPolicy, first_name, first_type, rescode_for, address_answers, answers_for,
  respond, send, parse, synthesize,
}

-- The configured addresses are addresses.
pub record IsPolicy (policy : BlockPolicy) : Type 0 where
  pub ipv4 : All IsByte (octets4 policy.ipv4)
  pub ipv6 : length policy.ipv6.octets ≡ 16

abbrev pub HasName : DnsQuestion → Type 0
HasName q = IsName q.name

All-both : (qs : List DnsQuestion) → All HasName qs → All HasType qs → All IsQuestion qs
All-both [] n t = tt
All-both (q ∷ qs) n t = (record { name = n.0; qtype = t.0 }, All-both qs n.1 t.1)

address_answers-IsWritable :
    (custom : Bool) (policy : BlockPolicy) (qname : Text) (t : QueryType)
    → IsPolicy policy
    → IsName qname
    → All IsWritable (address_answers custom policy qname (some t))
unfolding address_answers
address_answers-IsWritable true policy qname QueryType.a w n = ((n, w.ipv4, omega arith), tt)
address_answers-IsWritable false policy qname QueryType.a w n = ((n, omega arith, omega arith), tt)
address_answers-IsWritable true policy qname QueryType.aaaa w n = ((n, w.ipv6, omega arith), tt)
address_answers-IsWritable false policy qname QueryType.aaaa w n = ((n, refl, omega arith), tt)
address_answers-IsWritable custom policy qname _ w n = tt

answers_for-IsWritable :
    (policy : BlockPolicy) (qs : List DnsQuestion)
    → IsPolicy policy
    → All HasName qs
    → All IsWritable (answers_for policy (first_name qs) (first_type qs))
answers_for-IsWritable policy [] w n = by_response policy.response
  where
    by_response :
        (r : BlockResponse)
        → All IsWritable (answers_for (record policy { response = r }) (first_name []) none)
    by_response BlockResponse.nxdomain = unfold answers_for in tt
    by_response BlockResponse.refused = unfold answers_for in tt
    by_response BlockResponse.null = unfold answers_for in unfold address_answers in tt
    by_response BlockResponse.custom = unfold answers_for in unfold address_answers in tt
answers_for-IsWritable policy (q ∷ qs) w n = by_response policy.response
  where
    by_response :
        (r : BlockResponse)
        → All IsWritable
            (answers_for (record policy { response = r }) (first_name (q ∷ qs)) (some q.qtype))
    by_response BlockResponse.nxdomain = unfold answers_for in tt
    by_response BlockResponse.refused = unfold answers_for in tt
    by_response BlockResponse.null =
        unfold answers_for first_name in
        address_answers-IsWritable false (record policy { response = BlockResponse.null }) q.name
          q.qtype (record { ipv4 = w.ipv4; ipv6 = w.ipv6 }) n.0
    by_response BlockResponse.custom =
        unfold answers_for first_name in
        address_answers-IsWritable true (record policy { response = BlockResponse.custom }) q.name
          q.qtype (record { ipv4 = w.ipv4; ipv6 = w.ipv6 }) n.0

length-address_answers :
    (custom : Bool) (policy : BlockPolicy) (qname : Text) (t : Option QueryType)
    → length (address_answers custom policy qname t) ≤ 1
unfolding address_answers
length-address_answers custom policy qname none = omega arith
length-address_answers custom policy qname (some QueryType.a) = omega arith
length-address_answers custom policy qname (some _) = omega arith

length-answers_for :
    (policy : BlockPolicy) (qname : Text) (t : Option QueryType)
    → length (answers_for policy qname t) ≤ 1
unfolding answers_for
length-answers_for policy qname t =
    ground (
      arith,
      length-address_answers true policy qname t,
      length-address_answers false policy qname t,
    )

respond-IsPacket :
    (policy : BlockPolicy) (query : DnsPacket)
    → IsPolicy policy
    → IsParsed query
    → All HasName query.questions
    → IsPacket (respond policy query)
unfolding respond
respond-IsPacket policy query w p n = record {
  id = p.header.id;
  opcode = p.header.opcode;
  questions = All-both query.questions n p.types;
  answers = answers_for-IsWritable policy query.questions w n;
  authorities = tt;
  resources = tt;
  questions_count = (let r = p.header.questions in let e = p.questions in omega arith);
  answers_count =
      omega (
        arith,
        length-answers_for policy (first_name query.questions) (first_type query.questions),
      );
  authorities_count = omega arith;
  resources_count = omega arith;
}

-- The query, marked as a response: the same identifier and questions, the code and the answers of
-- the policy, and nothing else.
pub record IsReply (policy : BlockPolicy) (query reply : DnsPacket) : Type 0 where
  pub id : reply.header.id ≡ query.header.id
  pub response : reply.header.response ≡ true
  pub rescode : reply.header.rescode ≡ rescode_for policy.response
  pub questions : reply.questions ≡ query.questions
  pub answers :
      reply.answers ≡ answers_for policy (first_name query.questions) (first_type query.questions)
  pub authorities : reply.authorities ≡ []
  pub resources : reply.resources ≡ []
  pub questions_count : reply.header.questions ≡ length query.questions
  pub answers_count : reply.header.answers ≡ length reply.answers

send_lem :
    (packet : DnsPacket) (out : BytePacketBuffer)
    → write_packet packet new ≡ ok (tt, out)
    → send packet ≡ ok (as_bytes out)
unfolding send
send_lem packet out h = rw (h, send)

module _ ⦃u : Unicode⦄ where
  synthesize_lem :
      (raw : List ℕ) (policy : BlockPolicy) (query : DnsPacket) {answer : List ℕ}
      → parse raw ≡ ok query
      → send (respond policy query) ≡ ok answer
      → synthesize raw policy ≡ ok answer
  unfolding synthesize
  synthesize_lem raw policy query h k = rw (h, synthesize) k

  parse_lem :
      (raw : List ℕ) (packet : DnsPacket) (b : BytePacketBuffer)
      → from_buffer (from_bytes raw) ≡ ok (packet, b)
      → parse raw ≡ ok packet
  unfolding parse
  parse_lem raw packet b h = rw (h, parse)

  parse-eq-ok :
      (raw : List ℕ) (packet : DnsPacket)
      → parse raw ≡ ok packet
      → (b : BytePacketBuffer) × (from_buffer (from_bytes raw) ≡ ok (packet, b))
  parse-eq-ok raw packet h = go (from_buffer (from_bytes raw)) refl
    where
      go :
          (r : Result (DnsPacket × BytePacketBuffer))
          → from_buffer (from_bytes raw) ≡ r
          → (b : BytePacketBuffer) × (from_buffer (from_bytes raw) ≡ ok (packet, b))
      go (err e) k = absurd (unfold parse in cc (rw (k, parse) at h))
      go (ok (p, b)) k = (b, unfold parse in cc (rw (k, parse) at h))

  sent-IsReply :
      (policy : BlockPolicy) (query : DnsPacket)
      → IsParsed query
      → IsReply policy query (sent (respond policy query))
  unfolding respond counted
  sent-IsReply policy query p =
      let few =
        length-answers_for policy (first_name query.questions) (first_type query.questions) in
      record {
        id = refl;
        response = refl;
        rescode = refl;
        questions = refl;
        answers = refl;
        authorities = refl;
        resources = refl;
        questions_count = (let r = p.header.questions in let e = p.questions in omega arith);
        answers_count = omega (arith, few);
      }

  -- For a query of bytes that parses and whose names are in wire form, and a policy of proper
  -- addresses, the synthesized answer is there, and parses as the query marked as a response with
  -- the same identifier and questions, the code and answers of the policy, and nothing else.
  pub synthesize-IsReply :
      (raw : List ℕ) (policy : BlockPolicy) (query : DnsPacket)
      → All IsByte raw
      → IsPolicy policy
      → parse raw ≡ ok query
      → All HasName query.questions
      → (answer : List ℕ) × (reply : DnsPacket) × (synthesize raw policy ≡ ok answer)
        × (parse answer ≡ ok reply)
        × IsReply policy query reply
  synthesize-IsReply raw policy query bytes w h n =
      let (b, from) = parse-eq-ok raw query h in
      let p = from_buffer-IsParsed raw query b bytes from in
      let (out, wrote, back) =
        from_buffer-write_packet (respond policy query) (respond-IsPacket policy query w p n) in
      (
        as_bytes out,
        sent (respond policy query),
        synthesize_lem raw policy query h (send_lem (respond policy query) out wrote),
        parse_lem (as_bytes out) (sent (respond policy query)) _ back,
        sent-IsReply policy query p,
      )

  -- A query that does not parse has no synthesized answer.
  pub synthesize_unparsed :
      (raw : List ℕ) (policy : BlockPolicy) (e : Error)
      → parse raw ≡ err e
      → synthesize raw policy ≡ err e
  unfolding synthesize
  synthesize_unparsed raw policy e h = rw (h, synthesize)
