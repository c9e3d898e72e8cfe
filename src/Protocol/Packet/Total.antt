-- ===== src/Protocol/Packet/Total.antt =====
-- Whether parsing a message ends.
use brdns.Prelude.{ℕ, zero, suc, ◌≢◌, []}
use brdns.Buffer.{BytePacketBuffer, M, err, out_of_fuel, read_u16}
use brdns.Buffer.Qname.{Unicode, read_qname}
use brdns.Buffer.Fuel.{read_qname-ne-out_of_fuel}
use brdns.Protocol.Header.{read_header}
use brdns.Protocol.Question.{DnsQuestion, read_question}
use brdns.Protocol.Record.Total.{Total, Total-bind, Total-return, Total-read_u16, Total-read_record}
use brdns.Protocol.Packet.{blank_question, read_many, from_buffer}

Total-read_header : Total read_header
unfolding read_header
Total-read_header = Total-bind read_u16 _ Total-read_u16 (λ _.
    Total-bind read_u16 _ Total-read_u16 (λ _. Total-bind read_u16 _ Total-read_u16 (λ _.
      Total-bind read_u16 _ Total-read_u16 (λ _.
        Total-bind read_u16 _ Total-read_u16
          (λ _. Total-bind read_u16 _ Total-read_u16 (λ _. Total-return _))))))

Total-read_many : {A : Type 0} (n : ℕ) (m : M A) → Total m → Total (read_many n m)
unfolding read_many
Total-read_many zero m h = Total-return []
Total-read_many (suc n) m h =
    Total-bind m _ h
      (λ x. Total-bind (read_many n m) _ (Total-read_many n m h) (λ xs. Total-return _))

module _ ⦃u : Unicode⦄ where
  Total-read_question : (q : DnsQuestion) → Total (read_question q)
  unfolding read_question
  Total-read_question q =
      Total-bind (read_qname q.name) _ (λ b. read_qname-ne-out_of_fuel q.name b)
        (λ _.
          Total-bind read_u16 _ Total-read_u16
            (λ _. Total-bind read_u16 _ Total-read_u16 (λ _. Total-return _)))

  -- Parsing a message ends on every buffer: the loops over names and texts never run out of rounds.
  pub from_buffer-ne-out_of_fuel : (b : BytePacketBuffer) → from_buffer b ≢ err out_of_fuel
  unfolding from_buffer
  from_buffer-ne-out_of_fuel = Total-bind read_header _ Total-read_header (λ h.
      Total-bind _ _ (Total-read_many h.questions _ (Total-read_question blank_question)) (λ qs.
        Total-bind _ _ (Total-read_many h.answers _ Total-read_record) (λ as'.
          Total-bind _ _ (Total-read_many h.authoritative_entries _ Total-read_record) (λ ns.
            Total-bind _ _ (Total-read_many h.resource_entries _ Total-read_record)
              (λ rs. Total-return _)))))
