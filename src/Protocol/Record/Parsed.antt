-- ===== src/Protocol/Record/Parsed.antt =====
-- The buffer behind a record that was read, and the form of query types.
use brdns.Prelude.{ℕ, zero, suc, ◌≡◌, refl, ltb, [], arith, Bool-cases, inl, inr}
use brdns.Prelude.Text.{Text}
use brdns.Buffer.{position, step, read, read_u16, read_u32}
use brdns.Buffer.Reading.{IsByte, IsU16}
use brdns.Buffer.Qname.{Unicode, read_qname}
use brdns.Buffer.Ensures.{
  Ensures, Ensures-bind, Ensures-return, Ensures-read, Ensures-read_u16, Ensures-read_u32,
  Ensures-position, Ensures-step, Ensures-read_qname, Any,
}
use brdns.Protocol.Question.RoundTrip.{IsQueryType}
use brdns.Protocol.Record.{
  QueryType, to_num, from_num, push_char, read_chars, read_strings, read_octets, read_data,
  read_record,
}

-- A number and the type that is read for it stand for each other.
pub to_num-from_num : (n : ℕ) → to_num (from_num n) ≡ n
unfolding to_num from_num
to_num-from_num n = ground arith

pub from_num-IsQueryType : (n : ℕ) → IsU16 n → IsQueryType (from_num n)
from_num-IsQueryType n h = record {
  word = rw (to_num-from_num n) h;
  canonical = rw (to_num-from_num n) refl;
}

Ensures-read_chars : (n : ℕ) (text : Text) → Ensures (read_chars n text) Any
unfolding read_chars
Ensures-read_chars zero text = Ensures-return text Any tt
Ensures-read_chars (suc n) text =
    Ensures-bind read _ IsByte Any Ensures-read (λ c _. Ensures-read_chars n (push_char text c))

Ensures-read_strings : (fuel end : ℕ) (text : Text) → Ensures (read_strings fuel end text) Any
unfolding read_strings
Ensures-read_strings zero end text b b' a w h = (tt, ground arith)
Ensures-read_strings (suc fuel) end text b b' a w h = elim (Bool-cases (ltb b.pos end)) [
  | inr done ↦ (tt, cc (rw (done, read_strings) at h))
  | inl more ↦
      Ensures-bind read _ IsByte Any Ensures-read
        (λ len _.
          Ensures-bind (read_chars len text) _ Any Any (Ensures-read_chars len text)
            (λ longer _. Ensures-read_strings fuel end longer))
        b b' a w (rw (more, read_strings) at h)
]

Ensures-read_octets : (n : ℕ) → Ensures (read_octets n) Any
unfolding read_octets
Ensures-read_octets zero = Ensures-return [] Any tt
Ensures-read_octets (suc n) = Ensures-bind read _ IsByte Any Ensures-read (λ x _.
    Ensures-bind (read_octets n) _ Any Any (Ensures-read_octets n)
      (λ xs _. Ensures-return _ Any tt))

module _ ⦃u : Unicode⦄ where
  Ensures-read_data :
      (domain : Text) (qtype_num ttl data_len : ℕ) (t : QueryType)
      → Ensures (read_data domain qtype_num ttl data_len t) Any
  unfolding read_data
  Ensures-read_data domain n ttl len QueryType.a =
      Ensures-bind read_u32 _ Any Any Ensures-read_u32 (λ _ _. Ensures-return _ Any tt)
  Ensures-read_data domain n ttl len QueryType.aaaa =
      Ensures-bind (read_octets 16) _ Any Any (Ensures-read_octets 16)
        (λ _ _. Ensures-return _ Any tt)
  Ensures-read_data domain n ttl len QueryType.cname =
      Ensures-bind (read_qname []) _ Any Any (Ensures-read_qname [])
        (λ _ _. Ensures-return _ Any tt)
  Ensures-read_data domain n ttl len QueryType.ns =
      Ensures-bind (read_qname []) _ Any Any (Ensures-read_qname [])
        (λ _ _. Ensures-return _ Any tt)
  Ensures-read_data domain n ttl len QueryType.mx =
      Ensures-bind read_u16 _ IsU16 Any Ensures-read_u16 (λ _ _.
        Ensures-bind (read_qname []) _ Any Any (Ensures-read_qname [])
          (λ _ _. Ensures-return _ Any tt))
  Ensures-read_data domain n ttl len QueryType.txt =
      Ensures-bind position _ Any Any Ensures-position (λ start _.
        Ensures-bind (read_strings len _ []) _ Any Any (Ensures-read_strings len _ [])
          (λ _ _. Ensures-return _ Any tt))
  Ensures-read_data domain n ttl len (QueryType.unknown _) =
      Ensures-bind (step len) _ Any Any (Ensures-step len) (λ _ _. Ensures-return _ Any tt)

  pub Ensures-read_record : Ensures read_record Any
  unfolding read_record
  Ensures-read_record = Ensures-bind (read_qname []) _ Any Any (Ensures-read_qname []) (λ domain _.
      Ensures-bind read_u16 _ IsU16 Any Ensures-read_u16 (λ n _.
        Ensures-bind read_u16 _ IsU16 Any Ensures-read_u16 (λ _ _.
          Ensures-bind read_u32 _ Any Any Ensures-read_u32 (λ ttl _.
            Ensures-bind read_u16 _ IsU16 Any Ensures-read_u16
              (λ len _. Ensures-read_data domain n ttl len (from_num n))))))
