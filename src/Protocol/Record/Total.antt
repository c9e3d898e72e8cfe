-- ===== src/Protocol/Record/Total.antt =====
-- The rounds of the loops that read a record.
use brdns.Prelude.{
  ℕ, zero, suc, ◌+◌, ◌≤◌, ◌≡◌, ◌≢◌, refl, ◌∙◌, ltb, [], arith, Bool-cases, inl, inr,
}
use brdns.Prelude.Text.{Text}
use brdns.Buffer.{
  BytePacketBuffer, M, Result, ok, err, out_of_fuel, ◌>>=◌, return, position, step, read, read_u16,
  read_u32,
}
use brdns.Buffer.Qname.{Unicode, read_qname}
use brdns.Buffer.Ensures.{>>=-eq-ok}
use brdns.Buffer.Fuel.{read_qname-ne-out_of_fuel}
use brdns.Protocol.Record.{
  QueryType, from_num, push_char, read_chars, read_strings, read_octets, read_data, read_record,
}

-- A reader that never uses up the rounds of the model.
abbrev pub Total {ℓ} : {A : Type ℓ} → M A → Type ℓ
Total m = (b : BytePacketBuffer) → m b ≢ err out_of_fuel

-- At one buffer, with what the first reader returned.
bind_ends {ℓ κ} :
    {A : Type ℓ} {B : Type κ} (m : M A) (f : A → M B) (b : BytePacketBuffer)
    → m b ≢ err out_of_fuel
    → ((a : A) (b1 : BytePacketBuffer) → m b ≡ ok (a, b1) → f a b1 ≢ err out_of_fuel)
    → (m >>= f) b ≢ err out_of_fuel
bind_ends {A} m f b hm hf = go (m b) refl
  where
    go : (r : Result (A × BytePacketBuffer)) → m b ≡ r → (m >>= f) b ≢ err out_of_fuel
    go (err e) k h = hm (k ∙ cc (rw (k, ◌>>=◌) at h))
    go (ok (a, b1)) k h = hf a b1 k (rw (k, ◌>>=◌) at h)

pub Total-bind {ℓ κ} :
    {A : Type ℓ} {B : Type κ} (m : M A) (f : A → M B)
    → Total m
    → ((a : A) → Total (f a))
    → Total (m >>= f)
Total-bind m f hm hf b = bind_ends m f b (hm b) (λ a b1 _. hf a b1)

pub Total-return {ℓ} : {A : Type ℓ} (a : A) → Total (return a)
Total-return a b h = cc

pub Total-read : Total read
unfolding read
Total-read b h = ground arith

pub Total-read_u16 : Total read_u16
unfolding read_u16
Total-read_u16 =
    Total-bind read _ Total-read (λ a. Total-bind read _ Total-read (λ b. Total-return _))

pub Total-read_u32 : Total read_u32
unfolding read_u32
Total-read_u32 = Total-bind read _ Total-read (λ a.
    Total-bind read _ Total-read
      (λ b. Total-bind read _ Total-read (λ c. Total-bind read _ Total-read (λ d. Total-return _))))

-- The position never goes back, and `read` moves it.
abbrev Moves {ℓ} : {A : Type ℓ} → ℕ → M A → Type ℓ
Moves {A} n m = (b b' : BytePacketBuffer) (a : A) → m b ≡ ok (a, b') → b.pos + n ≤ b'.pos

Moves-read : Moves 1 read
unfolding read
Moves-read b b' a h = ground arith

Total-read_chars : (n : ℕ) (text : Text) → Total (read_chars n text)
unfolding read_chars
Total-read_chars zero text = Total-return text
Total-read_chars (suc n) text =
    Total-bind read _ Total-read (λ c. Total-read_chars n (push_char text c))

Moves-read_chars : (n : ℕ) (text : Text) → Moves 0 (read_chars n text)
unfolding read_chars
Moves-read_chars zero text b b' a h = ground arith
Moves-read_chars (suc n) text b b' a h =
    let (c, b1, first, second) = >>=-eq-ok read (λ c. read_chars n (push_char text c)) b b' a h in
    omega (arith, Moves-read b b1 c first, Moves-read_chars n (push_char text c) b1 b' a second)

-- A round of the loop over a text moves the position, so the rounds left cover the bytes left.
Total-read_strings :
    (fuel end : ℕ) (text : Text) (b : BytePacketBuffer)
    → end ≤ b.pos + fuel
    → read_strings fuel end text b ≢ err out_of_fuel
unfolding read_strings
Total-read_strings zero end text b w h = ground arith
Total-read_strings (suc fuel) end text b w h = elim (Bool-cases (ltb b.pos end)) [
  | inr done ↦ cc (rw (done, read_strings) at h)
  | inl more ↦
      bind_ends read _ b (Total-read b)
        (λ len b1 first.
          bind_ends (read_chars len text) _ b1 (Total-read_chars len text b1) (λ longer b2 second.
            Total-read_strings fuel end longer b2 (
              omega
                (arith, Moves-read b b1 len first, Moves-read_chars len text b1 b2 longer second))))
        (rw (more, read_strings) at h)
]

Total-read_octets : (n : ℕ) → Total (read_octets n)
unfolding read_octets
Total-read_octets zero = Total-return []
Total-read_octets (suc n) =
    Total-bind read _ Total-read
      (λ x. Total-bind (read_octets n) _ (Total-read_octets n) (λ xs. Total-return _))

text_ends : (len : ℕ) (b : BytePacketBuffer) → read_strings len (b.pos + len) [] b ≢ err out_of_fuel
text_ends len b = Total-read_strings len (b.pos + len) [] b (omega arith)

module _ ⦃u : Unicode⦄ where
  Total-read_qname : (outstr : Text) → Total (read_qname outstr)
  Total-read_qname outstr b = read_qname-ne-out_of_fuel outstr b

  Total-read_data :
      (domain : Text) (n ttl len : ℕ) (t : QueryType) → Total (read_data domain n ttl len t)
  unfolding read_data
  Total-read_data domain n ttl len QueryType.a =
      Total-bind read_u32 _ Total-read_u32 (λ _. Total-return _)
  Total-read_data domain n ttl len QueryType.aaaa =
      Total-bind (read_octets 16) _ (Total-read_octets 16) (λ _. Total-return _)
  Total-read_data domain n ttl len QueryType.cname =
      Total-bind (read_qname []) _ (Total-read_qname []) (λ _. Total-return _)
  Total-read_data domain n ttl len QueryType.ns =
      Total-bind (read_qname []) _ (Total-read_qname []) (λ _. Total-return _)
  Total-read_data domain n ttl len QueryType.mx =
      Total-bind read_u16 _ Total-read_u16
        (λ _. Total-bind (read_qname []) _ (Total-read_qname []) (λ _. Total-return _))
  Total-read_data domain n ttl len QueryType.txt = λ b.
      unfold position in
      bind_ends (read_strings len (b.pos + len) []) _ b (text_ends len b)
        (λ text b1 _. Total-return _ b1)
  Total-read_data domain n ttl len (QueryType.unknown _) = λ b h. unfold step in cc

  pub Total-read_record : Total read_record
  unfolding read_record
  Total-read_record = Total-bind (read_qname []) _ (Total-read_qname []) (λ domain.
      Total-bind read_u16 _ Total-read_u16 (λ n. Total-bind read_u16 _ Total-read_u16 (λ _.
        Total-bind read_u32 _ Total-read_u32 (λ ttl.
          Total-bind read_u16 _ Total-read_u16
            (λ len. Total-read_data domain n ttl len (from_num n))))))
