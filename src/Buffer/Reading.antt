-- ===== src/Buffer/Reading.antt =====
-- What a reader takes off the front of the bytes ahead of the position.
use brdns.Prelude.{
  ℕ, suc, ◌+◌, ◌*◌, ◌/◌, ◌%◌, ◌^◌, ◌<◌, ◌≡◌, refl, ap, ◌∙◌, bit_or, List, [], ◌∷◌, ◌++◌,
  append_assoc, arith, length, length-append, drop, drop-suc, get_elem?-drop,
}
use native.Mathlib.Nat.{add-zero}
use brdns.Prelude.Bits.{bit_or_add}
use brdns.Buffer.{BytePacketBuffer, M, ok, ◌>>=◌, return, read, read_u16, read_u32}

abbrev pub IsByte : ℕ → Type 0
IsByte b = b < 2 ^ 8

abbrev pub IsU16 : ℕ → Type 0
IsU16 n = n < 2 ^ 16

abbrev pub IsU32 : ℕ → Type 0
IsU32 n = n < 2 ^ 32

abbrev pub advance : BytePacketBuffer → ℕ → BytePacketBuffer
advance b n = record b { pos = b.pos + n }

abbrev pub ahead : BytePacketBuffer → List ℕ
ahead b = drop b.pos b.buf

-- Where `bs` stands ahead, the reader returns `a` and moves past it.
abbrev pub Reads {ℓ} : {A : Type ℓ} → M A → List ℕ → A → Type ℓ
Reads m bs a =
    (b : BytePacketBuffer) (rest : List ℕ)
    → ahead b ≡ bs ++ rest
    → m b ≡ ok (a, advance b (length bs))

pub drop_append :
    (bs xs rest : List ℕ) (n : ℕ) → drop n xs ≡ bs ++ rest → drop (n + length bs) xs ≡ rest
drop_append [] xs rest n h = rw (add-zero n) h
drop_append (x ∷ bs) xs rest n h =
    let e : n + suc (length bs) ≡ suc n + length bs = omega arith in
    rw e (drop_append bs xs rest (suc n) (drop-suc xs n h))

advance-advance : (b : BytePacketBuffer) (n m : ℕ) → advance (advance b n) m ≡ advance b (n + m)
advance-advance b n m = ground arith

pub Reads-return {ℓ} : {A : Type ℓ} (a : A) → Reads (return a) [] a
Reads-return a b rest h = ground arith

pub Reads-bind {ℓ κ} :
    {A : Type ℓ} {B : Type κ} (m : M A) (f : A → M B) (bs cs : List ℕ) (a : A) (c : B)
    → Reads m bs a
    → Reads (f a) cs c
    → Reads (m >>= f) (bs ++ cs) c
Reads-bind m f bs cs a c hm hf b rest h =
    let first = hm b (cs ++ rest) (h ∙ append_assoc bs cs rest) in
    let second =
      hf (advance b (length bs)) rest
        (drop_append bs b.buf (cs ++ rest) b.pos (h ∙ append_assoc bs cs rest)) in
    rw (first, ◌>>=◌, length-append bs cs)
      (second
        ∙ ap (λ (x : BytePacketBuffer). ok (c, x)) (advance-advance b (length bs) (length cs)))

pub Reads-read : (x : ℕ) → Reads read (x ∷ []) x
unfolding read
Reads-read x b rest h = rw (get_elem?-drop b.buf b.pos h, read)

unfoldable pub u16_bytes : ℕ → List ℕ
u16_bytes n = n / 2 ^ 8 % 2 ^ 8 ∷ n % 2 ^ 8 ∷ []

unfoldable pub u32_bytes : ℕ → List ℕ
u32_bytes n = n / 2 ^ 24 % 2 ^ 8 ∷ n / 2 ^ 16 % 2 ^ 8 ∷ n / 2 ^ 8 % 2 ^ 8 ∷ n % 2 ^ 8 ∷ []

u16_join : (n : ℕ) → IsU16 n → bit_or (n / 2 ^ 8 % 2 ^ 8 * 2 ^ 8 % 2 ^ 16) (n % 2 ^ 8) ≡ n
u16_join n h =
    let e : n / 2 ^ 8 % 2 ^ 8 * 2 ^ 8 % 2 ^ 16 ≡ n / 2 ^ 8 * 2 ^ 8 = omega arith in
    rw e (omega (arith, bit_or_add 8 (n / 2 ^ 8) (n % 2 ^ 8) (omega arith)))

pub Reads-return_eq {ℓ} : {A : Type ℓ} (x a : A) → x ≡ a → Reads (return x) [] a
Reads-return_eq x a e b rest h = ground (arith, e)

-- A reader whose result is only mapped.
pub Reads-last {ℓ κ} :
    {A : Type ℓ} {B : Type κ} (m : M A) (f : A → B) (bs : List ℕ) (a : A)
    → Reads m bs a
    → Reads (m >>= λ x. return (f x)) bs (f a)
Reads-last m f bs a h b rest p = rw (h b rest p, ◌>>=◌)

pub Reads-read_u16 : (n : ℕ) → IsU16 n → Reads read_u16 (u16_bytes n) n
unfolding read_u16 u16_bytes
Reads-read_u16 n h =
    Reads-bind read _ (n / 2 ^ 8 % 2 ^ 8 ∷ []) (n % 2 ^ 8 ∷ []) _ _ (Reads-read _) (
      Reads-bind read _ (n % 2 ^ 8 ∷ []) [] _ _ (Reads-read _) (Reads-return_eq _ n (u16_join n h)))

pub length-u16_bytes : (n : ℕ) → length (u16_bytes n) ≡ 2
unfolding u16_bytes
length-u16_bytes n = refl

u32_join :
    (a b c d : ℕ)
    → IsByte a
    → IsByte b
    → IsByte c
    → IsByte d
    → bit_or (bit_or (bit_or (a * 2 ^ 24 % 2 ^ 32) (b * 2 ^ 16 % 2 ^ 32)) (c * 2 ^ 8 % 2 ^ 32)) d
      ≡ a * 2 ^ 24 + b * 2 ^ 16 + c * 2 ^ 8 + d
u32_join a b c d ha hb hc hd =
    let ea : a * 2 ^ 24 % 2 ^ 32 ≡ a * 2 ^ 24 = omega arith in
    let eb : b * 2 ^ 16 % 2 ^ 32 ≡ b * 2 ^ 16 = omega arith in
    let ec : c * 2 ^ 8 % 2 ^ 32 ≡ c * 2 ^ 8 = omega arith in
    let e1 : bit_or (a * 2 ^ 24) (b * 2 ^ 16) ≡ (a * 2 ^ 8 + b) * 2 ^ 16 =
      omega (arith, bit_or_add 24 a (b * 2 ^ 16) (omega arith)) in
    let e2 : bit_or ((a * 2 ^ 8 + b) * 2 ^ 16) (c * 2 ^ 8) ≡ (a * 2 ^ 16 + b * 2 ^ 8 + c) * 2 ^ 8 =
      omega (arith, bit_or_add 16 (a * 2 ^ 8 + b) (c * 2 ^ 8) (omega arith)) in
    rw (ea, eb, ec, e1, e2) (omega (arith, bit_or_add 8 (a * 2 ^ 16 + b * 2 ^ 8 + c) d hd))

pub Reads-read_u32 : (n : ℕ) → IsU32 n → Reads read_u32 (u32_bytes n) n
unfolding read_u32 u32_bytes
Reads-read_u32 n h =
    let a = n / 2 ^ 24 % 2 ^ 8 in
    let b = n / 2 ^ 16 % 2 ^ 8 in
    let c = n / 2 ^ 8 % 2 ^ 8 in
    let d = n % 2 ^ 8 in
    Reads-bind read _ (a ∷ []) (b ∷ c ∷ d ∷ []) _ _ (Reads-read a) (
      Reads-bind read _ (b ∷ []) (c ∷ d ∷ []) _ _ (Reads-read b) (
        Reads-bind read _ (c ∷ []) (d ∷ []) _ _ (Reads-read c) (
          Reads-bind read _ (d ∷ []) [] _ _ (Reads-read d) (
            Reads-return_eq _ n (
              u32_join a b c d (omega arith) (omega arith) (omega arith) (omega arith)
              ∙ omega arith)))))
