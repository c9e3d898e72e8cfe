-- ===== src/Buffer/Writing.antt =====
-- What a writer adds behind the written portion of the buffer.
use brdns.Prelude.{
  ℕ, zero, suc, ◌+◌, ◌-◌, ◌≤◌, ◌<◌, ◌≡◌, refl, sym, ap, ◌∙◌, List, [], ◌∷◌, ◌++◌, append-nil,
  append_assoc, arith, length, length-append, length-set, length-replicate, take, set, replicate,
  leb, Bool-cases, inl, inr,
}
use brdns.Buffer.{
  BytePacketBuffer, M, ok, ◌>>=◌, ◌>>◌, put, write, write_u8, write_u16, write_u32, as_bytes, new,
}
use native.Mathlib.Numerals.{add-one}
use brdns.Buffer.Reading.{u16_bytes, u32_bytes}

-- The position stands inside the buffer or at its end.
abbrev pub Fits : BytePacketBuffer → Type 0
Fits b = b.pos ≤ length b.buf

unfoldable pub put_all : BytePacketBuffer → List ℕ → BytePacketBuffer
put_all b [] = b
put_all b (x ∷ xs) = put_all (put b x) xs

-- From a buffer that fits, the writer succeeds and stores `bs`.
abbrev pub Writes : M (Unit {0}) → List ℕ → Type 0
Writes m bs = (b : BytePacketBuffer) → Fits b → m b ≡ ok (tt, put_all b bs)

take-set :
    (xs : List ℕ) (n v : ℕ) → n < length xs → take (suc n) (set xs n v) ≡ take n xs ++ (v ∷ [])
take-set [] n v h = absurd (omega arith)
take-set (x ∷ xs) zero v h = refl
take-set (x ∷ xs) (suc n) v h = ap (λ (t : List ℕ). x ∷ t) (take-set xs n v (omega arith))

take-append : (xs ys : List ℕ) (n : ℕ) → n ≤ length xs → take n (xs ++ ys) ≡ take n xs
take-append xs ys zero h = refl
take-append [] ys (suc n) h = absurd (omega arith)
take-append (x ∷ xs) ys (suc n) h = ap (λ (t : List ℕ). x ∷ t) (take-append xs ys n (omega arith))

pub put-Fits : (b : BytePacketBuffer) (v : ℕ) → Fits b → Fits (put b v)
unfolding put
put-Fits b v h = elim (Bool-cases (leb (length b.buf) b.pos)) [
  | inl e ↦ rw (e, length-set, length-append, length-replicate) (omega arith)
  | inr e ↦ rw (e, length-set) (ground arith)
]

as_bytes-put : (b : BytePacketBuffer) (v : ℕ) → Fits b → as_bytes (put b v) ≡ as_bytes b ++ (v ∷ [])
unfolding put as_bytes
as_bytes-put b v h = elim (Bool-cases (leb (length b.buf) b.pos)) [
  | inl e ↦
      rw (e, add-one)
        (take-set (b.buf ++ replicate (suc b.pos - length b.buf) 0) b.pos v
            (rw (length-append, length-replicate) (omega arith))
          ∙ ap (λ (t : List ℕ). t ++ (v ∷ [])) (take-append b.buf _ b.pos h))
  | inr e ↦ rw (e, add-one) (take-set b.buf b.pos v (ground arith))
]

pub put_all-Fits : (bs : List ℕ) (b : BytePacketBuffer) → Fits b → Fits (put_all b bs)
unfolding put_all
put_all-Fits [] b h = h
put_all-Fits (x ∷ bs) b h = put_all-Fits bs (put b x) (put-Fits b x h)

-- The written portion grows by exactly the bytes stored.
pub as_bytes-put_all :
    (bs : List ℕ) (b : BytePacketBuffer) → Fits b → as_bytes (put_all b bs) ≡ as_bytes b ++ bs
unfolding put_all
as_bytes-put_all [] b h = sym (append-nil (as_bytes b))
as_bytes-put_all (x ∷ bs) b h =
    as_bytes-put_all bs (put b x) (put-Fits b x h)
    ∙ rw (as_bytes-put b x h) (append_assoc (as_bytes b) (x ∷ []) bs)

pub put_all-append :
    (xs ys : List ℕ) (b : BytePacketBuffer) → put_all b (xs ++ ys) ≡ put_all (put_all b xs) ys
unfolding put_all
put_all-append [] ys b = refl
put_all-append (x ∷ xs) ys b = put_all-append xs ys (put b x)

pub pos-put_all : (bs : List ℕ) (b : BytePacketBuffer) → (put_all b bs).pos ≡ b.pos + length bs
unfolding put_all
pos-put_all [] b = omega arith
pos-put_all (x ∷ bs) b = pos-put_all bs (put b x) ∙ unfold put in omega arith

pub bind_ok {ℓ κ} :
    {A : Type ℓ} {B : Type κ} (m : M A) (f : A → M B) (b : BytePacketBuffer) {a : A}
    {b' : BytePacketBuffer}
    → m b ≡ ok (a, b')
    → (m >>= f) b ≡ f a b'
bind_ok m f b h = rw (h, ◌>>=◌)

pub Writes-bind :
    (m k : M (Unit {0})) (bs cs : List ℕ) → Writes m bs → Writes k cs → Writes (m >> k) (bs ++ cs)
Writes-bind m k bs cs hm hk b h =
    rw (hm b h, ◌>>=◌, put_all-append bs cs b) (hk (put_all b bs) (put_all-Fits bs b h))

pub Writes-write : (v : ℕ) → Writes (write v) (v ∷ [])
unfolding write put_all
Writes-write v b h = refl

pub Writes-write_u8 : (v : ℕ) → Writes (write_u8 v) (v ∷ [])
unfolding write_u8 write put_all
Writes-write_u8 v b h = refl

pub Writes-write_u16 : (v : ℕ) → Writes (write_u16 v) (u16_bytes v)
unfolding write_u16 write put_all u16_bytes
Writes-write_u16 v b h = refl

pub Writes-write_u32 : (v : ℕ) → Writes (write_u32 v) (u32_bytes v)
unfolding write_u32 write put_all u32_bytes
Writes-write_u32 v b h = refl

pub new-Fits : Fits new
unfolding new
new-Fits = omega arith
