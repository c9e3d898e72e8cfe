-- ===== src/Buffer/Ensures.antt =====
-- What a reader guarantees of its result over a buffer of bytes, and that it leaves the bytes alone.
use brdns.Prelude.{
  ℕ, ◌*◌, ◌%◌, ◌^◌, ◌≡◌, refl, sym, ◌∙◌, bit_or, arith, All, All-get_elem?, get_elem?, Option-cases,
  inl, inr,
}
use mathlib.Core.Path.{subst}
use brdns.Prelude.Bits.{bit_or_add}
use brdns.Prelude.Text.{Text}
use brdns.Buffer.{
  BytePacketBuffer, M, Result, ok, err, ◌>>=◌, return, position, step, read, read_u16, read_u32,
}
use brdns.Buffer.Reading.{IsByte, IsU16}
use brdns.Buffer.Qname.{Unicode, read_qname}
use brdns.Buffer.Bounds.{read_qname_bounds}

abbrev pub Ensures {ℓ κ} : {A : Type ℓ} → M A → (A → Type κ) → Type (ℓ ⊔ κ)
Ensures {A} m P =
    (b b' : BytePacketBuffer) (a : A) → All IsByte b.buf → m b ≡ ok (a, b') → P a × (b'.buf ≡ b.buf)

pub >>=-eq-ok {ℓ κ} :
    {A : Type ℓ} {B : Type κ} (m : M A) (f : A → M B) (b b' : BytePacketBuffer) (c : B)
    → (m >>= f) b ≡ ok (c, b')
    → (a : A) × (b1 : BytePacketBuffer) × (m b ≡ ok (a, b1)) × (f a b1 ≡ ok (c, b'))
>>=-eq-ok {A} m f b b' c h = go (m b) refl
  where
    go :
        (r : Result (A × BytePacketBuffer))
        → m b ≡ r
        → (a : A) × (b1 : BytePacketBuffer) × (m b ≡ ok (a, b1)) × (f a b1 ≡ ok (c, b'))
    go (err e) k = absurd (cc (rw (k, ◌>>=◌) at h))
    go (ok (a, b1)) k = (a, b1, k, rw (k, ◌>>=◌) at h)

pub Ensures-bind {ℓ κ μ ν} :
    {A : Type ℓ} {B : Type κ} (m : M A) (f : A → M B) (P : A → Type μ) (Q : B → Type ν)
    → Ensures m P
    → ((a : A) → P a → Ensures (f a) Q)
    → Ensures (m >>= f) Q
Ensures-bind m f P Q hm hf b b' c w h =
    let (a, b1, first, second) = >>=-eq-ok m f b b' c h in
    let (p, same) = hm b b1 a w first in
    let (q, same') = hf a p b1 b' c (subst (λ l. All IsByte l) (sym same) w) second in
    (q, same' ∙ same)

pub Ensures-return {ℓ κ} : {A : Type ℓ} (a : A) (P : A → Type κ) → P a → Ensures (return a) P
Ensures-return a P p b b' c w h = (subst P (cc) p, cc)

abbrev pub Any {ℓ} : {A : Type ℓ} → A → Type 0
Any _ = Unit

pub Ensures-read : Ensures read IsByte
unfolding read
Ensures-read b b' a w h = elim (Option-cases (get_elem? b.buf b.pos)) [
  | inl e ↦ absurd (ground arith)
  | inr (v, e) ↦ (ground (arith, All-get_elem? IsByte b.buf b.pos v w e), ground arith)
]

IsU16-range : (hi lo : ℕ) → IsByte hi → IsByte lo → IsU16 (bit_or (hi * 2 ^ 8 % 2 ^ 16) lo)
IsU16-range hi lo p q =
    let e : hi * 2 ^ 8 % 2 ^ 16 ≡ hi * 2 ^ 8 = omega arith in
    rw e (omega (arith, bit_or_add 8 hi lo q))

pub Ensures-read_u16 : Ensures read_u16 IsU16
unfolding read_u16
Ensures-read_u16 = Ensures-bind read _ IsByte IsU16 Ensures-read (λ hi p.
    Ensures-bind read _ IsByte IsU16 Ensures-read
      (λ lo q. Ensures-return _ IsU16 (IsU16-range hi lo p q)))

pub Ensures-read_u32 : Ensures read_u32 Any
unfolding read_u32
Ensures-read_u32 = Ensures-bind read _ IsByte Any Ensures-read (λ a _.
    Ensures-bind read _ IsByte Any Ensures-read (λ b _.
      Ensures-bind read _ IsByte Any Ensures-read
        (λ c _. Ensures-bind read _ IsByte Any Ensures-read (λ d _. Ensures-return _ Any tt))))

pub Ensures-position : Ensures position Any
unfolding position
Ensures-position b b' a w h = (tt, cc)

pub Ensures-step : (n : ℕ) → Ensures (step n) Any
unfolding step
Ensures-step n b b' a w h = (tt, cc)

module _ ⦃u : Unicode⦄ where
  pub Ensures-read_qname : (outstr : Text) → Ensures (read_qname outstr) Any
  Ensures-read_qname outstr b b' a w h = (tt, (read_qname_bounds outstr b b' a h).0)
