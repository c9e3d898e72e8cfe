-- ===== src/Buffer/Patch.antt =====
-- Bytes that are stored again inside the written portion of the buffer.
use brdns.Prelude.{
  ℕ, zero, suc, ◌+◌, ◌<◌, ◌≡◌, refl, ap, ◌∙◌, List, [], ◌∷◌, ◌++◌, arith, length, length-set, set,
  leb, Bool-cases, inl, inr,
}
use brdns.Buffer.{BytePacketBuffer, put}
use brdns.Buffer.Writing.{Fits, put_all, put-Fits}

abbrev pub set_at : BytePacketBuffer → ℕ → ℕ → BytePacketBuffer
set_at b i v = record b { buf = set b.buf i v }

set-set_self : (xs : List ℕ) (i v w : ℕ) → set (set xs i v) i w ≡ set xs i w
set-set_self [] i v w = refl
set-set_self (x ∷ xs) zero v w = refl
set-set_self (x ∷ xs) (suc i) v w = ap (λ (t : List ℕ). x ∷ t) (set-set_self xs i v w)

set-set_ne : (xs : List ℕ) (i j v w : ℕ) → i < j → set (set xs j v) i w ≡ set (set xs i w) j v
set-set_ne [] i j v w h = refl
set-set_ne (x ∷ xs) i zero v w h = absurd (omega arith)
set-set_ne (x ∷ xs) zero (suc j) v w h = refl
set-set_ne (x ∷ xs) (suc i) (suc j) v w h =
    ap (λ (t : List ℕ). x ∷ t) (set-set_ne xs i j v w (omega arith))

set-append : (xs ys : List ℕ) (i v : ℕ) → i < length xs → set (xs ++ ys) i v ≡ set xs i v ++ ys
set-append [] ys i v h = absurd (omega arith)
set-append (x ∷ xs) ys zero v h = refl
set-append (x ∷ xs) ys (suc i) v h = ap (λ (t : List ℕ). x ∷ t) (set-append xs ys i v (omega arith))

set_at-put :
    (b : BytePacketBuffer) (x i v : ℕ)
    → i < b.pos
    → Fits b
    → set_at (put b x) i v ≡ put (set_at b i v) x
unfolding put
set_at-put b x i v h f = elim (Bool-cases (leb (length b.buf) b.pos)) [
  | inl e ↦
      rw (length-set, e)
        (ap (λ (l : List ℕ). record { buf = l; pos = b.pos + 1 })
          (set-set_ne _ i b.pos x v h
            ∙ ap (λ (l : List ℕ). set l b.pos x) (set-append b.buf _ i v (omega arith))))
  | inr e ↦
      rw (length-set, e)
        (ap (λ (l : List ℕ). record { buf = l; pos = b.pos + 1 }) (set-set_ne b.buf i b.pos x v h))
]

pub set_at-put_all :
    (xs : List ℕ) (b : BytePacketBuffer) (i v : ℕ)
    → i < b.pos
    → Fits b
    → set_at (put_all b xs) i v ≡ put_all (set_at b i v) xs
unfolding put_all
set_at-put_all [] b i v h f = refl
set_at-put_all (x ∷ xs) b i v h f =
    set_at-put_all xs (put b x) i v (unfold put in omega arith) (put-Fits b x f)
    ∙ ap (λ (c : BytePacketBuffer). put_all c xs) (set_at-put b x i v h f)

-- A byte that was just stored is replaced.
set_at-put_self : (b : BytePacketBuffer) (x v : ℕ) → set_at (put b x) b.pos v ≡ put b v
unfolding put
set_at-put_self b x v =
    ap (λ (l : List ℕ). record { buf = l; pos = b.pos + 1 }) (set-set_self _ b.pos x v)

-- Two bytes that were stored in front of others are replaced.
pub patch_two :
    (b : BytePacketBuffer) (x y v w : ℕ) (xs : List ℕ)
    → Fits b
    → set_at (set_at (put_all b (x ∷ y ∷ xs)) b.pos v) (b.pos + 1) w ≡ put_all b (v ∷ w ∷ xs)
unfolding put_all
patch_two b x y v w xs f =
    let b1 = put b x in
    let b2 = put b1 y in
    let f1 = put-Fits b x f in
    let c1 = put b v in
    let p1 : b.pos < b1.pos = unfold put in omega arith in
    let p2 : b.pos < b2.pos = unfold put in omega arith in
    let q : b.pos + 1 < (put c1 y).pos = unfold put in omega arith in
    let first : set_at (put_all b2 xs) b.pos v ≡ put_all (put c1 y) xs =
      set_at-put_all xs b2 b.pos v p2 (put-Fits b1 y f1)
      ∙ ap (λ (c : BytePacketBuffer). put_all c xs)
          (set_at-put b1 y b.pos v p1 f1
            ∙ ap (λ (c : BytePacketBuffer). put c y) (set_at-put_self b x v)) in
    let second : set_at (put c1 y) (b.pos + 1) w ≡ put c1 w =
      unfold put in set_at-put_self c1 y w in
    ap (λ (c : BytePacketBuffer). set_at c (b.pos + 1) w) first
    ∙ set_at-put_all xs (put c1 y) (b.pos + 1) w q (put-Fits c1 y (put-Fits b v f))
    ∙ ap (λ (c : BytePacketBuffer). put_all c xs) second
