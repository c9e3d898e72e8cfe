-- ===== src/Buffer/Fuel.antt =====
-- The rounds of `read_qname`, counted against its fuel.
use brdns.Prelude.{
  ℕ, zero, suc, ◌+◌, ◌-◌, ◌*◌, ◌≤◌, ◌<◌, ◌≡◌, ◌≢◌, refl, true, List, some, arith, length, get_elem?,
  ltb, if◌then◌else◌, inl, inr, Option-cases, Bool-cases, [], ◌∷◌,
}
use brdns.Prelude.Text.{Text}
use brdns.Buffer.{BytePacketBuffer, Error, Result, ok, err, out_of_fuel, get, get_range}
use brdns.Buffer.Qname.{
  Unicode, Scan, Turn, stop, again, is_pointer, follow, take_label, turn, qname_loop, qname_fuel,
  scan_from, read_qname,
}

pub get_elem?_lt : (xs : List ℕ) (i : ℕ) {x : ℕ} → get_elem? xs i ≡ some x → i < length xs
get_elem?_lt [] i h = cc
get_elem?_lt (y ∷ ys) zero h = omega arith
get_elem?_lt (y ∷ ys) (suc i) h = omega (arith, get_elem?_lt ys i h)

-- What a round that goes on did: it took a label, or followed one more pointer.
pub data Progress (buf : List ℕ) (s t : Scan) : Type 0 where
  label :
      s.cursor < length buf
      → s.cursor < t.cursor
      → t.jumps ≡ s.jumps
      → t.cursor ≤ length buf
      → t.jumped ≡ s.jumped
      → t.pos ≡ s.pos
      → Progress buf s t
  pointer :
      s.cursor + 1 < length buf
      → s.jumps ≤ 5
      → t.jumps ≡ s.jumps + 1
      → t.jumped ≡ true
      → t.pos ≡ (if s.jumped then s.pos else s.cursor + 2)
      → Progress buf s t

one_pass : (k n : ℕ) → 1 ≤ k → (k - 1) * (n + 2) + (n + 2) ≡ k * (n + 2)
one_pass zero n h = absurd (omega arith)
one_pass (suc k) n h = let e : suc k - 1 ≡ k = omega arith in rw e (omega arith)

module _ ⦃u : Unicode⦄ where
  follow-Progress :
      (buf : List ℕ) (s t : Scan) (len : ℕ)
      → s.jumps ≤ 5
      → follow buf s len ≡ ok (again t)
      → Progress buf s t
  unfolding follow get
  follow-Progress buf s t len j h = elim (Option-cases (get_elem? buf (s.cursor + 1))) [
    | inl e ↦ absurd (ground arith)
    | inr (b2, e) ↦
        pointer (get_elem?_lt buf (s.cursor + 1) e) j (ground arith) (ground arith) (ground arith)
  ]

  take_label-Progress :
      (buf : List ℕ) (s t : Scan) (len : ℕ)
      → s.cursor < length buf
      → take_label buf s len ≡ ok (again t)
      → Progress buf s t
  unfolding take_label get_range
  take_label-Progress buf s t len c h =
      label c (ground arith) (ground arith) (ground arith) (ground arith) (ground arith)

  pub turn-Progress : (buf : List ℕ) (s t : Scan) → turn buf s ≡ ok (again t) → Progress buf s t
  unfolding turn get
  turn-Progress buf s t h = elim (Option-cases (get_elem? buf s.cursor)) [
    | inl e ↦ absurd (ground arith)
    | inr (len, e) ↦ elim (Bool-cases (ltb 5 s.jumps)) [
      | inl many ↦ absurd (ground arith)
      | inr few ↦ elim (Bool-cases (is_pointer len)) [
        | inl p ↦ follow-Progress buf s t len (ground arith) (ground arith)
        | inr n ↦ take_label-Progress buf s t len (get_elem?_lt buf s.cursor e) (ground arith)
      ]
    ]
  ]

  turn-ne-out_of_fuel : (buf : List ℕ) (s : Scan) → turn buf s ≢ err out_of_fuel
  unfolding turn follow take_label get get_range
  turn-ne-out_of_fuel buf s h = ground arith

  abbrev Ends : Result Scan → Type 0
  Ends r = r ≢ err out_of_fuel

  -- A property of the loop's result from the same property of what each round goes on to.
  pub qname_loop_rule {ℓ} :
      (P : Result Scan → Type ℓ) (fuel : ℕ) (buf : List ℕ) (s : Scan)
      → ((e : Error) → turn buf s ≡ err e → P (err e))
      → ((t : Scan) → turn buf s ≡ ok (stop t) → P (ok t))
      → ((t : Scan) → turn buf s ≡ ok (again t) → P (qname_loop fuel buf t))
      → P (qname_loop (suc fuel) buf s)
  unfolding qname_loop
  qname_loop_rule P fuel buf s he hs ha = go (turn buf s) refl
    where
      go : (r : Result Turn) → turn buf s ≡ r → P (qname_loop (suc fuel) buf s)
      go (err e) h = rw (h, qname_loop) (he e h)
      go (ok (stop t)) h = rw (h, qname_loop) (hs t h)
      go (ok (again t)) h = rw (h, qname_loop) (ha t h)

  -- `k` pointers may still be followed, and each pass moves the cursor up to the end.
  qname_loop-Ends :
      (fuel k : ℕ) (buf : List ℕ) (s : Scan)
      → s.jumps + k ≡ 6
      → k * (length buf + 2) + (length buf + 1 - s.cursor) < fuel
      → Ends (qname_loop fuel buf s)
  qname_loop-Ends zero k buf s j m = absurd (omega arith)
  qname_loop-Ends (suc fuel) k buf s j m =
      qname_loop_rule Ends fuel buf s (λ e h k. turn-ne-out_of_fuel buf s (cc)) (λ t h k. cc)
        (λ t h. elim (turn-Progress buf s t h) [
          | label c up same _ _ _ ↦ qname_loop-Ends fuel k buf t (omega arith) (omega arith)
          | pointer c few one _ _ ↦
              qname_loop-Ends fuel (k - 1) buf t (omega arith)
                (omega (arith, one_pass k (length buf) (omega arith)))
        ])

  -- Reading a name ends on every buffer, at every position: the loop never runs out of rounds.
  pub read_qname-ne-out_of_fuel :
      (outstr : Text) (b : BytePacketBuffer) → read_qname outstr b ≢ err out_of_fuel
  unfolding read_qname
  read_qname-ne-out_of_fuel outstr b h =
      ground
        (arith, qname_loop-Ends (qname_fuel b.buf) 6 b.buf (scan_from b outstr) refl (omega arith))
