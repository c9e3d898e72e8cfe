-- ===== src/Buffer/Bounds.antt =====
-- Where reading a name leaves the buffer.
use brdns.Prelude.{
  ℕ, zero, suc, ◌+◌, ◌≤◌, ◌<◌, ◌≡◌, List, arith, length, get_elem?, if◌then◌else◌, inl, inr,
  Option-cases,
}
use brdns.Prelude.Text.{Text}
use brdns.Buffer.{BytePacketBuffer, Result, ok, err, get, get_range}
use brdns.Buffer.Qname.{
  Unicode, Scan, stop, follow, take_label, turn, qname_loop, qname_fuel, scan_from, read_qname,
}
use brdns.Buffer.Fuel.{label, pointer, get_elem?_lt, turn-Progress, qname_loop_rule}

-- Until the first pointer the cursor moves on from the start; a pointer fixes the final position.
abbrev Within : ℕ → ℕ → Scan → Type 0
Within start size s = if s.jumped then (start < s.pos) × (s.pos ≤ size) else start ≤ s.cursor

-- What the caller continues from.
abbrev Leaves : ℕ → ℕ → Result Scan → Type 0
Leaves start size (err e) = Unit
Leaves start size (ok s) =
    (start < (if s.jumped then s.pos else s.cursor))
    × ((if s.jumped then s.pos else s.cursor) ≤ size)

module _ ⦃u : Unicode⦄ where
  turn_stop :
      (buf : List ℕ) (s t : Scan)
      → turn buf s ≡ ok (stop t)
      → (s.cursor < length buf)
        × (t.cursor ≡ s.cursor + 1)
        × (t.jumped ≡ s.jumped)
        × (t.pos ≡ s.pos)
  unfolding turn get follow take_label get_range
  turn_stop buf s t h = elim (Option-cases (get_elem? buf s.cursor)) [
    | inl e ↦ absurd (ground arith)
    | inr (len, e) ↦ (get_elem?_lt buf s.cursor e, ground arith, ground arith, ground arith)
  ]

  qname_loop-Leaves :
      (fuel start : ℕ) (buf : List ℕ) (s : Scan)
      → Within start (length buf) s
      → Leaves start (length buf) (qname_loop fuel buf s)
  qname_loop-Leaves zero start buf s w = unfold qname_loop in tt
  qname_loop-Leaves (suc fuel) start buf s w =
      qname_loop_rule (Leaves start (length buf)) fuel buf s (λ e h. tt)
        (λ t h. let x = turn_stop buf s t h in ground arith)
        (λ t h. qname_loop-Leaves fuel start buf t (elim (turn-Progress buf s t h) [
          | label c up same end jumped pos ↦ ground arith
          | pointer c few one jumped pos ↦ ground arith
        ]))

  -- Reading a name moves the position forward, to the end of the buffer at most, and leaves the
  -- bytes alone, also where the name continues elsewhere through pointers.
  pub read_qname_bounds :
      (outstr : Text) (b b' : BytePacketBuffer) (name : Text)
      → read_qname outstr b ≡ ok (name, b')
      → (b'.buf ≡ b.buf) × (b.pos < b'.pos) × (b'.pos ≤ length b.buf)
  unfolding read_qname
  read_qname_bounds outstr b b' name h =
      ground
        (arith, qname_loop-Leaves (qname_fuel b.buf) b.pos b.buf (scan_from b outstr) (omega arith))
