-- ===== src/Buffer/Pointer.antt =====
-- Compressed names: labels that end in a pointer to a name elsewhere in the message.
use brdns.Prelude.{
  ℕ, suc, ◌+◌, ◌-◌, ◌≤◌, ◌≡◌, refl, sym, ap, ◌∙◌, true, false, List, [], ◌∷◌, ◌++◌, append_assoc,
  arith, length, drop, drop-suc, get_elem?, get_elem?-drop, some, le→ltb, All,
}
use native.Mathlib.Numerals.{add-one}
use brdns.Prelude.Text.{Text, dot, join}
use brdns.Buffer.{BytePacketBuffer, ok, get}
use brdns.Buffer.Reading.{ahead, advance, drop_append}
use brdns.Buffer.WriteName.{labels_bytes, name_bytes}
use brdns.Buffer.Labels.{
  IsLabel, past, past-cursor, past-jumped, past-jumps, past-pos, past-append, past-out,
  past_out_cong, labels_fit, qname_loop-labels, loop_again, loop_name, finish_name,
}
use brdns.Buffer.Qname.{
  Unicode, Scan, again, is_pointer, offset_of, follow, turn, qname_loop, qname_fuel, scan_from,
  read_qname,
}

-- The loop's variables behind a pointer that is the first one.
abbrev jump : ℕ → Scan → Scan
jump target s = record s { cursor = target; jumped = true; jumps = s.jumps + 1; pos = s.cursor + 2 }

module _ ⦃u : Unicode⦄ where
  turn-pointer :
      (buf : List ℕ) (s : Scan) (p q : ℕ) (rest : List ℕ)
      → is_pointer p ≡ true
      → s.jumps ≤ 5
      → s.jumped ≡ false
      → drop s.cursor buf ≡ p ∷ q ∷ rest
      → turn buf s ≡ ok (again (jump (offset_of p q) s))
  turn-pointer buf s p q rest is j first h =
      let next : get_elem? buf (s.cursor + 1) ≡ some q =
        rw add-one (get_elem?-drop buf (suc s.cursor) (drop-suc buf s.cursor h)) in
      unfold turn follow get in
      rw (le→ltb 5 s.jumps j, get_elem?-drop buf s.cursor h, is, next, follow, first)

  -- Labels `ls` that end in a pointer to where the labels `ms` are written out, all of them of 1 to
  -- 63 ASCII bytes without capitals, read behind what `outstr` held as all of them joined by dots,
  -- and the position moves past the two bytes of the pointer.
  pub read_qname-pointer :
      (outstr : Text) (ls ms : List Text) (p q : ℕ) (b : BytePacketBuffer) (rest rest' : List ℕ)
      → All IsLabel ls
      → All IsLabel ms
      → is_pointer p ≡ true
      → ahead b ≡ labels_bytes ls ++ (p ∷ q ∷ rest)
      → drop (offset_of p q) b.buf ≡ name_bytes ms ++ rest'
      → read_qname outstr b
        ≡ ok (outstr ++ join dot (ls ++ ms), advance b (length (labels_bytes ls) + 2))
  read_qname-pointer outstr ls ms p q b rest rest' wl wm is h t =
      let s = scan_from b outstr in
      let s1 = past ls s in
      let s2 = jump (offset_of p q) s1 in
      let t' : drop (offset_of p q) b.buf ≡ labels_bytes ms ++ (0 ∷ rest') =
        t ∙ append_assoc (labels_bytes ms) (0 ∷ []) rest' in
      let many = labels_fit ls (p ∷ q ∷ rest) b.buf b.pos h in
      let more = labels_fit ms (0 ∷ rest') b.buf (offset_of p q) t' in
      let k = qname_fuel b.buf - length ls - 1 in
      let e : qname_fuel b.buf ≡ length ls + suc k = omega arith in
      let none_yet = past-jumps ls s in
      let at : drop s1.cursor b.buf ≡ p ∷ q ∷ rest =
        rw (past-cursor ls s) (drop_append (labels_bytes ls) b.buf (p ∷ q ∷ rest) b.pos h) in
      let out : (past ms s2).out ≡ outstr ++ join dot (ls ++ ms) =
        past_out_cong ms s2 s1 refl refl
        ∙ ap (λ (x : Scan). x.out) (sym (past-append ls ms s))
        ∙ past-out (ls ++ ms) s refl in
      finish_name b outstr _ (
        ap (λ (m : ℕ). qname_loop m b.buf s) e
        ∙ qname_loop-labels ls (suc k) b.buf s (p ∷ q ∷ rest) wl (omega arith) h
        ∙ loop_again k b.buf s1 s2
            (turn-pointer b.buf s1 p q rest is (omega arith) (past-jumped ls s) at)
        ∙ loop_name ms k b.buf s2 rest' wm (omega arith) t' (omega arith))
      ∙ rw (past-jumped ms s2, past-pos ms s2, out, past-cursor ls s) (ground arith)
