-- ===== src/Buffer/Labels.antt =====
-- What `read_qname` makes of well-formed names, written out or continued through a pointer.
use brdns.Prelude.{
  ℕ, zero, suc, ◌+◌, ◌-◌, ◌≤◌, ◌<◌, ◌≡◌, refl, sym, ap, ◌∙◌, not, true, false, List, [], ◌∷◌, ◌++◌,
  append-nil, append_assoc, arith, length, length-append, take, drop, drop-suc, drop_lt,
  get_elem?-drop, ltb, le→ltb, ◌==◌, All,
}
use native.Mathlib.Numerals.{add-one}
use native.Mathlib.Nat.{zero-add}
use brdns.Prelude.Bits.{each_below, each_below_lem}
use brdns.Prelude.Text.{Text, dot, join, to_ascii_lowercase}
use brdns.Buffer.{BytePacketBuffer, ok, get, get_range}
use brdns.Buffer.Reading.{Reads, drop_append}
use brdns.Buffer.WriteName.{labels_bytes, name_bytes}
use brdns.Buffer.Qname.{
  Unicode, IsAscii, Scan, stop, again, is_pointer, take_label, turn, qname_loop, qname_fuel,
  scan_from, finish, read_qname,
}

-- A label that is sent and shown as it is: 1 to 63 ASCII bytes without capitals.
pub record IsLabel (l : Text) : Type 0 where
  pub filled : 1 ≤ length l
  pub short : length l ≤ 63
  pub ascii : All IsAscii l
  pub lower : to_ascii_lowercase l ≡ l

pointer_table : each_below 64 (λ n. not (is_pointer n)) ≡ true
unfolding each_below is_pointer
pointer_table = refl

not_pointer : (n : ℕ) → n ≤ 63 → is_pointer n ≡ false
not_pointer n h =
    let e : not (is_pointer n) ≡ true =
      each_below_lem (λ n. not (is_pointer n)) 64 n (omega arith) pointer_table in
    ground arith

take_front : (xs ys : List ℕ) → take (length xs) (xs ++ ys) ≡ xs
take_front [] ys = refl
take_front (x ∷ xs) ys = ap (λ (t : List ℕ). x ∷ t) (take_front xs ys)

pub length-drop :
    (n : ℕ) (xs : List ℕ) {ys : List ℕ} → n ≤ length xs → drop n xs ≡ ys → length xs ≡ n + length ys
length-drop zero xs h e = omega (arith, ap length e)
length-drop (suc n) [] h e = absurd (omega arith)
length-drop (suc n) (x ∷ xs) h e = omega (arith, length-drop n xs (omega arith) e)

-- The loop's variables behind a label, and behind several.
abbrev pub after : Text → Scan → Scan
after l s = record s {
  cursor = s.cursor + 1 + length l;
  delim = dot ∷ [];
  out = (s.out ++ s.delim) ++ l;
}

abbrev pub past : List Text → Scan → Scan
past [] s = s
past (l ∷ ls) s = past ls (after l s)

pub past-cursor :
    (ls : List Text) (s : Scan) → (past ls s).cursor ≡ s.cursor + length (labels_bytes ls)
past-cursor [] s = omega arith
past-cursor (l ∷ ls) s =
    omega (arith, past-cursor ls (after l s), length-append (length l ∷ l) (labels_bytes ls))

pub past-jumped : (ls : List Text) (s : Scan) → (past ls s).jumped ≡ s.jumped
past-jumped [] s = refl
past-jumped (l ∷ ls) s = past-jumped ls (after l s)

pub past-jumps : (ls : List Text) (s : Scan) → (past ls s).jumps ≡ s.jumps
past-jumps [] s = refl
past-jumps (l ∷ ls) s = past-jumps ls (after l s)

pub past-pos : (ls : List Text) (s : Scan) → (past ls s).pos ≡ s.pos
past-pos [] s = refl
past-pos (l ∷ ls) s = past-pos ls (after l s)

pub past-append : (ls ms : List Text) (s : Scan) → past (ls ++ ms) s ≡ past ms (past ls s)
past-append [] ms s = refl
past-append (l ∷ ls) ms s = past-append ls ms (after l s)

-- Labels behind a first one are each put behind a dot.
past_out_dotted :
    (l : Text) (ls : List Text) (s : Scan)
    → s.delim ≡ dot ∷ []
    → (past (l ∷ ls) s).out ≡ s.out ++ (dot ∷ join dot (l ∷ ls))
past_out_dotted l [] s e = rw e (unfold join in append_assoc s.out (dot ∷ []) l)
past_out_dotted l (m ∷ ls) s e =
    past_out_dotted m ls (after l s) refl
    ∙ rw e (
        unfold join in
        rw (append_assoc s.out (dot ∷ []) l)
          (append_assoc s.out (dot ∷ l) (dot ∷ join dot (m ∷ ls))))

pub past-out : (ls : List Text) (s : Scan) → s.delim ≡ [] → (past ls s).out ≡ s.out ++ join dot ls
past-out [] s e = unfold join in sym (append-nil s.out)
past-out (l ∷ []) s e = rw e (unfold join in rw append-nil)
past-out (l ∷ m ∷ ls) s e =
    past_out_dotted m ls (after l s) refl
    ∙ rw e (unfold join in rw append-nil (append_assoc s.out l (dot ∷ join dot (m ∷ ls))))

count_labels : (ls : List Text) → length ls ≤ length (labels_bytes ls)
count_labels [] = omega arith
count_labels (l ∷ ls) =
    omega (arith, count_labels ls, length-append (length l ∷ l) (labels_bytes ls))

pub labels_fit :
    (ls : List Text) (rest buf : List ℕ) (n : ℕ)
    → drop n buf ≡ labels_bytes ls ++ rest
    → length ls ≤ length buf
labels_fit [] rest buf n h = omega arith
labels_fit (l ∷ ls) rest buf n h =
    let below = drop_lt buf n h in
    omega (
      arith,
      length-drop n buf (omega arith) h,
      length-append (labels_bytes (l ∷ ls)) rest,
      count_labels (l ∷ ls),
    )

pub past_out_cong :
    (ls : List Text) (s t : Scan)
    → s.out ≡ t.out
    → s.delim ≡ t.delim
    → (past ls s).out ≡ (past ls t).out
past_out_cong [] s t o d = o
past_out_cong (l ∷ ls) s t o d = past_out_cong ls (after l s) (after l t) (rw (o, d)) refl

module _ ⦃u : Unicode⦄ where
  turn-label :
      (buf : List ℕ) (s : Scan) (l : Text) (rest : List ℕ)
      → IsLabel l
      → s.jumps ≤ 5
      → drop s.cursor buf ≡ length l ∷ (l ++ rest)
      → turn buf s ≡ ok (again (after l s))
  turn-label buf s l rest w j h =
      let below = drop_lt buf s.cursor h in
      let tail = drop-suc buf s.cursor h in
      let behind : drop (s.cursor + 1) buf ≡ l ++ rest = rw add-one tail in
      let size = length-drop (s.cursor + 1) buf (omega arith) behind in
      let room : ltb (length buf) (s.cursor + 1 + length l) ≡ false =
        le→ltb (length buf) (s.cursor + 1 + length l) (omega (arith, size, length-append l rest)) in
      let full : (length l == 0) ≡ false = (let p = w.filled in ground arith) in
      let text : u.lossy_lower l ≡ l = u.lossy_lower_ascii l w.ascii ∙ w.lower in
      unfold turn take_label get get_range in
      rw (
        le→ltb 5 s.jumps j,
        get_elem?-drop buf s.cursor h,
        not_pointer (length l) w.short,
        full,
        room,
        behind,
        take_front l rest,
        text,
      )

  turn-zero :
      (buf : List ℕ) (s : Scan) (rest : List ℕ)
      → s.jumps ≤ 5
      → drop s.cursor buf ≡ 0 ∷ rest
      → turn buf s ≡ ok (stop (record s { cursor = s.cursor + 1 }))
  turn-zero buf s rest j h =
      unfold turn take_label get in rw (le→ltb 5 s.jumps j, get_elem?-drop buf s.cursor h)

  pub loop_again :
      (n : ℕ) (buf : List ℕ) (s t : Scan)
      → turn buf s ≡ ok (again t)
      → qname_loop (suc n) buf s ≡ qname_loop n buf t
  unfolding qname_loop
  loop_again n buf s t h = rw (h, qname_loop)

  loop_stop :
      (n : ℕ) (buf : List ℕ) (s t : Scan)
      → turn buf s ≡ ok (stop t)
      → qname_loop (suc n) buf s ≡ ok t
  unfolding qname_loop
  loop_stop n buf s t h = rw (h, qname_loop)

  -- The loop takes the labels one by one.
  pub qname_loop-labels :
      (ls : List Text) (n : ℕ) (buf : List ℕ) (s : Scan) (rest : List ℕ)
      → All IsLabel ls
      → s.jumps ≤ 5
      → drop s.cursor buf ≡ labels_bytes ls ++ rest
      → qname_loop (length ls + n) buf s ≡ qname_loop n buf (past ls s)
  qname_loop-labels [] n buf s rest w j h = rw zero-add
  qname_loop-labels (l ∷ ls) n buf s rest w j h =
      let h' : drop s.cursor buf ≡ (length l ∷ l) ++ (labels_bytes ls ++ rest) =
        h ∙ append_assoc (length l ∷ l) (labels_bytes ls) rest in
      let step = turn-label buf s l (labels_bytes ls ++ rest) w.0 j h' in
      let e : suc (length ls) + n ≡ suc (length ls + n) = omega arith in
      let at_next = drop_append (length l ∷ l) buf (labels_bytes ls ++ rest) s.cursor h' in
      let c : s.cursor + suc (length l) ≡ s.cursor + 1 + length l = omega arith in
      rw e (
        loop_again (length ls + n) buf s (after l s) step
        ∙ qname_loop-labels ls n buf (after l s) rest w.1 j (rw c at at_next))

  -- From labels and the 0 behind them the loop stops behind the 0.
  pub loop_name :
      (ls : List Text) (n : ℕ) (buf : List ℕ) (s : Scan) (rest : List ℕ)
      → All IsLabel ls
      → s.jumps ≤ 5
      → drop s.cursor buf ≡ labels_bytes ls ++ (0 ∷ rest)
      → length ls < n
      → qname_loop n buf s ≡ ok (record (past ls s) { cursor = (past ls s).cursor + 1 })
  loop_name ls n buf s rest w j h fuel =
      let k = n - length ls - 1 in
      let e : n ≡ length ls + suc k = omega arith in
      let jumps : (past ls s).jumps ≤ 5 = rw (past-jumps ls s) j in
      let end : drop (past ls s).cursor buf ≡ 0 ∷ rest =
        rw (past-cursor ls s) (drop_append (labels_bytes ls) buf (0 ∷ rest) s.cursor h) in
      ap (λ (m : ℕ). qname_loop m buf s) e
      ∙ qname_loop-labels ls (suc k) buf s (0 ∷ rest) w j h
      ∙ loop_stop k buf (past ls s) _ (turn-zero buf (past ls s) rest jumps end)

  pub finish_name :
      (b : BytePacketBuffer) (outstr : Text) (s : Scan)
      → qname_loop (qname_fuel b.buf) b.buf (scan_from b outstr) ≡ ok s
      → read_qname outstr b ≡ finish b s
  unfolding read_qname
  finish_name b outstr s h = rw (h, read_qname)

  -- A name that is written out is read as its labels, joined by dots behind what `outstr` held, and
  -- the position moves past it.
  pub Reads-read_qname :
      (outstr : Text) (ls : List Text)
      → All IsLabel ls
      → Reads (read_qname outstr) (name_bytes ls) (outstr ++ join dot ls)
  Reads-read_qname outstr ls w b rest h =
      let h' = h ∙ append_assoc (labels_bytes ls) (0 ∷ []) rest in
      let s = scan_from b outstr in
      let many = labels_fit ls (0 ∷ rest) b.buf b.pos h' in
      finish_name b outstr _
        (loop_name ls (qname_fuel b.buf) b.buf s rest w (omega arith) h' (omega arith))
      ∙ rw
          (
            past-jumped ls s,
            past-out ls s refl,
            past-cursor ls s,
            length-append (labels_bytes ls) (0 ∷ []),
          )
          (ground arith)
