-- ===== src/Buffer/WriteName.antt =====
-- What `write_qname` stores, and when it refuses a name.
use brdns.Prelude.{
  ℕ, ◌%◌, ◌^◌, ◌≤◌, ◌<◌, ◌≡◌, refl, List, [], ◌∷◌, ◌++◌, arith, length, le→ltb, lt→ltb, All,
}
use brdns.Prelude.Text.{Text, dot, split}
use brdns.Buffer.{BytePacketBuffer, err, label_too_long, ◌>>=◌, ◌>>◌, return, write_u8}
use brdns.Buffer.Writing.{Fits, Writes, put_all, Writes-bind, Writes-write_u8, put_all-Fits}
use brdns.Buffer.Qname.{write_bytes, write_labels, write_qname}

-- A label: its length, then its bytes.
abbrev pub labels_bytes : List Text → List ℕ
labels_bytes [] = []
labels_bytes (l ∷ ls) = (length l ∷ l) ++ labels_bytes ls

-- A name ends in the label of length 0.
abbrev pub name_bytes : List Text → List ℕ
name_bytes ls = labels_bytes ls ++ (0 ∷ [])

abbrev pub IsShort : Text → Type 0
IsShort l = length l ≤ 63

Writes-return : Writes (return tt) []
unfolding put_all
Writes-return b h = refl

pub Writes-write_bytes : (xs : List ℕ) → Writes (write_bytes xs) xs
unfolding write_bytes
Writes-write_bytes [] = Writes-return
Writes-write_bytes (x ∷ xs) =
    Writes-bind (write_u8 x) (write_bytes xs) (x ∷ []) xs (Writes-write_u8 x)
      (Writes-write_bytes xs)

write_labels_cons :
    (l : Text) (ls : List Text)
    → IsShort l
    → write_labels (l ∷ ls) ≡ (write_u8 (length l) >> (write_bytes l >> write_labels ls))
unfolding write_labels
write_labels_cons l ls h =
    let e : length l % 2 ^ 8 ≡ length l = omega arith in rw (le→ltb 0x3f (length l) h, e)

Writes-write_labels : (ls : List Text) → All IsShort ls → Writes (write_labels ls) (labels_bytes ls)
Writes-write_labels [] h = unfold write_labels in Writes-return
Writes-write_labels (l ∷ ls) h = rw (write_labels_cons l ls h.0) (
    Writes-bind (write_u8 (length l)) (write_bytes l >> write_labels ls) (length l ∷ [])
      (l ++ labels_bytes ls) (Writes-write_u8 (length l))
      (Writes-bind (write_bytes l) (write_labels ls) l (labels_bytes ls) (Writes-write_bytes l)
        (Writes-write_labels ls h.1)))

-- A name whose labels have at most 63 bytes is stored label by label, with a 0 at the end.
pub Writes-write_qname :
    (name : Text)
    → All IsShort (split dot name)
    → Writes (write_qname name) (name_bytes (split dot name))
unfolding write_qname
Writes-write_qname name h =
    Writes-bind (write_labels (split dot name)) (write_u8 0) (labels_bytes (split dot name))
      (0 ∷ []) (Writes-write_labels (split dot name) h) (Writes-write_u8 0)

write_labels_long :
    (front : List Text) (l : Text) (back : List Text) (b : BytePacketBuffer)
    → Fits b
    → All IsShort front
    → 63 < length l
    → write_labels (front ++ (l ∷ back)) b ≡ err label_too_long
write_labels_long [] l back b fits h long = unfold write_labels in rw (lt→ltb 0x3f (length l) long)
write_labels_long (f ∷ front) l back b fits h long =
    rw
      (
        write_labels_cons f (front ++ (l ∷ back)) h.0,
        Writes-write_u8 (length f) b fits,
        ◌>>=◌,
        Writes-write_bytes f (put_all b (length f ∷ [])) (put_all-Fits (length f ∷ []) b fits),
        ◌>>=◌,
      )
      (write_labels_long front l back _ (put_all-Fits f _ (put_all-Fits (length f ∷ []) b fits)) h.1
        long)

-- A name with a label of more than 63 bytes is refused, whatever stands in front of the label.
pub write_qname_long :
    (name : Text) (front : List Text) (l : Text) (back : List Text) (b : BytePacketBuffer)
    → split dot name ≡ front ++ (l ∷ back)
    → All IsShort front
    → 63 < length l
    → Fits b
    → write_qname name b ≡ err label_too_long
unfolding write_qname
write_qname_long name front l back b e h long fits =
    rw (e, write_labels_long front l back b fits h long, ◌>>=◌)
