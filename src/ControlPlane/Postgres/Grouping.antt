-- ===== src/ControlPlane/Postgres/Grouping.antt =====
-- The rows that `replace_categories` of lib/controlplane/storage/postgres.rs makes of a map, and how
-- `categories` groups them.
use brdns.Prelude.{
  ◌≡◌, refl, sym, ap, ◌∙◌, false, ◌||◌, none, some, List, [], ◌∷◌, ◌++◌, arith, All, append-nil,
  append_assoc,
}
use brdns.Prelude.Text.{Text, text_eq, text_eq_refl}
use brdns.Prelude.Maps.{lookup, insert, text_Eq}
use brdns.Categories.{CategoryMap, set_contains}
use brdns.ControlPlane.Postgres.Categories.{group}

abbrev pub pairs : Text → List Text → List (Text × Text)
pairs domain [] = []
pairs domain (category ∷ cats) = (domain, category) ∷ pairs domain cats

abbrev pub all_pairs : CategoryMap → List (Text × Text)
all_pairs [] = []
all_pairs ((domain, cats) ∷ m) = pairs domain cats ++ all_pairs m

-- Texts that differ from one another.
abbrev pub IsDistinct : List Text → Type 0
IsDistinct [] = Unit
IsDistinct (c ∷ cs) = All (λ x. text_eq c x ≡ false) cs × IsDistinct cs

abbrev pub keys : CategoryMap → List Text
keys [] = []
keys ((domain, cats) ∷ m) = domain ∷ keys m

-- A set with an element, none of them twice.
abbrev pub IsFilled : List Text → Type 0
IsFilled [] = ⊥
IsFilled (c ∷ cs) = IsDistinct (c ∷ cs)

-- A hash map to sets that are not empty.
abbrev pub IsFilledMap : CategoryMap → Type 0
IsFilledMap m = IsDistinct (keys m) × All (λ e. IsFilled e.1) m

-- None of the texts is in the set.
abbrev pub IsApart : List Text → List Text → Type 0
IsApart front cs = All (λ x. set_contains front x ≡ false) cs

pub set_contains-append :
    (xs : List Text) (c x : Text)
    → set_contains (xs ++ (c ∷ [])) x ≡ (set_contains xs x || text_eq c x)
unfolding set_contains
set_contains-append [] c x = ground arith
set_contains-append (y ∷ xs) c x = ground (arith, set_contains-append xs c x)

pub append-IsApart :
    (front cs : List Text) (c : Text)
    → IsApart front cs
    → All (λ x. text_eq c x ≡ false) cs
    → IsApart (front ++ (c ∷ [])) cs
append-IsApart front [] c h k = tt
append-IsApart front (x ∷ cs) c h k =
    (set_contains-append front c x ∙ rw (h.0, k.0) refl, append-IsApart front cs c h.1 k.1)

lookup-last :
    (k : Text) (m : CategoryMap) (v : List Text)
    → lookup k m ≡ none
    → lookup k (m ++ ((k, v) ∷ [])) ≡ some v
unfolding lookup
lookup-last k [] v h = rw (text_eq_refl k) refl
lookup-last k ((j, w) ∷ m) v h = ground (arith, h, lookup-last k m v)

insert-last :
    (k : Text) (m : CategoryMap) (v w : List Text)
    → lookup k m ≡ none
    → insert k w (m ++ ((k, v) ∷ [])) ≡ m ++ ((k, w) ∷ [])
unfolding lookup insert
insert-last k [] v w h = rw (text_eq_refl k) refl
insert-last k ((j, x) ∷ m) v w h = ground (arith, h, insert-last k m v w)

insert_new :
    (k : Text) (m : CategoryMap) (w : List Text)
    → lookup k m ≡ none
    → insert k w m ≡ m ++ ((k, w) ∷ [])
unfolding lookup insert
insert_new k [] w h = refl
insert_new k ((j, x) ∷ m) w h = ground (arith, h, insert_new k m w)

lookup-apart :
    (k d : Text) (m : CategoryMap) (v : List Text)
    → lookup k m ≡ none
    → text_eq d k ≡ false
    → lookup k (m ++ ((d, v) ∷ [])) ≡ none
unfolding lookup
lookup-apart k d [] v h e = rw e refl
lookup-apart k d ((j, x) ∷ m) v h e = ground (arith, h, lookup-apart k d m v)

group-step :
    (d c : Text) (rest : List (Text × Text)) (m : CategoryMap) (front : List Text)
    → lookup d m ≡ none
    → set_contains front c ≡ false
    → group ((d, c) ∷ rest) (m ++ ((d, front) ∷ []))
      ≡ group rest (m ++ ((d, front ++ (c ∷ [])) ∷ []))
unfolding group
group-step d c rest m front h n =
    rw (lookup-last d m front h, n) (ap (group rest) (insert-last d m front (front ++ (c ∷ [])) h))

group-pairs :
    (d : Text) (cats : List Text) (rest : List (Text × Text)) (m : CategoryMap) (front : List Text)
    → lookup d m ≡ none
    → IsApart front cats
    → IsDistinct cats
    → group (pairs d cats ++ rest) (m ++ ((d, front) ∷ []))
      ≡ group rest (m ++ ((d, front ++ cats) ∷ []))
group-pairs d [] rest m front h a w = rw (append-nil front) refl
group-pairs d (c ∷ cs) rest m front h a w =
    group-step d c (pairs d cs ++ rest) m front h a.0
    ∙ group-pairs d cs rest m (front ++ (c ∷ [])) h (append-IsApart front cs c a.1 w.0) w.1
    ∙ rw (append_assoc front (c ∷ []) cs) refl

group-first :
    (d c : Text) (rest : List (Text × Text)) (m : CategoryMap)
    → lookup d m ≡ none
    → group ((d, c) ∷ rest) m ≡ group rest (m ++ ((d, c ∷ []) ∷ []))
unfolding group set_contains
group-first d c rest m h = rw h (ap (group rest) (insert_new d m (c ∷ []) h))

all-IsApart : (c : Text) (cs : List Text) → All (λ x. text_eq c x ≡ false) cs → IsApart (c ∷ []) cs
unfolding set_contains
all-IsApart c [] h = tt
all-IsApart c (x ∷ cs) h = (rw (h.0) refl, all-IsApart c cs h.1)

next-apart :
    (d : Text) (v : List Text) (base m : CategoryMap)
    → All (λ k. lookup k base ≡ none) (keys m)
    → All (λ k. text_eq d k ≡ false) (keys m)
    → All (λ k. lookup k (base ++ ((d, v) ∷ [])) ≡ none) (keys m)
next-apart d v base [] h e = tt
next-apart d v base ((k, w) ∷ m) h e =
    (lookup-apart k d base v h.0 e.0, next-apart d v base m h.1 e.1)

-- The rows of a map are grouped to the map.
pub group-all_pairs :
    (m base : CategoryMap)
    → IsFilledMap m
    → All (λ k. lookup k base ≡ none) (keys m)
    → group (all_pairs m) base ≡ base ++ m
group-all_pairs [] base w h = unfold group in sym (append-nil base)
group-all_pairs ((d, []) ∷ m) base w h = absurd w.1.0
group-all_pairs ((d, c ∷ cs) ∷ m) base w h =
    group-first d c (pairs d cs ++ all_pairs m) base h.0
    ∙ group-pairs d cs (all_pairs m) base (c ∷ []) h.0 (all-IsApart c cs w.1.0.0) w.1.0.1
    ∙ group-all_pairs m (base ++ ((d, c ∷ cs) ∷ [])) (w.0.1, w.1.1)
        (next-apart d (c ∷ cs) base m h.1 w.0.0)
    ∙ append_assoc base ((d, c ∷ cs) ∷ []) m
