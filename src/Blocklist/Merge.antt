-- ===== src/Blocklist/Merge.antt =====
-- What the merged feeds say of a domain.
use brdns.Prelude.{
  ◌≡◌, refl, ◌∙◌, Bool, false, ◌&&◌, ◌||◌, none, some, List, [], ◌∷◌, ◌++◌, arith, Option-cases,
  Bool-cases, inl, inr, if◌then◌else◌,
}
use brdns.Prelude.Text.{Text, text_eq, text_eq_iff}
use brdns.Prelude.Maps.{lookup, insert, lookup-insert, text_Eq}
use brdns.Categories.{CategoryMap, set_contains, has_category}
use brdns.Blocklist.{set_insert, extend, tag, tag_all, Fetched, merge}

set_contains-append :
    (xs ys : List Text) (c : Text)
    → set_contains (xs ++ ys) c ≡ (set_contains xs c || set_contains ys c)
unfolding set_contains
set_contains-append [] ys c = refl
set_contains-append (x ∷ xs) ys c = ground (arith, set_contains-append xs ys c)

set_contains-one : (x c : Text) → set_contains (x ∷ []) c ≡ text_eq x c
unfolding set_contains
set_contains-one x c = ground arith

set_contains-set_insert :
    (x : Text) (set : List Text) (c : Text)
    → set_contains (set_insert x set) c ≡ (set_contains set c || text_eq x c)
set_contains-set_insert x set c =
    ground (arith, set_contains-append set (x ∷ []) c, set_contains-one x c, text_eq_iff x c)

set_contains-extend :
    (set cs : List Text) (c : Text)
    → set_contains (extend set cs) c ≡ (set_contains set c || set_contains cs c)
unfolding extend set_contains
set_contains-extend set [] c = ground arith
set_contains-extend set (x ∷ cs) c =
    ground (arith, set_contains-extend (set_insert x set) cs c, set_contains-set_insert x set c)

has_category-none : (m : CategoryMap) (d c : Text) → lookup d m ≡ none → has_category m d c ≡ false
unfolding has_category
has_category-none m d c h = rw (h, has_category)

has_category-some :
    (m : CategoryMap) (d c : Text) (set : List Text)
    → lookup d m ≡ some set
    → has_category m d c ≡ set_contains set c
unfolding has_category
has_category-some m d c set h = rw (h, has_category)

has_category_same :
    (m n : CategoryMap) (d c : Text)
    → lookup d m ≡ lookup d n
    → has_category m d c ≡ has_category n d c
unfolding has_category
has_category_same m n d c h = rw (h, has_category)

tag-none :
    (domain : Text) (cats : List Text) (m : CategoryMap)
    → lookup domain m ≡ none
    → tag domain cats m ≡ insert domain (extend [] cats) m
unfolding tag
tag-none domain cats m h = rw (h, tag)

tag-some :
    (domain : Text) (cats : List Text) (m : CategoryMap) (old : List Text)
    → lookup domain m ≡ some old
    → tag domain cats m ≡ insert domain (extend old cats) m
unfolding tag
tag-some domain cats m old h = rw (h, tag)

has_category-insert :
    (domain d c : Text) (set : List Text) (m : CategoryMap)
    → has_category (insert domain set m) d c
      ≡ (if text_eq domain d then set_contains set c else has_category m d c)
has_category-insert domain d c set m = elim (Bool-cases (text_eq domain d)) [
  | inl e ↦
      rw e (has_category-some (insert domain set m) d c set (lookup-insert domain d set m ∙ rw e))
  | inr e ↦
      rw e (has_category_same (insert domain set m) m d c (lookup-insert domain d set m ∙ rw e))
]

set_contains-nil : (c : Text) → set_contains [] c ≡ false
unfolding set_contains
set_contains-nil c = refl

has_category-tag :
    (domain d c : Text) (cats : List Text) (m : CategoryMap)
    → has_category (tag domain cats m) d c
      ≡ (has_category m d c || (text_eq domain d && set_contains cats c))
has_category-tag domain d c cats m = elim (Option-cases (lookup domain m)) [
  | inl e ↦ rw (tag-none domain cats m e) (
      has_category-insert domain d c (extend [] cats) m
      ∙ ground (
        arith,
        set_contains-extend [] cats c,
        set_contains-nil c,
        text_eq_iff domain d,
        has_category-none m domain c e,
      ))
  | inr (old, e) ↦ rw (tag-some domain cats m old e) (
      has_category-insert domain d c (extend old cats) m
      ∙ ground (
        arith,
        set_contains-extend old cats c,
        text_eq_iff domain d,
        has_category-some m domain c old e,
      ))
]

has_category-tag_all :
    (domains cats : List Text) (m : CategoryMap) (d c : Text)
    → has_category (tag_all domains cats m) d c
      ≡ (has_category m d c || (set_contains domains d && set_contains cats c))
unfolding tag_all set_contains
has_category-tag_all [] cats m d c = ground arith
has_category-tag_all (domain ∷ domains) cats m d c = ground (
  arith,
  has_category-tag_all domains cats (tag domain cats m) d c,
  has_category-tag domain d c cats m,
)

-- A feed that was fetched lists the domain, and has the category.
abbrev pub listed : List Fetched → Text → Text → Bool
listed [] d c = false
listed (none ∷ more) d c = listed more d c
listed (some (cats, domains) ∷ more) d c =
    (set_contains domains d && set_contains cats c) || listed more d c

-- After the feeds are merged into a map, a domain has a category exactly where it had it in the map
-- or a feed that was fetched lists the domain and has the category; feeds that failed add nothing.
pub has_category-merge :
    (results : List Fetched) (m : CategoryMap) (d c : Text)
    → has_category (merge results m) d c ≡ (has_category m d c || listed results d c)
unfolding merge
has_category-merge [] m d c = ground arith
has_category-merge (none ∷ more) m d c = has_category-merge more m d c
has_category-merge (some (cats, domains) ∷ more) m d c =
    has_category-merge more (tag_all domains cats m) d c
    ∙ ground (arith, has_category-tag_all domains cats m d c)
