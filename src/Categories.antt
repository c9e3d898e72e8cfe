-- ===== src/Categories.antt =====
-- lib/categories.rs: the index from domains to the categories that they belong to.
pub mod Lookup
use brdns.Prelude.{
  Bool, true, false, ◌||◌, Option, none, some, List, [], ◌∷◌, not, if◌then◌else◌, length, ℕ,
}
use brdns.Prelude.Text.{Text, dot, is_empty, to_ascii_lowercase, trim_end, text_eq, split, join}
use brdns.Prelude.Maps.{lookup, text_Eq}

-- `HashMap<String, HashSet<String>>`
abbrev pub CategoryMap : Type 0
CategoryMap = List (Text × List Text)

-- The index under its lock.
pub record CategoryIndex : Type 0 where
  pub map : CategoryMap

unfoldable pub normalize_domain : Text → Text
unfolding trim_end to_ascii_lowercase
normalize_domain name = to_ascii_lowercase (trim_end dot name)

unfoldable pub set_contains : List Text → Text → Bool
unfolding text_eq
set_contains [] c = false
set_contains (x ∷ xs) c = text_eq x c || set_contains xs c

unfoldable pub has_category : CategoryMap → Text → Text → Bool
unfolding lookup set_contains
has_category m domain category = elim (lookup domain m) [
  | none ↦ false
  | some cats ↦ set_contains cats category
]

-- The labels that are not empty.
unfoldable pub labels : List Text → List Text
unfolding is_empty
labels [] = []
labels (l ∷ ls) = let rest = labels ls in if is_empty l then rest else l ∷ rest

-- The loop: the joined labels are looked up, then the first label is removed.
unfoldable pub search_labels : CategoryMap → Text → List Text → Bool
unfolding has_category join
search_labels m category [] = false
search_labels m category (l ∷ ls) =
    let rest = search_labels m category ls in
    if has_category m (join dot (l ∷ ls)) category then true else rest

unfoldable pub contains : CategoryIndex → Text → Text → Bool
unfolding normalize_domain split labels search_labels
contains index qname category =
    search_labels index.map category (labels (split dot (normalize_domain qname)))

unfoldable pub replace : CategoryMap → CategoryIndex → CategoryIndex
replace m index = record { map = m }

unfoldable pub len : CategoryIndex → ℕ
len index = length index.map
