-- ===== src/Blocklist.antt =====
-- lib/blocklist.rs: feeds of domains, parsed and merged into the category index. The tasks that
-- fetch the feeds are given by what they come back with, in that order. A `HashSet` is a list.
pub mod Domains
pub mod Merge
use brdns.Prelude.{
  ℕ, Bool, true, false, ◌&&◌, ◌||◌, not, Option, none, some, List, [], ◌∷◌, ◌++◌, leb, ltb, ◌==◌,
  if◌then◌else◌, length,
}
use brdns.Prelude.Int.{ℤ}
use brdns.Prelude.Text.{
  Text, bytes, dot, is_empty, to_ascii_lowercase, trim_end, trim_star_dot, strip_prefix, split,
  text_eq, contains,
}
use brdns.Prelude.Maps.{lookup, insert, text_Eq}
use brdns.Categories.{CategoryMap, CategoryIndex, replace, len, set_contains}
use brdns.ControlPlane.InMem.{Inner, categories, replace_categories}

pub data FeedFormat : Type 0 where
  plain hosts adblock : FeedFormat

-- The white space of Unicode, as `trim` and `split_whitespace` of the standard library know it.
pub record Whitespace : Type 0 where
  pub trim : Text → Text
  pub split_whitespace : Text → List Text

-- The characters of a domain in lower case.
abbrev pub is_domain_char : ℕ → Bool
is_domain_char c =
    (leb b'a' c && leb c b'z')
    || ((leb b'0' c && leb c b'9') || (c == dot || (c == b'-' || c == b'_')))

unfoldable pub all_domain_chars : Text → Bool
all_domain_chars [] = true
all_domain_chars (c ∷ s) = is_domain_char c && all_domain_chars s

abbrev pub is_alphabetic : ℕ → Bool
is_alphabetic c = (leb b'a' c && leb c b'z') || (leb b'A' c && leb c b'Z')

unfoldable pub any_alphabetic : Text → Bool
any_alphabetic [] = false
any_alphabetic (c ∷ s) = is_alphabetic c || any_alphabetic s

-- The checks behind the trimming.
unfoldable pub usable : Text → Option Text
unfolding is_empty all_domain_chars any_alphabetic contains
usable domain =
    if is_empty domain || ltb 253 (length domain)
    then none
    else if not (all_domain_chars domain)
    then none
    else if not (contains domain dot) || not (any_alphabetic domain)
    then none
    else some domain

abbrev pub set_insert : Text → List Text → List Text
set_insert x set = if set_contains set x then set else set ++ (x ∷ [])

abbrev pub insert_some : Option Text → List Text → List Text
insert_some none out = out
insert_some (some domain) out = set_insert domain out

unfoldable pub starts_with : Text → Text → Bool
unfolding strip_prefix
starts_with s p = elim (strip_prefix s p) [ none ↦ false | some rest ↦ true ]

-- What stands before the first `^`, `$` or `/`.
unfoldable pub cut_rule : Text → Text
cut_rule [] = []
cut_rule (c ∷ s) =
    let rest = cut_rule s in if c == b'^' || (c == b'$' || c == b'/') then [] else c ∷ rest

abbrev pub first_piece : List Text → Text
first_piece [] = []
first_piece (p ∷ ps) = p

-- `lines()`: split at line feeds, with no empty line behind the last. A `\r` in front of a line feed
-- is dropped with it.
abbrev pub strip_return : Text → Text
strip_return [] = []
strip_return (c ∷ []) = if c == 13 then [] else c ∷ []
strip_return (c ∷ d ∷ s) = c ∷ strip_return (d ∷ s)

unfoldable pub drop_last_empty : List Text → List Text
drop_last_empty [] = []
drop_last_empty (l ∷ []) = if is_empty l then [] else l ∷ []
drop_last_empty (l ∷ k ∷ ls) = strip_return l ∷ drop_last_empty (k ∷ ls)

unfoldable pub lines : Text → List Text
unfolding split drop_last_empty
lines text = drop_last_empty (split 10 text)

module _ ⦃w : Whitespace⦄ where
  unfoldable pub sanitize : Text → Option Text
  unfolding to_ascii_lowercase trim_star_dot trim_end usable
  sanitize token = usable (trim_end dot (trim_star_dot (to_ascii_lowercase (w.trim token))))

  unfoldable pub parse_plain_line : Text → List Text → List Text
  unfolding sanitize starts_with is_empty split
  parse_plain_line line out =
      let l = w.trim line in
      if is_empty l || starts_with l (bytes "#")
      then out
      else insert_some (sanitize (w.trim (first_piece (split b'#' l)))) out

  unfoldable pub insert_hosts : List Text → List Text → List Text
  unfolding sanitize
  insert_hosts [] out = out
  insert_hosts (host ∷ more) out = insert_hosts more (insert_some (sanitize host) out)

  -- The first token is an address.
  abbrev pub behind_address : List Text → List Text
  behind_address [] = []
  behind_address (ip ∷ more) = more

  unfoldable pub parse_hosts_line : Text → List Text → List Text
  unfolding insert_hosts starts_with is_empty
  parse_hosts_line line out =
      let l = w.trim line in
      if is_empty l || starts_with l (bytes "#")
      then out
      else insert_hosts (behind_address (w.split_whitespace l)) out

  unfoldable pub parse_adblock_line : Text → List Text → List Text
  unfolding sanitize starts_with is_empty strip_prefix cut_rule
  parse_adblock_line line out =
      let l = w.trim line in
      if is_empty l || (starts_with l (bytes "!") || starts_with l (bytes "["))
      then out
      else if starts_with l (bytes "@@")
      then out
      else elim (strip_prefix l (bytes "||")) [
        | none ↦ out
        | some rest ↦ insert_some (sanitize (cut_rule rest)) out
      ]

  abbrev pub parse_line : FeedFormat → Text → List Text → List Text
  parse_line plain line out = parse_plain_line line out
  parse_line hosts line out = parse_hosts_line line out
  parse_line adblock line out = parse_adblock_line line out

  unfoldable pub parse_lines : FeedFormat → List Text → List Text → List Text
  parse_lines format [] out = out
  parse_lines format (line ∷ more) out = parse_lines format more (parse_line format line out)

  unfoldable pub parse_domains : FeedFormat → Text → List Text
  unfolding lines parse_lines
  parse_domains format text = parse_lines format (lines text) []

-- `extend` of a set.
unfoldable pub extend : List Text → List Text → List Text
unfolding set_contains
extend set [] = set
extend set (c ∷ cs) = extend (set_insert c set) cs

-- `merged.entry(domain).or_default().extend(categories)`
unfoldable pub tag : Text → List Text → CategoryMap → CategoryMap
unfolding insert lookup extend
tag domain cats m = elim (lookup domain m) [
  | none ↦ insert domain (extend [] cats) m
  | some old ↦ insert domain (extend old cats) m
]

unfoldable pub tag_all : List Text → List Text → CategoryMap → CategoryMap
unfolding tag
tag_all [] cats m = m
tag_all (domain ∷ domains) cats m = tag_all domains cats (tag domain cats m)

-- The categories and the domains of a feed that was fetched, or nothing for one that failed.
abbrev pub Fetched : Type 0
Fetched = Option (List Text × List Text)

unfoldable pub merge : List Fetched → CategoryMap → CategoryMap
unfolding tag_all
merge [] m = m
merge (none ∷ more) m = merge more m
merge (some (cats, domains) ∷ more) m = merge more (tag_all domains cats m)

-- The number of domains, and what the control plane and the index then hold.
unfoldable pub ingest : ℤ → List Fetched → Inner → CategoryIndex → ℕ × Inner × CategoryIndex
unfolding merge replace_categories replace len
ingest now results cp index =
    let merged = merge results [] in
    if length merged == len index
    then (length merged, cp, index)
    else (length merged, replace_categories now merged cp, replace merged index)

unfoldable pub load : Inner → CategoryIndex → ℕ × CategoryIndex
unfolding categories replace
load cp index = (length (categories cp), replace (categories cp) index)
