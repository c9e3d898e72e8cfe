-- ===== src/Categories/Lookup.antt =====
-- When the index finds a name in a category.
use brdns.Prelude.{◌≡◌, refl, ap, ◌≢◌, ◌↔◌, inl, inr, true, List, [], ◌∷◌, ◌++◌, arith, Bool-cases}
use brdns.Prelude.Text.{Text, dot, split, join}
use brdns.Categories.{
  CategoryMap, CategoryIndex, normalize_domain, has_category, labels, search_labels, contains,
}

-- The labels of an ancestor are what stands behind some labels at the front; at least one is left.
pub record IsListed (m : CategoryMap) (category : Text) (ls : List Text) : Type 0 where
  pub below : List Text
  pub ancestor : List Text
  pub shape : ls ≡ below ++ ancestor
  pub some_label : ancestor ≢ []
  pub listed : has_category m (join dot ancestor) category ≡ true

module _ (m : CategoryMap) (category : Text) where
  search_labels_found :
      (ls : List Text) → search_labels m category ls ≡ true → IsListed m category ls
  unfolding search_labels
  search_labels_found [] h = cc
  search_labels_found (l ∷ ls) h = elim (Bool-cases (has_category m (join dot (l ∷ ls)) category)) [
    | inl e ↦ record {
      below = [];
      ancestor = l ∷ ls;
      shape = refl;
      some_label = λ k. cc;
      listed = e;
    }
    | inr e ↦
        let w = search_labels_found ls (rw e at h) in
        record {
          below = l ∷ w.below;
          ancestor = w.ancestor;
          shape = ap (λ (t : List Text). l ∷ t) w.shape;
          some_label = w.some_label;
          listed = w.listed;
        }
  ]

  search_labels_finds :
      (below ancestor : List Text)
      → ancestor ≢ []
      → has_category m (join dot ancestor) category ≡ true
      → search_labels m category (below ++ ancestor) ≡ true
  unfolding search_labels
  search_labels_finds [] [] n h = absurd (n refl)
  search_labels_finds [] (a ∷ as') n h = rw h
  search_labels_finds (b ∷ below) ancestor n h =
      ground (arith, search_labels_finds below ancestor n h)

-- The index holds a name in a category exactly where the labels of the name, without case, trailing
-- dots and empty labels, end in the labels of a domain that is listed under the category.
pub contains_iff :
    (index : CategoryIndex) (qname category : Text)
    → (contains index qname category ≡ true)
      ↔ IsListed index.map category (labels (split dot (normalize_domain qname)))
unfolding contains
contains_iff index qname category = (
  search_labels_found index.map category _,
  λ w. rw w.shape (search_labels_finds index.map category w.below w.ancestor w.some_label w.listed),
)

-- The labels of two lists are those of the one, then those of the other.
labels-append : (xs ys : List Text) → labels (xs ++ ys) ≡ labels xs ++ labels ys
unfolding labels
labels-append [] ys = refl
labels-append (x ∷ xs) ys = ground (arith, labels-append xs ys)
