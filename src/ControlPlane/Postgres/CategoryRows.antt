-- ===== src/ControlPlane/Postgres/CategoryRows.antt =====
-- `replace_categories` of lib/controlplane/storage/postgres.rs, and the reads behind it.
use brdns.Prelude.{
  ◌≡◌, refl, sym, ap, ◌∙◌, true, false, ◌||◌, none, List, [], ◌∷◌, ◌++◌, arith, All, append-nil,
  append_assoc,
}
use brdns.Prelude.Int.{ℤ}
use brdns.Prelude.Select.{exists-append}
use brdns.Prelude.Text.{Text, text_eq, text_eq_refl}
use brdns.Prelude.Maps.{lookup, text_Eq}
use brdns.Categories.{CategoryMap, set_contains}
use brdns.ControlPlane.{done}
use brdns.ControlPlane.Sql.{Store, execute, select, transaction, commit}
use brdns.ControlPlane.Sql.Domains.{
  with_domains, has_domain, has_pair, insert_domain, insert_category, delete_categories,
  delete_domains,
}
use brdns.ControlPlane.Postgres.Categories.{
  categories, insert_categories, insert_domains, replace_categories,
}
use brdns.ControlPlane.Postgres.Ensured.{calm}
use brdns.ControlPlane.Postgres.Grouping.{
  pairs, all_pairs, keys, IsDistinct, IsFilled, IsFilledMap, IsApart, append-IsApart,
  group-all_pairs,
}

abbrev pub stamped : ℤ → CategoryMap → List (Text × ℤ)
stamped now [] = []
stamped now ((domain, cats) ∷ m) = (domain, now) ∷ stamped now m

-- The two tables.
abbrev at : List (Text × ℤ) → List (Text × Text) → Store → Store
at domains rows s = with_domains domains rows s

insert_category_new :
    (d c : Text) (ds : List (Text × ℤ)) (rows : List (Text × Text)) (s : Store)
    → has_domain d ds ≡ true
    → has_pair d c rows ≡ false
    → insert_category d c (with_domains ds rows s)
      ≡ (done tt, with_domains ds (rows ++ ((d, c) ∷ [])) s)
unfolding insert_category
insert_category_new d c ds rows s h n = rw (h, n, insert_category)

insert_domain_new :
    (d : Text) (now : ℤ) (ds : List (Text × ℤ)) (rows : List (Text × Text)) (s : Store)
    → has_domain d ds ≡ false
    → insert_domain d now (with_domains ds rows s)
      ≡ (done tt, with_domains (ds ++ ((d, now) ∷ [])) rows s)
unfolding insert_domain
insert_domain_new d now ds rows s h = rw (h, insert_domain)

has_pair-append :
    (d c : Text) (xs ys : List (Text × Text))
    → has_pair d c (xs ++ ys) ≡ (has_pair d c xs || has_pair d c ys)
unfolding has_pair
has_pair-append d c xs ys = exists-append _ xs ys

has_pair-pairs :
    (d c : Text) (front : List Text) → has_pair d c (pairs d front) ≡ set_contains front c
unfolding has_pair set_contains
has_pair-pairs d c [] = refl
has_pair-pairs d c (x ∷ front) = rw (text_eq_refl d, has_pair-pairs d c front) refl

pairs-append :
    (d c : Text) (front : List Text) → pairs d (front ++ (c ∷ [])) ≡ pairs d front ++ ((d, c) ∷ [])
pairs-append d c [] = refl
pairs-append d c (x ∷ front) = ap (λ r. (d, x) ∷ r) (pairs-append d c front)

-- The loop over the categories of a domain, behind those in front.
insert_categories-calm :
    (d : Text) (cats front : List Text) (ds : List (Text × ℤ)) (base : List (Text × Text))
    (s : Store)
    → has_domain d ds ≡ true
    → ((c : Text) → has_pair d c base ≡ false)
    → IsApart front cats
    → IsDistinct cats
    → insert_categories d cats (calm (with_domains ds (base ++ pairs d front) s))
      ≡ (done tt, calm (with_domains ds (base ++ pairs d (front ++ cats)) s))
unfolding insert_categories execute
insert_categories-calm d [] front ds base s h n a w = rw (append-nil front) refl
insert_categories-calm d (c ∷ cs) front ds base s h n a w =
    let fresh : has_pair d c (base ++ pairs d front) ≡ false =
      has_pair-append d c base (pairs d front) ∙ rw (n c, has_pair-pairs d c front, a.0) refl in
    let rows : (base ++ pairs d front) ++ ((d, c) ∷ []) ≡ base ++ pairs d (front ++ (c ∷ [])) =
      append_assoc base (pairs d front) ((d, c) ∷ [])
      ∙ ap (λ r. base ++ r) (sym (pairs-append d c front)) in
    let rest =
      insert_categories-calm d cs (front ++ (c ∷ [])) ds base s h n
        (append-IsApart front cs c a.1 w.0) w.1 in
    rw (insert_category_new d c ds (base ++ pairs d front) s h fresh, rows)
      (rest ∙ rw (append_assoc front (c ∷ []) cs) refl)

has_domain-append :
    (k d : Text) (now : ℤ) (ds : List (Text × ℤ))
    → has_domain k (ds ++ ((d, now) ∷ [])) ≡ (has_domain k ds || text_eq d k)
unfolding has_domain
has_domain-append k d now ds = exists-append _ ds ((d, now) ∷ []) ∙ ground arith

other-pairs :
    (d k c : Text) (cats : List Text) → text_eq d k ≡ false → has_pair k c (pairs d cats) ≡ false
unfolding has_pair
other-pairs d k c [] h = refl
other-pairs d k c (x ∷ cats) h = rw (h, other-pairs d k c cats h) refl

-- Domains that neither table has.
abbrev IsNew : List (Text × ℤ) → List (Text × Text) → List Text → Type 0
IsNew ds base ks =
    All (λ k. (has_domain k ds ≡ false) × ((c : Text) → has_pair k c base ≡ false)) ks

next-IsNew :
    (d : Text) (now : ℤ) (cats : List Text) (ds : List (Text × ℤ)) (base : List (Text × Text))
    (ks : List Text)
    → IsNew ds base ks
    → All (λ k. text_eq d k ≡ false) ks
    → IsNew (ds ++ ((d, now) ∷ [])) (base ++ pairs d cats) ks
next-IsNew d now cats ds base [] h e = tt
next-IsNew d now cats ds base (k ∷ ks) h e = (
  (
    has_domain-append k d now ds ∙ rw (h.0.0, e.0) refl,
    λ c. has_pair-append k c base (pairs d cats) ∙ rw (h.0.1 c, other-pairs d k c cats e.0) refl,
  ),
  next-IsNew d now cats ds base ks h.1 e.1,
)

filled-IsDistinct : (cats : List Text) → IsFilled cats → IsDistinct cats
filled-IsDistinct [] h = tt
filled-IsDistinct (c ∷ cs) h = h

none-IsApart : (cats : List Text) → IsApart [] cats
unfolding set_contains
none-IsApart [] = tt
none-IsApart (c ∷ cats) = (refl, none-IsApart cats)

-- The loop over the domains.
insert_domains-calm :
    (now : ℤ) (m : CategoryMap) (ds : List (Text × ℤ)) (base : List (Text × Text)) (s : Store)
    → IsFilledMap m
    → IsNew ds base (keys m)
    → insert_domains now m (calm (with_domains ds base s))
      ≡ (done tt, calm (with_domains (ds ++ stamped now m) (base ++ all_pairs m) s))
unfolding insert_domains execute
insert_domains-calm now [] ds base s w h = rw (append-nil ds, append-nil base) refl
insert_domains-calm now ((d, cats) ∷ m) ds base s w h =
    let next = ds ++ ((d, now) ∷ []) in
    let there : has_domain d next ≡ true =
      has_domain-append d d now ds ∙ rw (h.0.0, text_eq_refl d) refl in
    let front : base ++ [] ≡ base = append-nil base in
    let cs : insert_categories d cats (calm (with_domains next base s))
        ≡ (done tt, calm (with_domains next (base ++ pairs d cats) s)) =
      ap (λ r. insert_categories d cats (calm (with_domains next r s))) (sym front)
      ∙ insert_categories-calm d cats [] next base s there h.0.1 (none-IsApart cats)
          (filled-IsDistinct cats w.1.0) in
    let rest =
      insert_domains-calm now m next (base ++ pairs d cats) s (w.0.1, w.1.1)
        (next-IsNew d now cats ds base (keys m) h.1 w.0.0) in
    rw (insert_domain_new d now ds base s h.0.0, cs)
      (rest
        ∙ rw
            (
              append_assoc ds ((d, now) ∷ []) (stamped now m),
              append_assoc base (pairs d cats) (all_pairs m),
            )
            refl)

empty-IsNew : (ks : List Text) → IsNew [] [] ks
unfolding has_domain has_pair
empty-IsNew [] = tt
empty-IsNew (k ∷ ks) = ((refl, λ c. refl), empty-IsNew ks)

abbrev no_map : CategoryMap
no_map = []

empty-lookup : (ks : List Text) → All (λ k. lookup k no_map ≡ none) ks
unfolding lookup
empty-lookup [] = tt
empty-lookup (k ∷ ks) = (refl, empty-lookup ks)

-- A map whose sets are not empty, stored where no statement goes wrong, takes the place of what was
-- stored and is read back as it is.
pub replace_categories-categories :
    (now : ℤ) (m : CategoryMap) (s : Store)
    → IsFilledMap m
    → (after : Store) × (replace_categories now m (calm s) ≡ (done tt, calm after))
      × (categories (calm after) ≡ (done m, calm after))
unfolding replace_categories transaction select execute commit delete_categories delete_domains
replace_categories-categories now m s w =
    let e = insert_domains-calm now m [] [] s w (empty-IsNew (keys m)) in
    (
      with_domains (stamped now m) (all_pairs m) s,
      rw e refl,
      unfold categories in
          ap (λ r. (done r, calm (with_domains (stamped now m) (all_pairs m) s)))
            (group-all_pairs m [] w (empty-lookup (keys m))),
    )
