-- ===== src/ControlPlane/Postgres/Grouped.antt =====
-- The maps that `snapshot` of lib/controlplane/storage/postgres.rs groups its rows into.
use brdns.Prelude.{
  ℕ, ◌≡◌, refl, sym, ap, ◌∙◌, Bool, true, false, not, ◌==◌, ==_iff, none, some, List, [], ◌∷◌, ◌++◌,
  arith, All, Option, Bool-cases, inl, inr, append-nil, append_assoc, if◌then◌else◌,
}
use brdns.Prelude.Select.{filter, first, filter-filter, filter-not}
use brdns.Prelude.Maps.{lookup, insert, lookup-insert, nat_eq}
use brdns.Model.{Rule, Upstream}
use brdns.ControlPlane.{CplResult, done, failed}
use brdns.ControlPlane.Sql.{RuleRow, UpstreamRow}
use brdns.ControlPlane.Sql.Rules.{rule_of}
use brdns.ControlPlane.Postgres.Rows.{rule_from_row, upstream_from_row, each_row}
use brdns.ControlPlane.Postgres.Categories.{or_empty}
use brdns.ControlPlane.Postgres.Snapshot.{group_rules, group_upstreams, owner, distinct_on}

module _ {Row A : Type 0} (read : Row → CplResult A) where
  -- Each row can be read.
  abbrev pub IsReadable : List Row → Type 0
  IsReadable rows = All (λ row. (a : A) × (read row ≡ done a)) rows

  abbrev pub push : CplResult A → List A → List A
  push failed more = more
  push (done a) more = a ∷ more

  -- What the rows that can be read are read as.
  unfoldable pub decoded : List Row → List A
  decoded [] = []
  decoded (row ∷ rows) = push (read row) (decoded rows)

  pub each_row-decoded :
      (rows : List Row) → IsReadable rows → each_row read rows ≡ done (decoded rows)
  unfolding each_row decoded
  each_row-decoded [] h = refl
  each_row-decoded (row ∷ rows) h = rw (h.0.1, each_row-decoded rows h.1, each_row)

or_empty-lookup :
    (a k : ℕ) (rule : Rule) (m : List (ℕ × List Rule))
    → or_empty (lookup a (insert k (or_empty (lookup k m) ++ (rule ∷ [])) m))
      ≡ (if k == a then or_empty (lookup a m) ++ (rule ∷ []) else or_empty (lookup a m))
or_empty-lookup a k rule m =
    ap or_empty (lookup-insert k a (or_empty (lookup k m) ++ (rule ∷ [])) m)
    ∙ elim (Bool-cases (k == a)) [ inl e ↦ rw (e, (==_iff k a).0 e) refl | inr e ↦ rw e refl ]

abbrev IsGrouped : List RuleRow → List (ℕ × List Rule) → Type 0
IsGrouped rows m =
    (out : List (ℕ × List Rule)) × (group_rules rows m ≡ done out)
    × ((a : ℕ)
        → or_empty (lookup a out)
          ≡ or_empty (lookup a m) ++ decoded rule_from_row (filter (rule_of a) rows))

pub group_rules-IsGrouped :
    (rows : List RuleRow) (m : List (ℕ × List Rule))
    → IsReadable rule_from_row rows
    → IsGrouped rows m
unfolding group_rules decoded
group_rules-IsGrouped [] m h = (m, refl, λ a. sym (append-nil (or_empty (lookup a m))))
group_rules-IsGrouped (row ∷ rows) m h =
    let next = insert row.account_id (or_empty (lookup row.account_id m) ++ (h.0.0 ∷ [])) m in
    let (out, e, f) = group_rules-IsGrouped rows next h.1 in
    (
      out,
      rw (h.0.1, group_rules) e,
      λ a. f a ∙ elim (Bool-cases (row.account_id == a)) [
        | inl k ↦
            rw (or_empty-lookup a row.account_id h.0.0 m, k, h.0.1)
              (append_assoc (or_empty (lookup a m)) (h.0.0 ∷ [])
                (decoded rule_from_row (filter (rule_of a) rows)))
        | inr k ↦ rw (or_empty-lookup a row.account_id h.0.0 m, k) refl
      ],
    )

abbrev pub owned_by : ℕ → UpstreamRow → Bool
owned_by a row = owner row == a

-- No account has two rows.
abbrev pub IsDistinct : List UpstreamRow → Type 0
IsDistinct [] = Unit
IsDistinct (row ∷ rows) = (filter (owned_by (owner row)) rows ≡ []) × IsDistinct rows

abbrev pub or_else : Option Upstream → Option Upstream → Option Upstream
or_else none other = other
or_else (some u) other = some u

abbrev IsGroupedOnce : List UpstreamRow → List (ℕ × Upstream) → Type 0
IsGroupedOnce rows m =
    (out : List (ℕ × Upstream)) × (group_upstreams rows m ≡ done out)
    × ((a : ℕ)
        → lookup a out
          ≡ or_else (first (decoded upstream_from_row (filter (owned_by a) rows))) (lookup a m))

pub group_upstreams-IsGroupedOnce :
    (rows : List UpstreamRow) (m : List (ℕ × Upstream))
    → IsReadable upstream_from_row rows
    → IsDistinct rows
    → IsGroupedOnce rows m
unfolding group_upstreams decoded
group_upstreams-IsGroupedOnce [] m h d = (m, refl, λ a. refl)
group_upstreams-IsGroupedOnce (row ∷ rows) m h d =
    let (out, e, f) = group_upstreams-IsGroupedOnce rows (insert (owner row) h.0.0 m) h.1 d.1 in
    (
      out,
      rw (h.0.1, group_upstreams) e,
      λ a. f a ∙ elim (Bool-cases (owner row == a)) [
        | inl k ↦
            let n : filter (owned_by a) rows ≡ [] =
              ap (λ b. filter (owned_by b) rows) (sym ((==_iff (owner row) a).0 k)) ∙ d.0 in
            rw (lookup-insert (owner row) a h.0.0 m, k, n, h.0.1) refl
        | inr k ↦ rw (lookup-insert (owner row) a h.0.0 m, k) refl
      ],
    )

other-owner :
    (a b : ℕ) (row : UpstreamRow)
    → (b == a) ≡ false
    → owned_by a row ≡ true
    → not (owner row == b) ≡ true
other-owner a b row h k = ground (arith, h, k)

filter-empty :
    (p q : UpstreamRow → Bool) (rows : List UpstreamRow)
    → filter p rows ≡ []
    → filter p (filter q rows) ≡ []
filter-empty p q [] h = refl
filter-empty p q (row ∷ rows) h = elim (Bool-cases (p row)) [
  | inl e ↦ cc (sym (ap (λ b. if b then row ∷ filter p rows else filter p rows) e) ∙ h)
  | inr e ↦
      let r = sym (ap (λ b. if b then row ∷ filter p rows else filter p rows) e) ∙ h in
      elim (Bool-cases (q row)) [
        | inl f ↦ rw (f, e) (filter-empty p q rows r)
        | inr f ↦ rw f (filter-empty p q rows r)
      ]
]

kept-IsDistinct :
    (a : ℕ) (rows : List UpstreamRow)
    → IsDistinct rows
    → IsDistinct (filter (λ other. not (owned_by a other)) rows)
kept-IsDistinct a [] h = tt
kept-IsDistinct a (row ∷ rows) h = elim (Bool-cases (owner row == a)) [
  | inl e ↦ rw e (kept-IsDistinct a rows h.1)
  | inr e ↦ rw e (
    filter-empty (owned_by (owner row)) (λ other. not (owned_by a other)) rows h.0,
    kept-IsDistinct a rows h.1,
  )
]

pub distinct_on-IsDistinct : (rows : List UpstreamRow) → IsDistinct (distinct_on rows)
unfolding distinct_on
distinct_on-IsDistinct [] = tt
distinct_on-IsDistinct (row ∷ rows) = (
  filter-not (owned_by (owner row)) (distinct_on rows),
  kept-IsDistinct (owner row) (distinct_on rows) (distinct_on-IsDistinct rows),
)

-- The first row of an account is kept.
pub first-distinct_on :
    (a : ℕ) (rows : List UpstreamRow)
    → first (filter (owned_by a) (distinct_on rows)) ≡ first (filter (owned_by a) rows)
unfolding distinct_on
first-distinct_on a [] = refl
first-distinct_on a (row ∷ rows) = elim (Bool-cases (owner row == a)) [
  | inl k ↦ rw k refl
  | inr k ↦
      rw
        (
          k,
          filter-filter (owned_by a) (λ other. not (owned_by (owner row) other)) (distinct_on rows)
              (λ other. other-owner a (owner row) other k),
        )
        (first-distinct_on a rows)
]
