-- ===== src/ControlPlane/Postgres/Policies.antt =====
-- `snapshot` of lib/controlplane/storage/postgres.rs against the operations for one account.
use brdns.Prelude.{
  ℕ, ◌≡◌, refl, sym, ap, ◌∙◌, Bool, true, false, ◌==◌, ◌||◌, none, some, List, [], ◌∷◌, arith, All,
  Option, Bool-cases, inl, inr, if◌then◌else◌,
}
use brdns.Prelude.Select.{filter, exists, first, sort_by, exists-first, sort_by-All, All-filter}
use brdns.Prelude.Lexical.{filter-sort_by}
use brdns.Prelude.Text.{Text, text_eq, text_eq_iff}
use brdns.Prelude.Maps.{lookup, lookup-insert, text_Eq, nat_eq, IsMap, insert-IsMap}
use brdns.Model.{Rule, Upstream, AccountPolicy}
use brdns.ControlPlane.{done}
use brdns.ControlPlane.Sql.{AccountRow, UpstreamRow, Tables, Store, execute}
use brdns.ControlPlane.Sql.Accounts.{has_number, select_account}
use brdns.ControlPlane.Sql.Rules.{select_rules, rule_of, by_position}
use brdns.ControlPlane.Sql.Upstreams.{select_upstreams, upstream_of, by_id}
use brdns.ControlPlane.Postgres.{rules, active_upstream, optional_upstream}
use brdns.ControlPlane.Postgres.Rows.{rule_from_row, upstream_from_row}
use brdns.ControlPlane.Postgres.Categories.{or_empty}
use brdns.ControlPlane.Postgres.Snapshot.{
  snapshot, policies, remove, select_all_rules, select_first_upstreams, distinct_on, owner,
  is_owned, by_account_position, by_owner_id,
}
use brdns.ControlPlane.Postgres.Ensured.{calm}
use brdns.ControlPlane.Postgres.Grouped.{
  IsReadable, decoded, each_row-decoded, or_else, owned_by, group_rules-IsGrouped,
  group_upstreams-IsGroupedOnce, distinct_on-IsDistinct, first-distinct_on,
}

-- No number and no identifier stands for two accounts.
abbrev pub IsUnique : List AccountRow → Type 0
IsUnique [] = Unit
IsUnique (row ∷ rows) =
    (exists (has_number row.account_number) rows ≡ false)
    × (exists (λ other. other.id == row.id) rows ≡ false)
    × IsUnique rows

lookup-remove {ℓ} :
    {V : Type ℓ} (a k : ℕ) (m : List (ℕ × V))
    → lookup a (remove k m) ≡ (if k == a then none else lookup a m)
unfolding lookup remove
lookup-remove a k [] = elim (Bool-cases (k == a)) [ inl e ↦ rw e refl | inr e ↦ rw e refl ]
lookup-remove a k ((j, v) ∷ m) = ground (arith, lookup-remove a k m)

-- An account that is not among the rows keeps its entry.
lookup-policies_other :
    (number : Text) (rows : List AccountRow) (rs : List (ℕ × List Rule)) (us : List (ℕ × Upstream))
    (out : List (Text × AccountPolicy))
    → exists (has_number number) rows ≡ false
    → lookup number (policies rows rs us out) ≡ lookup number out
unfolding policies has_number
lookup-policies_other number [] rs us out h = refl
lookup-policies_other number (row ∷ rows) rs us out h =
    elim (Bool-cases (text_eq row.account_number number)) [
      | inl e ↦ cc (sym (ap (λ b. b || exists (has_number number) rows) e) ∙ h)
      | inr e ↦
          lookup-policies_other number rows (remove row.id rs) (remove row.id us) _
            (sym (ap (λ b. b || exists (has_number number) rows) e) ∙ h)
          ∙ lookup-insert row.account_number number _ out
          ∙ rw e refl
    ]

abbrev policy_of : ℕ → List (ℕ × List Rule) → List (ℕ × Upstream) → AccountPolicy
policy_of id rs us = record { rules = or_empty (lookup id rs); upstream = lookup id us }

policies-IsMap :
    (rows : List AccountRow) (rs : List (ℕ × List Rule)) (us : List (ℕ × Upstream))
    (out : List (Text × AccountPolicy))
    → IsMap out
    → IsMap (policies rows rs us out)
unfolding policies
policies-IsMap [] rs us out w = w
policies-IsMap (row ∷ rows) rs us out w =
    policies-IsMap rows (remove row.id rs) (remove row.id us) _
      (insert-IsMap row.account_number _ out w)

first-cons :
    (number : Text) (row : AccountRow) (rows : List AccountRow) (b : Bool)
    → has_number number row ≡ b
    → first (filter (has_number number) (row ∷ rows))
      ≡ (if b then some row else first (filter (has_number number) rows))
first-cons number row rows true h = rw h refl
first-cons number row rows false h = rw h refl

removed-apart :
    (account : AccountRow) (row : AccountRow) (rows : List AccountRow) (number : Text)
    → exists (λ other. other.id == row.id) rows ≡ false
    → first (filter (has_number number) rows) ≡ some account
    → (row.id == account.id) ≡ false
removed-apart account row rows number h k = elim (Bool-cases (row.id == account.id)) [
  | inr e ↦ e
  | inl e ↦
      let f : (account.id == row.id) ≡ true = ground (arith, e) in
      cc (sym (exists-first (has_number number) (λ other. other.id == row.id) rows account k f) ∙ h)
]

lookup-policies :
    (number : Text) (rows : List AccountRow) (account : AccountRow) (rs : List (ℕ × List Rule))
    (us : List (ℕ × Upstream)) (out : List (Text × AccountPolicy))
    → IsUnique rows
    → first (filter (has_number number) rows) ≡ some account
    → lookup number (policies rows rs us out) ≡ some (policy_of account.id rs us)
unfolding policies
lookup-policies number [] account rs us out u h = cc h
lookup-policies number (row ∷ rows) account rs us out u h =
    elim (Bool-cases (has_number number row)) [
      | inl e ↦
          let t : text_eq row.account_number number ≡ true = unfold has_number in e in
          let n : row.account_number ≡ number = (text_eq_iff row.account_number number).0 t in
          let same : some row ≡ some account = sym (first-cons number row rows true e) ∙ h in
          lookup-policies_other number rows (remove row.id rs) (remove row.id us) _
            (ap (λ x. exists (has_number x) rows) (sym n) ∙ u.0)
          ∙ lookup-insert row.account_number number _ out
          ∙ rw t (ap (λ o. elim o [ none ↦ none | some r ↦ some (policy_of r.id rs us) ]) same)
      | inr e ↦
          let h2 = sym (first-cons number row rows false e) ∙ h in
          let n = removed-apart account row rows number u.1 h2 in
          lookup-policies number rows account (remove row.id rs) (remove row.id us) _ u.2 h2
          ∙ rw (lookup-remove account.id row.id rs, lookup-remove account.id row.id us, n) refl
    ]

-- The rules that a read of all gives an account are those that a read of its own gives.
select_all-filter :
    (a : ℕ) (tables : Tables) → filter (rule_of a) (select_all_rules tables) ≡ select_rules a tables
unfolding select_all_rules select_rules
select_all-filter a tables = filter-sort_by (λ row. row.account_id) by_position a tables.rules

owned-filter :
    (a : ℕ) (rows : List UpstreamRow)
    → filter (owned_by a) (filter is_owned rows) ≡ filter (upstream_of a) rows
owned-filter a [] = refl
owned-filter a (row ∷ rows) = by_account row.account_id refl (owned-filter a rows)
  where
    by_account :
        (o : Option ℕ)
        → row.account_id ≡ o
        → filter (owned_by a) (filter is_owned rows) ≡ filter (upstream_of a) rows
        → filter (owned_by a) (filter is_owned (row ∷ rows)) ≡ filter (upstream_of a) (row ∷ rows)
    by_account none e ih = rw e ih
    by_account (some id) e ih = elim (Bool-cases (id == a)) [
      | inl f ↦ rw (e, f, ih) refl
      | inr f ↦ rw (e, f, ih) refl
    ]

select_first-filter :
    (a : ℕ) (tables : Tables)
    → first (filter (owned_by a) (select_first_upstreams tables))
      ≡ first (select_upstreams a tables)
unfolding select_first_upstreams select_upstreams
select_first-filter a tables =
    first-distinct_on a (sort_by by_owner_id (filter is_owned tables.upstreams))
    ∙ ap first (
        filter-sort_by owner by_id a (filter is_owned tables.upstreams)
        ∙ ap (sort_by by_id) (owned-filter a tables.upstreams))

distinct_on-All :
    (P : UpstreamRow → Type 0) (rows : List UpstreamRow) → All P rows → All P (distinct_on rows)
unfolding distinct_on
distinct_on-All P [] h = tt
distinct_on-All P (row ∷ rows) h =
    (h.0, All-filter P _ (distinct_on rows) (distinct_on-All P rows h.1))

optional_upstream-first :
    (rows : List UpstreamRow)
    → IsReadable upstream_from_row rows
    → optional_upstream (first rows) ≡ done (first (decoded upstream_from_row rows))
unfolding decoded
optional_upstream-first [] h = refl
optional_upstream-first (row ∷ rows) h = rw (h.0.1, optional_upstream)

-- Every account and every row can be told apart and read.
abbrev pub IsClean : Tables → Type 0
IsClean tables =
    IsUnique tables.accounts
    × IsReadable rule_from_row tables.rules
    × IsReadable upstream_from_row tables.upstreams

-- The snapshot has an account with what the operations for one account answer.
abbrev pub IsInSnapshot : Text → Store → Type 0
IsInSnapshot number s =
    (entries : List (Text × AccountPolicy)) × (policy : AccountPolicy) × (snapshot (calm s)
      ≡ (done entries, calm s))
    × IsMap entries
    × (lookup number entries ≡ some policy)
    × (rules number (calm s) ≡ (done policy.rules, calm s))
    × (active_upstream number (calm s) ≡ (done policy.upstream, calm s))

first_upstream :
    (a : ℕ) (tables : Tables)
    → IsReadable upstream_from_row tables.upstreams
    → optional_upstream (first (select_upstreams a tables))
      ≡ done
          (first (decoded upstream_from_row (filter (owned_by a) (select_first_upstreams tables))))
first_upstream a tables h =
    ap optional_upstream (sym (select_first-filter a tables))
    ∙ optional_upstream-first (filter (owned_by a) (select_first_upstreams tables)) (
        All-filter _ (owned_by a) (select_first_upstreams tables) (
          unfold select_first_upstreams in
          distinct_on-All _ _ (
            sort_by-All _ by_owner_id (filter is_owned tables.upstreams)
              (All-filter _ is_owned tables.upstreams h))))

account_rules :
    (number : Text) (s : Store) (account : AccountRow)
    → select_account number s.tables ≡ some account
    → IsReadable rule_from_row s.tables.rules
    → rules number (calm s)
      ≡ (done (decoded rule_from_row (select_rules account.id s.tables)), calm s)
unfolding rules execute
account_rules number s account a h =
    let r : IsReadable rule_from_row (select_rules account.id s.tables) =
      unfold select_rules in
      sort_by-All _ by_position _ (All-filter _ (rule_of account.id) s.tables.rules h) in
    rw (a, each_row-decoded rule_from_row (select_rules account.id s.tables) r) refl

or_else-none : (o : Option Upstream) → or_else o none ≡ o
or_else-none none = refl
or_else-none (some u) = refl

-- Where every row can be read and no two accounts are the same, the snapshot of the tables is made
-- with one entry at most for a number, and gives an account that is there the rules and the active
-- upstream that the operations for that account answer. Rows with equal positions, which SQL leaves
-- in any order, are taken in the order of their insertion in both.
pub snapshot-IsInSnapshot :
    (number : Text) (s : Store) (account : AccountRow)
    → IsClean s.tables
    → select_account number s.tables ≡ some account
    → IsInSnapshot number s
unfolding snapshot active_upstream execute
snapshot-IsInSnapshot number s account w a =
    let (rs, e, f) =
      group_rules-IsGrouped (select_all_rules s.tables) []
        (unfold select_all_rules in sort_by-All _ by_account_position s.tables.rules w.1) in
    let (us, g, k) =
      group_upstreams-IsGroupedOnce (select_first_upstreams s.tables) []
        (unfold select_first_upstreams in
          distinct_on-All _ _ (
            sort_by-All _ by_owner_id (filter is_owned s.tables.upstreams)
              (All-filter _ is_owned s.tables.upstreams w.2)))
        (unfold select_first_upstreams in distinct_on-IsDistinct _) in
    let r : or_empty (lookup account.id rs)
        ≡ decoded rule_from_row (select_rules account.id s.tables) =
      f account.id ∙ ap (decoded rule_from_row) (select_all-filter account.id s.tables) in
    (
      policies s.tables.accounts rs us [],
      policy_of account.id rs us,
      rw (e, g) refl,
      policies-IsMap s.tables.accounts rs us [] tt,
      lookup-policies number s.tables.accounts account rs us [] w.0 (unfold select_account in a),
      rw r (account_rules number s account a w.1),
      rw (a, first_upstream account.id s.tables w.2)
          (ap (λ u. (done u, calm s)) (sym (k account.id ∙ or_else-none _))),
    )
