-- ===== src/ControlPlane/Postgres/Snapshot.antt =====
-- `snapshot` of lib/controlplane/storage/postgres.rs: every account's policy, from three reads.
use brdns.Prelude.{
  ℕ, ◌==◌, Bool, true, false, not, ◌&&◌, ◌||◌, none, some, List, [], ◌∷◌, ◌++◌, ltb, if◌then◌else◌,
}
use brdns.Prelude.Select.{filter, sort_by}
use brdns.Prelude.Text.{Text}
use brdns.Prelude.Maps.{lookup, insert, text_Eq, nat_eq}
use brdns.Model.{Rule, Upstream, AccountPolicy}
use brdns.ControlPlane.{CplResult, done, failed}
use brdns.ControlPlane.Sql.{
  AccountRow, RuleRow, UpstreamRow, Tables, Sql, ◌>>=◌, return, lift, select,
}
use brdns.ControlPlane.Sql.Rules.{by_position}
use brdns.ControlPlane.Sql.Upstreams.{by_id}
use brdns.ControlPlane.Postgres.Rows.{rule_from_row, upstream_from_row}
use brdns.ControlPlane.Postgres.Categories.{or_empty}

-- `ORDER BY account_id, position`
abbrev pub by_account_position : RuleRow → RuleRow → Bool
by_account_position x y =
    ltb x.account_id y.account_id || (x.account_id == y.account_id && by_position x y)

unfoldable pub select_all_rules : Tables → List RuleRow
select_all_rules tables = sort_by by_account_position tables.rules

-- The account of an upstream that has one.
abbrev pub owner : UpstreamRow → ℕ
owner row = elim row.account_id [ none ↦ 0 | some id ↦ id ]

abbrev pub is_owned : UpstreamRow → Bool
is_owned row = elim row.account_id [ none ↦ false | some id ↦ true ]

-- `ORDER BY account_id, id`
abbrev pub by_owner_id : UpstreamRow → UpstreamRow → Bool
by_owner_id x y = ltb (owner x) (owner y) || (owner x == owner y && by_id x y)

-- `DISTINCT ON (account_id)`: the first row of each account.
unfoldable pub distinct_on : List UpstreamRow → List UpstreamRow
distinct_on [] = []
distinct_on (row ∷ rows) = row ∷ filter (λ other. not (owner other == owner row)) (distinct_on rows)

unfoldable pub select_first_upstreams : Tables → List UpstreamRow
unfolding distinct_on
select_first_upstreams tables = distinct_on (sort_by by_owner_id (filter is_owned tables.upstreams))

-- `entry(row.1).or_default().push(rule_from_row(row)?)` for each row.
unfoldable pub group_rules : List RuleRow → List (ℕ × List Rule) → CplResult (List (ℕ × List Rule))
unfolding lookup insert
group_rules [] m = done m
group_rules (row ∷ rows) m = elim (rule_from_row row) [
  | failed ↦ failed
  | done rule ↦
      group_rules rows (insert row.account_id (or_empty (lookup row.account_id m) ++ (rule ∷ [])) m)
]

unfoldable pub group_upstreams :
    List UpstreamRow → List (ℕ × Upstream) → CplResult (List (ℕ × Upstream))
unfolding insert
group_upstreams [] m = done m
group_upstreams (row ∷ rows) m = elim (upstream_from_row row) [
  | failed ↦ failed
  | done upstream ↦ group_upstreams rows (insert (owner row) upstream m)
]

-- `HashMap::remove`; the value is looked up on its own.
unfoldable pub remove {ℓ} : {V : Type ℓ} → ℕ → List (ℕ × V) → List (ℕ × V)
remove k [] = []
remove k ((j, v) ∷ m) = let rest = remove k m in if j == k then rest else (j, v) ∷ rest

-- The loop over the accounts.
unfoldable pub policies :
    List AccountRow
    → List (ℕ × List Rule)
    → List (ℕ × Upstream)
    → List (Text × AccountPolicy)
    → List (Text × AccountPolicy)
unfolding lookup insert remove
policies [] rules upstreams out = out
policies (row ∷ rows) rules upstreams out =
    policies rows (remove row.id rules) (remove row.id upstreams) (
      insert row.account_number
        (record { rules = or_empty (lookup row.id rules); upstream = lookup row.id upstreams }) out)

unfoldable pub snapshot : Sql (List (Text × AccountPolicy))
unfolding select group_rules group_upstreams policies
snapshot = do
  accounts ← select (λ tables. tables.accounts)
  rule_rows ← select select_all_rules
  upstream_rows ← select select_first_upstreams
  rules ← lift (group_rules rule_rows [])
  upstreams ← lift (group_upstreams upstream_rows [])
  return (policies accounts rules upstreams [])
