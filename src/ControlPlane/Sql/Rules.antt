-- ===== src/ControlPlane/Sql/Rules.antt =====
-- The statements on the table `rules` of lib/controlplane/storage/postgres.rs, with the constraints
-- of migrations/0001_init.sql.
use brdns.Prelude.{
  ℕ, ◌+◌, ◌%◌, ◌^◌, ◌==◌, Bool, true, false, not, ◌&&◌, ◌||◌, Option, none, some, List, [], ◌∷◌,
  ◌++◌, leb,
}
use brdns.Prelude.Select.{filter, exists, sort_by}
use brdns.Prelude.Text.{Text, bytes, text_eq}
use brdns.ControlPlane.{done, failed}
use brdns.ControlPlane.Sql.{RuleRow, CounterRow, Tables, Store, Statement, nextval}
use brdns.ControlPlane.Sql.Accounts.{account_exists}

-- `WHERE account_id = $1`
abbrev pub rule_of : ℕ → RuleRow → Bool
rule_of account_id row = row.account_id == account_id

-- `INTEGER` has a sign: the pattern of a negative position comes first.
abbrev pub signed : ℕ → ℕ
signed position = (position + 2 ^ 31) % 2 ^ 32

-- `ORDER BY position`. SQL leaves the order of rows with equal positions open; here they keep the
-- order in which they were inserted. The rules of an account have distinct positions where
-- `replace_rules` stored fewer than 2 ^ 32 of them.
abbrev pub by_position : RuleRow → RuleRow → Bool
by_position x y = leb (signed x.position) (signed y.position)

unfoldable pub select_rules : ℕ → Tables → List RuleRow
select_rules account_id tables = sort_by by_position (filter (rule_of account_id) tables.rules)

abbrev pub counts_rule_of : ℕ → List RuleRow → CounterRow → Bool
counts_rule_of account_id rows counter =
    exists (λ row. row.id == counter.rule_id && row.account_id == account_id) rows

-- `DELETE FROM rules WHERE account_id = $1`. The counters of a deleted rule go with it.
unfoldable pub delete_rules : ℕ → Statement Unit
delete_rules account_id store = (
  done tt,
  record store {
    tables = record store.tables {
      rules = filter (λ row. not (rule_of account_id row)) store.tables.rules;
      quota_counters =
          filter (λ counter. not (counts_rule_of account_id store.tables.rules counter))
            store.tables.quota_counters;
    };
  },
)

-- `text IN (...)`
unfoldable pub one_of : List Text → Text → Bool
unfolding text_eq
one_of texts t = exists (text_eq t) texts

abbrev is_some {ℓ} : {A : Type ℓ} → Option A → Bool
is_some none = false
is_some (some a) = true

abbrev null_or : (Text → Bool) → Option Text → Bool
null_or p none = true
null_or p (some t) = p t

-- The `CHECK` constraints.
unfoldable pub rule_checks : RuleRow → Bool
unfolding one_of
rule_checks row =
    one_of (bytes "allow" ∷ bytes "deny" ∷ bytes "limit" ∷ []) row.action
    && (one_of (bytes "domain" ∷ bytes "wildcard" ∷ bytes "category" ∷ []) row.target_type
        && (null_or (one_of (bytes "hour" ∷ bytes "day" ∷ bytes "week" ∷ bytes "month" ∷ []))
              row.limit_window
            && (not (text_eq row.action (bytes "limit"))
                || (is_some row.limit_count && is_some row.limit_window))))

-- `INSERT INTO rules ... RETURNING id`, with the row that the number completes. The `PRIMARY KEY` is
-- not checked: a statement gives no identifier of its own, so every one comes from the sequence, which
-- does not go back.
unfoldable pub insert_rule : (ℕ → RuleRow) → Statement ℕ
unfolding rule_checks
insert_rule values store = elim (nextval store.sequences.rules) [
  | none ↦ (failed, store)
  | some id ↦
      let drawn : Store = record store { sequences = record store.sequences { rules = id } } in
      elim (rule_checks (values id) && account_exists (values id).account_id store.tables) [
        | false ↦ (failed, drawn)
        | true ↦ (
          done id,
          record drawn {
            tables = record store.tables { rules = store.tables.rules ++ (values id ∷ []) };
          },
        )
      ]
]
