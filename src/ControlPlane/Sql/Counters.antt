-- ===== src/ControlPlane/Sql/Counters.antt =====
-- The statement on the table `quota_counters` of lib/controlplane/storage/postgres.rs.
use brdns.Prelude.{
  ℕ, ◌+◌, ◌==◌, Bool, true, false, ◌&&◌, Option, none, some, List, [], ◌∷◌, ◌++◌, if◌then◌else◌,
}
use brdns.Prelude.Int.{ℤ, pos, leb_ℤ}
use brdns.Prelude.Select.{filter, exists, first}
use brdns.Prelude.Maps.{pair_beq}
use brdns.ControlPlane.{done, failed}
use brdns.ControlPlane.Sql.{CounterRow, Tables, Store, Statement}
use brdns.ControlPlane.Sql.Accounts.{account_exists}

abbrev pub key_of : CounterRow → ℕ × ℤ
key_of row = (row.rule_id, row.window_start)

-- The foreign key on `rules`.
abbrev pub rule_exists : ℕ → Tables → Bool
rule_exists id tables = exists (λ row. row.id == id) tables.rules

-- The row in the way of an insertion: the one with the rule and the start of the window.
unfoldable pub conflicting : ℕ × ℤ → List CounterRow → Option CounterRow
conflicting key rows = first (filter (λ row. pair_beq (key_of row) key) rows)

-- `DO UPDATE SET count = quota_counters.count + 1` on that row.
unfoldable pub increment : ℕ × ℤ → List CounterRow → List CounterRow
increment key [] = []
increment key (row ∷ rows) =
    let rest = increment key rows in
    if pair_beq (key_of row) key then record row { count = row.count + 1 } ∷ rows else row ∷ rest

abbrev pub with_counters : List CounterRow → Store → Store
with_counters rows store = record store { tables = record store.tables { quota_counters = rows } }

-- `INSERT INTO quota_counters ... ON CONFLICT (rule_id, window_start) DO UPDATE ... WHERE
-- quota_counters.count < $4 RETURNING count`, and the row that comes back.
unfoldable pub upsert_counter : ℕ → ℕ → ℤ → ℤ → Statement (Option ℕ)
unfolding conflicting increment
upsert_counter account_id rule_id window_start limit_count store =
    let rows = store.tables.quota_counters in
    elim (conflicting (rule_id, window_start) rows) [
      | some row ↦ if leb_ℤ limit_count (pos row.count) then (done none, store) else (
        done (some (row.count + 1)),
        with_counters (increment (rule_id, window_start) rows) store,
      )
      | none ↦ elim (account_exists account_id store.tables && rule_exists rule_id store.tables) [
        | false ↦ (failed, store)
        | true ↦
            let fresh : CounterRow = record {
              account_id = account_id;
              rule_id = rule_id;
              window_start = window_start;
              count = 1;
            } in
            (done (some 1), with_counters (rows ++ (fresh ∷ [])) store)
      ]
    ]
