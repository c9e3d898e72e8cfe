-- ===== src/ControlPlane/Sql/Accounts.antt =====
-- The statements on the table `accounts` of lib/controlplane/storage/postgres.rs.
use brdns.Prelude.{ℕ, ◌==◌, Bool, Option, none, some, [], ◌∷◌, ◌++◌}
use brdns.Prelude.Select.{filter, exists, first}
use brdns.Prelude.Text.{Text, text_eq}
use brdns.ControlPlane.{done, failed}
use brdns.ControlPlane.Sql.{AccountRow, Tables, Store, Statement, nextval}

unfoldable pub has_number : Text → AccountRow → Bool
unfolding text_eq
has_number number row = text_eq row.account_number number

-- `SELECT ... FROM accounts WHERE account_number = $1`, and the first row.
unfoldable pub select_account : Text → Tables → Option AccountRow
unfolding has_number
select_account number tables = first (filter (has_number number) tables.accounts)

-- `INSERT INTO accounts ... ON CONFLICT (account_number) DO UPDATE ... RETURNING id`. The identifier
-- is drawn also where the account is there. The `PRIMARY KEY` is not checked, as for rules.
unfoldable pub insert_account : Text → Statement ℕ
unfolding select_account
insert_account number store = elim (nextval store.sequences.accounts) [
  | none ↦ (failed, store)
  | some id ↦
      let drawn : Store = record store { sequences = record store.sequences { accounts = id } } in
      elim (select_account number store.tables) [
        | some row ↦ (done row.id, drawn)
        | none ↦ (
          done id,
          record drawn {
            tables = record store.tables {
              accounts =
                  store.tables.accounts ++ (record { id = id; account_number = number } ∷ []);
            };
          },
        )
      ]
]

-- The foreign key on `accounts`.
abbrev pub account_exists : ℕ → Tables → Bool
account_exists id tables = exists (λ row. row.id == id) tables.accounts
