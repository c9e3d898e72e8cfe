-- ===== src/ControlPlane/Sql/Upstreams.antt =====
-- The statements on the table `upstreams` of lib/controlplane/storage/postgres.rs, with the
-- constraints of migrations/0001_init.sql.
use brdns.Prelude.{
  ℕ, ◌==◌, Bool, true, false, not, ◌&&◌, ◌||◌, Option, none, some, List, [], ◌∷◌, ◌++◌, leb,
}
use brdns.Prelude.Select.{filter, exists, sort_by}
use brdns.Prelude.Text.{bytes, text_eq}
use brdns.ControlPlane.{done, failed}
use brdns.ControlPlane.Sql.{UpstreamRow, Tables, Store, Statement, nextval}
use brdns.ControlPlane.Sql.Accounts.{account_exists}
use brdns.ControlPlane.Sql.Rules.{one_of}

-- `WHERE account_id = $1`; a `NULL` equals nothing.
abbrev pub upstream_of : ℕ → UpstreamRow → Bool
upstream_of account_id row = elim row.account_id [ none ↦ false | some id ↦ id == account_id ]

-- `ORDER BY id`
abbrev pub by_id : UpstreamRow → UpstreamRow → Bool
by_id x y = leb x.id y.id

unfoldable pub select_upstreams : ℕ → Tables → List UpstreamRow
select_upstreams account_id tables =
    sort_by by_id (filter (upstream_of account_id) tables.upstreams)

-- `WHERE is_preset ORDER BY id`
unfoldable pub select_presets : Tables → List UpstreamRow
select_presets tables = sort_by by_id (filter (λ row. row.is_preset) tables.upstreams)

-- `DELETE FROM upstreams WHERE account_id = $1`
unfoldable pub delete_upstreams : ℕ → Statement Unit
delete_upstreams account_id store = (
  done tt,
  record store {
    tables = record store.tables {
      upstreams = filter (λ row. not (upstream_of account_id row)) store.tables.upstreams;
    };
  },
)

-- The unique indexes: a name is taken once per account, and once among the presets.
abbrev pub same_owner : Option ℕ → Option ℕ → Bool
same_owner (some a) (some b) = a == b
same_owner (some a) none = false
same_owner none b = false

abbrev pub collides : UpstreamRow → UpstreamRow → Bool
collides new old =
    text_eq new.name old.name
    && (same_owner new.account_id old.account_id || (new.is_preset && old.is_preset))

-- The `CHECK` on the protocol, and the foreign key.
abbrev pub upstream_checks : UpstreamRow → Tables → Bool
upstream_checks row tables =
    one_of (bytes "dot" ∷ bytes "doh" ∷ bytes "udp" ∷ []) row.protocol
    && elim row.account_id [ none ↦ true | some id ↦ account_exists id tables ]

abbrev pub with_upstream : UpstreamRow → Store → Store
with_upstream row store = record store {
  tables = record store.tables { upstreams = store.tables.upstreams ++ (row ∷ []) };
}

abbrev pub drawn_upstream : ℕ → Store → Store
drawn_upstream id store = record store { sequences = record store.sequences { upstreams = id } }

-- `INSERT INTO upstreams ... RETURNING id`. The `PRIMARY KEY` is not checked, as for rules.
unfoldable pub insert_upstream : (ℕ → UpstreamRow) → Statement ℕ
unfolding one_of text_eq
insert_upstream values store = elim (nextval store.sequences.upstreams) [
  | none ↦ (failed, store)
  | some id ↦
      elim (upstream_checks (values id) store.tables
        && not (exists (collides (values id)) store.tables.upstreams)) [
          | false ↦ (failed, drawn_upstream id store)
          | true ↦ (done id, with_upstream (values id) (drawn_upstream id store))
        ]
]

-- `INSERT INTO upstreams ... ON CONFLICT DO NOTHING`
unfoldable pub insert_preset : (ℕ → UpstreamRow) → Statement Unit
unfolding one_of text_eq
insert_preset values store = elim (nextval store.sequences.upstreams) [
  | none ↦ (failed, store)
  | some id ↦ elim (upstream_checks (values id) store.tables) [
    | false ↦ (failed, drawn_upstream id store)
    | true ↦ elim (exists (collides (values id)) store.tables.upstreams) [
      | true ↦ (done tt, drawn_upstream id store)
      | false ↦ (done tt, with_upstream (values id) (drawn_upstream id store))
    ]
  ]
]
