-- ===== src/ControlPlane/Postgres/Rows.antt =====
-- The rows of lib/controlplane/storage/postgres.rs, read as entities.
use brdns.Prelude.{ℕ, ◌^◌, Option, none, some, List, [], ◌∷◌, ltb, if◌then◌else◌}
use brdns.Prelude.Int.{ℤ, pos, negsuc}
use brdns.Prelude.Text.{Text}
use brdns.Model.{Rule, Upstream, Window}
use brdns.Model.Enums.{parse_action, parse_target_type, parse_window, parse_protocol}
use brdns.ControlPlane.{CplResult, done, failed}
use brdns.ControlPlane.Sql.{RuleRow, UpstreamRow}

-- `u16::try_from`
abbrev pub port_of : ℤ → Option ℕ
port_of (pos port) = if ltb port (2 ^ 16) then some port else none
port_of (negsuc port) = none

unfoldable pub upstream_from_row : UpstreamRow → CplResult Upstream
unfolding parse_protocol
upstream_from_row row = elim (parse_protocol row.protocol) [
  | none ↦ failed
  | some protocol ↦ elim (port_of row.port) [
    | none ↦ failed
    | some port ↦ done (record {
      id = row.id;
      account_id = row.account_id;
      name = row.name;
      protocol = protocol;
      host = row.host;
      port = port;
      addr = row.addr;
      is_preset = row.is_preset;
    })
  ]
]

-- `limit_window.map(|w| w.parse()).transpose()?`
abbrev pub optional_window : Option Text → Option (Option Window)
optional_window none = some none
optional_window (some text) = elim (parse_window text) [ none ↦ none | some w ↦ some (some w) ]

unfoldable pub rule_from_row : RuleRow → CplResult Rule
unfolding parse_action parse_target_type parse_window
rule_from_row row = elim (parse_action row.action) [
  | none ↦ failed
  | some action ↦ elim (parse_target_type row.target_type) [
    | none ↦ failed
    | some target_type ↦ elim (optional_window row.limit_window) [
      | none ↦ failed
      | some limit_window ↦ done (record {
        id = row.id;
        account_id = row.account_id;
        position = row.position;
        action = action;
        target_type = target_type;
        target_value = row.target_value;
        limit_count = row.limit_count;
        limit_window = limit_window;
        enabled = row.enabled;
      })
    ]
  ]
]

-- `rows.into_iter().map(read).collect()`: the first error is the answer.
unfoldable pub each_row : {Row A : Type 0} → (Row → CplResult A) → List Row → CplResult (List A)
each_row read [] = done []
each_row read (row ∷ rows) =
    let rest = each_row read rows in
    elim (read row) [
      | failed ↦ failed
      | done a ↦ elim rest [ failed ↦ failed | done more ↦ done (a ∷ more) ]
    ]
