-- ===== src/ControlPlane/Postgres.antt =====
-- lib/controlplane/storage/postgres.rs: the control plane over Postgres. Each operation is the
-- sequence of its statements, the first failure of which ends it. Operations run one behind the
-- other.
pub mod Rows
pub mod Categories
pub mod Snapshot
pub mod Grouping
pub mod CategoryRows
pub mod Stored
pub mod Ensured
pub mod Replace
pub mod Kept
pub mod Charge
pub mod Stale
pub mod Grouped
pub mod Policies
pub mod Service
pub mod Atomic
use brdns.Prelude.{
  ℕ, ◌+◌, ◌%◌, ◌^◌, Bool, true, false, Option, none, some, List, [], ◌∷◌, if◌then◌else◌, map,
}
use brdns.Prelude.Int.{ℤ, pos, leb_ℤ}
use brdns.Prelude.Select.{first}
use brdns.Prelude.Text.{Text}
use brdns.Model.{Account, Rule, Upstream, NewRule, NewUpstream, Window}
use brdns.Model.Enums.{action_str, target_type_str, window_str, protocol_str}
use brdns.Quota.{Chrono, window_start}
use brdns.ControlPlane.{CplResult, done, failed}
use brdns.ControlPlane.Presets.{preset_upstreams_default}
use brdns.ControlPlane.Sql.{
  AccountRow, RuleRow, UpstreamRow, Sql, ◌>>=◌, return, lift, execute, select, transaction,
}
use brdns.ControlPlane.Sql.Accounts.{select_account, insert_account}
use brdns.ControlPlane.Sql.Rules.{select_rules, delete_rules, insert_rule}
use brdns.ControlPlane.Sql.Upstreams.{
  select_upstreams, select_presets, delete_upstreams, insert_upstream, insert_preset,
}
use brdns.ControlPlane.Sql.Counters.{upsert_counter}
use brdns.ControlPlane.Postgres.Rows.{rule_from_row, upstream_from_row, each_row}

-- The row of a preset.
abbrev pub preset_row : NewUpstream → ℕ → UpstreamRow
preset_row preset id = record {
  id = id;
  account_id = none;
  name = preset.name;
  protocol = protocol_str preset.protocol;
  host = preset.host;
  port = pos preset.port;
  addr = preset.addr;
  is_preset = true;
}

unfoldable pub insert_presets : List NewUpstream → Sql Unit
insert_presets [] = return tt
insert_presets (preset ∷ presets) = do
  _ ← execute (insert_preset (preset_row preset))
  insert_presets presets

unfoldable pub seed_presets : Sql Unit
unfolding insert_presets
seed_presets = insert_presets preset_upstreams_default

abbrev pub id_of : Option AccountRow → Option ℕ
id_of none = none
id_of (some row) = some row.id

unfoldable pub account_id : Text → Sql (Option ℕ)
unfolding select select_account
account_id number = select (λ tables. id_of (select_account number tables))

unfoldable pub account_id_or_create : Text → Sql ℕ
unfolding account_id
account_id_or_create number = do
  found ← account_id number
  elim found [ some id ↦ return id | none ↦ execute (insert_account number) ]

-- `let Some(account_id) = self.account_id(...).await? else { return Ok(missing) }`
abbrev pub with_account : {A : Type 0} → Text → A → (ℕ → Sql A) → Sql A
with_account number missing body = do
  found ← account_id number
  elim found [ none ↦ return missing | some id ↦ body id ]

unfoldable pub rules : Text → Sql (List Rule)
unfolding account_id
rules number =
    with_account number []
      (λ id. do rows ← select (select_rules id); lift (each_row rule_from_row rows))

-- `LIMIT 1`, read as an optional row.
abbrev pub optional_upstream : Option UpstreamRow → CplResult (Option Upstream)
optional_upstream none = done none
optional_upstream (some row) = elim (upstream_from_row row) [
  | failed ↦ failed
  | done upstream ↦ done (some upstream)
]

unfoldable pub active_upstream : Text → Sql (Option Upstream)
unfolding account_id
active_upstream number = with_account number none (λ id. do
  row ← select (λ tables. first (select_upstreams id tables))
  lift (optional_upstream row))

abbrev pub is_some : {A : Type 0} → Option A → Bool
is_some none = false
is_some (some a) = true

module _ ⦃c : Chrono⦄ where
  -- `now` is the clock. Where the date library has no such time, the program panics: `failed`.
  unfoldable pub record_quota : ℤ → Text → ℕ → ℤ → Window → Sql Bool
  unfolding account_id window_start
  record_quota now number rule_id limit_count window =
      if leb_ℤ limit_count (pos 0)
      then return false
      else with_account number true (λ id. elim (window_start now window) [
        | none ↦ lift failed
        | some start ↦ do
          row ← execute (upsert_counter id rule_id start limit_count)
          return (is_some row)
      ])

unfoldable pub create_account : Text → Sql Account
unfolding account_id_or_create
create_account number = do
  id ← account_id_or_create number
  return (record { id = id; account_number = number })

abbrev pub account_of : Option AccountRow → Option Account
account_of none = none
account_of (some row) = some (record { id = row.id; account_number = row.account_number })

unfoldable pub get_account : Text → Sql (Option Account)
unfolding select select_account
get_account number = do row ← select (select_account number); return (account_of row)

abbrev pub window_text : Option Window → Option Text
window_text none = none
window_text (some w) = some (window_str w)

-- The row that a new rule is stored as, and the rule that is answered for it. The position is the
-- index as an `i32`.
abbrev pub rule_row : ℕ → ℕ → NewRule → ℕ → RuleRow
rule_row account_id position new id = record {
  id = id;
  account_id = account_id;
  position = position % 2 ^ 32;
  action = action_str new.action;
  target_type = target_type_str new.target_type;
  target_value = new.target_value;
  limit_count = new.limit_count;
  limit_window = window_text new.limit_window;
  enabled = new.enabled;
}

abbrev pub rule_at : ℕ → ℕ → NewRule → ℕ → Rule
rule_at account_id position new id = record {
  id = id;
  account_id = account_id;
  position = position % 2 ^ 32;
  action = new.action;
  target_type = new.target_type;
  target_value = new.target_value;
  limit_count = new.limit_count;
  limit_window = new.limit_window;
  enabled = new.enabled;
}

-- The loop over the new rules.
unfoldable pub insert_rules : ℕ → ℕ → List NewRule → Sql (List Rule)
insert_rules account_id position [] = return []
insert_rules account_id position (new ∷ news) = do
  id ← execute (insert_rule (rule_row account_id position new))
  rest ← insert_rules account_id (position + 1) news
  return (rule_at account_id position new id ∷ rest)

-- What happens inside the transaction.
unfoldable pub replace_body : ℕ → List NewRule → Sql (List Rule)
unfolding insert_rules
replace_body id new = do _ ← execute (delete_rules id); insert_rules id 0 new

unfoldable pub replace_rules : Text → List NewRule → Sql (List Rule)
unfolding account_id_or_create transaction
replace_rules number new = do id ← account_id_or_create number; transaction (replace_body id new)

unfoldable pub list_upstreams : Text → Sql (List Upstream)
unfolding account_id
list_upstreams number =
    with_account number []
      (λ id. do rows ← select (select_upstreams id); lift (each_row upstream_from_row rows))

abbrev pub upstream_row : ℕ → NewUpstream → ℕ → UpstreamRow
upstream_row account_id new id = record {
  id = id;
  account_id = some account_id;
  name = new.name;
  protocol = protocol_str new.protocol;
  host = new.host;
  port = pos new.port;
  addr = new.addr;
  is_preset = false;
}

abbrev pub upstream_at : ℕ → NewUpstream → ℕ → Upstream
upstream_at account_id new id = record {
  id = id;
  account_id = some account_id;
  name = new.name;
  protocol = new.protocol;
  host = new.host;
  port = new.port;
  addr = new.addr;
  is_preset = false;
}

unfoldable pub insert_upstreams : ℕ → List NewUpstream → Sql (List Upstream)
insert_upstreams account_id [] = return []
insert_upstreams account_id (new ∷ news) = do
  id ← execute (insert_upstream (upstream_row account_id new))
  rest ← insert_upstreams account_id news
  return (upstream_at account_id new id ∷ rest)

unfoldable pub replace_upstreams : Text → List NewUpstream → Sql (List Upstream)
unfolding account_id_or_create transaction insert_upstreams
replace_upstreams number new = do
  id ← account_id_or_create number
  transaction (do _ ← execute (delete_upstreams id); insert_upstreams id new)

unfoldable pub preset_upstreams : Sql (List Upstream)
unfolding select
preset_upstreams = do rows ← select select_presets; lift (each_row upstream_from_row rows)
