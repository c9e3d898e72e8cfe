-- ===== src/Tests/Storage.antt =====
-- The control plane over Postgres, on a database of one account with one rule and one upstream.
use brdns.Prelude.{◌≡◌, refl, ap, true, false, none, some, List, [], ◌∷◌, arith}
use brdns.Prelude.Int.{pos}
use brdns.Prelude.Text.{Text, bytes, text_eq}
use brdns.Prelude.Maps.{lookup}
use brdns.Model.{Action, TargetType, Window, NewRule}
use brdns.Model.Enums.{parse_action, parse_target_type, parse_window, parse_protocol}
use brdns.Quota.{start_of_day, window_of, window_start}
use brdns.ControlPlane.{done, failed}
use brdns.ControlPlane.InMem.{Inner, count_at}
use brdns.ControlPlane.Sql.{AccountRow, RuleRow, UpstreamRow, Store, fine, lost}
use brdns.ControlPlane.Sql.Accounts.{has_number, select_account}
use brdns.ControlPlane.Postgres.{id_of, record_quota, replace_rules}
use brdns.ControlPlane.Postgres.Rows.{rule_from_row, upstream_from_row}
use brdns.ControlPlane.Postgres.Ensured.{calm}
use brdns.ControlPlane.Postgres.Replace.{IsReadBack, replace_rules-rules}
use brdns.ControlPlane.Postgres.Atomic.{IsWhole, replace_rules-IsWhole}
use brdns.ControlPlane.Postgres.Charge.{IsCharged, SameCounts, record_quota-IsCharged}
use brdns.ControlPlane.Postgres.Stale.{record_quota-replace_rules}
use brdns.ControlPlane.Postgres.Policies.{IsClean, IsInSnapshot, snapshot-IsInSnapshot}
use brdns.Categories.{CategoryMap}
use brdns.ControlPlane.Postgres.Categories.{categories, replace_categories}
use brdns.ControlPlane.Postgres.Grouping.{IsFilledMap}
use brdns.ControlPlane.Postgres.CategoryRows.{replace_categories-categories}
use brdns.Policy.{new_cache}
use brdns.Policy.Persisted.{IsCached, replace_rules-IsCached}
use brdns.Tests.Data.{example_com, new_rule}
use brdns.Tests.Clock.{clock}

abbrev number : Text
number = bytes "1234"

abbrev account : AccountRow
account = record { id = 1; account_number = number }

abbrev limited : RuleRow
limited = record {
  id = 1;
  account_id = 1;
  position = 0;
  action = bytes "limit";
  target_type = bytes "domain";
  target_value = example_com;
  limit_count = some (pos 5);
  limit_window = some (bytes "day");
  enabled = true;
}

abbrev resolver : UpstreamRow
resolver = record {
  id = 5;
  account_id = some 1;
  name = bytes "home";
  protocol = bytes "udp";
  host = bytes "192.0.2.1";
  port = pos 53;
  addr = none;
  is_preset = false;
}

abbrev store : Store
store = record {
  tables = record {
    accounts = account ∷ [];
    rules = limited ∷ [];
    upstreams = resolver ∷ [];
    quota_counters = [];
    domains = [];
    domain_categories = [];
  };
  sequences = record { accounts = 1; rules = 1; upstreams = 5 };
}

abbrev blocked : List NewRule
blocked = new_rule Action.deny TargetType.domain example_com ∷ []

-- A memory with no counts.
abbrev memory : Inner
memory = record {
  accounts = [];
  presets = [];
  quota = [];
  categories = [];
  last_ingestion = none;
  next_account_id = 0;
  next_rule_id = 0;
  next_upstream_id = 0;
}

there : select_account number store.tables ≡ some account
unfolding select_account has_number text_eq
there = refl

replace_rules-rules_example : IsReadBack number blocked store
replace_rules-rules_example =
    replace_rules-rules number blocked store (refl, tt) (omega arith) (omega arith) (omega arith)

replace_rules-IsWhole_example :
    IsWhole number blocked (record { store = store; faults = fine ∷ fine ∷ fine ∷ lost ∷ [] })
replace_rules-IsWhole_example =
    replace_rules-IsWhole number blocked
      (record { store = store; faults = fine ∷ fine ∷ fine ∷ lost ∷ [] })

day_start : window_start ⦃c = clock⦄ (pos 7) Window.day ≡ some (pos 7)
unfolding window_start window_of start_of_day
day_start = refl

no_counts : SameCounts store memory
unfolding count_at lookup
no_counts k = refl

record_quota-IsCharged_example :
    IsCharged ⦃c = clock⦄ (pos 7) number (1, pos 7) (pos 5) Window.day store memory
record_quota-IsCharged_example =
    record_quota-IsCharged ⦃c = clock⦄ (pos 7) number 1 (1, pos 7) (pos 5) Window.day store memory
      (ap id_of there) refl day_start refl no_counts

record_quota-replace_rules_example :
    (record_quota ⦃c = clock⦄
      (pos 7)
      number
      1
      (pos 5)
      Window.day
      (replace_rules number blocked (calm store)).1).0
    ≡ failed
record_quota-replace_rules_example =
    record_quota-replace_rules ⦃c = clock⦄ (pos 7) number blocked account (1, pos 7) (pos 5)
      Window.day store (refl, tt) (omega arith) (omega arith) there refl (omega arith) day_start
      refl

store-IsClean : IsClean store.tables
unfolding rule_from_row upstream_from_row parse_action parse_target_type parse_window parse_protocol
    text_eq has_number
store-IsClean = ((refl, refl, tt), ((_, refl), tt), ((_, refl), tt))

snapshot-IsInSnapshot_example : IsInSnapshot number store
snapshot-IsInSnapshot_example = snapshot-IsInSnapshot number store account store-IsClean there

replace_rules-IsCached_example : IsCached ⦃c = clock⦄ (pos 7) number blocked store new_cache
replace_rules-IsCached_example =
    replace_rules-IsCached ⦃c = clock⦄ (pos 7) number blocked account store new_cache store-IsClean
      there (refl, tt) (omega arith) (omega arith) (omega arith)

abbrev listed : CategoryMap
listed =
    (example_com, bytes "ads" ∷ bytes "malware" ∷ []) ∷ (bytes "example.net", bytes "ads" ∷ []) ∷ []

listed-IsFilledMap : IsFilledMap listed
unfolding text_eq
listed-IsFilledMap = (((refl, tt), (tt, tt)), (((refl, tt), (tt, tt)), ((tt, tt), tt)))

replace_categories-categories_example :
    (after : Store) × (replace_categories (pos 7) listed (calm store) ≡ (done tt, calm after))
    × (categories (calm after) ≡ (done listed, calm after))
replace_categories-categories_example =
    replace_categories-categories (pos 7) listed store listed-IsFilledMap
