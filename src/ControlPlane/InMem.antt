-- ===== src/ControlPlane/InMem.antt =====
-- lib/controlplane/storage/inmem.rs: the control plane in memory. An operation takes the state
-- under the lock and returns its answer with the new state. `replace_rules` and
-- `replace_upstreams` take the lock twice in the program, and are one step here: no operation
-- removes an account in between.
pub mod Rules
pub mod Numbering
pub mod QuotaCount
pub mod Accounts
use brdns.Prelude.{
  ℕ, zero, suc, ◌+◌, ◌%◌, ◌^◌, Bool, true, false, Option, none, some, List, [], ◌∷◌, ◌++◌, leb,
  if◌then◌else◌,
}
use brdns.Prelude.Int.{ℤ, pos, negsuc, leb_ℤ}
use brdns.Prelude.Text.{Text}
use brdns.Prelude.Maps.{lookup, insert, text_Eq, pair_eq}
use brdns.Model.{Account, Rule, Upstream, AccountPolicy, NewRule, NewUpstream, Window}
use brdns.Categories.{CategoryMap}
use brdns.Quota.{Chrono, window_start}
use brdns.ControlPlane.Presets.{preset_upstreams_default}

pub record AccountRecord : Type 0 where
  pub account : Account
  pub rules : List Rule
  pub upstreams : List Upstream

pub record Inner : Type 0 where
  pub accounts : List (Text × AccountRecord)
  pub presets : List Upstream
  pub quota : List ((ℕ × ℤ) × ℕ)
  pub categories : CategoryMap
  pub last_ingestion : Option ℤ
  pub next_account_id : ℕ
  pub next_rule_id : ℕ
  pub next_upstream_id : ℕ

-- `id += 1` on a 64-bit counter.
abbrev pub next_id : ℕ → ℕ
next_id n = (n + 1) % 2 ^ 64

-- The loop over the presets: the identifier is the index plus one.
unfoldable pub seed_presets : ℕ → List NewUpstream → List Upstream
seed_presets i [] = []
seed_presets i (new ∷ rest) =
    record {
      id = next_id i;
      account_id = none;
      name = new.name;
      protocol = new.protocol;
      host = new.host;
      port = new.port;
      addr = new.addr;
      is_preset = true;
    }
    ∷ seed_presets (i + 1) rest

abbrev pub last_preset_id : ℕ → List NewUpstream → ℕ
last_preset_id i [] = i
last_preset_id i (new ∷ rest) = last_preset_id (next_id i) rest

unfoldable pub default : Inner
unfolding seed_presets preset_upstreams_default
default = record {
  accounts = [];
  presets = seed_presets 0 preset_upstreams_default;
  quota = [];
  categories = [];
  last_ingestion = none;
  next_account_id = 0;
  next_rule_id = 0;
  next_upstream_id = last_preset_id 0 preset_upstreams_default;
}

unfoldable pub get_or_create : Text → Inner → Account × Inner
get_or_create number inner = elim (lookup number inner.accounts) [
  | some rec ↦ (rec.account, inner)
  | none ↦
      let account : Account = record {
        id = next_id inner.next_account_id;
        account_number = number;
      } in
      let fresh : AccountRecord = record { account = account; rules = []; upstreams = [] } in
      (
        account,
        record inner {
          next_account_id = next_id inner.next_account_id;
          accounts = insert number fresh inner.accounts;
        },
      )
]

unfoldable pub rules : Text → Inner → List Rule
rules number inner = elim (lookup number inner.accounts) [ none ↦ [] | some rec ↦ rec.rules ]

abbrev pub first : List Upstream → Option Upstream
first [] = none
first (x ∷ xs) = some x

unfoldable pub active_upstream : Text → Inner → Option Upstream
active_upstream number inner = elim (lookup number inner.accounts) [
  | none ↦ none
  | some rec ↦ first rec.upstreams
]

unfoldable pub create_account : Text → Inner → Account × Inner
unfolding get_or_create
create_account number inner = get_or_create number inner

unfoldable pub get_account : Text → Inner → Option Account
get_account number inner = elim (lookup number inner.accounts) [
  | none ↦ none
  | some rec ↦ some rec.account
]

-- The loop over the new rules: the stored rules, and the counter behind them. The position is the
-- index as an `i32`.
unfoldable pub number_rules : ℕ → ℕ → ℕ → List NewRule → List Rule × ℕ
number_rules account_id position id [] = ([], id)
number_rules account_id position id (new ∷ news) =
    let (rest, last) = number_rules account_id (position + 1) (next_id id) news in
    (
      record {
        id = next_id id;
        account_id = account_id;
        position = position % 2 ^ 32;
        action = new.action;
        target_type = new.target_type;
        target_value = new.target_value;
        limit_count = new.limit_count;
        limit_window = new.limit_window;
        enabled = new.enabled;
      }
          ∷ rest,
      last,
    )

-- `accounts.get_mut(number).expect("just created").rules = out`; a missing account would panic, and
-- is left alone here.
unfoldable pub update_account : Text → (AccountRecord → AccountRecord) → Inner → Inner
update_account number f inner = elim (lookup number inner.accounts) [
  | none ↦ inner
  | some rec ↦ record inner { accounts = insert number (f rec) inner.accounts }
]

unfoldable pub replace_rules : Text → List NewRule → Inner → List Rule × Inner
replace_rules number new inner =
    let (account, created) = get_or_create number inner in
    let (out, last) = number_rules account.id 0 created.next_rule_id new in
    (
      out,
      update_account number (λ rec. record rec { rules = out })
          (record created { next_rule_id = last }),
    )

unfoldable pub list_upstreams : Text → Inner → List Upstream
list_upstreams number inner = elim (lookup number inner.accounts) [
  | none ↦ []
  | some rec ↦ rec.upstreams
]

unfoldable pub number_upstreams : ℕ → ℕ → List NewUpstream → List Upstream × ℕ
number_upstreams account_id id [] = ([], id)
number_upstreams account_id id (new ∷ news) =
    let (rest, last) = number_upstreams account_id (next_id id) news in
    (
      record {
        id = next_id id;
        account_id = some account_id;
        name = new.name;
        protocol = new.protocol;
        host = new.host;
        port = new.port;
        addr = new.addr;
        is_preset = false;
      }
          ∷ rest,
      last,
    )

unfoldable pub replace_upstreams : Text → List NewUpstream → Inner → List Upstream × Inner
replace_upstreams number new inner =
    let (account, created) = get_or_create number inner in
    let (out, last) = number_upstreams account.id created.next_upstream_id new in
    (
      out,
      update_account number (λ rec. record rec { upstreams = out })
          (record created { next_upstream_id = last }),
    )

unfoldable pub preset_upstreams : Inner → List Upstream
preset_upstreams inner = inner.presets

unfoldable pub categories : Inner → CategoryMap
categories inner = inner.categories

unfoldable pub replace_categories : ℤ → CategoryMap → Inner → Inner
replace_categories now map inner = record inner { categories = map; last_ingestion = some now }

unfoldable pub last_ingestion : Inner → Option ℤ
last_ingestion inner = inner.last_ingestion

abbrev pub policy_of : AccountRecord → AccountPolicy
policy_of rec = record { rules = rec.rules; upstream = first rec.upstreams }

unfoldable pub snapshot_of : List (Text × AccountRecord) → List (Text × AccountPolicy)
snapshot_of [] = []
snapshot_of ((number, rec) ∷ more) = (number, policy_of rec) ∷ snapshot_of more

unfoldable pub snapshot : Inner → List (Text × AccountPolicy)
unfolding snapshot_of
snapshot inner = snapshot_of inner.accounts

unfoldable pub count_at : ℕ × ℤ → Inner → ℕ
unfolding lookup
count_at key inner = elim (lookup key inner.quota) [ none ↦ 0 | some n ↦ n ]

-- The counter of a window: a first use makes an entry of 0, also where the budget is then found
-- used up.
unfoldable pub charge : ℕ × ℤ → ℤ → Inner → Bool × Inner
charge key limit_count inner =
    let count = count_at key inner in
    if leb_ℤ limit_count (pos count)
    then (false, record inner { quota = insert key count inner.quota })
    else (true, record inner { quota = insert key (count + 1) inner.quota })

module _ ⦃c : Chrono⦄ where
  -- `now` is the clock. `none` is a panic of `window_start`, before the lock is taken.
  unfoldable pub record_quota : ℤ → ℕ → ℤ → Window → Inner → Option (Bool × Inner)
  unfolding window_start charge
  record_quota now rule_id limit_count window inner =
      if leb_ℤ limit_count (pos 0) then some (false, inner) else elim (window_start now window) [
        | none ↦ none
        | some start ↦ some (charge (rule_id, start) limit_count inner)
      ]
