-- ===== src/ControlPlane/InMem/Accounts.antt =====
-- The entries of the map of accounts, over the operations of lib/controlplane/storage/inmem.rs.
use brdns.Prelude.{◌≡◌, none, some, List, [], ◌∷◌, Option-cases, inl, inr}
use brdns.Prelude.Text.{Text}
use brdns.Prelude.Maps.{lookup, text_Eq, IsMap, insert-IsMap}
use brdns.Model.{NewRule, NewUpstream}
use brdns.ControlPlane.InMem.{
  AccountRecord, Inner, default, get_or_create, number_rules, number_upstreams, update_account,
  replace_rules, replace_upstreams, snapshot, snapshot_of,
}
use brdns.ControlPlane.InMem.Rules.{get_or_create_found, get_or_create-fresh, lookup-snapshot_of}

abbrev pub HasAccounts : Inner → Type 0
HasAccounts inner = IsMap inner.accounts

pub default-HasAccounts : HasAccounts default
unfolding default
default-HasAccounts = tt

pub get_or_create-HasAccounts :
    (number : Text) (inner : Inner) → HasAccounts inner → HasAccounts (get_or_create number inner).1
get_or_create-HasAccounts number inner w = elim (Option-cases (lookup number inner.accounts)) [
  | inl e ↦ rw (get_or_create-fresh number inner e) (insert-IsMap number _ inner.accounts w)
  | inr (rec, e) ↦ rw (get_or_create_found number inner rec e) w
]

update_missing :
    (number : Text) (f : AccountRecord → AccountRecord) (inner : Inner)
    → lookup number inner.accounts ≡ none
    → update_account number f inner ≡ inner
unfolding update_account
update_missing number f inner e = rw (e, update_account)

update_found :
    (number : Text) (f : AccountRecord → AccountRecord) (inner : Inner) (rec : AccountRecord)
    → lookup number inner.accounts ≡ some rec
    → IsMap inner.accounts
    → IsMap (update_account number f inner).accounts
unfolding update_account
update_found number f inner rec e w =
    rw (e, update_account) (insert-IsMap number (f rec) inner.accounts w)

pub update_account-HasAccounts :
    (number : Text) (f : AccountRecord → AccountRecord) (inner : Inner)
    → HasAccounts inner
    → HasAccounts (update_account number f inner)
update_account-HasAccounts number f inner w = elim (Option-cases (lookup number inner.accounts)) [
  | inl e ↦ rw (update_missing number f inner e) w
  | inr (rec, e) ↦ update_found number f inner rec e w
]

-- Storing rules, which may make the account, leaves no account with two entries.
pub replace_rules-HasAccounts :
    (number : Text) (new : List NewRule) (inner : Inner)
    → HasAccounts inner
    → HasAccounts (replace_rules number new inner).1
unfolding replace_rules
replace_rules-HasAccounts number new inner w =
    let (account, created) = get_or_create number inner in
    update_account-HasAccounts number _
      (record created { next_rule_id = (number_rules account.id 0 created.next_rule_id new).1 })
      (get_or_create-HasAccounts number inner w)

pub replace_upstreams-HasAccounts :
    (number : Text) (new : List NewUpstream) (inner : Inner)
    → HasAccounts inner
    → HasAccounts (replace_upstreams number new inner).1
unfolding replace_upstreams
replace_upstreams-HasAccounts number new inner w =
    let (account, created) = get_or_create number inner in
    update_account-HasAccounts number _
      (record created {
        next_upstream_id = (number_upstreams account.id created.next_upstream_id new).1;
      })
      (get_or_create-HasAccounts number inner w)

snapshot_of-IsMap :
    (accounts : List (Text × AccountRecord)) → IsMap accounts → IsMap (snapshot_of accounts)
unfolding snapshot_of
snapshot_of-IsMap [] w = tt
snapshot_of-IsMap ((number, rec) ∷ more) w =
    (rw (lookup-snapshot_of number more, w.0), snapshot_of-IsMap more w.1)

pub snapshot-IsMap : (inner : Inner) → HasAccounts inner → IsMap (snapshot inner)
unfolding snapshot
snapshot-IsMap inner w = snapshot_of-IsMap inner.accounts w
