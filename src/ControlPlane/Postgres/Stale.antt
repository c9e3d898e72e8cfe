-- ===== src/ControlPlane/Postgres/Stale.antt =====
-- A rule that a replacement has removed, in lib/controlplane/storage/postgres.rs, and a query that
-- is still decided by it.
use brdns.Prelude.{
  ℕ, ◌+◌, ◌^◌, ◌<◌, ◌≤◌, ◌≡◌, refl, sym, ap, ◌∙◌, Bool, true, false, not, ◌&&◌, ◌==◌, none, some,
  List, [], ◌∷◌, arith, All, All-imp, length, Bool-cases, inl, inr,
}
use brdns.Prelude.Int.{ℤ, pos, leb_ℤ}
use brdns.Prelude.Text.{Text}
use brdns.Prelude.Select.{filter, exists, first, exists-append, filter_none, filter-All}
use brdns.Prelude.Maps.{pair_beq, pair_beq_iff}
use brdns.Model.{NewRule, Window}
use brdns.Quota.{Chrono, window_start}
use brdns.ControlPlane.{failed}
use brdns.ControlPlane.Sql.{RuleRow, CounterRow, AccountRow, Store}
use brdns.ControlPlane.Sql.Accounts.{select_account}
use brdns.ControlPlane.Sql.Rules.{rule_of, delete_rules, counts_rule_of}
use brdns.ControlPlane.Sql.Counters.{key_of, rule_exists, conflicting}
use brdns.ControlPlane.Postgres.{id_of, record_quota, replace_rules}
use brdns.ControlPlane.Postgres.Ensured.{calm, ensured_there}
use brdns.ControlPlane.Postgres.Stored.{is_storable, rows_of}
use brdns.ControlPlane.Postgres.Replace.{replaced, replace_rules-calm}
use brdns.ControlPlane.Postgres.Charge.{record_quota-stale}

-- The identifier is that of a rule of the account, and of no other account's.
abbrev pub is_own_rule : ℕ → ℕ → List RuleRow → Bool
is_own_rule account rule_id rules =
    exists (λ row. row.id == rule_id && row.account_id == account) rules
    && not (exists (λ row. row.id == rule_id && not (rule_of account row)) rules)

exists-without :
    (account rule_id : ℕ) (rules : List RuleRow)
    → exists (λ row. row.id == rule_id && not (rule_of account row)) rules ≡ false
    → exists (λ row. row.id == rule_id) (filter (λ row. not (rule_of account row)) rules) ≡ false
exists-without account rule_id [] h = refl
exists-without account rule_id (r ∷ rules) h =
    ground (arith, h, exists-without account rule_id rules)

exists-rows_of :
    (account position id rule_id : ℕ) (news : List NewRule)
    → rule_id ≤ id
    → exists (λ row. row.id == rule_id) (rows_of account position id news) ≡ false
exists-rows_of account position id rule_id [] h = refl
exists-rows_of account position id rule_id (new ∷ news) h =
    ground (arith, exists-rows_of account (position + 1) (id + 1) rule_id news (omega (arith, h)))

rule_exists-replaced :
    (account rule_id : ℕ) (new : List NewRule) (s : Store)
    → exists (λ row. row.id == rule_id && not (rule_of account row)) s.tables.rules ≡ false
    → rule_id ≤ s.sequences.rules
    → rule_exists rule_id (replaced account new s).tables ≡ false
unfolding delete_rules
rule_exists-replaced account rule_id new s h k = rw (
  exists-append (λ row. row.id == rule_id)
      (filter (λ row. not (rule_of account row)) s.tables.rules)
      (rows_of account 0 s.sequences.rules new),
  exists-without account rule_id s.tables.rules h,
  exists-rows_of account 0 s.sequences.rules rule_id new k,
)

counter-apart :
    (account : ℕ) (key : ℕ × ℤ) (rules : List RuleRow) (c : CounterRow)
    → exists (λ row. row.id == key.0 && row.account_id == account) rules ≡ true
    → not (counts_rule_of account rules c) ≡ true
    → pair_beq (key_of c) key ≡ false
counter-apart account key rules c h k = elim (Bool-cases (pair_beq (key_of c) key)) [
  | inr e ↦ e
  | inl e ↦
      let i : c.rule_id ≡ key.0 = ap (λ x. x.0) ((pair_beq_iff (key_of c) key).0 e) in
      cc (
        sym k
        ∙ ap (λ i. not (exists (λ row. row.id == i && row.account_id == account) rules)) i
        ∙ ap not h)
]

conflicting-replaced :
    (account : ℕ) (key : ℕ × ℤ) (new : List NewRule) (s : Store)
    → exists (λ row. row.id == key.0 && row.account_id == account) s.tables.rules ≡ true
    → conflicting key (replaced account new s).tables.quota_counters ≡ none
unfolding delete_rules conflicting
conflicting-replaced account key new s h = ap first (
    filter_none (λ c. pair_beq (key_of c) key) _
      (All-imp (λ c k. counter-apart account key s.tables.rules c h k) _
        (filter-All (λ c. not (counts_rule_of account s.tables.rules c)) s.tables.quota_counters)))

module _ ⦃c : Chrono⦄ where
  -- An account that is there has its rules replaced, each new `limit` rule with a budget and a
  -- window, where no statement goes wrong and the sequences have numbers left. In the state that
  -- this leaves, a call for one of its old rules, with a budget above 0 and a window that the date
  -- library has a start for, is an error: it is neither granted nor refused.
  pub record_quota-replace_rules :
      (now : ℤ) (number : Text) (new : List NewRule) (row : AccountRow) (key : ℕ × ℤ) (limit : ℤ)
      (window : Window) (s : Store)
      → All (λ n. is_storable n ≡ true) new
      → s.sequences.accounts + 1 < 2 ^ 63
      → s.sequences.rules + length new < 2 ^ 63
      → select_account number s.tables ≡ some row
      → is_own_rule row.id key.0 s.tables.rules ≡ true
      → key.0 ≤ s.sequences.rules
      → window_start now window ≡ some key.1
      → leb_ℤ limit (pos 0) ≡ false
      → (record_quota now number key.0 limit window (replace_rules number new (calm s)).1).0
        ≡ failed
  unfolding select_account delete_rules
  record_quota-replace_rules now number new row key limit window s v a b r o k w l =
      let e = ensured_there number s row r in
      rw (replace_rules-calm number new s v a b, e)
        (ap (λ r. r.0)
          (record_quota-stale now number row.id key limit window (replaced row.id new s)
            (ap id_of r) (rule_exists-replaced row.id key.0 new s (ground (arith, o)) k)
            (conflicting-replaced row.id key new s (ground (arith, o))) w l))
