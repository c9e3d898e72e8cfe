-- ===== src/ControlPlane/Postgres/Replace.antt =====
-- `replace_rules` of lib/controlplane/storage/postgres.rs where no statement goes wrong.
use brdns.Prelude.{
  ℕ, ◌+◌, ◌-◌, ◌^◌, ◌<◌, ◌≤◌, ◌≡◌, refl, ◌∙◌, true, not, some, List, [], ◌∷◌, ◌++◌, arith, All,
  length, lt→ltb, append-nil, append_assoc,
}
use brdns.Prelude.Select.{filter, filter-append, filter-not}
use brdns.Prelude.Text.{Text}
use brdns.Model.{Rule, NewRule}
use brdns.ControlPlane.{done}
use brdns.ControlPlane.InMem.{number_rules}
use brdns.ControlPlane.Sql.{RuleRow, Store, execute, select, transaction, commit}
use brdns.ControlPlane.Sql.Accounts.{select_account, account_exists}
use brdns.ControlPlane.Sql.Rules.{select_rules, delete_rules, insert_rule, rule_checks, rule_of}
use brdns.ControlPlane.Postgres.{rules, insert_rules, replace_body, replace_rules, rule_row, id_of}
use brdns.ControlPlane.Postgres.Ensured.{
  calm, ensured, account_id_or_create-calm, select_account-ensured, select_account-exists,
  ensured-tables,
}
use brdns.ControlPlane.Postgres.Rows.{each_row, rule_from_row}
use brdns.ControlPlane.Postgres.Stored.{
  is_storable, rows_of, rules_of, rule_checks-rule_row, rules_of-number_rules, each_row-rows_of,
  sort_by-rows_of,
}

abbrev pub with_rules : List RuleRow → ℕ → Store → Store
with_rules rows last store = record {
  tables = record store.tables { rules = store.tables.rules ++ rows };
  sequences = record store.sequences { rules = last };
}

insert_rule_storable :
    (account position : ℕ) (new : NewRule) (s : Store)
    → is_storable new ≡ true
    → account_exists account s.tables ≡ true
    → s.sequences.rules + 1 < 2 ^ 63
    → insert_rule (rule_row account position new) s ≡ (
      done (s.sequences.rules + 1),
      with_rules
          (rule_row account position new (s.sequences.rules + 1) ∷ [])
          (s.sequences.rules + 1)
          s,
    )
unfolding insert_rule
insert_rule_storable account position new s v a b =
    let c : rule_checks (rule_row account position new (s.sequences.rules + 1)) ≡ true =
      rule_checks-rule_row account position new (s.sequences.rules + 1) ∙ v in
    rw (lt→ltb s.sequences.rules (2 ^ 63 - 1) (omega (arith, b)), c, a, insert_rule)

-- The loop stores each rule.
pub insert_rules-calm :
    (account position : ℕ) (news : List NewRule) (s : Store)
    → All (λ new. is_storable new ≡ true) news
    → account_exists account s.tables ≡ true
    → s.sequences.rules + length news < 2 ^ 63
    → insert_rules account position news (calm s) ≡ (
      done (rules_of account position s.sequences.rules news),
      calm (
          with_rules
            (rows_of account position s.sequences.rules news)
            (s.sequences.rules + length news)
            s),
    )
unfolding insert_rules execute
insert_rules-calm account position [] s v a b =
    let e : s.sequences.rules + 0 ≡ s.sequences.rules = omega arith in
    rw (e, append-nil s.tables.rules)
insert_rules-calm account position (new ∷ news) s v a b =
    let e =
      insert_rules-calm account (position + 1) news
        (with_rules (rule_row account position new (s.sequences.rules + 1) ∷ [])
          (s.sequences.rules + 1) s)
        v.1 a (omega (arith, b)) in
    let l : s.sequences.rules + 1 + length news ≡ s.sequences.rules + length (new ∷ news) =
      omega arith in
    rw (
      insert_rule_storable account position new s v.0 a (omega (arith, b)),
      e,
      append_assoc s.tables.rules (rule_row account position new (s.sequences.rules + 1) ∷ [])
          (rows_of account (position + 1) (s.sequences.rules + 1) news),
      l,
    )

-- What the deletion of an account's rules leaves.
abbrev pub without_rules : ℕ → Store → Store
without_rules id s = (delete_rules id s).1

-- The store behind a replacement.
abbrev pub replaced : ℕ → List NewRule → Store → Store
replaced id new s =
    with_rules (rows_of id 0 s.sequences.rules new) (s.sequences.rules + length new)
      (without_rules id s)

body-calm :
    (id : ℕ) (new : List NewRule) (s : Store)
    → All (λ n. is_storable n ≡ true) new
    → account_exists id s.tables ≡ true
    → s.sequences.rules + length new < 2 ^ 63
    → replace_body id new (calm s)
      ≡ (done (rules_of id 0 s.sequences.rules new), calm (replaced id new s))
unfolding replace_body execute delete_rules
body-calm id new s v a b = insert_rules-calm id 0 new (without_rules id s) v a b

-- The answer, and the database behind it.
pub replace_rules-calm :
    (number : Text) (new : List NewRule) (s : Store)
    → All (λ n. is_storable n ≡ true) new
    → s.sequences.accounts + 1 < 2 ^ 63
    → s.sequences.rules + length new < 2 ^ 63
    → replace_rules number new (calm s) ≡ (
      done (rules_of (ensured number s).0 0 s.sequences.rules new),
      calm (replaced (ensured number s).0 new (ensured number s).1),
    )
unfolding replace_rules transaction select execute commit
replace_rules-calm number new s v a b =
    let t = ensured-tables number s in
    let x =
      select_account-exists number (ensured number s).1.tables (ensured number s).0
        (select_account-ensured number s) in
    let e = body-calm (ensured number s).0 new (ensured number s).1 v x (rw t.2 b) in
    rw (account_id_or_create-calm number s a, e, t.2)

-- The rows of the account are then the new ones alone.
select_rules-replaced :
    (id : ℕ) (new : List NewRule) (s : Store)
    → length new ≤ 2 ^ 31
    → select_rules id (replaced id new s).tables ≡ rows_of id 0 s.sequences.rules new
unfolding select_rules delete_rules
select_rules-replaced id new s h =
    rw
      (filter-append (rule_of id) (filter (λ row. not (rule_of id row)) s.tables.rules)
        (rows_of id 0 s.sequences.rules new))
      (rw (filter-not (rule_of id) s.tables.rules) (sort_by-rows_of id s.sequences.rules new h))

rules-calm :
    (number : Text) (s : Store) (id : ℕ) (rows : List RuleRow) (out : List Rule)
    → id_of (select_account number s.tables) ≡ some id
    → select_rules id s.tables ≡ rows
    → each_row rule_from_row rows ≡ done out
    → rules number (calm s) ≡ (done out, calm s)
unfolding rules select execute
rules-calm number s id rows out h e k = rw (h, e, k)

-- A replacement, and a read behind it.
abbrev pub IsReadBack : Text → List NewRule → Store → Type 0
IsReadBack number new s =
    let out = (number_rules (ensured number s).0 0 s.sequences.rules new).0 in
    (after : Store) × (replace_rules number new (calm s) ≡ (done out, calm after))
    × (rules number (calm after) ≡ (done out, calm after))

-- Where no statement goes wrong, the sequences have numbers left, and there are at most 2 ^ 31
-- rules, each `limit` rule with a budget and a window, the rules are answered as the control plane
-- in memory numbers them, and are read back as they were answered.
pub replace_rules-rules :
    (number : Text) (new : List NewRule) (s : Store)
    → All (λ n. is_storable n ≡ true) new
    → s.sequences.accounts + 1 < 2 ^ 63
    → s.sequences.rules + length new < 2 ^ 63
    → length new ≤ 2 ^ 31
    → IsReadBack number new s
unfolding ensured delete_rules
replace_rules-rules number new s v a b l =
    let t = ensured-tables number s in
    let id = (ensured number s).0 in
    let after = replaced id new (ensured number s).1 in
    let n = rules_of-number_rules id 0 s.sequences.rules new b in
    (
      after,
      rw n (replace_rules-calm number new s v a b),
      rw n (
          rules-calm number after id (rows_of id 0 s.sequences.rules new)
            (rules_of id 0 s.sequences.rules new) (select_account-ensured number s)
            (select_rules-replaced id new (ensured number s).1 l ∙ rw t.2 refl)
            (each_row-rows_of id 0 s.sequences.rules new)),
    )
