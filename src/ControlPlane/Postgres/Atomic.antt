-- ===== src/ControlPlane/Postgres/Atomic.antt =====
-- `replace_rules` of lib/controlplane/storage/postgres.rs where any statement may go wrong.
use brdns.Prelude.{
  ℕ, ◌+◌, ◌-◌, ◌^◌, ◌≡◌, refl, sym, ap, ◌∙◌, ◌⊎◌, inl, inr, not, ◌&&◌, List, [], ◌∷◌, ◌++◌, length,
  ltb, arith, Bool-cases, append-nil, append_assoc,
}
use brdns.Prelude.Select.{filter}
use brdns.Prelude.Text.{Text}
use brdns.Model.{Rule, NewRule}
use brdns.ControlPlane.{CplResult, done, failed}
use brdns.ControlPlane.Sql.{Store, Fault, Db, bound, transaction}
use brdns.ControlPlane.Sql.Transactions.{execute-IsExecuted, bound_failed, transaction-IsAtomic}
use brdns.ControlPlane.Sql.Accounts.{account_exists}
use brdns.ControlPlane.Sql.Rules.{rule_of, rule_checks, insert_rule, delete_rules}
use brdns.ControlPlane.Postgres.{
  account_id_or_create, insert_rules, replace_body, replace_rules, rule_row,
}
use brdns.ControlPlane.Postgres.Kept.{IsKept, account_id_or_create-IsKept}
use brdns.ControlPlane.Postgres.Stored.{rows_of, rules_of}
use brdns.ControlPlane.Postgres.Replace.{with_rules, replaced, without_rules}

insert_rule-cases :
    (account position : ℕ) (new : NewRule) (s : Store)
    → ((insert_rule (rule_row account position new) s).0 ≡ failed)
      ⊎ (insert_rule (rule_row account position new) s ≡ (
        done (s.sequences.rules + 1),
        with_rules
            (rule_row account position new (s.sequences.rules + 1) ∷ [])
            (s.sequences.rules + 1)
            s,
      ))
unfolding insert_rule
insert_rule-cases account position new s = elim (Bool-cases (ltb s.sequences.rules (2 ^ 63 - 1))) [
  | inr e ↦ inl (rw (e, insert_rule))
  | inl e ↦
      elim (Bool-cases (
        rule_checks (rule_row account position new (s.sequences.rules + 1))
        && account_exists account s.tables)) [
          | inr f ↦ inl (rw (e, f, insert_rule))
          | inl f ↦ inr (rw (e, f, insert_rule))
        ]
]

-- The loop fails, or stores every rule.
IsInserted : ℕ → ℕ → List NewRule → Db → Type 0
IsInserted account position news db =
    ((insert_rules account position news db).0 ≡ failed)
    ⊎ ((faults : List Fault) × (insert_rules account position news db ≡ (
      done (rules_of account position db.store.sequences.rules news),
      record {
        store =
            with_rules (rows_of account position db.store.sequences.rules news)
              (db.store.sequences.rules + length news) db.store;
        faults = faults;
      },
    )))

insert_rules-IsInserted :
    (account position : ℕ) (news : List NewRule) (db : Db) → IsInserted account position news db
unfolding IsInserted insert_rules
insert_rules-IsInserted account position [] db =
    let e : db.store.sequences.rules + 0 ≡ db.store.sequences.rules = omega arith in
    inr (db.faults, rw (e, append-nil db.store.tables.rules))
insert_rules-IsInserted account position (new ∷ news) db =
    elim (execute-IsExecuted (insert_rule (rule_row account position new)) db) [
      | inl h ↦ inl (bound_failed _ _ h)
      | inr (fs, h) ↦ rw h (elim (insert_rule-cases account position new db.store) [
        | inl k ↦ inl (bound_failed _ _ k)
        | inr k ↦
            let next : Db = record {
              store =
                  with_rules (rule_row account position new (db.store.sequences.rules + 1) ∷ [])
                    (db.store.sequences.rules + 1) db.store;
              faults = fs;
            } in
            let l : db.store.sequences.rules + 1 + length news
                ≡ db.store.sequences.rules + length (new ∷ news) =
              omega arith in
            rw k (elim (insert_rules-IsInserted account (position + 1) news next) [
              | inl m ↦ inl (bound_failed _ _ m)
              | inr (gs, m) ↦ inr (
                gs,
                rw (
                  m,
                  append_assoc db.store.tables.rules
                      (rule_row account position new (db.store.sequences.rules + 1) ∷ [])
                      (rows_of account (position + 1) (db.store.sequences.rules + 1) news),
                  l,
                ),
              )
            ])
      ])
    ]

deleted-done :
    (id : ℕ) (new : List NewRule) (db : Db) (fs : List Fault) (out : List Rule) (end : Db)
    → insert_rules id 0 new (record { store = without_rules id db.store; faults = fs })
      ≡ (done out, end)
    → end.store.tables ≡ (replaced id new db.store).tables
unfolding delete_rules IsInserted
deleted-done id new db fs out end h =
    elim (insert_rules-IsInserted id 0 new
      (record { store = without_rules id db.store; faults = fs })) [
        | inl m ↦ cc (sym m ∙ ap (λ r. r.0) h)
        | inr (gs, m) ↦ ap (λ r. r.1.store.tables) (sym h ∙ m)
      ]

replace_body-done :
    (id : ℕ) (new : List NewRule) (db : Db) (out : List Rule) (end : Db)
    → replace_body id new db ≡ (done out, end)
    → end.store.tables ≡ (replaced id new db.store).tables
unfolding replace_body delete_rules
replace_body-done id new db out end h = elim (execute-IsExecuted (delete_rules id) db) [
  | inl k ↦ cc (sym (bound_failed _ (λ _. insert_rules id 0 new) k) ∙ ap (λ r. r.0) h)
  | inr (fs, k) ↦
      deleted-done id new db fs out end (sym (ap (λ r. bound r (λ _. insert_rules id 0 new)) k) ∙ h)
]

-- Behind any run, the rules are as they were, or those of one account are exactly the new ones, in
-- their order, and the others are as they were.
abbrev pub IsWhole : Text → List NewRule → Db → Type 0
IsWhole number new db =
    let before = db.store.tables in
    let after = (replace_rules number new db).1.store.tables in
    ((after.rules ≡ before.rules) × (after.quota_counters ≡ before.quota_counters))
    ⊎ ((id : ℕ) × (after.rules
          ≡ filter (λ row. not (rule_of id row)) before.rules
            ++ rows_of id 0 db.store.sequences.rules new))

body-IsWhole :
    (number : Text) (new : List NewRule) (db : Db) (r : CplResult ℕ × Db)
    → IsKept db.store r.1.store
    → let after = (bound r (λ id. transaction (replace_body id new))).1.store.tables in
      ((after.rules ≡ db.store.tables.rules)
        × (after.quota_counters ≡ db.store.tables.quota_counters))
      ⊎ ((id : ℕ) × (after.rules
            ≡ filter (λ row. not (rule_of id row)) db.store.tables.rules
              ++ rows_of id 0 db.store.sequences.rules new))
unfolding IsKept delete_rules
body-IsWhole number new db (failed, next) k = inl (k.0, k.1)
body-IsWhole number new db (done id, next) k =
    elim (transaction-IsAtomic (replace_body id new) next) [
      | inl h ↦ inl (ap (λ t. t.rules) h ∙ k.0, ap (λ t. t.quota_counters) h ∙ k.1)
      | inr (begun, out, end, e, h, m) ↦ inr (
        id,
        ap (λ t. t.rules) (m ∙ replace_body-done id new begun out end h)
            ∙ ap
                (λ s.
                  filter (λ row. not (rule_of id row)) s.tables.rules
                  ++ rows_of id 0 s.sequences.rules new)
                e
            ∙ rw (k.0, k.2) refl,
      )
    ]

-- Whatever statement goes wrong, a replacement is done as a whole or not at all: the rules and the
-- counters are as they were, or the rules of one account are exactly the new ones, in their order,
-- and every other rule is as it was.
pub replace_rules-IsWhole : (number : Text) (new : List NewRule) (db : Db) → IsWhole number new db
unfolding replace_rules
replace_rules-IsWhole number new db =
    body-IsWhole number new db (account_id_or_create number db)
      (account_id_or_create-IsKept number db)
