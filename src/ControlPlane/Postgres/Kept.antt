-- ===== src/ControlPlane/Postgres/Kept.antt =====
-- The lookup or the creation of an account in lib/controlplane/storage/postgres.rs, where any
-- statement may go wrong.
use brdns.Prelude.{
  ℕ, ◌+◌, ◌-◌, ◌^◌, ◌≡◌, refl, ◌∙◌, inl, inr, true, false, none, some, ltb, ltb→lt, arith, Option,
  Bool-cases, Option-cases,
}
use brdns.Prelude.Text.{Text}
use brdns.ControlPlane.{CplResult, done, failed}
use brdns.ControlPlane.Sql.{AccountRow, Store, Db, bound, return, execute}
use brdns.ControlPlane.Sql.Transactions.{execute-store, select-store}
use brdns.ControlPlane.Sql.Accounts.{insert_account, select_account}
use brdns.ControlPlane.Postgres.{id_of, account_id, account_id_or_create}
use brdns.ControlPlane.Postgres.Ensured.{insert_account_new}

-- What an account's lookup or creation leaves alone.
unfoldable pub IsKept : Store → Store → Type 0
IsKept s t =
    (t.tables.rules ≡ s.tables.rules)
    × (t.tables.quota_counters ≡ s.tables.quota_counters)
    × (t.sequences.rules ≡ s.sequences.rules)

insert_account_full :
    (number : Text) (s : Store)
    → ltb s.sequences.accounts (2 ^ 63 - 1) ≡ false
    → insert_account number s ≡ (failed, s)
unfolding insert_account
insert_account_full number s e = rw (e, insert_account)

insert_account_there :
    (number : Text) (s : Store) (row : AccountRow)
    → ltb s.sequences.accounts (2 ^ 63 - 1) ≡ true
    → select_account number s.tables ≡ some row
    → insert_account number s ≡ (
      done row.id,
      record s { sequences = record s.sequences { accounts = s.sequences.accounts + 1 } },
    )
unfolding insert_account
insert_account_there number s row e f = rw (e, f, insert_account)

insert_account-IsKept : (number : Text) (s : Store) → IsKept s (insert_account number s).1
unfolding IsKept
insert_account-IsKept number s = elim (Bool-cases (ltb s.sequences.accounts (2 ^ 63 - 1))) [
  | inr e ↦ rw (insert_account_full number s e) (refl, refl, refl)
  | inl e ↦ elim (Option-cases (select_account number s.tables)) [
    | inl f ↦ rw (insert_account_new number s f (omega (arith, ltb→lt _ _ e))) (refl, refl, refl)
    | inr (row, f) ↦ rw (insert_account_there number s row e f) (refl, refl, refl)
  ]
]

IsKept-trans : (s t u : Store) → IsKept s t → IsKept t u → IsKept s u
unfolding IsKept
IsKept-trans s t u h k = (k.0 ∙ h.0, k.1 ∙ h.1, k.2 ∙ h.2)

IsKept-eq : (s t : Store) → t ≡ s → IsKept s t
unfolding IsKept
IsKept-eq s t h = rw h (refl, refl, refl)

execute-IsKept :
    (number : Text) (db : Db) → IsKept db.store (execute (insert_account number) db).1.store
execute-IsKept number db = elim (execute-store (insert_account number) db) [
  | inl h ↦ IsKept-eq _ _ h
  | inr h ↦ rw h (insert_account-IsKept number db.store)
]

found-IsKept :
    (number : Text) (s : Store) (r : CplResult (Option ℕ) × Db)
    → r.1.store ≡ s
    → IsKept s
        (bound r (λ found. elim found [
          | some id ↦ return id
          | none ↦ execute (insert_account number)
        ])).1.store
found-IsKept number s (failed, db) h = IsKept-eq _ _ h
found-IsKept number s (done (some id), db) h = IsKept-eq _ _ h
found-IsKept number s (done none, db) h =
    IsKept-trans _ _ _ (IsKept-eq _ _ h) (execute-IsKept number db)

pub account_id_or_create-IsKept :
    (number : Text) (db : Db) → IsKept db.store (account_id_or_create number db).1.store
unfolding account_id_or_create account_id
account_id_or_create-IsKept number db =
    found-IsKept number db.store (account_id number db)
      (select-store (λ tables. id_of (select_account number tables)) db)
