-- ===== src/ControlPlane/Postgres/Ensured.antt =====
-- The account that an operation of lib/controlplane/storage/postgres.rs works on.
use brdns.Prelude.{
  ℕ, ◌+◌, ◌-◌, ◌^◌, ◌<◌, ◌≡◌, refl, true, none, some, [], ◌∷◌, ◌++◌, arith, lt→ltb, Option-cases,
  inl, inr, ◌==◌,
}
use brdns.Prelude.Select.{filter, filter-append, first-none, exists-first}
use brdns.Prelude.Text.{Text, text_eq_iff}
use brdns.ControlPlane.{done}
use brdns.ControlPlane.Sql.{AccountRow, Tables, Store, Db, execute, select}
use brdns.ControlPlane.Sql.Accounts.{has_number, select_account, insert_account, account_exists}
use brdns.ControlPlane.Postgres.{account_id, account_id_or_create, id_of}

-- A database that answers every statement to come.
abbrev pub calm : Store → Db
calm store = record { store = store; faults = [] }

abbrev pub with_new_account : Text → Store → Store
with_new_account number s = record {
  tables = record s.tables {
    accounts =
        s.tables.accounts
        ++ (record { id = s.sequences.accounts + 1; account_number = number } ∷ []);
  };
  sequences = record s.sequences { accounts = s.sequences.accounts + 1 };
}

-- The account of a number, made where it is not there.
unfoldable pub ensured : Text → Store → ℕ × Store
unfolding select_account
ensured number s = elim (select_account number s.tables) [
  | some row ↦ (row.id, s)
  | none ↦ (s.sequences.accounts + 1, with_new_account number s)
]

ensured_new :
    (number : Text) (s : Store)
    → select_account number s.tables ≡ none
    → ensured number s ≡ (s.sequences.accounts + 1, with_new_account number s)
unfolding ensured
ensured_new number s e = rw (e, ensured)

pub ensured_there :
    (number : Text) (s : Store) (row : AccountRow)
    → select_account number s.tables ≡ some row
    → ensured number s ≡ (row.id, s)
unfolding ensured
ensured_there number s row e = rw (e, ensured)

pub insert_account_new :
    (number : Text) (s : Store)
    → select_account number s.tables ≡ none
    → s.sequences.accounts + 1 < 2 ^ 63
    → insert_account number s ≡ (done (s.sequences.accounts + 1), with_new_account number s)
unfolding insert_account
insert_account_new number s e b =
    rw (lt→ltb s.sequences.accounts (2 ^ 63 - 1) (omega (arith, b)), e, insert_account)

pub account_id-calm :
    (number : Text) (s : Store)
    → account_id number (calm s) ≡ (done (id_of (select_account number s.tables)), calm s)
unfolding account_id select execute
account_id-calm number s = refl

pub account_id_or_create-calm :
    (number : Text) (s : Store)
    → s.sequences.accounts + 1 < 2 ^ 63
    → account_id_or_create number (calm s) ≡ (done (ensured number s).0, calm (ensured number s).1)
unfolding account_id_or_create execute
account_id_or_create-calm number s b = elim (Option-cases (select_account number s.tables)) [
  | inl e ↦ rw (e, ensured_new number s e, insert_account_new number s e b)
  | inr (row, e) ↦ rw (e, ensured_there number s row e)
]

select_account-append :
    (number : Text) (t : Tables) (id : ℕ)
    → select_account number t ≡ none
    → select_account number
        (record t { accounts = t.accounts ++ (record { id = id; account_number = number } ∷ []) })
      ≡ some (record { id = id; account_number = number })
unfolding select_account has_number
select_account-append number t id h =
    rw
      (filter-append (has_number number) t.accounts
        (record { id = id; account_number = number } ∷ []))
      (rw
        (first-none (filter (has_number number) t.accounts) h, (text_eq_iff number number).1 refl))

pub select_account-ensured :
    (number : Text) (s : Store)
    → id_of (select_account number (ensured number s).1.tables) ≡ some (ensured number s).0
select_account-ensured number s = elim (Option-cases (select_account number s.tables)) [
  | inl e ↦
      rw
        (ensured_new number s e, select_account-append number s.tables (s.sequences.accounts + 1) e)
  | inr (row, e) ↦ rw (ensured_there number s row e, e)
]

pub select_account-exists :
    (number : Text) (t : Tables) (id : ℕ)
    → id_of (select_account number t) ≡ some id
    → account_exists id t ≡ true
select_account-exists number t id h = elim (Option-cases (select_account number t)) [
  | inl e ↦ cc (h, e)
  | inr (row, e) ↦
      exists-first (has_number number) (λ r. r.id == id) t.accounts row (unfold select_account in e)
        (ground (arith, h, e))
]

pub ensured-tables :
    (number : Text) (s : Store)
    → ((ensured number s).1.tables.rules ≡ s.tables.rules)
      × ((ensured number s).1.tables.quota_counters ≡ s.tables.quota_counters)
      × ((ensured number s).1.sequences.rules ≡ s.sequences.rules)
ensured-tables number s = elim (Option-cases (select_account number s.tables)) [
  | inl e ↦ rw (ensured_new number s e) (refl, refl, refl)
  | inr (row, e) ↦ rw (ensured_there number s row e) (refl, refl, refl)
]
