-- ===== src/ControlPlane/Sql/Transactions.antt =====
-- Statements and transactions under faults.
use brdns.Prelude.{◌≡◌, refl, ap, ◌∙◌, ◌⊎◌, inl, inr, List, [], ◌∷◌}
use brdns.ControlPlane.{CplResult, done, failed}
use brdns.ControlPlane.Sql.{
  Tables, Store, Fault, Db, Statement, Sql, execute, select, commit, bound, ended, transaction,
}

-- A statement fails, or does what it does without faults.
abbrev pub IsExecuted : {A : Type 0} → Statement A → Db → Type 0
IsExecuted st db =
    ((execute st db).0 ≡ failed)
    ⊎ ((faults : List Fault) × (execute st db
          ≡ ((st db.store).0, record { store = (st db.store).1; faults = faults })))

pub execute-IsExecuted : {A : Type 0} (st : Statement A) (db : Db) → IsExecuted st db
execute-IsExecuted st db = with_faults st db.store db.faults
  where
    with_faults :
        {A : Type 0} (st : Statement A) (s : Store) (fs : List Fault)
        → IsExecuted st (record { store = s; faults = fs })
    with_faults st s [] = unfold execute in inr ([], refl)
    with_faults st s (Fault.fine ∷ fs) = unfold execute in inr (fs, refl)
    with_faults st s (Fault.refused ∷ fs) = unfold execute in inl refl
    with_faults st s (Fault.lost ∷ fs) = unfold execute in inl refl

-- A read changes nothing.
pub select-store : {A : Type 0} (read : Tables → A) (db : Db) → (select read db).1.store ≡ db.store
select-store read db = with_faults read db.store db.faults
  where
    with_faults :
        {A : Type 0} (read : Tables → A) (s : Store) (fs : List Fault)
        → (select read (record { store = s; faults = fs })).1.store ≡ s
    with_faults read s [] = unfold select in refl
    with_faults read s (Fault.fine ∷ fs) = unfold select in refl
    with_faults read s (Fault.refused ∷ fs) = unfold select in refl
    with_faults read s (Fault.lost ∷ fs) = unfold select in refl

-- The tables are as they were, or as the whole body leaves them.
abbrev pub IsAtomic : {A : Type 0} → Sql A → Db → Type 0
IsAtomic {A} body db =
    ((transaction body db).1.store.tables ≡ db.store.tables)
    ⊎ ((begun : Db) × (a : A) × (end : Db) × (begun.store ≡ db.store)
        × (body begun ≡ (done a, end))
        × ((transaction body db).1.store.tables ≡ end.store.tables))

commit-tables :
    {A : Type 0} (before : Tables) (a : A) (s : Store) (fs : List Fault)
    → ((commit before a (record { store = s; faults = fs })).1.store.tables ≡ before)
      ⊎ ((commit before a (record { store = s; faults = fs })).1.store.tables ≡ s.tables)
unfolding commit
commit-tables before a s [] = inr refl
commit-tables before a s (Fault.fine ∷ fs) = inr refl
commit-tables before a s (Fault.refused ∷ fs) = inl refl
commit-tables before a s (Fault.lost ∷ fs) = inr refl

ended-tables :
    {A : Type 0} (before : Tables) (r : CplResult A × Db)
    → ((ended before r).1.store.tables ≡ before)
      ⊎ ((a : A) × (end : Db) × (r ≡ (done a, end))
          × ((ended before r).1.store.tables ≡ end.store.tables))
ended-tables before (failed, db) = inl refl
ended-tables before (done a, db) = elim (commit-tables before a db.store db.faults) [
  | inl h ↦ inl h
  | inr h ↦ inr (a, db, refl, h)
]

begun-IsAtomic :
    {A : Type 0} (body : Sql A) (db : Db) (r : CplResult Unit × Db)
    → r.1.store ≡ db.store
    → ((bound r (λ _ begun. ended begun.store.tables (body begun))).1.store.tables
        ≡ db.store.tables)
      ⊎ ((begun : Db) × (a : A) × (end : Db) × (begun.store ≡ db.store)
          × (body begun ≡ (done a, end))
          × ((bound r (λ _ begun. ended begun.store.tables (body begun))).1.store.tables
              ≡ end.store.tables))
begun-IsAtomic body db (failed, begun) e = inl (ap (λ s. s.tables) e)
begun-IsAtomic body db (done _, begun) e = elim (ended-tables begun.store.tables (body begun)) [
  | inl h ↦ inl (h ∙ ap (λ s. s.tables) e)
  | inr (a, end, h, k) ↦ inr (begun, a, end, e, h, k)
]

pub transaction-IsAtomic : {A : Type 0} (body : Sql A) (db : Db) → IsAtomic body db
unfolding transaction
transaction-IsAtomic body db =
    begun-IsAtomic body db (select (λ _. tt) db) (select-store (λ _. tt) db)

pub execute-store :
    {A : Type 0} (st : Statement A) (db : Db)
    → ((execute st db).1.store ≡ db.store) ⊎ ((execute st db).1.store ≡ (st db.store).1)
execute-store st db = with_faults st db.store db.faults
  where
    with_faults :
        {A : Type 0} (st : Statement A) (s : Store) (fs : List Fault)
        → ((execute st (record { store = s; faults = fs })).1.store ≡ s)
          ⊎ ((execute st (record { store = s; faults = fs })).1.store ≡ (st s).1)
    with_faults st s [] = unfold execute in inr refl
    with_faults st s (Fault.fine ∷ fs) = unfold execute in inr refl
    with_faults st s (Fault.refused ∷ fs) = unfold execute in inl refl
    with_faults st s (Fault.lost ∷ fs) = unfold execute in inr refl

pub bound_failed :
    {A B : Type 0} (r : CplResult A × Db) (f : A → Sql B) → r.0 ≡ failed → (bound r f).0 ≡ failed
bound_failed (failed, db) f h = refl
bound_failed (done a, db) f h = cc h
