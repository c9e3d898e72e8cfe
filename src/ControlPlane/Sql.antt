-- ===== src/ControlPlane/Sql.antt =====
-- The database behind lib/controlplane/storage/postgres.rs: the tables of migrations/0001_init.sql,
-- the statements' way of failing, and transactions. Time stamps that no statement reads are left
-- out, as are the tables `members` and `blocklist_feeds`, which the code does not use, and the
-- numbers of the counters. Texts are taken to hold no NUL byte.
pub mod Accounts
pub mod Rules
pub mod Upstreams
pub mod Counters
pub mod Domains
pub mod Transactions
use brdns.Prelude.{ℕ, ◌+◌, ◌-◌, ◌^◌, Bool, Option, none, some, List, [], ◌∷◌, ltb, if◌then◌else◌}
use brdns.Prelude.Int.{ℤ}
use brdns.Prelude.Text.{Text}
use brdns.ControlPlane.{CplResult, done, failed}

pub record AccountRow : Type 0 where
  pub id : ℕ
  pub account_number : Text

-- An enum is stored as its text.
pub record RuleRow : Type 0 where
  pub id : ℕ
  pub account_id : ℕ
  pub position : ℕ
  pub action : Text
  pub target_type : Text
  pub target_value : Text
  pub limit_count : Option ℤ
  pub limit_window : Option Text
  pub enabled : Bool

pub record UpstreamRow : Type 0 where
  pub id : ℕ
  pub account_id : Option ℕ
  pub name : Text
  pub protocol : Text
  pub host : Text
  pub port : ℤ
  pub addr : Option Text
  pub is_preset : Bool

pub record CounterRow : Type 0 where
  pub account_id : ℕ
  pub rule_id : ℕ
  pub window_start : ℤ
  pub count : ℕ

pub record Tables : Type 0 where
  pub accounts : List AccountRow
  pub rules : List RuleRow
  pub upstreams : List UpstreamRow
  pub quota_counters : List CounterRow
  pub domains : List (Text × ℤ)
  pub domain_categories : List (Text × Text)

-- The last numbers that the `BIGSERIAL` columns have given out. A rollback does not take them back.
pub record Sequences : Type 0 where
  pub accounts : ℕ
  pub rules : ℕ
  pub upstreams : ℕ

pub record Store : Type 0 where
  pub tables : Tables
  pub sequences : Sequences

-- What becomes of a statement on its way: it is answered, it never runs, or it runs and the answer
-- is lost.
pub data Fault : Type 0 where
  fine refused lost : Fault

-- The faults are those of the statements to come, one each; behind them nothing goes wrong.
pub record Db : Type 0 where
  pub store : Store
  pub faults : List Fault

-- The next number of a sequence, up to the largest `BIGINT`.
abbrev pub nextval : ℕ → Option ℕ
nextval last = if ltb last (2 ^ 63 - 1) then some (last + 1) else none

-- What the database does for a statement: an answer or an error, and what it then holds.
abbrev pub Statement : Type 0 → Type 0
Statement A = Store → CplResult A × Store

abbrev pub Sql : Type 0 → Type 0
Sql A = Db → CplResult A × Db

abbrev pub bound : {A B : Type 0} → CplResult A × Db → (A → Sql B) → CplResult B × Db
bound (failed, db) f = (failed, db)
bound (done a, db) f = f a db

-- `?`
infixl 5 ◌>>=◌
abbrev pub ◌>>=◌ : {A B : Type 0} → Sql A → (A → Sql B) → Sql B
(m >>= f) db = bound (m db) f

abbrev pub return : {A : Type 0} → A → Sql A
return a db = (done a, db)

-- A result that does not touch the database.
abbrev pub lift : {A : Type 0} → CplResult A → Sql A
lift r db = (r, db)

unfoldable pub execute : {A : Type 0} → Statement A → Sql A
execute statement db = elim db.faults [
  | [] ↦ let (answer, store) = statement db.store in (answer, record db { store = store })
  | Fault.fine ∷ faults ↦
      let (answer, store) = statement db.store in
      (answer, record { store = store; faults = faults })
  | Fault.refused ∷ faults ↦ (failed, record db { faults = faults })
  | Fault.lost ∷ faults ↦
      let (answer, store) = statement db.store in
      (failed, record { store = store; faults = faults })
]

-- A `SELECT`.
unfoldable pub select : {A : Type 0} → (Tables → A) → Sql A
unfolding execute
select read = execute (λ store. (done (read store.tables), store))

-- `ROLLBACK`
abbrev pub restored : Tables → Db → Db
restored before db = record db { store = record db.store { tables = before } }

unfoldable pub commit : {A : Type 0} → Tables → A → Sql A
commit before a db = elim db.faults [
  | [] ↦ (done a, db)
  | Fault.fine ∷ faults ↦ (done a, record db { faults = faults })
  | Fault.refused ∷ faults ↦ (failed, restored before (record db { faults = faults }))
  | Fault.lost ∷ faults ↦ (failed, record db { faults = faults })
]

abbrev pub ended : {A : Type 0} → Tables → CplResult A × Db → CplResult A × Db
ended before (failed, db) = (failed, restored before db)
ended before (done a, db) = commit before a db

-- `begin`, the statements of the body, and `commit`; the body's error drops the transaction, which
-- rolls it back.
unfoldable pub transaction : {A : Type 0} → Sql A → Sql A
unfolding select commit
transaction body = do _ ← select (λ _. tt); λ db. ended db.store.tables (body db)
