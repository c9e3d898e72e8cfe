-- ===== src/ControlPlane/Postgres/Service.antt =====
-- The control plane over Postgres, answering every statement, as an implementation of the trait
-- that the query path uses.
use brdns.Prelude.{ℕ, ◌≡◌, Bool, true, false}
use brdns.Prelude.Int.{ℤ, pos, leb_ℤ}
use brdns.Prelude.Text.{Text}
use brdns.Model.{Window}
use brdns.Quota.{Chrono}
use brdns.ControlPlane.{CplResult, done, ControlPlane}
use brdns.ControlPlane.Sql.{Store}
use brdns.ControlPlane.Postgres.{record_quota}
use brdns.ControlPlane.Postgres.Snapshot.{snapshot}
use brdns.ControlPlane.Postgres.Ensured.{calm}

module _ ⦃c : Chrono⦄ where
  abbrev pub record_at : ℤ → Text → ℕ → ℤ → Window → Store → CplResult Bool × Store
  record_at now account rule_id limit_count window store =
      let (answer, db) = record_quota now account rule_id limit_count window (calm store) in
      (answer, db.store)

  pub record_quota_used_up :
      (now : ℤ) (account : Text) (rule_id : ℕ) (limit_count : ℤ) (window : Window) (store : Store)
      → leb_ℤ limit_count (pos 0) ≡ true
      → record_quota now account rule_id limit_count window (calm store) ≡ (done false, calm store)
  unfolding record_quota
  record_quota_used_up now account rule_id limit_count window store h = rw (h, record_quota)

  -- At a time of the clock.
  abbrev pub postgres : ℤ → ControlPlane
  postgres now = record {
    State = Store;
    record_quota = record_at now;
    snapshot = λ store. (snapshot (calm store)).0;
    used_up = λ account rule_id limit_count window s h.
        rw (record_at, record_quota_used_up now account rule_id limit_count window s h);
  }
