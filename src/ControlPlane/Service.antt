-- ===== src/ControlPlane/Service.antt =====
-- The control plane in memory as an implementation of the trait that the query path uses.
use brdns.Prelude.{ℕ, ◌≡◌, Bool, true, false, none, some}
use brdns.Prelude.Int.{ℤ, pos, leb_ℤ}
use brdns.Prelude.Text.{Text}
use brdns.Model.{Window}
use brdns.Quota.{Chrono}
use brdns.ControlPlane.{CplResult, done, failed, ControlPlane}
use brdns.ControlPlane.InMem.{Inner, record_quota, snapshot}

module _ ⦃c : Chrono⦄ where
  -- A panic of the date library fails the query.
  abbrev pub record_at : ℤ → Text → ℕ → ℤ → Window → Inner → CplResult Bool × Inner
  record_at now account rule_id limit_count window inner =
      elim (record_quota now rule_id limit_count window inner) [
        | none ↦ (failed, inner)
        | some (ok, next) ↦ (done ok, next)
      ]

  pub record_quota_used_up :
      (now : ℤ) (rule_id : ℕ) (limit_count : ℤ) (window : Window) (inner : Inner)
      → leb_ℤ limit_count (pos 0) ≡ true
      → record_quota now rule_id limit_count window inner ≡ some (false, inner)
  unfolding record_quota
  record_quota_used_up now rule_id limit_count window inner h = rw (h, record_quota)

  -- At a time of the clock.
  abbrev pub in_mem : ℤ → ControlPlane
  in_mem now = record {
    State = Inner;
    record_quota = record_at now;
    snapshot = λ inner. done (snapshot inner);
    used_up = λ account rule_id limit_count window s h.
        rw (record_at, record_quota_used_up now rule_id limit_count window s h);
  }
