-- ===== src/ControlPlane.antt =====
-- lib/controlplane/mod.rs: the control plane as the query path sees it, and its implementation in
-- memory.
pub mod Presets
pub mod InMem
pub mod Sql
pub mod Postgres
pub mod Service
use brdns.Prelude.{ℕ, ◌≡◌, Bool, true, false, List, leb}
use brdns.Prelude.Int.{ℤ, pos, leb_ℤ}
use brdns.Prelude.Text.{Text}
use brdns.Model.{AccountPolicy, Window}

-- `CplResult`; what the error says is not kept.
pub data CplResult {ℓ} (A : Type ℓ) : Type ℓ where
  done : A → CplResult A
  failed : CplResult A

-- The operations of the trait that serve queries. A budget of 0 or less is used up from the start,
-- and asking for it changes nothing.
pub record ControlPlane : Type 1 where
  pub State : Type 0
  pub record_quota : Text → ℕ → ℤ → Window → State → CplResult Bool × State
  pub snapshot : State → CplResult (List (Text × AccountPolicy))
  pub used_up :
      (account : Text) (rule_id : ℕ) (limit_count : ℤ) (window : Window) (s : State)
      → leb_ℤ limit_count (pos 0) ≡ true
      → record_quota account rule_id limit_count window s ≡ (done false, s)
