-- ===== src/Quota.antt =====
-- lib/quota.rs: the start of the window that a point in time falls into.
pub mod Windows
use brdns.Prelude.{ℕ, Option, none, some}
use brdns.Prelude.Int.{ℤ}
use brdns.Model.{Window, hour, day, week, month}

-- The calls of the date library chrono. `none` is a value that does not exist.
pub record Chrono : Type 1 where
  pub DateTime : Type 0
  pub from_timestamp : ℤ → Option DateTime
  pub with_hour : DateTime → ℕ → Option DateTime
  pub with_minute : DateTime → ℕ → Option DateTime
  pub with_second : DateTime → ℕ → Option DateTime
  pub with_nanosecond : DateTime → ℕ → Option DateTime
  pub with_day : DateTime → ℕ → Option DateTime
  pub hour_of : DateTime → ℕ
  pub num_days_from_monday : DateTime → ℕ
  pub add_hours : DateTime → ℕ → DateTime
  pub sub_days : DateTime → ℕ → DateTime
  pub timestamp : DateTime → ℤ

infixl 5 ◌>>=◌
abbrev pub ◌>>=◌ {ℓ κ} : {A : Type ℓ} {B : Type κ} → Option A → (A → Option B) → Option B
none >>= f = none
some a >>= f = f a

module _ ⦃c : Chrono⦄ where
  -- `unwrap` on `none` is a panic: the answer is then `none`.
  unfoldable pub start_of_day : c.DateTime → Option c.DateTime
  start_of_day dt = do
    h ← c.with_hour dt 0
    m ← c.with_minute h 0
    s ← c.with_second m 0
    c.with_nanosecond s 0

  unfoldable pub window_of : c.DateTime → Window → Option ℤ
  unfolding start_of_day
  window_of dt hour = do
    midnight ← start_of_day dt
    some (c.timestamp (c.add_hours midnight (c.hour_of dt)))
  window_of dt day = do midnight ← start_of_day dt; some (c.timestamp midnight)
  window_of dt week = do
    midnight ← start_of_day (c.sub_days dt (c.num_days_from_monday dt))
    some (c.timestamp midnight)
  window_of dt month = do
    first ← c.with_day dt 1
    midnight ← start_of_day first
    some (c.timestamp midnight)

  unfoldable pub window_start : ℤ → Window → Option ℤ
  unfolding window_of
  window_start now window = do dt ← c.from_timestamp now; window_of dt window
