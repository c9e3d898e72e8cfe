-- ===== src/Quota/Windows.antt =====
-- The start of a window of lib/quota.rs, as a time since the epoch. The date library is taken to
-- count days of 86400 seconds, as chrono documents for UTC.
use brdns.Prelude.{ℕ, ◌+◌, ◌-◌, ◌*◌, ◌/◌, ◌%◌, ◌≤◌, ◌<◌, ◌≡◌, refl, ap, some, true, arith}
use brdns.Prelude.Int.{pos, leb_ℤ}
use brdns.Model.{hour, day, week}
use brdns.Quota.{Chrono, start_of_day, window_of, window_start}

-- A date with the same day and the same hour, minute and second but for what a setter sets.
pub record Civil : Type 0 where
  pub days : ℕ
  pub hours : ℕ
  pub minutes : ℕ
  pub seconds : ℕ

abbrev pub stamp : Civil → ℕ
stamp t = t.days * 86400 + t.hours * 3600 + t.minutes * 60 + t.seconds

abbrev pub civil_of : ℕ → Civil
civil_of n = record {
  days = n / 86400;
  hours = n % 86400 / 3600;
  minutes = n % 3600 / 60;
  seconds = n % 60;
}

-- A date from the epoch on.
abbrev pub IsSince : (c : Chrono) → c.DateTime → Type 0
IsSince c dt = leb_ℤ (pos 0) (c.timestamp dt) ≡ true

-- What chrono documents of its calls, for dates from the epoch on: a call that stays behind the epoch
-- gives such a date.
pub record Calendar (c : Chrono) : Type 0 where
  pub civil : c.DateTime → Civil
  pub from_timestamp :
      (n : ℕ) (dt : c.DateTime)
      → c.from_timestamp (pos n) ≡ some dt
      → IsSince c dt × (civil dt ≡ civil_of n)
  pub with_hour :
      (dt : c.DateTime)
      → IsSince c dt
      → (set : c.DateTime) × (c.with_hour dt 0 ≡ some set)
        × IsSince c set
        × (civil set ≡ record (civil dt) { hours = 0 })
  pub with_minute :
      (dt : c.DateTime)
      → IsSince c dt
      → (set : c.DateTime) × (c.with_minute dt 0 ≡ some set)
        × IsSince c set
        × (civil set ≡ record (civil dt) { minutes = 0 })
  pub with_second :
      (dt : c.DateTime)
      → IsSince c dt
      → (set : c.DateTime) × (c.with_second dt 0 ≡ some set)
        × IsSince c set
        × (civil set ≡ record (civil dt) { seconds = 0 })
  pub with_nanosecond :
      (dt : c.DateTime)
      → IsSince c dt
      → (set : c.DateTime) × (c.with_nanosecond dt 0 ≡ some set)
        × IsSince c set
        × (civil set ≡ civil dt)
  pub hour_of : (dt : c.DateTime) → IsSince c dt → c.hour_of dt ≡ (civil dt).hours
  pub num_days_from_monday :
      (dt : c.DateTime) → IsSince c dt → c.num_days_from_monday dt ≡ ((civil dt).days + 3) % 7
  pub add_hours :
      (dt : c.DateTime) (h : ℕ)
      → IsSince c dt
      → (civil dt).hours + h < 24
      → IsSince c (c.add_hours dt h)
        × (civil (c.add_hours dt h) ≡ record (civil dt) { hours = (civil dt).hours + h })
  pub sub_days :
      (dt : c.DateTime) (n : ℕ)
      → IsSince c dt
      → n ≤ (civil dt).days
      → IsSince c (c.sub_days dt n)
        × (civil (c.sub_days dt n) ≡ record (civil dt) { days = (civil dt).days - n })
  pub timestamp : (dt : c.DateTime) → IsSince c dt → c.timestamp dt ≡ pos (stamp (civil dt))

abbrev pub midnight : ℕ → Civil
midnight days = record { days = days; hours = 0; minutes = 0; seconds = 0 }

module _ ⦃c : Chrono⦄ (l : Calendar c) where
  start_of_day-midnight :
      (dt : c.DateTime)
      → IsSince c dt
      → (set : c.DateTime) × (start_of_day dt ≡ some set)
        × IsSince c set
        × (l.civil set ≡ midnight (l.civil dt).days)
  unfolding start_of_day
  start_of_day-midnight dt w =
      let (h, eh, wh, ch) = l.with_hour dt w in
      let (m, em, wm, cm) = l.with_minute h wh in
      let (s, es, ws, cs) = l.with_second m wm in
      let (n, en, wn, cn) = l.with_nanosecond s ws in
      (n, rw (eh, em, es, en) refl, wn, rw (cn, cs, cm, ch) refl)

  hour_start :
      (n : ℕ) (dt : c.DateTime)
      → IsSince c dt
      → l.civil dt ≡ civil_of n
      → window_of dt hour ≡ some (pos (n / 3600 * 3600))
  unfolding window_of
  hour_start n dt w e =
      let (set, es, ws, cs) = start_of_day-midnight dt w in
      let few : (l.civil set).hours + c.hour_of dt < 24 =
        rw (cs, l.hour_of dt w, e) (omega arith) in
      let (wa, a) = l.add_hours set (c.hour_of dt) ws few in
      rw (es, l.timestamp (c.add_hours set (c.hour_of dt)) wa, a, cs, l.hour_of dt w, e)
        (ap (λ (t : ℕ). some (pos t)) (omega arith))

  day_start :
      (n : ℕ) (dt : c.DateTime)
      → IsSince c dt
      → l.civil dt ≡ civil_of n
      → window_of dt day ≡ some (pos (n / 86400 * 86400))
  unfolding window_of
  day_start n dt w e =
      let (set, es, ws, cs) = start_of_day-midnight dt w in
      rw (es, l.timestamp set ws, cs, e) (ap (λ (t : ℕ). some (pos t)) (omega arith))

  week_start :
      (n : ℕ) (dt : c.DateTime)
      → IsSince c dt
      → l.civil dt ≡ civil_of n
      → 345600 ≤ n
      → window_of dt week ≡ some (pos ((n + 259200) / 604800 * 604800 - 259200))
  unfolding window_of
  week_start n dt w e h =
      let monday = c.sub_days dt (c.num_days_from_monday dt) in
      let few : c.num_days_from_monday dt ≤ (l.civil dt).days =
        rw (l.num_days_from_monday dt w, e) (omega (arith, h)) in
      let (wa, a) = l.sub_days dt (c.num_days_from_monday dt) w few in
      let (set, es, ws, cs) = start_of_day-midnight monday wa in
      rw (es, l.timestamp set ws, cs, a, l.num_days_from_monday dt w, e)
        (ap (λ (t : ℕ). some (pos t)) (omega (arith, h)))

  -- With a date library that behaves as documented, from the first Monday of 1970 on, the window
  -- of an hour starts at the last full hour, that of a day at the last midnight, and that of a
  -- week at the last midnight of a Monday.
  pub window_start_lem :
      (n : ℕ) (dt : c.DateTime)
      → c.from_timestamp (pos n) ≡ some dt
      → 345600 ≤ n
      → (window_start (pos n) hour ≡ some (pos (n / 3600 * 3600)))
        × (window_start (pos n) day ≡ some (pos (n / 86400 * 86400)))
        × (window_start (pos n) week ≡ some (pos ((n + 259200) / 604800 * 604800 - 259200)))
  unfolding window_start
  window_start_lem n dt f h =
      let (w, e) = l.from_timestamp n dt f in
      (rw f (hour_start n dt w e), rw f (day_start n dt w e), rw f (week_start n dt w e h))
