-- ===== src/Tests/Clock.antt =====
-- A clock for the tests: a time is its seconds, each day begins a window of any kind.
use brdns.Prelude.{◌+◌, ◌-◌, ◌%◌, ◌≡◌, refl, sym, ap, Option, none, some, arith}
use brdns.Prelude.Int.{ℤ, pos, negsuc}
use brdns.Model.{hour, day, week}
use brdns.Quota.{Chrono, window_start}
use brdns.Quota.Windows.{Civil, IsSince, stamp, civil_of, Calendar, window_start_lem}

abbrev pub clock : Chrono
clock = record {
  DateTime = ℤ;
  from_timestamp = λ t. some t;
  with_hour = λ t h. some t;
  with_minute = λ t h. some t;
  with_second = λ t h. some t;
  with_nanosecond = λ t h. some t;
  with_day = λ t h. some t;
  hour_of = λ t. 0;
  num_days_from_monday = λ t. 0;
  add_hours = λ t h. t;
  sub_days = λ t h. t;
  timestamp = λ t. t;
}

-- A clock of days, hours, minutes and seconds, from the epoch on. Its months are not those of the
-- calendar.
abbrev from_epoch : ℤ → Option Civil
from_epoch (pos n) = some (civil_of n)
from_epoch (negsuc n) = none

abbrev pub utc : Chrono
utc = record {
  DateTime = Civil;
  from_timestamp = from_epoch;
  with_hour = λ t h. some (record t { hours = h });
  with_minute = λ t m. some (record t { minutes = m });
  with_second = λ t s. some (record t { seconds = s });
  with_nanosecond = λ t n. some t;
  with_day = λ t d. some t;
  hour_of = λ t. t.hours;
  num_days_from_monday = λ t. (t.days + 3) % 7;
  add_hours = λ t h. record t { hours = t.hours + h };
  sub_days = λ t n. record t { days = t.days - n };
  timestamp = λ t. pos (stamp t);
}

or_civil : Civil → Option Civil → Civil
or_civil other none = other
or_civil other (some t) = t

from_some : (a b : Civil) → some a ≡ some b → b ≡ a
unfolding or_civil
from_some a b e = sym (ap (or_civil a) e)

since : (t : Civil) → IsSince utc t
since t = ground arith

utc-Calendar : Calendar utc
utc-Calendar = record {
  civil = λ t. t;
  from_timestamp = λ n dt e. (since dt, from_some (civil_of n) dt e);
  with_hour = λ t w. (_, refl, since (record t { hours = 0 }), refl);
  with_minute = λ t w. (_, refl, since (record t { minutes = 0 }), refl);
  with_second = λ t w. (_, refl, since (record t { seconds = 0 }), refl);
  with_nanosecond = λ t w. (t, refl, w, refl);
  hour_of = λ t w. refl;
  num_days_from_monday = λ t w. refl;
  add_hours = λ t h w few. (since (record t { hours = t.hours + h }), refl);
  sub_days = λ t n w few. (since (record t { days = t.days - n }), refl);
  timestamp = λ t w. refl;
}

-- Wednesday, 12 March 2025, 13:45:30.
window_start_lem_example :
    (window_start ⦃c = utc⦄ (pos 1741787130) hour ≡ some (pos 1741784400))
    × (window_start ⦃c = utc⦄ (pos 1741787130) day ≡ some (pos 1741737600))
    × (window_start ⦃c = utc⦄ (pos 1741787130) week ≡ some (pos 1741564800))
window_start_lem_example =
    window_start_lem ⦃c = utc⦄ utc-Calendar 1741787130 (civil_of 1741787130) refl (omega arith)
