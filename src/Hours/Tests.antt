-- ===== src/Hours/Tests.antt =====
-- A week of eight-hour days in a zone one hour ahead of UTC, and a policy whose times have offsets.
use dtlab_control_center.Prelude.{
  ◌+◌, ◌-◌, ◌*◌, ◌≤◌, ◌<◌, ◌≡◌, ◌≢◌, ◌⊎◌, refl, true, false, Option, none, some, [], ◌∷◌, Text,
  codes, text_eq, ok, err, arith, if◌then◌else◌,
}
use dtlab_control_center.Hours.{
  day, hour, calendar_days, naive, east, west, Time, Local, Zone, Calendar, Policy, Window,
  overflow, mixed_times, or_error, validate, day_open, spend, add_business_hours, diverged,
  is_business_open,
}
use dtlab_control_center.Hours.Deadline.{worked, before_day}
use dtlab_control_center.Hours.Rounds.{IsInHours}
use dtlab_control_center.Hours.Total.{
  add_business_hours-exact, add_business_hours-reversed, add_business_hours-terminates,
}

abbrev ahead : Zone
ahead = record {
  to_local = λ t. some (record { wall = t + hour; fold = false });
  to_utc = λ l. some (l.wall - hour);
}

abbrev read_time : Text → Option Time
unfolding text_eq
read_time s =
    if text_eq s (codes "08:00")
    then some (record { clock = 8 * hour; offset = naive })
    else if text_eq s (codes "16:00")
    then some (record { clock = 16 * hour; offset = naive })
    else if text_eq s (codes "09:00+00:00")
    then some (record { clock = 9 * hour; offset = east 0 })
    else if text_eq s (codes "08:00-05:00")
    then some (record { clock = 8 * hour; offset = west (5 * hour) })
    else none

abbrev calendar : Calendar
calendar = record { zone_info = λ name. some ahead; time_of = read_time }

abbrev workweek : Policy
workweek = record {
  enabled = true;
  timezone = codes "Europe/Rome";
  start = codes "08:00";
  end = codes "16:00";
  weekdays = 0 ∷ 1 ∷ 2 ∷ 3 ∷ 4 ∷ [];
}

abbrev window : Window
window = record {
  zone = ahead;
  start_at = 8 * hour;
  end_at = 16 * hour;
  weekdays = workweek.weekdays;
  aware = false;
}

-- The closing time is four hours after the opening one in UTC, and an hour before it on the clock.
abbrev with_offsets : Policy
with_offsets = record workweek { start = codes "09:00+00:00"; end = codes "08:00-05:00" }

abbrev backwards : Window
backwards = record window { start_at = 9 * hour; end_at = 8 * hour; aware = true }

-- Four hours from Friday at 15:00 end on Monday at 11:00, in five rounds.
over_the_weekend : spend 6 window (4 * day + 15 * hour) (4 * hour) ≡ ok (7 * day + 11 * hour)
unfolding spend day_open
over_the_weekend = refl

open_on_friday : is_business_open calendar (4 * day + 14 * hour) workweek ≡ ok true
unfolding is_business_open day_open read_time
open_on_friday = refl

no_comparison : is_business_open calendar (4 * day + 14 * hour) with_offsets ≡ err mixed_times
unfolding is_business_open day_open read_time
no_comparison = refl

one_with_offset :
    validate calendar (record workweek { start = codes "09:00+00:00" }) ≡ err mixed_times
unfolding validate read_time
one_with_offset = refl

valid : validate calendar workweek ≡ ok window
unfolding validate read_time
valid = refl

valid_with_offsets : validate calendar with_offsets ≡ ok backwards
unfolding validate read_time
valid_with_offsets = refl

in_day : (s : Text) (t : Time) → read_time s ≡ some t → t.clock < day
unfolding read_time
in_day s t h = ground arith

abbrev friday : Local
friday = record { wall = 4 * day + 15 * hour; fold = false }

add_business_hours-exact_example :
    ((worked window friday.wall + 4 * hour ≤ before_day window calendar_days)
      × ((r : Local) × (add_business_hours calendar (4 * day + 14 * hour) 4 workweek
            ≡ or_error (window.zone.to_utc r) overflow)
          × (worked window r.wall ≡ worked window friday.wall + 4 * hour)
          × IsInHours window r.wall))
    ⊎ ((before_day window calendar_days < worked window friday.wall + 4 * hour)
        × (add_business_hours calendar (4 * day + 14 * hour) 4 workweek ≡ err overflow))
add_business_hours-exact_example =
    add_business_hours-exact calendar in_day workweek window (4 * day + 14 * hour) 4 friday valid
      refl refl (omega arith) refl (omega arith)

add_business_hours-reversed_example :
    add_business_hours calendar (4 * day + 14 * hour) 4 with_offsets ≡ err overflow
add_business_hours-reversed_example =
    add_business_hours-reversed calendar in_day with_offsets backwards (4 * day + 14 * hour) 4
      valid_with_offsets (omega arith) refl (omega arith)

add_business_hours-terminates_example :
    add_business_hours calendar (4 * day + 14 * hour) 4 workweek ≢ err diverged
add_business_hours-terminates_example =
    add_business_hours-terminates calendar in_day workweek (4 * day + 14 * hour) 4
