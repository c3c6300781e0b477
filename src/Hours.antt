-- ===== src/Hours.antt =====
-- The business calendar of src/dtlab/services/operational_settings.py. Instants and wall clocks
-- are microseconds since 0001-01-01, a Monday, as in Python's `datetime`.
pub mod Deadline
pub mod Payload
pub mod Stored
pub mod Rounds
pub mod Ends
pub mod Valid
pub mod Outcomes
pub mod Total
pub mod Tests
use dtlab_control_center.Prelude.{
  ℕ, zero, suc, ◌+◌, ◌-◌, ◌*◌, ◌/◌, ◌%◌, Bool, true, false, ◌&&◌, not, Option, none, some, List, [],
  ◌∷◌, Text, Result, ok, err, ◌>>=◌, ◌>>◌, raise_if, any, ltb, leb, ◌==◌, if◌then◌else◌,
}

abbrev pub day : ℕ
day = 86400000000

abbrev pub hour : ℕ
hour = 3600000000

-- `date.max.toordinal()`: the days of the calendar, up to 9999-12-31
abbrev pub calendar_days : ℕ
calendar_days = 3652059

-- The ValueErrors of the module, and what it lets through: the TypeError of a comparison of a time
-- with an offset and one without, and the OverflowError of a date past the last.
pub data CalendarError : Type 0 where
  unknown_zone bad_time hours_reversed bad_weekdays : CalendarError
  mixed_times overflow : CalendarError
  -- the loop's fuel ran out
  diverged : CalendarError

-- A local `datetime`: its wall clock and its `fold`.
pub record Local : Type 0 where
  pub wall : ℕ
  pub fold : Bool

-- A ZoneInfo: `astimezone` into the zone and back to UTC, `none` for an OverflowError.
pub record Zone : Type 0 where
  pub to_local : ℕ → Option Local
  pub to_utc : Local → Option ℕ

-- The UTC offset of a `time`, in microseconds: none, ahead of UTC, or behind it
pub data Offset : Type 0 where
  naive : Offset
  east : ℕ → Offset
  west : ℕ → Offset

-- A `time`: its clock, in microseconds after midnight, and its offset.
pub record Time : Type 0 where
  pub clock : ℕ
  pub offset : Offset

-- The parts of the standard library that read the policy's texts.
pub record Calendar : Type 0 where
  pub zone_info : Text → Option Zone
  -- `time.fromisoformat`
  pub time_of : Text → Option Time

-- BusinessHoursPolicy
pub record Policy : Type 0 where
  pub enabled : Bool
  pub timezone : Text
  pub start : Text
  pub end : Text
  pub weekdays : List ℕ

-- A validated policy, with its texts read; `aware` where the times have an offset.
pub record Window : Type 0 where
  pub zone : Zone
  pub start_at : ℕ
  pub end_at : ℕ
  pub weekdays : List ℕ
  pub aware : Bool

abbrev pub or_error {ℓ} : {E A : Type ℓ} → Option A → E → Result E A
or_error none e = err e
or_error (some a) e = ok a

abbrev pub is_empty {ℓ} : {A : Type ℓ} → List A → Bool
is_empty [] = true
is_empty (x ∷ xs) = false

-- A time brought to UTC, one day late
abbrev pub utc_clock : Time → ℕ
utc_clock t = elim t.offset [
  | naive ↦ day + t.clock
  | east ahead ↦ day + t.clock - ahead
  | west behind ↦ day + t.clock + behind
]

abbrev pub is_aware : Time → Bool
is_aware t = elim t.offset [ naive ↦ false | east ahead ↦ true | west behind ↦ true ]

-- `a >= b` of two times: by their clocks where neither has an offset, in UTC where both have one,
-- and a TypeError otherwise.
abbrev pub not_before : Time → Time → Option Bool
not_before a b = elim (is_aware a) [
  | false ↦ if is_aware b then none else some (leb b.clock a.clock)
  | true ↦ if is_aware b then some (leb (utc_clock b) (utc_clock a)) else none
]

-- BusinessHoursPolicy.validate
unfoldable pub validate : Calendar → Policy → Result CalendarError Window
validate c p = do
  zone ← or_error (c.zone_info p.timezone) unknown_zone
  start ← or_error (c.time_of p.start) bad_time
  end ← or_error (c.time_of p.end) bad_time
  reversed ← or_error (not_before start end) mixed_times
  _ ← raise_if reversed hours_reversed
  _ ← raise_if (is_empty p.weekdays) bad_weekdays
  _ ← raise_if (any (λ d. leb 7 d) p.weekdays) bad_weekdays
  ok (record {
    zone = zone;
    start_at = start.clock;
    end_at = end.clock;
    weekdays = p.weekdays;
    aware = is_aware start;
  })

-- The weekday test on the number of a day.
unfoldable pub day_open : Window → ℕ → Bool
day_open w d = any (λ weekday. d % 7 == weekday) w.weekdays

-- `current.weekday() in weekdays`
unfoldable pub is_workday : Window → ℕ → Bool
is_workday w current = day_open w (current / day)

-- `datetime.combine(current.date() + timedelta(days=1), start_at, zone)`, which takes the clock
-- of `start_at` and drops its offset
unfoldable pub next_opening : Window → ℕ → ℕ
next_opening w current = (current / day + 1) * day + w.start_at

-- `datetime.combine(current.date(), at, zone)`
unfoldable pub at_time : ℕ → ℕ → ℕ
at_time current at = current / day * day + at

-- One round of the `while` of add_business_hours, on `current` and `remaining`.
unfoldable pub consume : Window → ℕ → ℕ → ℕ × ℕ
unfolding next_opening at_time
consume w current remaining =
    let closing = at_time current w.end_at in
    if leb closing current
    then (next_opening w current, remaining)
    else let available = closing - current in
      let consumed = if ltb remaining available then remaining else available in
      (current + consumed, remaining - consumed)

unfoldable pub advance : Window → ℕ → ℕ → ℕ × ℕ
unfolding is_workday at_time
advance w current remaining =
    if not (is_workday w current)
    then (next_opening w current, remaining)
    else consume w
        (if ltb current (at_time current w.start_at) then at_time current w.start_at else current)
        remaining

-- The `while`, on fuel. A new `current` past the last day of the calendar is the OverflowError of
-- the date that it is made from.
unfoldable pub spend : ℕ → Window → ℕ → ℕ → Result CalendarError ℕ
unfolding advance consume
spend zero w current remaining = err diverged
spend (suc fuel) w current remaining =
    let rest = spend fuel w (advance w current remaining).0 (advance w current remaining).1 in
    if remaining == 0
    then ok current
    else if leb calendar_days ((advance w current remaining).0 / day)
    then err overflow
    else rest

-- Each round ends the loop, moves on by a day or reaches closing time.
unfoldable pub enough_fuel : ℕ → ℕ
enough_fuel current = 2 * (calendar_days - current / day) + 3

-- The loop from a local anchor; any assignment to `current` in it clears `fold`.
unfoldable pub local_deadline : Window → Local → ℕ → Result CalendarError Local
unfolding spend enough_fuel
local_deadline w anchor remaining =
    if remaining == 0
    then ok anchor
    else elim (spend (enough_fuel anchor.wall) w anchor.wall remaining) [
      | err e ↦ err e
      | ok wall ↦ ok (record { wall = wall; fold = false })
    ]

-- The largest `timedelta` has 999999999 days and all but a microsecond of another.
abbrev pub too_many_hours : ℕ
too_many_hours = 24000000000

-- A sum that is an instant of the calendar
abbrev pub in_calendar : ℕ → Result CalendarError ℕ
in_calendar instant = if leb calendar_days (instant / day) then err overflow else ok instant

-- add_business_hours after the checks of the policy
unfoldable pub deadline_of : Window → Bool → ℕ → ℕ → Result CalendarError ℕ
unfolding local_deadline
deadline_of w enabled anchor hours = do
  _ ← raise_if (leb too_many_hours hours) overflow
  if not enabled then in_calendar (anchor + hours * hour) else do
    local ← or_error (w.zone.to_local anchor) overflow
    deadline ← local_deadline w local (hours * hour)
    or_error (w.zone.to_utc deadline) overflow

-- For an anchor with a time zone, as its instant, and hours that are not negative.
unfoldable pub add_business_hours : Calendar → ℕ → ℕ → Policy → Result CalendarError ℕ
unfolding validate deadline_of
add_business_hours c anchor hours p = do w ← validate c p; deadline_of w p.enabled anchor hours

-- `weekday in … and start <= clock < end`, where the clock has no offset
unfoldable pub is_open_at : Window → ℕ → Result CalendarError Bool
unfolding is_workday
is_open_at w local =
    if not (is_workday w local)
    then ok false
    else if w.aware
    then err mixed_times
    else ok (leb w.start_at (local % day) && ltb (local % day) w.end_at)

unfoldable pub is_business_open : Calendar → ℕ → Policy → Result CalendarError Bool
unfolding validate is_open_at
is_business_open c moment p = if not p.enabled then ok true else do
  w ← validate c p
  local ← or_error (w.zone.to_local moment) overflow
  is_open_at w local.wall
