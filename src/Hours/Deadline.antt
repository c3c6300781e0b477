-- ===== src/Hours/Deadline.antt =====
-- The working time that `spend` uses up, against a count of the working time of each day.
use dtlab_control_center.Prelude.{
  ℕ, zero, suc, ◌+◌, ◌-◌, ◌*◌, ◌/◌, ◌%◌, ◌≤◌, ◌<◌, ◌≡◌, true, false, ap, arith, any, ltb, leb, ◌==◌,
  if◌then◌else◌, ltb→lt, leb→le, Bool-cases, inl, inr,
}
use dtlab_control_center.Hours.{
  day, calendar_days, Window, day_open, next_opening, at_time, consume, advance,
}

-- What `validate` guarantees, with the range of a `time`.
pub record IsProper (w : Window) : Type 0 where
  pub ordered : w.start_at < w.end_at
  pub in_day : w.end_at < day
  pub weekday : ℕ
  pub in_week : weekday < 7
  pub listed : any (λ d. weekday == d) w.weekdays ≡ true

-- The clocks of a window are times of the day.
pub record FitsDay (w : Window) : Type 0 where
  pub start_in_day : w.start_at < day
  pub end_in_day : w.end_at < day

pub fits : {w : Window} → IsProper w → FitsDay w
fits v = record { start_in_day = omega (arith, v.ordered, v.in_day); end_in_day = v.in_day }

-- Working time of the day with number `d`.
pub day_total : Window → ℕ → ℕ
day_total w d = if day_open w d then w.end_at - w.start_at else 0

-- Working time of the days before day `d`.
pub before_day : Window → ℕ → ℕ
before_day w zero = 0
before_day w (suc d) = before_day w d + day_total w d

-- Working time of day `d` up to its time `r`.
pub within_day : Window → ℕ → ℕ → ℕ
within_day w d r =
    if day_open w d
    then (if leb r w.start_at
        then 0
        else if leb w.end_at r
        then w.end_at - w.start_at
        else r - w.start_at)
    else 0

-- Working time before the wall clock `t`, by a sum over the days.
pub worked : Window → ℕ → ℕ
worked w t = before_day w (t / day) + within_day w (t / day) (t % day)

split_day : (q r : ℕ) → r < day → ((q * day + r) / day ≡ q) × ((q * day + r) % day ≡ r)
split_day q r h = omega arith

worked_at :
    (w : Window) (q r : ℕ) → r < day → worked w (q * day + r) ≡ before_day w q + within_day w q r
unfolding worked
worked_at w q r h = rw ((split_day q r h).0, (split_day q r h).1)

pub before_day-next : (w : Window) (d : ℕ) → before_day w (d + 1) ≡ before_day w d + day_total w d
unfolding before_day
before_day-next w d = grind arith

-- Later days have more working time before them, and a day has at most its own length of it.
pub before_day_mono : (w : Window) (d k : ℕ) → before_day w d ≤ before_day w (k + d)
unfolding before_day
before_day_mono w d zero = let same : 0 + d ≡ d = omega arith in rw same (omega arith)
before_day_mono w d (suc k) =
    let next : suc k + d ≡ k + d + 1 = omega arith in
    rw next (omega (arith, before_day_mono w d k, before_day-next w (k + d)))

worked-next_opening :
    (w : Window) (t : ℕ)
    → IsProper w
    → within_day w (t / day) (t % day) ≡ day_total w (t / day)
    → worked w (next_opening w t) ≡ worked w t
unfolding next_opening worked within_day
worked-next_opening w t v h =
    let a = worked_at w (t / day + 1) w.start_at (omega arith) in
    unfold worked within_day in ground (arith, a, before_day-next w (t / day))

-- The time `x` later on the same day.
worked-later :
    (w : Window) (t x : ℕ)
    → IsProper w
    → day_open w (t / day) ≡ true
    → w.start_at ≤ t % day
    → t % day + x ≤ w.end_at
    → worked w (t + x) ≡ worked w t + x
unfolding worked within_day
worked-later w t x v open_day lo hi =
    let e : t + x ≡ t / day * day + (t % day + x) = omega arith in
    let a = worked_at w (t / day) (t % day + x) (omega arith) in ground (arith, ap (worked w) e, a)

-- Opening time has the same working time before it as any earlier time of the day.
worked-opening :
    (w : Window) (t : ℕ)
    → IsProper w
    → day_open w (t / day) ≡ true
    → t % day ≤ w.start_at
    → worked w (at_time t w.start_at) ≡ worked w t
unfolding worked within_day at_time
worked-opening w t v open_day lo = ground (arith, worked_at w (t / day) w.start_at (omega arith))

worked-consume :
    (w : Window) (t remaining : ℕ)
    → IsProper w
    → day_open w (t / day) ≡ true
    → w.start_at ≤ t % day
    → worked w (consume w t remaining).0 + (consume w t remaining).1 ≡ worked w t + remaining
unfolding consume
worked-consume w t remaining v open_day lo = elim (Bool-cases (leb (t / day * day + w.end_at) t)) [
  | inl late ↦
      rw late
        (omega (arith, worked-next_opening w t v (worked_late (omega (arith, leb→le _ _ late)))))
  | inr early ↦ rw early (
      ground (
        arith,
        worked-later w t remaining v open_day lo,
        worked-later w t (t / day * day + w.end_at - t) v open_day lo,
      ))
]
  where
    worked_late : w.end_at ≤ t % day → within_day w (t / day) (t % day) ≡ day_total w (t / day)
    worked_late h = unfold within_day day_total in ground arith

-- A round uses up as much working time as it takes off `remaining`.
pub worked-advance :
    (w : Window) (t remaining : ℕ)
    → IsProper w
    → worked w (advance w t remaining).0 + (advance w t remaining).1 ≡ worked w t + remaining
unfolding advance
worked-advance w t remaining v = elim (Bool-cases (day_open w (t / day))) [
  | inr shut ↦ rw shut (ground (arith, worked-next_opening w t v (worked_shut shut)))
  | inl open_day ↦ rw open_day (elim (Bool-cases (ltb t (t / day * day + w.start_at))) [
    | inl early ↦ rw early (
        omega (
          arith,
          worked-consume w (at_time t w.start_at) remaining v (reopened open_day) (start_of_day),
          worked-opening w t v open_day (omega (arith, ltb→lt _ _ early)),
        ))
    | inr late ↦ rw late (worked-consume w t remaining v open_day (on_time late))
  ])
]
  where
    worked_shut :
        day_open w (t / day) ≡ false → within_day w (t / day) (t % day) ≡ day_total w (t / day)
    worked_shut h = unfold within_day day_total in rw h

    start_of_day : w.start_at ≤ at_time t w.start_at % day
    start_of_day = unfold at_time in omega arith

    on_time : ltb t (t / day * day + w.start_at) ≡ false → w.start_at ≤ t % day
    on_time h = ground arith

    reopened : day_open w (t / day) ≡ true → day_open w (at_time t w.start_at / day) ≡ true
    reopened h = unfold at_time in rw (split_day (t / day) w.start_at (omega arith)).0 h

-- The working time before a time lies between that before its day and that before the next.
pub worked-between :
    (w : Window) (t : ℕ)
    → (before_day w (t / day) ≤ worked w t) × (worked w t ≤ before_day w (t / day + 1))
unfolding worked within_day day_total
worked-between w t = (omega arith, let next = before_day-next w (t / day) in ground (arith, next))

pub before_day-length : (w : Window) (d : ℕ) → FitsDay w → before_day w d ≤ d * day
unfolding before_day day_total
before_day-length w zero v = omega arith
before_day-length w (suc d) v =
    let shorter = before_day-length w d v in
    let last = v.end_in_day in ground (arith, shorter, last)

-- A time of the calendar has no more working time before it than the whole calendar.
pub worked_by :
    (w : Window) (r : ℕ) → r / day < calendar_days → worked w r ≤ before_day w calendar_days
worked_by w r m =
    let days : calendar_days - (r / day + 1) + (r / day + 1) ≡ calendar_days = omega arith in
    let rest = rw days at (before_day_mono w (r / day + 1) (calendar_days - (r / day + 1))) in
    omega (arith, rest, (worked-between w r).1)
