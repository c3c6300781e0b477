-- ===== src/Hours/Rounds.antt =====
-- `spend` comes to an end within its fuel, on any window; on a proper one it stops in working hours.
use dtlab_control_center.Prelude.{
  ◌⊎◌, ◌∙◌, ℕ, ◌+◌, ◌-◌, ◌*◌, ◌/◌, ◌%◌, ◌≤◌, ◌<◌, ◌≡◌, refl, ap, true, false, arith, ltb, leb,
  if◌then◌else◌, Bool-cases, inl, inr, ltb→lt,
}
use dtlab_control_center.Hours.{
  day, calendar_days, Window, day_open, next_opening, at_time, consume, advance,
}
use dtlab_control_center.Hours.Deadline.{IsProper, FitsDay, fits}

-- Where the loop may stop: in the working hours of a working day, after opening time.
pub record IsInHours (w : Window) (t : ℕ) : Type 0 where
  pub on_workday : day_open w (t / day) ≡ true
  pub after_opening : w.start_at < t % day
  pub by_closing : t % day ≤ w.end_at

-- A round that takes off the last of `remaining` ends in working hours.
consume-IsInHours :
    (w : Window) (t remaining : ℕ)
    → IsProper w
    → 0 < remaining
    → day_open w (t / day) ≡ true
    → w.start_at ≤ t % day
    → (consume w t remaining).1 ≡ 0
    → IsInHours w (consume w t remaining).0
unfolding consume
consume-IsInHours w t remaining v pos open_day lo done =
    elim (Bool-cases (leb (t / day * day + w.end_at) t)) [
      | inl late ↦ absurd (ground arith)
      | inr early ↦ rw early (
          landed
            (if ltb remaining (t / day * day + w.end_at - t)
              then remaining
              else t / day * day + w.end_at - t)
            (ground arith) (ground arith))
    ]
  where
    landed : (x : ℕ) → 0 < x → t % day + x ≤ w.end_at → IsInHours w (t + x)
    landed x p q =
        let e : (t + x) / day ≡ t / day = omega arith in
        record { on_workday = rw e open_day; after_opening = omega arith; by_closing = omega arith }

-- A round in a working day goes on as `consume` from opening time at the earliest.
advance-cases :
    (w : Window) (t remaining : ℕ)
    → FitsDay w
    → (day_open w (t / day) ≡ false) × (advance w t remaining ≡ (next_opening w t, remaining))
      ⊎ ((s : ℕ) × (advance w t remaining ≡ consume w s remaining)
          × (s / day ≡ t / day)
          × (day_open w (s / day) ≡ true)
          × (w.start_at ≤ s % day)
          × (t ≤ s)
          × ((s ≡ t) ⊎ (s % day ≡ w.start_at)))
unfolding advance
advance-cases w t remaining v = elim (Bool-cases (day_open w (t / day))) [
  | inr shut ↦ inl (shut, rw shut refl)
  | inl open_day ↦ inr (elim (Bool-cases (ltb t (at_time t w.start_at))) [
    | inl early ↦ (
      at_time t w.start_at,
      rw (open_day, early) refl,
      same,
      rw same open_day,
      unfold at_time in omega arith,
      omega (arith, ltb→lt _ _ early),
      inr (unfold at_time in omega arith),
    )
    | inr late ↦ (
      t,
      rw (open_day, late) refl,
      refl,
      open_day,
      unfold at_time in ground arith,
      omega arith,
      inl refl,
    )
  ])
]
  where
    same : at_time t w.start_at / day ≡ t / day
    same = unfold at_time in omega arith

pub advance-IsInHours :
    (w : Window) (t remaining : ℕ)
    → IsProper w
    → 0 < remaining
    → (advance w t remaining).1 ≡ 0
    → IsInHours w (advance w t remaining).0
advance-IsInHours w t remaining v pos done = elim (advance-cases w t remaining (fits v)) [
  | inl (shut, e) ↦ absurd (omega (arith, ap (λ (p : ℕ × ℕ). p.1) e))
  | inr (s, e, same, open_day, lo, later, at) ↦
      rw e (consume-IsInHours w s remaining v pos open_day lo (rw e at done))
]

-- A round that works
pub record IsWork (w : Window) (t remaining : ℕ) (next : ℕ × ℕ) : Type 0 where
  pub same_day : next.0 / day ≡ t / day
  pub proper : w.start_at < w.end_at
  pub done_or_closed : (next.1 ≡ 0) ⊎ ((w.end_at ≤ next.0 % day) × (t % day < w.end_at))

consume-outcome :
    (w : Window) (t remaining : ℕ)
    → FitsDay w
    → w.start_at ≤ t % day
    → (consume w t remaining ≡ (next_opening w t, remaining))
      ⊎ IsWork w t remaining (consume w t remaining)
unfolding consume at_time
consume-outcome w t remaining v lo = elim (Bool-cases (leb (t / day * day + w.end_at) t)) [
  | inl late ↦ inl (rw late refl)
  | inr early ↦ inr (elim (Bool-cases (ltb remaining (t / day * day + w.end_at - t))) [
    | inl less ↦
        rw (early, less)
          record {
            same_day = ground (arith, v.end_in_day);
            proper = ground arith;
            done_or_closed = inl (omega arith);
          }
    | inr all ↦
        rw (early, all)
          record {
            same_day = ground (arith, v.end_in_day);
            proper = ground arith;
            done_or_closed = inr (ground (arith, v.end_in_day), ground arith);
          }
  ])
]

next_opening_same : (w : Window) (s t : ℕ) → s / day ≡ t / day → next_opening w s ≡ next_opening w t
unfolding next_opening
next_opening_same w s t e = rw e refl

-- A round moves on to the next opening, or it works.
pub advance-outcome :
    (w : Window) (t remaining : ℕ)
    → FitsDay w
    → (advance w t remaining ≡ (next_opening w t, remaining))
      ⊎ IsWork w t remaining (advance w t remaining)
advance-outcome w t remaining v = elim (advance-cases w t remaining v) [
  | inl (shut, e) ↦ inl e
  | inr (s, e, same, open_day, lo, later, at) ↦ elim (consume-outcome w s remaining v lo) [
    | inl moved ↦ inl (rw (e, moved, next_opening_same w s t same) refl)
    | inr work ↦ inr (
        rw e record {
          same_day = rw work.same_day same;
          proper = work.proper;
          done_or_closed = elim work.done_or_closed [
            | inl done ↦ inl done
            | inr (closed, before) ↦ inr (closed, omega (arith, same, later, before))
          ];
        })
  ]
]

pub next_day : (w : Window) (t : ℕ) → FitsDay w → next_opening w t / day ≡ t / day + 1
unfolding next_opening
next_day w t v = omega (arith, v.start_in_day)

-- The rounds before the calendar ends: two for each day, one less after closing time
pub rounds_left : Window → ℕ → ℕ
rounds_left w t = 2 * (calendar_days - t / day) + (if leb w.end_at (t % day) then 0 else 1)

pub rounds_left-bound :
    (w : Window) (t : ℕ) → rounds_left w t + 2 ≤ 2 * (calendar_days - t / day) + 3
unfolding rounds_left
rounds_left-bound w t = ground arith

pub advance-rounds :
    (w : Window) (t remaining : ℕ)
    → FitsDay w
    → ((advance w t remaining).1 ≡ 0)
      ⊎ (leb calendar_days ((advance w t remaining).0 / day) ≡ true)
      ⊎ (rounds_left w (advance w t remaining).0 < rounds_left w t)
unfolding rounds_left
advance-rounds w t remaining v = elim (advance-outcome w t remaining v) [
  | inl moved ↦ elim (Bool-cases (leb calendar_days ((advance w t remaining).0 / day))) [
    | inl past ↦ inr (inl past)
    | inr within ↦
        let next : (advance w t remaining).0 / day ≡ t / day + 1 =
          ap (λ (n : ℕ × ℕ). n.0 / day) moved ∙ next_day w t v in
        inr (inr (ground (arith, next)))
  ]
  | inr work ↦ elim work.done_or_closed [
    | inl done ↦ inl done
    | inr (closed, before) ↦ inr (inr (ground (arith, work.same_day)))
  ]
]
