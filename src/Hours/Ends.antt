-- ===== src/Hours/Ends.antt =====
-- How `spend` ends: with an instant or past the end of the calendar, and which of the two.
use dtlab_control_center.Prelude.{
  ◌⊎◌, ℕ, zero, suc, ◌+◌, ◌-◌, ◌/◌, ◌≤◌, ◌<◌, ◌≡◌, ◌≢◌, refl, ap, true, false, ok, err, arith, leb,
  ◌==◌, Bool-cases, inl, inr, ok_inj,
}
use dtlab_control_center.Hours.{day, calendar_days, overflow, Window, next_opening, advance, spend}
use dtlab_control_center.Hours.Deadline.{
  IsProper, FitsDay, fits, worked, before_day, before_day_mono, worked-between, worked-advance,
}
use dtlab_control_center.Hours.Rounds.{
  IsInHours, IsWork, advance-IsInHours, advance-outcome, advance-rounds, rounds_left,
}

positive : (n : ℕ) → (n == 0) ≡ false → 0 < n
positive n p = ground arith

-- On fuel for the rounds left, an instant or the end of the calendar
pub spend-ends :
    (fuel : ℕ) (w : Window) (t remaining : ℕ)
    → FitsDay w
    → ((remaining ≡ 0) × (0 < fuel)) ⊎ (rounds_left w t + 2 ≤ fuel)
    → ((r : ℕ) × (spend fuel w t remaining ≡ ok r)) ⊎ (spend fuel w t remaining ≡ err overflow)
unfolding spend
spend-ends zero w t remaining v h = absurd (ground arith)
spend-ends (suc fuel) w t remaining v h = elim (Bool-cases (remaining == 0)) [
  | inl done ↦ inl (t, rw done refl)
  | inr more ↦ elim (Bool-cases (leb calendar_days ((advance w t remaining).0 / day))) [
    | inl past ↦ inr (rw (more, past) refl)
    | inr within ↦
        let rest =
          spend-ends fuel w (advance w t remaining).0 (advance w t remaining).1 v
            (elim (advance-rounds w t remaining v) [
              | inl finished ↦ inl (finished, ground arith)
              | inr (inl past) ↦ absurd (ground arith)
              | inr (inr fewer) ↦ inr (ground (arith, fewer))
            ]) in
        rw (more, within) rest
  ]
]

-- What the loop returns, from a time of the calendar
pub spend-exact :
    (fuel : ℕ) (w : Window) (t remaining r : ℕ)
    → IsProper w
    → (remaining ≡ 0 → IsInHours w t)
    → t / day < calendar_days
    → spend fuel w t remaining ≡ ok r
    → (worked w r ≡ worked w t + remaining) × IsInHours w r × (r / day < calendar_days)
unfolding spend
spend-exact zero w t remaining r v h c e = absurd (cc)
spend-exact (suc fuel) w t remaining r v h c e = elim (Bool-cases (remaining == 0)) [
  | inl done ↦
      let same : t ≡ r = ok_inj (rw done at e) in rw⁻¹ same (ground arith, h (ground arith), c)
  | inr more ↦ elim (Bool-cases (leb calendar_days ((advance w t remaining).0 / day))) [
    | inl past ↦ absurd (let f = rw (more, past) at e in cc (f))
    | inr within ↦
        let (k, l, m) =
          spend-exact fuel w (advance w t remaining).0 (advance w t remaining).1 r v
            (advance-IsInHours w t remaining v (positive _ more)) (ground arith)
            (rw (more, within) at e) in
        (omega (arith, k, worked-advance w t remaining v), l, m)
  ]
]

-- Where the calendar ends before the loop does
pub spend-overflow :
    (fuel : ℕ) (w : Window) (t remaining : ℕ)
    → IsProper w
    → t / day < calendar_days
    → spend fuel w t remaining ≡ err overflow
    → before_day w calendar_days < worked w t + remaining
unfolding spend
spend-overflow zero w t remaining v c e = absurd (cc)
spend-overflow (suc fuel) w t remaining v c e = elim (Bool-cases (remaining == 0)) [
  | inl done ↦ absurd (let f = rw done at e in cc (f))
  | inr more ↦ elim (Bool-cases (leb calendar_days ((advance w t remaining).0 / day))) [
    | inl past ↦ past_end past (positive _ more) (advance-outcome w t remaining (fits v))
    | inr within ↦
        let rest =
          spend-overflow fuel w (advance w t remaining).0 (advance w t remaining).1 v (ground arith)
            (rw (more, within) at e) in
        omega (arith, rest, worked-advance w t remaining v)
  ]
]
  where
    past_end :
        leb calendar_days ((advance w t remaining).0 / day) ≡ true
        → 0 < remaining
        → (advance w t remaining ≡ (next_opening w t, remaining))
          ⊎ IsWork w t remaining (advance w t remaining)
        → before_day w calendar_days < worked w t + remaining
    past_end past more_left (inr work) = absurd (let s = work.same_day in ground (arith, s))
    past_end past more_left (inl moved) =
        let n = (advance w t remaining).0 in
        let left : (advance w t remaining).1 ≡ remaining = ap (λ (p : ℕ × ℕ). p.1) moved in
        let later = before_day_mono w calendar_days (n / day - calendar_days) in
        let day_of : n / day - calendar_days + calendar_days ≡ n / day = ground arith in
        let below = rw day_of at later in
        omega
          (arith, below, (worked-between w n).0, left, worked-advance w t remaining v, more_left)

-- A window that does not open before it closes
pub spend-reversed :
    (fuel : ℕ) (w : Window) (t remaining r : ℕ)
    → FitsDay w
    → w.end_at ≤ w.start_at
    → 0 < remaining
    → spend fuel w t remaining ≢ ok r
unfolding spend
spend-reversed zero w t remaining r v back more e = cc (e)
spend-reversed (suc fuel) w t remaining r v back more e = elim (Bool-cases (remaining == 0)) [
  | inl done ↦ ground arith
  | inr going ↦ elim (Bool-cases (leb calendar_days ((advance w t remaining).0 / day))) [
    | inl past ↦ let f = rw (going, past) at e in cc (f)
    | inr within ↦
        spend-reversed fuel w (advance w t remaining).0 (advance w t remaining).1 r v back
          (elim (advance-outcome w t remaining v) [
            | inl moved ↦
                let left : (advance w t remaining).1 ≡ remaining = ap (λ (p : ℕ × ℕ). p.1) moved in
                omega (arith, left, more)
            | inr work ↦ absurd (let o = work.proper in omega (arith, o, back))
          ])
          (rw (going, within) at e)
  ]
]
