-- ===== src/Hours/Outcomes.antt =====
-- What `add_business_hours` does after the checks of the policy.
use dtlab_control_center.Prelude.{
  ℕ, ◌+◌, ◌*◌, ◌/◌, ◌≤◌, ◌<◌, ◌≡◌, ◌≢◌, ◌⊎◌, ◌∙◌, sym, ap, refl, true, false, none, some, Option,
  Result, ok, err, Option-cases, Result-cases, arith, leb, ◌==◌, Bool-cases, inl, inr, Bool,
}
use dtlab_control_center.Hours.{
  day, hour, calendar_days, too_many_hours, in_calendar, deadline_of, Window, Local, CalendarError,
  overflow, diverged, or_error, spend, enough_fuel, local_deadline,
}
use dtlab_control_center.Hours.Deadline.{
  IsProper, FitsDay, fits, worked, before_day, before_day-length, worked_by,
}
use dtlab_control_center.Hours.Rounds.{IsInHours, rounds_left-bound}
use dtlab_control_center.Hours.Ends.{spend-ends, spend-exact, spend-overflow, spend-reversed}

abbrev SpendEnds : Window → ℕ → ℕ → Type 0
SpendEnds w t remaining =
    ((r : ℕ) × (spend (enough_fuel t) w t remaining ≡ ok r))
    ⊎ (spend (enough_fuel t) w t remaining ≡ err overflow)

spend_enough : (w : Window) (t remaining : ℕ) → FitsDay w → SpendEnds w t remaining
unfolding enough_fuel
spend_enough w t remaining v =
    spend-ends (enough_fuel t) w t remaining v (inr (rounds_left-bound w t))

pub same_error :
    {A : Type 0} (e : CalendarError) {f : CalendarError}
    → Path (Result CalendarError A) (err e) (err f)
    → e ≡ f
same_error e h = ground arith

not_zero : (n : ℕ) → 0 < n → (n == 0) ≡ false
not_zero n h = ground arith

-- The loop from a local anchor and some hours: what `spend` returns, with the fold cleared
deadline_ok :
    (w : Window) (l : Local) (remaining r : ℕ)
    → 0 < remaining
    → spend (enough_fuel l.wall) w l.wall remaining ≡ ok r
    → local_deadline w l remaining ≡ ok (record { wall = r; fold = false })
unfolding local_deadline
deadline_ok w l remaining r pos e = rw (not_zero remaining pos, e) refl

deadline_err :
    (w : Window) (l : Local) (remaining : ℕ) (x : CalendarError)
    → 0 < remaining
    → spend (enough_fuel l.wall) w l.wall remaining ≡ err x
    → local_deadline w l remaining ≡ err x
unfolding local_deadline
deadline_err w l remaining x pos e = rw (not_zero remaining pos, e) refl

deadline_total :
    (w : Window) (l : Local) (remaining : ℕ)
    → FitsDay w
    → local_deadline w l remaining ≢ err diverged
unfolding local_deadline
deadline_total w l remaining v d = elim (Bool-cases (remaining == 0)) [
  | inl done ↦ let f = rw done at d in cc (f)
  | inr more ↦ elim (spend_enough w l.wall remaining v) [
    | inl (r, e) ↦ let f = rw (more, e) at d in cc (f)
    | inr e ↦ let f = rw (more, e) at d in cc (f)
  ]
]

few_hours :
    (w : Window) (t hours : ℕ)
    → FitsDay w
    → worked w t + hours * hour ≤ before_day w calendar_days
    → leb too_many_hours hours ≡ false
few_hours w t hours v h = let bound = before_day-length w calendar_days v in ground (arith, bound)

module _ (w : Window) (anchor hours : ℕ) where
  too_many :
      (enabled : Bool)
      → leb too_many_hours hours ≡ true
      → deadline_of w enabled anchor hours ≡ err overflow
  unfolding deadline_of
  too_many enabled many = rw many refl

  out_of_zone : w.zone.to_local anchor ≡ none → deadline_of w true anchor hours ≡ err overflow
  unfolding deadline_of
  out_of_zone out = elim (Bool-cases (leb too_many_hours hours)) [
    | inl many ↦ rw many refl
    | inr few ↦ rw (few, out) refl
  ]

  fails :
      (l : Local) (e : CalendarError)
      → w.zone.to_local anchor ≡ some l
      → leb too_many_hours hours ≡ false
      → local_deadline w l (hours * hour) ≡ err e
      → deadline_of w true anchor hours ≡ err e
  unfolding deadline_of
  fails l e near few h = rw (few, near, h) refl

  returns :
      (l r : Local)
      → w.zone.to_local anchor ≡ some l
      → leb too_many_hours hours ≡ false
      → local_deadline w l (hours * hour) ≡ ok r
      → deadline_of w true anchor hours ≡ or_error (w.zone.to_utc r) overflow
  unfolding deadline_of
  returns l r near few h = rw (few, near, h) refl

  or_overflow : {A : Type 0} (o : Option A) → or_error o overflow ≢ err diverged
  or_overflow none d = cc (d)
  or_overflow (some a) d = cc (d)

  in_calendar-total : (t : ℕ) → in_calendar t ≢ err diverged
  in_calendar-total t d = elim (Bool-cases (leb calendar_days (t / day))) [
    | inl past ↦ let f = rw past at d in cc (f)
    | inr within ↦ let f = rw within at d in cc (f)
  ]

  disabled :
      leb too_many_hours hours ≡ false
      → deadline_of w false anchor hours ≡ in_calendar (anchor + hours * hour)
  unfolding deadline_of
  disabled few = rw few refl

  pub deadline_of-total :
      (enabled : Bool) → FitsDay w → deadline_of w enabled anchor hours ≢ err diverged
  deadline_of-total enabled v d = elim (Bool-cases (leb too_many_hours hours)) [
    | inl many ↦ cc (too_many enabled many, d)
    | inr few ↦ elim (Bool-cases enabled) [
      | inr off ↦
          in_calendar-total (anchor + hours * hour)
            (sym (disabled few) ∙ ap (λ b. deadline_of w b anchor hours) (sym off) ∙ d)
      | inl on ↦
          let enabled_d : deadline_of w true anchor hours ≡ err diverged =
            ap (λ b. deadline_of w b anchor hours) (sym on) ∙ d in
          elim (Option-cases (w.zone.to_local anchor)) [
            | inl out ↦ cc (out_of_zone out, enabled_d)
            | inr (l, near) ↦ elim (Result-cases (local_deadline w l (hours * hour))) [
              | inl (r, e) ↦
                  or_overflow (w.zone.to_utc r) (sym (returns l r near few e) ∙ enabled_d)
              | inr (x, e) ↦
                  deadline_total w l (hours * hour) v
                    (e ∙ ap err (same_error x (sym (fails l x near few e) ∙ enabled_d)))
            ]
          ]
    ]
  ]

  -- With hours to work, an instant in working hours or the end of the calendar
  pub deadline_of-exact :
      (l : Local)
      → IsProper w
      → w.zone.to_local anchor ≡ some l
      → l.wall / day < calendar_days
      → 0 < hours
      → ((worked w l.wall + hours * hour ≤ before_day w calendar_days)
          × ((r : Local) × (deadline_of w true anchor hours ≡ or_error (w.zone.to_utc r) overflow)
              × (worked w r.wall ≡ worked w l.wall + hours * hour)
              × IsInHours w r.wall))
        ⊎ ((before_day w calendar_days < worked w l.wall + hours * hour)
            × (deadline_of w true anchor hours ≡ err overflow))
  deadline_of-exact l v near c pos =
      let long : 0 < hours * hour = omega arith in
      elim (spend_enough w l.wall (hours * hour) (fits v)) [
        | inr e ↦
            let over = spend-overflow _ w l.wall (hours * hour) v c e in
            inr (over, overflows over (deadline_err w l (hours * hour) overflow long e))
        | inl (r, e) ↦
            let (k, h, m) =
              spend-exact _ w l.wall (hours * hour) r v (λ z. absurd (omega arith)) c e in
            let enough : worked w l.wall + hours * hour ≤ before_day w calendar_days =
              rw k at (worked_by w r m) in
            inl (
              enough,
              (
                record { wall = r; fold = false },
                returns l _ near (few_hours w l.wall hours (fits v) enough)
                    (deadline_ok w l (hours * hour) r long e),
                k,
                h,
              ),
            )
      ]
    where
      overflows :
          before_day w calendar_days < worked w l.wall + hours * hour
          → local_deadline w l (hours * hour) ≡ err overflow
          → deadline_of w true anchor hours ≡ err overflow
      overflows over e = elim (Bool-cases (leb too_many_hours hours)) [
        | inl many ↦ too_many true many
        | inr few ↦ fails l overflow near few e
      ]

  pub deadline_of-reversed :
      FitsDay w → w.end_at ≤ w.start_at → 0 < hours → deadline_of w true anchor hours ≡ err overflow
  deadline_of-reversed v back pos = elim (Bool-cases (leb too_many_hours hours)) [
    | inl many ↦ too_many true many
    | inr few ↦ elim (Option-cases (w.zone.to_local anchor)) [
      | inl out ↦ out_of_zone out
      | inr (l, near) ↦
          let long : 0 < hours * hour = omega arith in
          elim (spend_enough w l.wall (hours * hour) v) [
            | inl (r, e) ↦ absurd (spend-reversed _ w l.wall (hours * hour) r v back long e)
            | inr e ↦ fails l overflow near few (deadline_err w l (hours * hour) overflow long e)
          ]
    ]
  ]
