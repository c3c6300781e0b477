-- ===== src/Hours/Total.antt =====
-- `add_business_hours` on every policy that `validate` accepts, and on the others.
use dtlab_control_center.Prelude.{
  ℕ, ◌+◌, ◌*◌, ◌/◌, ◌≤◌, ◌<◌, ◌≡◌, ◌≢◌, ◌⊎◌, ◌∙◌, sym, ap, ◌>>=◌, true, false, some, Text, Result,
  ok, err, Result-cases, arith, inl, inr,
}
use dtlab_control_center.Hours.{
  day, hour, calendar_days, deadline_of, Window, Local, Time, Calendar, Policy, CalendarError,
  overflow, diverged, or_error, validate, add_business_hours,
}
use dtlab_control_center.Hours.Deadline.{worked, before_day}
use dtlab_control_center.Hours.Rounds.{IsInHours}
use dtlab_control_center.Hours.Valid.{validate-IsValid, valid-FitsDay, valid-IsProper}
use dtlab_control_center.Hours.Outcomes.{
  same_error, deadline_of-total, deadline_of-exact, deadline_of-reversed,
}

module _ (c : Calendar) where
  served :
      (p : Policy) (w : Window) (anchor hours : ℕ)
      → validate c p ≡ ok w
      → add_business_hours c anchor hours p ≡ deadline_of w p.enabled anchor hours
  unfolding add_business_hours
  served p w anchor hours h =
      ap (λ (r : Result CalendarError Window). r >>= λ w. deadline_of w p.enabled anchor hours) h

  switched_on :
      (p : Policy) (w : Window) (anchor hours : ℕ)
      → validate c p ≡ ok w
      → p.enabled ≡ true
      → add_business_hours c anchor hours p ≡ deadline_of w true anchor hours
  switched_on p w anchor hours h on =
      served p w anchor hours h ∙ ap (λ b. deadline_of w b anchor hours) on

  refused :
      (p : Policy) (anchor hours : ℕ) (e : CalendarError)
      → validate c p ≡ err e
      → add_business_hours c anchor hours p ≡ err e
  unfolding add_business_hours
  refused p anchor hours e h =
      ap (λ (r : Result CalendarError Window). r >>= λ w. deadline_of w p.enabled anchor hours) h

  not_diverged : (p : Policy) → validate c p ≢ err diverged
  unfolding validate
  not_diverged p d = ground arith

  module _ (in_day : (s : Text) (t : Time) → c.time_of s ≡ some t → t.clock < day) where
    -- With times of the day below 24 hours, an enabled policy that `validate` accepts and whose
    -- times have no UTC offset, at least one hour to add and an anchor with a local time in the
    -- calendar: either the calendar has enough working time left, and add_business_hours returns
    -- the UTC instant (or the OverflowError of its conversion) of a local time on an open
    -- weekday, after opening and not after closing, with exactly the given hours of working time
    -- between the anchor and it; or the calendar has less left, and it raises OverflowError.
    pub add_business_hours-exact :
        (p : Policy) (w : Window) (anchor hours : ℕ) (l : Local)
        → validate c p ≡ ok w
        → w.aware ≡ false
        → p.enabled ≡ true
        → 0 < hours
        → w.zone.to_local anchor ≡ some l
        → l.wall / day < calendar_days
        → ((worked w l.wall + hours * hour ≤ before_day w calendar_days)
            × ((r : Local) × (add_business_hours c anchor hours p
                  ≡ or_error (w.zone.to_utc r) overflow)
                × (worked w r.wall ≡ worked w l.wall + hours * hour)
                × IsInHours w r.wall))
          ⊎ ((before_day w calendar_days < worked w l.wall + hours * hour)
              × (add_business_hours c anchor hours p ≡ err overflow))
    add_business_hours-exact p w anchor hours l h plain on pos near c_in =
        let v = valid-IsProper c in_day p w (validate-IsValid c p w h) plain in
        rw (switched_on p w anchor hours h on) (deadline_of-exact w anchor hours l v near c_in pos)

    -- With times of the day below 24 hours, for an enabled policy that `validate` accepts
    -- although it does not close after it opens on the clock, as times with different UTC
    -- offsets can, and at least one hour to add, add_business_hours raises OverflowError from
    -- every anchor.
    pub add_business_hours-reversed :
        (p : Policy) (w : Window) (anchor hours : ℕ)
        → validate c p ≡ ok w
        → w.end_at ≤ w.start_at
        → p.enabled ≡ true
        → 0 < hours
        → add_business_hours c anchor hours p ≡ err overflow
    add_business_hours-reversed p w anchor hours h back on pos =
        switched_on p w anchor hours h on
        ∙ deadline_of-reversed w anchor hours
            (valid-FitsDay c in_day p w (validate-IsValid c p w h)) back pos

    -- With times of the day below 24 hours, add_business_hours never runs out of fuel, whatever
    -- the policy, one whose times have UTC offsets and close before they open on the clock
    -- included.
    pub add_business_hours-terminates :
        (p : Policy) (anchor hours : ℕ) → add_business_hours c anchor hours p ≢ err diverged
    add_business_hours-terminates p anchor hours d = elim (Result-cases (validate c p)) [
      | inr (e, h) ↦
          not_diverged p (h ∙ ap err (same_error e (sym (refused p anchor hours e h) ∙ d)))
      | inl (w, h) ↦
          deadline_of-total w anchor hours p.enabled
            (valid-FitsDay c in_day p w (validate-IsValid c p w h))
            (sym (served p w anchor hours h) ∙ d)
    ]
