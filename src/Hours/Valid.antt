-- ===== src/Hours/Valid.antt =====
-- What `validate` has checked when it accepts a policy.
use dtlab_control_center.Prelude.{
  ℕ, ◌<◌, ◌≡◌, refl, sym, ◌∙◌, Bool, true, false, Option, none, some, List, [], ◌∷◌, Text, any, ok,
  arith, leb, ◌==◌, bind_ok, ok_inj, raise_if,
}
use dtlab_control_center.Hours.{
  day, Window, Time, Calendar, CalendarError, Policy, validate, is_empty, is_aware, not_before,
  or_error, unknown_zone, bad_time, mixed_times, hours_reversed, bad_weekdays,
}
use dtlab_control_center.Hours.Deadline.{IsProper, FitsDay}

-- The times of an accepted policy, and its weekdays
pub record IsValid (c : Calendar) (p : Policy) (w : Window) : Type 0 where
  pub start : Time
  pub end : Time
  pub reads_start : c.time_of p.start ≡ some start
  pub reads_end : c.time_of p.end ≡ some end
  pub ordered : not_before start end ≡ some false
  pub start_clock : w.start_at ≡ start.clock
  pub end_clock : w.end_at ≡ end.clock
  pub with_offset : w.aware ≡ is_aware start
  pub same_weekdays : w.weekdays ≡ p.weekdays
  pub listed : is_empty p.weekdays ≡ false
  pub in_week : any (λ d. leb 7 d) p.weekdays ≡ false

or_error-some :
    {A : Type 0} (o : Option A) (e : CalendarError) (a : A) → or_error o e ≡ ok a → o ≡ some a
or_error-some none e a h = absurd (cc)
or_error-some (some b) e a h = ground arith

raise_false : (b : Bool) (e : CalendarError) (u : Unit {0}) → raise_if b e ≡ ok u → b ≡ false
raise_false true e u h = absurd (cc)
raise_false false e u h = refl

pub validate-IsValid :
    (c : Calendar) (p : Policy) (w : Window) → validate c p ≡ ok w → IsValid c p w
unfolding validate
validate-IsValid c p w h =
    let (zone, is_zone, h1) = bind_ok (or_error (c.zone_info p.timezone) unknown_zone) _ w h in
    let (start, is_start, h2) = bind_ok (or_error (c.time_of p.start) bad_time) _ w h1 in
    let (end, is_end, h3) = bind_ok (or_error (c.time_of p.end) bad_time) _ w h2 in
    let (reversed, is_order, h4) = bind_ok (or_error (not_before start end) mixed_times) _ w h3 in
    let (u1, forward, h5) = bind_ok (raise_if reversed hours_reversed) _ w h4 in
    let (u2, listed, h6) = bind_ok (raise_if (is_empty p.weekdays) bad_weekdays) _ w h5 in
    let (u3, in_week, h7) =
      bind_ok (raise_if (any (λ d. leb 7 d) p.weekdays) bad_weekdays) _ w h6 in
    let not_reversed : reversed ≡ false = raise_false reversed hours_reversed u1 forward in
    rw⁻¹ (ok_inj h7) (record {
      start = start;
      end = end;
      reads_start = or_error-some _ bad_time start is_start;
      reads_end = or_error-some _ bad_time end is_end;
      ordered = or_error-some _ mixed_times reversed is_order ∙ rw not_reversed refl;
      start_clock = refl;
      end_clock = refl;
      with_offset = refl;
      same_weekdays = refl;
      listed = raise_false _ bad_weekdays u2 listed;
      in_week = raise_false _ bad_weekdays u3 in_week;
    })

first_listed :
    (ds : List ℕ)
    → is_empty ds ≡ false
    → any (λ d. leb 7 d) ds ≡ false
    → (k : ℕ) × (k < 7) × (any (λ d. k == d) ds ≡ true)
first_listed [] h g = cc
first_listed (d ∷ ds) h g = (d, ground arith, ground arith)

naive_order : (a b : Time) → is_aware a ≡ false → not_before a b ≡ some false → a.clock < b.clock
naive_order a b plain h = ground arith

-- With `time_of` giving times of the day
module _ (c : Calendar)
    (in_day : (s : Text) (t : Time) → c.time_of s ≡ some t → t.clock < day) where
  pub valid-FitsDay : (p : Policy) (w : Window) → IsValid c p w → FitsDay w
  valid-FitsDay p w v = record {
    start_in_day = rw v.start_clock (in_day p.start v.start v.reads_start);
    end_in_day = rw v.end_clock (in_day p.end v.end v.reads_end);
  }

  pub valid-IsProper : (p : Policy) (w : Window) → IsValid c p w → w.aware ≡ false → IsProper w
  valid-IsProper p w v plain =
      let (k, below, found) = first_listed p.weekdays v.listed v.in_week in
      record {
        ordered =
            rw (v.start_clock, v.end_clock)
              (naive_order v.start v.end (sym v.with_offset ∙ plain) v.ordered);
        in_day = rw v.end_clock (in_day p.end v.end v.reads_end);
        weekday = k;
        in_week = below;
        listed = rw v.same_weekdays found;
      }
