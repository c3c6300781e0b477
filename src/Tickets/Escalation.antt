-- ===== src/Tickets/Escalation.antt =====
-- The priority that set_ticket_priority and the automatic policy leave on a ticket.
pub mod Tests
use mathlib.Core.Option
use dtlab_control_center.Prelude.{
  ℕ, ◌+◌, ◌≤◌, ◌≡◌, refl, sym, ap, ◌∙◌, Bool, true, false, not, Option, none, some, List, Text,
  text_eq, text_eq_sound, text_eq_refl, ok, err, find, find_test, find-update, update, arith,
  if◌then◌else◌, Bool-cases, inl, inr, ltb,
}
use dtlab_control_center.Tickets.Model.{
  Priority, p1, p2, p3, p4, Signal, Ticket, Db, priority_eq, priority_rank, validation,
}
use dtlab_control_center.Tickets.Validation.{normalize_priority, required_text, TaskInput}
use dtlab_control_center.Tickets.Sla.{Env}
use dtlab_control_center.Tickets.Tables.{
  Action, ◌>>=◌, ◌>>◌, pure, modify, ticket_at, signal_at, require_ticket, touch_ticket,
  update_ticket, audit,
}
use dtlab_control_center.Tickets.Workflow.{
  refuse_if, write_priority, change_priority, touch_if, set_ticket_priority,
}
use dtlab_control_center.Tickets.Policy.{
  desired_priority, eligible, priority_text, PolicyResult, escalate, apply_host_ot_ticket_policy,
}
use dtlab_control_center.Tickets.Runs.{by_lift, by_step, by_ticket, by_signal, require_ticket_finds}
use dtlab_control_center.Tickets.Transitions.{refused}

same_priority : (a b : Priority) → priority_eq a b ≡ true → a ≡ b
same_priority p1 b h = ground arith
same_priority p2 b h = ground arith
same_priority p3 b h = ground arith
same_priority p4 b h = ground arith

-- The ticket `id` is there with priority `p`.
record Ranked (id : Text) (p : Priority) (db : Db) : Type 0 where
  row : Ticket
  found : find (ticket_at id) db.tickets ≡ some row
  ranked : row.priority ≡ p

updated :
    (id : Text) (p : Priority) (change : Ticket → Ticket) (db db' : Db) (row : Ticket)
    → ((t : Ticket) → (change t).id ≡ t.id)
    → db'.tickets ≡ update (ticket_at id) change db.tickets
    → find (ticket_at id) db.tickets ≡ some row
    → (change row).priority ≡ p
    → Ranked id p db'
updated id p change db db' row keep rows found is = record {
  row = change row;
  found =
      rw
        (rows, find-update (λ (t : Ticket). t.id) change keep id id db.tickets, found, text_eq_refl)
        refl;
  ranked = is;
}

change_priority-Ranked :
    (env : Env) (row : Ticket) (p : Priority) (actor : Text) (db mid : Db) (changed : Bool)
    → find (ticket_at row.id) db.tickets ≡ some row
    → change_priority env row p actor db ≡ ok (changed, mid)
    → Ranked row.id p mid
unfolding change_priority
change_priority-Ranked env row p actor db mid changed found run =
    elim (Bool-cases (priority_eq row.priority p)) [
      | inl same ↦ stays same (rw same at run)
      | inr differs ↦ by_lift _ _ _ (rw differs at run) λ due _ run1.
          by_step _ _ _ run1 λ u after written run2.
            updated row.id p (λ t. record t { priority = p; sla_due_at = due }) db mid row
              (λ t. refl) (rows due after written run2) found refl
    ]
  where
    stays :
        priority_eq row.priority p ≡ true → pure false db ≡ ok (changed, mid) → Ranked row.id p mid
    stays same h =
        let e : mid ≡ db = unfold pure in ground arith in
        record {
          row = row;
          found = rw (ap (λ (x : Db). x.tickets) e) found;
          ranked = same_priority row.priority p same;
        }

    rows :
        (due : ℕ) (after : Db) {u : Unit {0}}
        → write_priority env row p due actor db ≡ ok (u, after)
        → pure true after ≡ ok (changed, mid)
        → mid.tickets
          ≡ update (ticket_at row.id) (λ t. record t { priority = p; sla_due_at = due }) db.tickets
    rows due after w h = unfold write_priority update_ticket audit modify ◌>>=◌ pure in ground arith

touch_if-Ranked :
    (c : Bool) (id : Text) (p : Priority) (now : ℕ) (db mid : Db) {u : Unit {0}}
    → Ranked id p db
    → touch_if c id now db ≡ ok (u, mid)
    → Ranked id p mid
unfolding touch_if touch_ticket update_ticket modify pure
touch_if-Ranked true id p now db mid r h =
    updated id p (λ t. record t { updated_at = now }) db mid r.row (λ t. refl) (ground arith)
      r.found r.ranked
touch_if-Ranked false id p now db mid r h =
    let e : mid ≡ db = ground arith in
    record { row = r.row; found = rw (ap (λ (x : Db). x.tickets) e) r.found; ranked = r.ranked }

some_inj : {A : Type 0} {a b : A} → some a ≡ some b → a ≡ b
some_inj h = ground arith

-- A call of set_ticket_priority that succeeds returns the ticket with the priority that was asked for.
set_ticket_priority_lem :
    (env : Env) (ticket_id priority actor : Text) (p : Priority) (db end : Db) (t : Ticket)
    → normalize_priority priority ≡ ok p
    → set_ticket_priority env ticket_id priority actor db ≡ ok (t, end)
    → t.priority ≡ p
unfolding set_ticket_priority
set_ticket_priority_lem env ticket_id priority actor p db end t asked run =
    by_lift _ _ _ run λ value value_ok run1. by_lift _ _ _ run1 λ id _ run2.
      by_lift _ _ _ run2 λ who _ run3. by_lift _ _ _ run3 λ _ _ run4.
        by_ticket _ _ _ run4 λ row found run5. by_step _ _ _ run5 λ changed mid ranked run6.
          by_step _ _ _ run6 λ _ mid2 touched run7.
            let named : row.id ≡ id =
              text_eq_sound row.id id (find_test (ticket_at id) db.tickets row found) in
            let first : Ranked row.id value mid =
              change_priority-Ranked env row value who db mid changed
                (ap (λ (x : Text). find (ticket_at x) db.tickets) named ∙ found) ranked in
            let last : Ranked id value mid2 =
              touch_if-Ranked changed id value env.now mid mid2 (rw named at first) touched in
            let (there, e) = require_ticket_finds id mid2 run7 in
            let same : last.row ≡ t = some_inj (sym last.found ∙ there) in
            let value_is : value ≡ p = ground arith in
            ap (λ (x : Ticket). x.priority) (sym same) ∙ last.ranked ∙ value_is

named_priority : (p : Priority) → normalize_priority (priority_text p) ≡ ok p
unfolding normalize_priority
named_priority p1 = refl
named_priority p2 = refl
named_priority p3 = refl
named_priority p4 = refl

escalate_lem :
    (env : Env) (actor : Text) (desired : Priority) (ticket t : Ticket) (raised : Bool)
    (db end : Db)
    → escalate env actor desired ticket db ≡ ok ((t, raised), end)
    → priority_rank t.priority ≤ priority_rank desired
unfolding escalate
escalate_lem env actor desired ticket t raised db end run =
    elim (Bool-cases (ltb (priority_rank desired) (priority_rank ticket.priority))) [
      | inl more ↦ by_step _ _ _ (rw more at run) λ got mid set done.
          let same : got ≡ t = unfold pure in ground arith in
          let now : t.priority ≡ desired =
            ap (λ (x : Ticket). x.priority) (sym same)
            ∙ set_ticket_priority_lem env ticket.id (priority_text desired) actor desired db mid got
                (named_priority desired) set in
          rw now (omega arith)
      | inr less ↦ kept less (rw less at run)
    ]
  where
    kept :
        ltb (priority_rank desired) (priority_rank ticket.priority) ≡ false
        → pure {A = Ticket × Bool} (ticket, false) db ≡ ok ((t, raised), end)
        → priority_rank t.priority ≤ priority_rank desired
    kept less h = let same : ticket ≡ t = unfold pure in ground arith in rw⁻¹ same (ground arith)

-- When the automatic policy succeeds, the signal is there and eligible, and the ticket that it
-- returns is at least as urgent as the signal wants.
pub apply_host_ot_ticket_policy_lem :
    (env : Env) (playbook : List TaskInput) (actor signal_id : Text) (db end : Db)
    (r : PolicyResult)
    → apply_host_ot_ticket_policy env playbook actor signal_id db ≡ ok (r, end)
    → (id : Text) × (signal : Signal) × (required_text signal_id 128 ≡ ok id)
      × (find (signal_at id) db.signals ≡ some signal)
      × (eligible signal ≡ true)
      × (priority_rank r.ticket.priority ≤ priority_rank (desired_priority signal))
unfolding apply_host_ot_ticket_policy
apply_host_ot_ticket_policy_lem env playbook actor signal_id db end r run =
    by_lift _ _ _ run λ id id_ok run1. by_signal _ _ _ run1 λ signal found run2.
      refused _ _ _ _ run2 λ accepted run3. by_step _ _ _ run3 λ before mid1 _ run4.
        by_step _ _ _ run4 λ made mid2 _ run5. by_step _ _ _ run5 λ raised mid3 step run6.
          let low =
            escalate_lem env actor (desired_priority signal) made.0 raised.0 raised.1 mid2 mid3
              step in
          let same : r.ticket ≡ raised.0 = unfold pure in ground arith in
          (id, signal, id_ok, found, ground arith, rw same low)
