-- ===== src/Tickets/Dates.antt =====
-- The decision dates of a ticket follow its status.
use dtlab_control_center.Prelude.{
  ℕ, ◌≡◌, refl, true, Option, none, List, [], ◌∷◌, Text, is_some, All, All-append, All-update,
  arith,
}
use dtlab_control_center.Tickets.Model.{
  Status, new, acknowledged, investigating, remediating, waiting_ot, resolved, closed,
  false_positive, accepted_risk, suppressed, Ticket, Db, Details, empty_db, allowed, is_decision,
}
use dtlab_control_center.Tickets.Sla.{Env}
use dtlab_control_center.Tickets.Tables.{ticket_at, update_ticket, touch_ticket, audit, update_task}
use dtlab_control_center.Tickets.Workflow.{
  change_status, resolved_after, closed_after, write_owner, write_priority, reschedule,
  set_task_status,
}
use dtlab_control_center.Tickets.Signals.{
  Runtime, insert_signal, update_signal, insert_occurrence, insert_ingest,
}
use dtlab_control_center.Tickets.History.{Request, serve}
use dtlab_control_center.Tickets.Keeps.{
  Keeps-open_ticket, Keeps-modify, Keeps-insert_task, Keeps-insert_comment, Keeps, Keeps-bind,
}
use dtlab_control_center.Tickets.Rules.{Rules, serve-Keeps}

abbrev IsSome : {A : Type 0} → Option A → Type 0
IsSome o = is_some o ≡ true

-- A decided ticket has the date of its decision, a closed one that of its closing too, and the others
-- have neither.
abbrev pub DatesFit : Status → Option ℕ → Option ℕ → Type 0
DatesFit closed r c = IsSome r × IsSome c
DatesFit resolved r c = IsSome r × (c ≡ none)
DatesFit false_positive r c = IsSome r × (c ≡ none)
DatesFit accepted_risk r c = IsSome r × (c ≡ none)
DatesFit suppressed r c = IsSome r × (c ≡ none)
DatesFit _ r c = (r ≡ none) × (c ≡ none)

abbrev pub IsDated : Ticket → Type 0
IsDated t = DatesFit t.status t.resolved_at t.closed_at

-- A permitted transition sets the dates that its target wants.
pub transition-DatesFit :
    (from to : Status) (now : ℕ) (r c : Option ℕ)
    → allowed from to ≡ true
    → DatesFit from r c
    → DatesFit to (resolved_after from to now r) (closed_after from to now c)
unfolding resolved_after closed_after allowed is_decision
transition-DatesFit new to now r c ok fit = ground arith
transition-DatesFit acknowledged to now r c ok fit = ground arith
transition-DatesFit investigating to now r c ok fit = ground arith
transition-DatesFit remediating to now r c ok fit = ground arith
transition-DatesFit waiting_ot to now r c ok fit = ground arith
transition-DatesFit resolved to now r c ok fit = ground arith
transition-DatesFit closed to now r c ok fit = ground arith
transition-DatesFit _ to now r c ok fit = ground arith

abbrev DatedDb : Db → Type 0
DatedDb db = All IsDated db.tickets

update-Dated :
    (id : Text) (change : Ticket → Ticket)
    → ((t : Ticket) → IsDated t → IsDated (change t))
    → Keeps DatedDb (update_ticket id change)
unfolding update_ticket
update-Dated id change keep =
    Keeps-modify _ λ db h. All-update IsDated (ticket_at id) change db.tickets h (λ t _ d. keep t d)

audit-Dated : (id actor : Text) (now : ℕ) (d : Details) → Keeps DatedDb (audit id actor now d)
unfolding audit
audit-Dated id actor now d = Keeps-modify _ λ db h. h

change_status-Dated :
    (env : Env) (row : Ticket) (target : Status) (actor : Text) (note : Option Text)
    → IsDated row
    → allowed row.status target ≡ true
    → Keeps DatedDb (change_status env row target actor note)
unfolding change_status
change_status-Dated env row target actor why fit permitted =
    Keeps-bind _ _
      (update-Dated row.id _ λ t _.
        transition-DatesFit row.status target env.now row.resolved_at row.closed_at permitted fit)
      λ _. audit-Dated row.id actor env.now _

new-IsDated : (t : Ticket) → t.status ≡ new → t.resolved_at ≡ none → t.closed_at ≡ none → IsDated t
new-IsDated t s r c = rw (s, r, c) (refl, refl)

Dated-rules : Rules DatedDb IsDated
unfolding insert_signal update_signal insert_ingest insert_occurrence write_owner write_priority
    reschedule touch_ticket set_task_status update_task
Dated-rules = record {
  rows = λ db h. h;
  opens = λ t s r c.
      Keeps-open_ticket t
        λ db h free. All-append IsDated db.tickets (t ∷ []) h (new-IsDated t s r c, tt);
  moves = change_status-Dated;
  owns = λ env row owner actor.
      Keeps-bind _ _ (update-Dated row.id _ λ t d. d) λ _. audit-Dated row.id actor env.now _;
  ranks = λ env row p due actor.
      Keeps-bind _ _ (update-Dated row.id _ λ t d. d) λ _. audit-Dated row.id actor env.now _;
  reschedules = λ env row due actor.
      Keeps-bind _ _ (update-Dated row.id _ λ t d. d) λ _. audit-Dated row.id actor env.now _;
  touches = λ id now. update-Dated id _ λ t d. d;
  adds_task = λ t _ _. Keeps-insert_task t λ db h _. h;
  adds_comment = λ c. Keeps-insert_comment c λ db h. h;
  notes_comment = λ id actor now c. audit-Dated id actor now _;
  notes_task = λ id actor now t n title. audit-Dated id actor now _;
  completes = λ env row target actor. Keeps-bind _ _ (Keeps-modify _ λ db h. h) λ _.
      Keeps-bind _ _ (update-Dated row.ticket_id _ λ t d. d)
        λ _. audit-Dated row.ticket_id actor env.now _;
  adds_signal = λ rt row. Keeps-modify _ λ db h. h;
  sees_signal = λ rt env id row c. Keeps-modify _ λ db h. h;
  adds_occurrence = λ o. Keeps-modify _ λ db h. h;
  adds_ingest = λ rt i. Keeps-modify _ λ db h. h;
}

-- After any history of calls every ticket has the dates of its status: `resolved_at` while it is
-- decided or closed, `closed_at` while it is closed, and neither while it is worked on.
pub serve-IsDated :
    (rt : Runtime) (calls : List (Env × Request)) → All IsDated (serve rt calls empty_db).tickets
serve-IsDated rt calls = serve-Keeps Dated-rules rt calls empty_db tt
