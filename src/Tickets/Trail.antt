-- ===== src/Tickets/Trail.antt =====
-- The audit trail of a ticket, replayed, gives the governed part of its row.
use mathlib.Core.Option
use dtlab_control_center.Prelude.{
  ℕ, ◌≡◌, refl, Option, none, some, List, [], ◌∷◌, ◌++◌, Text, text_eq, text_eq_iff, All-Unit, find,
  find-append, find-update, arith, if◌then◌else◌,
}
use dtlab_control_center.Tickets.Model.{
  Status, Priority, Task, TaskStatus, Ticket, Details, created, status_changed, assigned,
  priority_changed, sla_recalculated, comment_added, task_added, task_status_changed, AuditEvent,
  Db, empty_db,
}
use dtlab_control_center.Tickets.Sla.{Env}
use dtlab_control_center.Tickets.Tables.{
  ◌>>=◌, ◌>>◌, modify, ticket_at, update_ticket, touch_ticket, audit, update_task,
}
use dtlab_control_center.Tickets.Operations.{open_ticket}
use dtlab_control_center.Tickets.Workflow.{
  change_status, write_owner, write_priority, reschedule, set_task_status,
}
use dtlab_control_center.Tickets.Signals.{
  Runtime, insert_signal, update_signal, insert_occurrence, insert_ingest,
}
use dtlab_control_center.Tickets.History.{Request, serve}
use dtlab_control_center.Tickets.Keeps.{
  Keeps-open_ticket, Keeps-modify, Keeps-insert_task, Keeps-insert_comment, Keeps, Keeps-bind,
}
use dtlab_control_center.Tickets.Rules.{Rules, serve-Keeps}

-- The governed part of a ticket.
pub record View : Type 0 where
  pub status : Status
  pub priority : Priority
  pub owner : Option Text
  pub sla_due_at : ℕ

abbrev pub view_of : Ticket → View
view_of t = record {
  status = t.status;
  priority = t.priority;
  owner = t.owner;
  sla_due_at = t.sla_due_at;
}

-- What an event says has become of the view.
pub apply_details : Details → Option View → Option View
apply_details (created _ status priority owner due) v =
    some (record { status = status; priority = priority; owner = owner; sla_due_at = due })
apply_details (status_changed _ to _) v = Option.map (λ (w : View). record w { status = to }) v
apply_details (assigned _ to) v = Option.map (λ (w : View). record w { owner = to }) v
apply_details (priority_changed _ to _ due) v =
    Option.map (λ (w : View). record w { priority = to; sla_due_at = due }) v
apply_details (sla_recalculated _ due) v =
    Option.map (λ (w : View). record w { sla_due_at = due }) v
apply_details _ v = v

replay_from : Text → Option View → List AuditEvent → Option View
replay_from id v [] = v
replay_from id v (e ∷ rest) =
    replay_from id (if text_eq e.ticket_id id then apply_details e.details v else v) rest

-- The view of a ticket according to the trail.
pub replay : Text → List AuditEvent → Option View
replay id events = replay_from id none events

replay_from-append :
    (id : Text) (v : Option View) (es : List AuditEvent) (e : AuditEvent)
    → replay_from id v (es ++ e ∷ []) ≡ (
        if text_eq e.ticket_id id
        then apply_details e.details (replay_from id v es)
        else replay_from id v es)
unfolding replay_from
replay_from-append id v [] e = refl
replay_from-append id v (x ∷ es) e =
    replay_from-append id (if text_eq x.ticket_id id then apply_details x.details v else v) es e

-- Every ticket has the view that its trail gives, and what is no ticket has no trail.
pub record IsTraced (db : Db) : Type 0 where
  pub at : (id : Text) → Option.map view_of (find (ticket_at id) db.tickets) ≡ replay id db.audit

-- An UPDATE with its audit event.
amend-IsTraced :
    (id actor : Text) (now : ℕ) (change : Ticket → Ticket) (d : Details)
    → ((t : Ticket) → (change t).id ≡ t.id)
    → ((o : Option Ticket)
        → Option.map view_of (Option.map change o) ≡ apply_details d (Option.map view_of o))
    → Keeps IsTraced (update_ticket id change >> audit id actor now d)
unfolding ◌>>=◌ update_ticket audit modify replay
amend-IsTraced id actor now change d keep same = record {
  at = λ db h. record {
    at = λ i.
        rw
          (
            find-update (λ (t : Ticket). t.id) change keep i id db.tickets,
            replay_from-append i none db.audit _,
          )
          (ground (arith, h.at i, same (find (ticket_at i) db.tickets)));
  };
}

update-IsTraced :
    (id : Text) (change : Ticket → Ticket)
    → ((t : Ticket) → (change t).id ≡ t.id)
    → ((o : Option Ticket) → Option.map view_of (Option.map change o) ≡ Option.map view_of o)
    → Keeps IsTraced (update_ticket id change)
unfolding update_ticket modify
update-IsTraced id change keep same = record {
  at = λ db h. record {
    at = λ i.
        rw (find-update (λ (t : Ticket). t.id) change keep i id db.tickets)
          (ground (arith, h.at i, same (find (ticket_at i) db.tickets)));
  };
}

open_ticket-IsTraced : (t : Ticket) → Keeps IsTraced (open_ticket t)
unfolding replay find apply_details
open_ticket-IsTraced t = Keeps-open_ticket t λ db h free. record {
  at = λ i.
      rw (find-append (ticket_at i) db.tickets (t ∷ []), replay_from-append i none db.audit _)
        (ground (arith, h.at i, text_eq_iff t.id i));
}

-- Events that say nothing of the governed part.
note-IsTraced :
    (id actor : Text) (now : ℕ) (d : Details)
    → ((v : Option View) → apply_details d v ≡ v)
    → Keeps IsTraced (audit id actor now d)
unfolding audit replay
note-IsTraced id actor now d neutral = Keeps-modify _ λ db h. record {
  at = λ i.
      rw (replay_from-append i none db.audit _)
        (ground (arith, h.at i, neutral (replay_from i none db.audit)));
}

change_status-IsTraced :
    (env : Env) (row : Ticket) (target : Status) (actor : Text) (note : Option Text)
    → Keeps IsTraced (change_status env row target actor note)
unfolding change_status apply_details
change_status-IsTraced env row target actor note =
    amend-IsTraced row.id actor env.now _ (status_changed row.status target note) (λ t. refl)
      (elim [ none ↦ refl | some t ↦ refl ])

write_owner-IsTraced :
    (env : Env) (row : Ticket) (owner : Option Text) (actor : Text)
    → Keeps IsTraced (write_owner env row owner actor)
unfolding write_owner apply_details
write_owner-IsTraced env row owner actor =
    amend-IsTraced row.id actor env.now _ (assigned row.owner owner) (λ t. refl)
      (elim [ none ↦ refl | some t ↦ refl ])

write_priority-IsTraced :
    (env : Env) (row : Ticket) (p : Priority) (due : ℕ) (actor : Text)
    → Keeps IsTraced (write_priority env row p due actor)
unfolding write_priority apply_details
write_priority-IsTraced env row p due actor =
    amend-IsTraced row.id actor env.now _ (priority_changed row.priority p row.sla_due_at due)
      (λ t. refl) (elim [ none ↦ refl | some t ↦ refl ])

reschedule-IsTraced :
    (env : Env) (row : Ticket) (due : ℕ) (actor : Text)
    → Keeps IsTraced (reschedule env row due actor)
unfolding reschedule apply_details
reschedule-IsTraced env row due actor =
    amend-IsTraced row.id actor env.now _ (sla_recalculated row.sla_due_at due) (λ t. refl)
      (elim [ none ↦ refl | some t ↦ refl ])

touch_ticket-IsTraced : (id : Text) (now : ℕ) → Keeps IsTraced (touch_ticket id now)
unfolding touch_ticket
touch_ticket-IsTraced id now =
    update-IsTraced id _ (λ t. refl) (elim [ none ↦ refl | some t ↦ refl ])

update_task-IsTraced : (id : Text) (change : Task → Task) → Keeps IsTraced (update_task id change)
unfolding update_task
update_task-IsTraced id change = Keeps-modify _ λ db h. record { at = h.at }

set_task_status-IsTraced :
    (env : Env) (row : Task) (target : TaskStatus) (actor : Text)
    → Keeps IsTraced (set_task_status env row target actor)
unfolding set_task_status apply_details
set_task_status-IsTraced env row target actor = Keeps-bind _ _ (update_task-IsTraced row.id _) λ _.
    Keeps-bind _ _ (touch_ticket-IsTraced row.ticket_id env.now) λ _.
      note-IsTraced row.ticket_id actor env.now (task_status_changed row.id row.status target)
        (λ v. refl)

Traced-rules : Rules IsTraced (λ t. Unit {0})
unfolding apply_details insert_signal update_signal insert_ingest insert_occurrence
Traced-rules = record {
  rows = λ db h. All-Unit db.tickets;
  opens = λ t _ _ _. open_ticket-IsTraced t;
  moves = λ env row target actor note _ _. change_status-IsTraced env row target actor note;
  owns = write_owner-IsTraced;
  ranks = write_priority-IsTraced;
  reschedules = reschedule-IsTraced;
  touches = touch_ticket-IsTraced;
  adds_task = λ t _ _. Keeps-insert_task t λ db h _. record { at = h.at };
  adds_comment = λ c. Keeps-insert_comment c λ db h. record { at = h.at };
  notes_comment = λ id actor now c. note-IsTraced id actor now (comment_added c) (λ v. refl);
  notes_task =
      λ id actor now t n title. note-IsTraced id actor now (task_added t n title) (λ v. refl);
  completes = set_task_status-IsTraced;
  adds_signal = λ rt row. Keeps-modify _ λ db h. record { at = h.at };
  sees_signal = λ rt env id row c. Keeps-modify _ λ db h. record { at = h.at };
  adds_occurrence = λ o. Keeps-modify _ λ db h. record { at = h.at };
  adds_ingest = λ rt i. Keeps-modify _ λ db h. record { at = h.at };
}

-- After any history of calls of the ticket store, failed ones included, replaying the audit
-- events of a ticket gives the status, priority, owner and SLA deadline of its row, and gives
-- nothing for an id without a ticket.
pub serve-IsTraced :
    (rt : Runtime) (calls : List (Env × Request)) (id : Text)
    → Option.map view_of (find (ticket_at id) (serve rt calls empty_db).tickets)
      ≡ replay id (serve rt calls empty_db).audit
serve-IsTraced rt calls id =
    (serve-Keeps Traced-rules rt calls empty_db
        (record { at = λ i. unfold find replay replay_from in refl })).at
      id
