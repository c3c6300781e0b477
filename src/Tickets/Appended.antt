-- ===== src/Tickets/Appended.antt =====
-- The audit trail only grows.
use dtlab_control_center.Prelude.{
  sym, List, [], ◌∷◌, ◌++◌, Text, Extends, append_assoc, append-nil, All-Unit, ℕ,
}
use dtlab_control_center.Tickets.Model.{Ticket, AuditEvent, Db, Details}
use dtlab_control_center.Tickets.Sla.{Env}
use dtlab_control_center.Tickets.Tables.{audit, update_ticket, touch_ticket, update_task}
use dtlab_control_center.Tickets.Workflow.{
  change_status, write_owner, write_priority, reschedule, set_task_status,
}
use dtlab_control_center.Tickets.Signals.{
  Runtime, insert_signal, update_signal, insert_occurrence, insert_ingest,
}
use dtlab_control_center.Tickets.History.{Request, serve}
use dtlab_control_center.Tickets.Keeps.{
  Keeps-open_ticket, Keeps-modify, Keeps-insert_task, Keeps-insert_comment, Keeps, Keeps-bind,
}
use dtlab_control_center.Tickets.Rules.{Rules, serve-Keeps}

one_more : {A : Type 0} (xs zs : List A) (z : A) → Extends xs zs → Extends xs (zs ++ z ∷ [])
one_more xs zs z (ys, e) = (ys ++ z ∷ [], rw e (append_assoc xs ys (z ∷ [])))

module _ (old : List AuditEvent) where
  abbrev Grown : Db → Type 0
  Grown db = Extends old db.audit

  audit-Grown : (id actor : Text) (now : ℕ) (d : Details) → Keeps Grown (audit id actor now d)
  unfolding audit
  audit-Grown id actor now d = Keeps-modify _ λ db h. one_more old db.audit _ h

  update-Grown : (id : Text) (change : Ticket → Ticket) → Keeps Grown (update_ticket id change)
  unfolding update_ticket
  update-Grown id change = Keeps-modify _ λ db h. h

  Grown-rules : Rules Grown (λ t. Unit {0})
  unfolding change_status insert_signal update_signal insert_ingest insert_occurrence write_owner
      write_priority reschedule touch_ticket set_task_status update_task
  Grown-rules = record {
    rows = λ db h. All-Unit db.tickets;
    opens = λ t _ _ _. Keeps-open_ticket t λ db h free. one_more old db.audit _ h;
    moves = λ env row target actor note _ _.
        Keeps-bind _ _ (update-Grown row.id _) λ _. audit-Grown row.id actor env.now _;
    owns = λ env row owner actor.
        Keeps-bind _ _ (update-Grown row.id _) λ _. audit-Grown row.id actor env.now _;
    ranks = λ env row p due actor.
        Keeps-bind _ _ (update-Grown row.id _) λ _. audit-Grown row.id actor env.now _;
    reschedules = λ env row due actor.
        Keeps-bind _ _ (update-Grown row.id _) λ _. audit-Grown row.id actor env.now _;
    touches = λ id now. update-Grown id _;
    adds_task = λ t _ _. Keeps-insert_task t λ db h _. h;
    adds_comment = λ c. Keeps-insert_comment c λ db h. h;
    notes_comment = λ id actor now c. audit-Grown id actor now _;
    notes_task = λ id actor now t n title. audit-Grown id actor now _;
    completes = λ env row target actor. Keeps-bind _ _ (Keeps-modify _ λ db h. h) λ _.
        Keeps-bind _ _ (update-Grown row.ticket_id _)
          λ _. audit-Grown row.ticket_id actor env.now _;
    adds_signal = λ rt row. Keeps-modify _ λ db h. h;
    sees_signal = λ rt env id row c. Keeps-modify _ λ db h. h;
    adds_occurrence = λ o. Keeps-modify _ λ db h. h;
    adds_ingest = λ rt i. Keeps-modify _ λ db h. h;
  }

-- No history of calls, from any database on, removes or changes an audit event: the trail behind
-- it is the one before it with events appended.
pub serve-Extends :
    (rt : Runtime) (calls : List (Env × Request)) (db : Db)
    → Extends db.audit (serve rt calls db).audit
serve-Extends rt calls db =
    serve-Keeps (Grown-rules db.audit) rt calls db ([], sym (append-nil db.audit))
