-- ===== src/Tickets/Transitions.antt =====
-- When transition_ticket succeeds, and what it does then.
use dtlab_control_center.Prelude.{
  ◌+◌, ◌≡◌, refl, ap, ◌∙◌, ◌↔◌, Bool, true, false, ◌&&◌, not, Option, some, [], ◌∷◌, ◌++◌, Text,
  text_eq, text_eq_sound, text_eq_refl, ok, is_some, find, find_test, find-update, update, arith,
}
use dtlab_control_center.Tickets.Model.{
  Status, Ticket, Db, status_changed, Error, is_decision, allowed,
}
use dtlab_control_center.Tickets.Validation.{required_text, optional_text, normalize_status}
use dtlab_control_center.Tickets.Sla.{Env}
use dtlab_control_center.Tickets.Tables.{
  Action, ◌>>=◌, modify, ticket_at, update_ticket, audit, logged,
}
use dtlab_control_center.Tickets.Workflow.{
  refuse_if, resolved_after, closed_after, change_status, transition_ticket,
}
use dtlab_control_center.Tickets.Runs.{step, lift_ok, require_ticket_found, by_lift, by_ticket}

-- What a transition needs: arguments that pass their checks, a note for a decision, a ticket, and a status
-- that the ticket may go to.
pub record IsPermitted (ticket_id to_status actor : Text) (note : Option Text) (db : Db)
    : Type 0 where
  pub id : Text
  pub id_ok : required_text ticket_id 128 ≡ ok id
  pub target : Status
  pub target_ok : normalize_status to_status ≡ ok target
  pub who : Text
  pub who_ok : required_text actor 256 ≡ ok who
  pub reason : Option Text
  pub reason_ok : optional_text note 16384 ≡ ok reason
  pub noted : is_decision target && not (is_some reason) ≡ false
  pub row : Ticket
  pub found : find (ticket_at id) db.tickets ≡ some row
  pub reachable : allowed row.status target ≡ true

abbrev pub move : Env → Ticket → Status → Ticket → Ticket
move env row target t = record t {
  status = target;
  updated_at = env.now;
  resolved_at = resolved_after row.status target env.now row.resolved_at;
  closed_at = closed_after row.status target env.now row.closed_at;
}

abbrev pub after_move : Env → Ticket → Status → Text → Option Text → Db → Db
after_move env row target who reason db =
    logged row.id who env.now (status_changed row.status target reason)
      (record db { tickets = update (ticket_at row.id) (move env row target) db.tickets })

pub refused :
    {B : Type 0} {G : Type 0} (c : Bool) (e : Error) (f : Unit {0} → Action B) (db : Db) {b : B}
    {end : Db}
    → (refuse_if c e >>= f) db ≡ ok (b, end)
    → (c ≡ false → f tt db ≡ ok (b, end) → G)
    → G
unfolding ◌>>=◌
refused true e f db h k = absurd (cc)
refused false e f db h k = k refl h

not_refused :
    {B : Type 0} {c : Bool} (e : Error) (f : Unit {0} → Action B) (db : Db)
    → c ≡ false
    → (refuse_if c e >>= f) db ≡ f tt db
unfolding ◌>>=◌
not_refused e f db h = rw h refl

pub transition_ticket-IsPermitted :
    (env : Env) (ticket_id to_status actor : Text) (note : Option Text) (db end : Db) (t : Ticket)
    → transition_ticket env ticket_id to_status actor note db ≡ ok (t, end)
    → IsPermitted ticket_id to_status actor note db
unfolding transition_ticket
transition_ticket-IsPermitted env ticket_id to_status actor why db end t run =
    by_lift _ _ _ run λ id id_ok run1. by_lift _ _ _ run1 λ target target_ok run2.
      by_lift _ _ _ run2 λ who who_ok run3. by_lift _ _ _ run3 λ reason reason_ok run4.
        refused _ _ _ _ run4 λ noted run5. by_ticket _ _ _ run5 λ row found run6.
          refused _ _ _ _ run6 λ reachable run7. record {
            id = id;
            id_ok = id_ok;
            target = target;
            target_ok = target_ok;
            who = who;
            who_ok = who_ok;
            reason = reason;
            reason_ok = reason_ok;
            noted = noted;
            row = row;
            found = found;
            reachable = ground arith;
          }

module _ (env : Env) {ticket_id to_status actor : Text} {note : Option Text} (db : Db)
    (p : IsPermitted ticket_id to_status actor note db) where
  after : Db
  after = after_move env p.row p.target p.who p.reason db

  named : p.row.id ≡ p.id
  named = text_eq_sound p.row.id p.id (find_test (ticket_at p.id) db.tickets p.row p.found)

  moved : find (ticket_at p.id) after.tickets ≡ some (move env p.row p.target p.row)
  unfolding after
  moved =
      rw
        (
          find-update (λ (t : Ticket). t.id) (move env p.row p.target) (λ t. refl) p.id p.row.id
              db.tickets,
          p.found,
          named,
          text_eq_refl,
        )
        refl

  change : change_status env p.row p.target p.who p.reason db ≡ ok (tt, after)
  unfolding change_status update_ticket audit modify ◌>>=◌ after
  change = refl

  runs :
      transition_ticket env ticket_id to_status actor note db
      ≡ ok (move env p.row p.target p.row, after)
  unfolding transition_ticket
  runs = step _ _ (lift_ok db p.id_ok) (
      step _ _ (lift_ok db p.target_ok) (
        step _ _ (lift_ok db p.who_ok) (
          step _ _ (lift_ok db p.reason_ok) (
            not_refused _ _ db p.noted
            ∙ step _ _ (require_ticket_found p.id db p.row p.found) (
                not_refused _ _ db (ap not p.reachable)
                ∙ step _ _ change (require_ticket_found p.id after _ moved))))))

  others :
      (other : Text)
      → text_eq p.id other ≡ false
      → find (ticket_at other) after.tickets ≡ find (ticket_at other) db.tickets
  unfolding after
  others other h =
      rw
        (
          find-update (λ (t : Ticket). t.id) (move env p.row p.target) (λ t. refl) other p.row.id
              db.tickets,
          named,
          h,
        )
        refl

  trail :
      after.audit
      ≡ db.audit
        ++ record {
          sequence = db.audit_sequence + 1;
          ticket_id = p.id;
          actor = p.who;
          occurred_at = env.now;
          details = status_changed p.row.status p.target p.reason;
        }
          ∷ []
  unfolding after
  trail = rw named refl

-- transition_ticket succeeds exactly when the identifier, the status, the actor and the note
-- pass their checks, a decision has a note, the ticket is there, and its status may go to the
-- target.
pub transition_ticket_iff :
    (env : Env) (ticket_id to_status actor : Text) (note : Option Text) (db : Db)
    → ((t : Ticket) × (end : Db) × (transition_ticket env ticket_id to_status actor note db
          ≡ ok (t, end)))
      ↔ IsPermitted ticket_id to_status actor note db
transition_ticket_iff env ticket_id to_status actor why db = (
  λ h. transition_ticket-IsPermitted env ticket_id to_status actor why db h.1 h.0 h.2,
  λ p. (_, _, runs env db p),
)

-- A permitted transition returns the ticket in its new status, as it then stands in the table;
-- the other tickets, the tasks and the comments stay, and one audit event is appended, with the
-- old status, the new one and the note.
pub transition_ticket_lem :
    (env : Env) (ticket_id to_status actor : Text) (note : Option Text) (db : Db)
    → (p : IsPermitted ticket_id to_status actor note db)
    → (t : Ticket) × (end : Db) × (transition_ticket env ticket_id to_status actor note db
        ≡ ok (t, end))
      × (t.status ≡ p.target)
      × (find (ticket_at p.id) end.tickets ≡ some t)
      × ((other : Text)
          → text_eq p.id other ≡ false
          → find (ticket_at other) end.tickets ≡ find (ticket_at other) db.tickets)
      × (end.tasks ≡ db.tasks)
      × (end.comments ≡ db.comments)
      × (end.audit
          ≡ db.audit
            ++ record {
              sequence = db.audit_sequence + 1;
              ticket_id = p.id;
              actor = p.who;
              occurred_at = env.now;
              details = status_changed p.row.status p.target p.reason;
            }
              ∷ [])
transition_ticket_lem env ticket_id to_status actor why db p = (
  _,
  _,
  runs env db p,
  refl,
  moved env db p,
  others env db p,
  unfold after in refl,
  unfold after in refl,
  trail env db p,
)
