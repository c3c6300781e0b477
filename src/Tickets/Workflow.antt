-- ===== src/Tickets/Workflow.antt =====
-- The methods of TicketStore that change one ticket in place: its status, owner, priority, deadline,
-- comments and tasks.
use dtlab_control_center.Prelude.{
  ℕ, ◌+◌, Bool, true, false, ◌&&◌, ◌||◌, not, Option, none, some, List, [], ◌∷◌, ◌++◌, Text, codes,
  text_eq, is_some, if◌then◌else◌, ◌==◌,
}
use dtlab_control_center.Tickets.Model.{
  Status, investigating, closed, Priority, TaskStatus, pending, completed, skipped, Ticket, Task,
  Comment, status_changed, assigned, priority_changed, sla_recalculated, comment_added, task_added,
  task_status_changed, Error, validation, invalid_transition, status_eq, priority_eq, is_decision,
  sla_stopped, allowed,
}
use dtlab_control_center.Tickets.Validation.{
  required_text, optional_text, normalize_priority, normalize_status, normalize_task_status,
}
use dtlab_control_center.Tickets.Sla.{Env, business_hours_policy, sla_due_at}
use dtlab_control_center.Tickets.Tables.{
  Action, pure, raise, lift, gets, ◌>>=◌, ◌>>◌, require_ticket, require_task, update_ticket,
  touch_ticket, audit, max_position, insert_task, update_task, insert_comment,
}
use dtlab_control_center.Tickets.Operations.{new_task}

-- `if` around a raise, as a statement
abbrev pub refuse_if : Bool → Error → Action (Unit {0})
refuse_if c e = if c then raise e else pure tt

-- `target == "investigating" and current in {…}`: a decided ticket is taken up again.
unfoldable pub reopens : Status → Status → Bool
reopens current target =
    status_eq target investigating && (is_decision current || status_eq current closed)

-- The new `resolved_at` and `closed_at`
unfoldable pub resolved_after : Status → Status → ℕ → Option ℕ → Option ℕ
unfolding reopens
resolved_after current target now old =
    if reopens current target then none else if is_decision target then some now else old

unfoldable pub closed_after : Status → Status → ℕ → Option ℕ → Option ℕ
unfolding reopens
closed_after current target now old =
    if reopens current target then none else if status_eq target closed then some now else old

-- The UPDATE of a transition with its audit event
unfoldable pub change_status : Env → Ticket → Status → Text → Option Text → Action (Unit {0})
unfolding resolved_after closed_after
change_status env row target actor note = do
  update_ticket row.id λ t. record t {
    status = target;
    updated_at = env.now;
    resolved_at = resolved_after row.status target env.now row.resolved_at;
    closed_at = closed_after row.status target env.now row.closed_at;
  }
  audit row.id actor env.now (status_changed row.status target note)

-- transition_ticket
unfoldable pub transition_ticket : Env → Text → Text → Text → Option Text → Action Ticket
transition_ticket env ticket_id to_status actor note = do
  id ← lift (required_text ticket_id 128)
  target ← lift (normalize_status to_status)
  who ← lift (required_text actor 256)
  reason ← lift (optional_text note 16384)
  refuse_if (is_decision target && not (is_some reason)) validation
  row ← require_ticket id
  refuse_if (not (allowed row.status target)) (invalid_transition row.status target)
  change_status env row target who reason
  require_ticket id

abbrev pub option_text_eq : Option Text → Option Text → Bool
option_text_eq none none = true
option_text_eq (some a) (some b) = text_eq a b
option_text_eq _ _ = false

-- The UPDATE of the owner, and that of the priority with the deadline, each with its audit event
unfoldable pub write_owner : Env → Ticket → Option Text → Text → Action (Unit {0})
write_owner env row owner actor = do
  update_ticket row.id (λ t. record t { owner = owner })
  audit row.id actor env.now (assigned row.owner owner)

unfoldable pub write_priority : Env → Ticket → Priority → ℕ → Text → Action (Unit {0})
write_priority env row priority due actor = do
  update_ticket row.id (λ t. record t { priority = priority; sla_due_at = due })
  audit row.id actor env.now (priority_changed row.priority priority row.sla_due_at due)

-- The owner part of `_update_ticket_field` and of update_ticket_governance. It returns `changed`.
unfoldable pub change_owner : Env → Ticket → Option Text → Text → Action Bool
change_owner env row owner actor =
    if option_text_eq row.owner owner
    then pure false
    else do write_owner env row owner actor; pure true

-- The priority part of both
unfoldable pub change_priority : Env → Ticket → Priority → Text → Action Bool
change_priority env row priority actor =
    if priority_eq row.priority priority then pure false else do
      due ← lift (sla_due_at env priority row.created_at)
      write_priority env row priority due actor
      pure true

unfoldable pub touch_if : Bool → Text → ℕ → Action (Unit {0})
touch_if changed id now = if changed then touch_ticket id now else pure tt

-- assign_ticket, through _update_ticket_field
unfoldable pub assign_ticket : Env → Text → Option Text → Text → Action Ticket
assign_ticket env ticket_id owner actor = do
  value ← lift (optional_text owner 256)
  id ← lift (required_text ticket_id 128)
  who ← lift (required_text actor 256)
  row ← require_ticket id
  changed ← change_owner env row value who
  touch_if changed id env.now
  require_ticket id

-- set_ticket_priority, through _update_ticket_field
unfoldable pub set_ticket_priority : Env → Text → Text → Text → Action Ticket
set_ticket_priority env ticket_id priority actor = do
  value ← lift (normalize_priority priority)
  id ← lift (required_text ticket_id 128)
  who ← lift (required_text actor 256)
  lift (business_hours_policy env)
  row ← require_ticket id
  changed ← change_priority env row value who
  touch_if changed id env.now
  require_ticket id

-- update_ticket_governance
unfoldable pub update_ticket_governance : Env → Text → Option Text → Text → Text → Action Ticket
update_ticket_governance env ticket_id owner priority actor = do
  id ← lift (required_text ticket_id 128)
  who ← lift (required_text actor 256)
  new_owner ← lift (optional_text owner 256)
  new_priority ← lift (normalize_priority priority)
  lift (business_hours_policy env)
  row ← require_ticket id
  moved ← change_owner env row new_owner who
  ranked ← change_priority env row new_priority who
  touch_if (moved || ranked) id env.now
  require_ticket id

-- The UPDATE of a deadline with its audit event
unfoldable pub reschedule : Env → Ticket → ℕ → Text → Action (Unit {0})
reschedule env row due actor = do
  update_ticket row.id (λ t. record t { sla_due_at = due; updated_at = env.now })
  audit row.id actor env.now (sla_recalculated row.sla_due_at due)

-- The loop of recalculate_open_sla_deadlines over the rows that its SELECT returned
unfoldable pub recalculate_rows : Env → Text → List Ticket → Action ℕ
recalculate_rows env actor [] = pure 0
recalculate_rows env actor (row ∷ rest) =
    let others = recalculate_rows env actor rest in
    do
      due ← lift (sla_due_at env row.priority row.created_at)
      if due == row.sla_due_at
          then others
          else do reschedule env row due actor; changed ← others; pure (changed + 1)

-- SELECT * FROM tickets WHERE status NOT IN (…)
unfoldable pub open_tickets : List Ticket → List Ticket
open_tickets [] = []
open_tickets (t ∷ rest) =
    let others = open_tickets rest in if sla_stopped t.status then others else t ∷ others

unfoldable pub recalculate_open_sla_deadlines : Env → Text → Action ℕ
recalculate_open_sla_deadlines env actor = do
  who ← lift (required_text actor 256)
  lift (business_hours_policy env)
  rows ← gets (λ db. open_tickets db.tickets)
  recalculate_rows env who rows

abbrev new_comment : Env → Text → Text → Text → Comment
new_comment env ticket_id author body = record {
  id = codes "comment:" ++ env.uuid 0;
  ticket_id = ticket_id;
  author = author;
  body = body;
  created_at = env.now;
}

-- add_comment
unfoldable pub add_comment : Env → Text → Text → Text → Action Comment
add_comment env ticket_id author body = do
  id ← lift (required_text ticket_id 128)
  who ← lift (required_text author 256)
  text ← lift (required_text body 32768)
  require_ticket id
  let row = new_comment env id who text
  insert_comment row
  touch_ticket id env.now
  audit id who env.now (comment_added row.id)
  pure row

-- The arguments of add_task, before normalisation
pub record NewTask : Type 0 where
  pub ticket_id : Text
  pub actor : Text
  pub title : Text
  pub description : Option Text
  pub owner : Option Text
  pub due_at : Option Text

-- add_task
unfoldable pub add_task : Env → NewTask → Action Task
add_task env input = do
  id ← lift (required_text input.ticket_id 128)
  who ← lift (required_text input.actor 256)
  title ← lift (required_text input.title 1024)
  description ← lift (optional_text input.description 16384)
  owner ← lift (optional_text input.owner 256)
  due_at ← lift (optional_text input.due_at 64)
  require_ticket id
  position ← gets (λ db. max_position id db.tasks)
  let row = new_task env id title description owner due_at (position + 1)
  insert_task row
  touch_ticket id env.now
  audit id who env.now (task_added row.id row.position row.title)
  require_task row.id

abbrev pub task_status_eq : TaskStatus → TaskStatus → Bool
task_status_eq pending pending = true
task_status_eq completed completed = true
task_status_eq skipped skipped = true
task_status_eq _ _ = false

-- The UPDATE of a task's status with that of its ticket and the audit event
unfoldable pub set_task_status : Env → Task → TaskStatus → Text → Action (Unit {0})
set_task_status env row target actor = do
  update_task row.id λ t. record t {
    status = target;
    completed_at = if task_status_eq target pending then none else some env.now;
    updated_at = env.now;
  }
  touch_ticket row.ticket_id env.now
  audit row.ticket_id actor env.now (task_status_changed row.id row.status target)

-- update_task_status
unfoldable pub update_task_status : Env → Text → Text → Text → Action Task
update_task_status env task_id status actor = do
  id ← lift (required_text task_id 128)
  target ← lift (normalize_task_status status)
  who ← lift (required_text actor 256)
  row ← require_task id
  (if task_status_eq row.status target then pure tt else set_task_status env row target who)
  require_task id
