-- ===== src/Tickets/Operations.antt =====
-- The methods of TicketStore that change tickets, tasks and comments.
use dtlab_control_center.Prelude.{
  ℕ, ◌+◌, Option, none, some, List, [], ◌∷◌, ◌++◌, Text, codes, text_eq, any, if◌then◌else◌, ◌==◌,
}
use dtlab_control_center.Tickets.Model.{
  new, Priority, pending, Signal, Ticket, Task, created, task_added,
}
use dtlab_control_center.Tickets.Validation.{
  required_text, optional_text, normalize_priority, TaskInput, task_definitions,
}
use dtlab_control_center.Tickets.Sla.{Env, sla_due_at}
use dtlab_control_center.Tickets.Tables.{
  Action, pure, lift, gets, ◌>>=◌, ◌>>◌, require_signal, select_ticket_for, require_ticket,
  insert_ticket, touch_ticket, audit, titles_of, max_position, insert_task,
}

-- A normalised text, or the one that stands for it: `_optional_text(title) or str(signal["title"])`
abbrev pub text_or : Option Text → Text → Text
text_or none other = other
text_or (some t) other = t

-- The arguments of the two methods that create a ticket, before normalisation.
pub record NewTicket : Type 0 where
  pub signal_id : Text
  pub actor : Text
  pub priority : Text
  pub owner : Option Text
  pub title : Option Text
  pub description : Option Text

-- The row that both methods insert.
unfoldable pub new_ticket :
    Env → Signal → Text → Text → Priority → Option Text → Option Text → Option Text → ℕ → Ticket
new_ticket env signal signal_id actor priority owner title description due = record {
  id = codes "ticket:" ++ env.uuid 0;
  signal_id = signal_id;
  title = text_or title signal.title;
  description = text_or description signal.description;
  status = new;
  priority = priority;
  owner = owner;
  created_by = actor;
  created_at = env.now;
  updated_at = env.now;
  sla_due_at = due;
  resolved_at = none;
  closed_at = none;
}

-- INSERT INTO tickets with its audit event
unfoldable pub open_ticket : Ticket → Action (Unit {0})
open_ticket t = do
  insert_ticket t
  audit t.id t.created_by t.created_at
      (created t.signal_id t.status t.priority t.owner t.sla_due_at)

-- The ticket of the signal: the one that exists, or a new one.
unfoldable pub find_or_open :
    Env
    → NewTicket
    → Signal
    → Text
    → Text
    → Priority
    → Option Text
    → ℕ
    → Option Ticket
    → Action Text
find_or_open env input signal signal_id actor priority owner due (some existing) = pure existing.id
find_or_open env input signal signal_id actor priority owner due none = do
  title ← lift (optional_text input.title 1024)
  description ← lift (optional_text input.description 16384)
  let row = new_ticket env signal signal_id actor priority owner title description due
  open_ticket row
  pure row.id

-- create_ticket_from_signal
unfoldable pub create_ticket_from_signal : Env → NewTicket → Action Ticket
create_ticket_from_signal env input = do
  signal_id ← lift (required_text input.signal_id 128)
  actor ← lift (required_text input.actor 256)
  priority ← lift (normalize_priority input.priority)
  owner ← lift (optional_text input.owner 256)
  due ← lift (sla_due_at env priority env.now)
  signal ← require_signal signal_id
  existing ← select_ticket_for signal_id
  id ← find_or_open env input signal signal_id actor priority owner due existing
  require_ticket id

-- One INSERT INTO ticket_tasks of a pending task with its audit event
unfoldable pub open_task : Env → Text → Task → Action (Unit {0})
open_task env actor t = do
  insert_task t
  audit t.ticket_id actor env.now (task_added t.id t.position t.title)

unfoldable pub new_task : Env → Text → Text → Option Text → Option Text → Option Text → ℕ → Task
new_task env ticket_id title description owner due_at position = record {
  id = codes "task:" ++ env.uuid position;
  ticket_id = ticket_id;
  title = title;
  description = description;
  status = pending;
  position = position;
  owner = owner;
  due_at = due_at;
  completed_at = none;
  created_at = env.now;
  updated_at = env.now;
}

-- The loop over the definitions, from the titles that are there and the last position. It returns
-- `added`.
unfoldable pub add_missing :
    Env → Text → Text → Option Text → List Text → ℕ → List (Text × Option Text) → Action ℕ
add_missing env actor ticket_id owner titles position [] = pure 0
add_missing env actor ticket_id owner titles position ((title, description) ∷ rest) =
    let here = add_missing env actor ticket_id owner titles position rest in
    let after = add_missing env actor ticket_id owner (title ∷ titles) (position + 1) rest in
    if any (text_eq title) titles then here else do
      open_task env actor (new_task env ticket_id title description owner none (position + 1))
      added ← after
      pure (added + 1)

-- The loop with the SELECTs before it and the UPDATE of `updated_at` behind it
unfoldable pub add_checklist :
    Env → Text → Text → Option Text → List (Text × Option Text) → Action ℕ
add_checklist env actor ticket_id owner definitions = do
  titles ← gets (λ db. titles_of ticket_id db.tasks)
  position ← gets (λ db. max_position ticket_id db.tasks)
  added ← add_missing env actor ticket_id owner titles position definitions
  (if added == 0 then pure tt else touch_ticket ticket_id env.now)
  pure added

-- create_ticket_with_tasks
unfoldable pub create_ticket_with_tasks : Env → NewTicket → List TaskInput → Action (Ticket × ℕ)
create_ticket_with_tasks env input tasks = do
  signal_id ← lift (required_text input.signal_id 128)
  actor ← lift (required_text input.actor 256)
  priority ← lift (normalize_priority input.priority)
  owner ← lift (optional_text input.owner 256)
  definitions ← lift (task_definitions tasks)
  due ← lift (sla_due_at env priority env.now)
  signal ← require_signal signal_id
  existing ← select_ticket_for signal_id
  id ← find_or_open env input signal signal_id actor priority owner due existing
  added ← add_checklist env actor id owner definitions
  ticket ← require_ticket id
  pure (ticket, added)

-- ensure_tasks
unfoldable pub ensure_tasks : Env → Text → Text → List TaskInput → Option Text → Action ℕ
ensure_tasks env ticket_id actor tasks owner = do
  id ← lift (required_text ticket_id 128)
  who ← lift (required_text actor 256)
  assignee ← lift (optional_text owner 256)
  definitions ← lift (task_definitions tasks)
  require_ticket id
  add_checklist env who id assignee definitions
