-- ===== src/Tickets/Rules.antt =====
-- An invariant of the database is kept by every request if it is kept by the few writes that the
-- requests are made of.
use dtlab_control_center.Prelude.{
  ℕ, ◌+◌, ◌≡◌, refl, Bool, true, false, not, Option, none, some, List, [], ◌∷◌, Text, All, All-find,
  find,
}
use dtlab_control_center.Tickets.Model.{
  Status, new, TaskStatus, Priority, Signal, Occurrence, Ingest, Ticket, Task, Comment,
  comment_added, task_added, Db, Error, ticket_not_found, allowed,
}
use dtlab_control_center.Tickets.Sla.{Env}
use dtlab_control_center.Tickets.Tables.{
  Action, lift, or_raise, ◌>>=◌, require_signal, require_ticket, require_task, select_ticket_for,
  transaction, insert_task, insert_comment, touch_ticket, audit, ticket_at,
}
use dtlab_control_center.Tickets.Validation.{Checked, TaskInput}
use dtlab_control_center.Tickets.Operations
use dtlab_control_center.Tickets.Operations.{
  open_ticket, new_ticket, NewTicket, find_or_open, create_ticket_from_signal, open_task,
  add_missing, add_checklist, create_ticket_with_tasks, ensure_tasks,
}
use dtlab_control_center.Tickets.Workflow.{
  refuse_if, change_status, transition_ticket, write_owner, write_priority, change_owner,
  change_priority, touch_if, assign_ticket, set_ticket_priority, update_ticket_governance,
  reschedule, recalculate_rows, recalculate_open_sla_deadlines, add_comment, NewTask, add_task,
  set_task_status, update_task_status,
}
use dtlab_control_center.Tickets.Signals.{
  Runtime, SignalInput, insert_signal, update_signal, insert_occurrence, insert_ingest, seen_again,
  asset_set, normalise, store_signal, upsert_signal, upsert_all, ingest_signals, ingest_new,
  ingest_snapshot_signals,
}
use dtlab_control_center.Tickets.History.{
  Request, ingest, ingest_snapshot, create, create_with_tasks, transition, assign, set_priority,
  govern, recalculate, comment, ensure, task_status, handle, serve,
}
use dtlab_control_center.Tickets.Keeps.{
  After, Keeps, keeps_rules, Keeps-pure, Keeps-lift, Keeps-if, Keeps-bind, transaction-Keeps,
}

not-false : (b : Bool) → not b ≡ false → b ≡ true
not-false true h = refl
not-false false h = cc

-- What the requests need of an invariant `P` whose databases have tickets that satisfy `R`.
pub record Rules (P : Db → Type 0) (R : Ticket → Type 0) : Type 0 where
  pub rows : (db : Db) → P db → All R db.tickets
  pub opens :
      (t : Ticket)
      → t.status ≡ new
      → t.resolved_at ≡ none
      → t.closed_at ≡ none
      → Keeps P (open_ticket t)
  pub moves :
      (env : Env) (row : Ticket) (target : Status) (actor : Text) (note : Option Text)
      → R row
      → allowed row.status target ≡ true
      → Keeps P (change_status env row target actor note)
  pub owns :
      (env : Env) (row : Ticket) (owner : Option Text) (actor : Text)
      → Keeps P (write_owner env row owner actor)
  pub ranks :
      (env : Env) (row : Ticket) (priority : Priority) (due : ℕ) (actor : Text)
      → Keeps P (write_priority env row priority due actor)
  pub reschedules :
      (env : Env) (row : Ticket) (due : ℕ) (actor : Text) → Keeps P (reschedule env row due actor)
  pub touches : (id : Text) (now : ℕ) → Keeps P (touch_ticket id now)
  pub adds_task :
      (t : Task) → t.completed_at ≡ none → t.status ≡ TaskStatus.pending → Keeps P (insert_task t)
  pub adds_comment : (c : Comment) → Keeps P (insert_comment c)
  pub notes_comment :
      (id actor : Text) (now : ℕ) (c : Text) → Keeps P (audit id actor now (comment_added c))
  pub notes_task :
      (id actor : Text) (now : ℕ) (t : Text) (n : ℕ) (title : Text)
      → Keeps P (audit id actor now (task_added t n title))
  pub completes :
      (env : Env) (row : Task) (target : TaskStatus) (actor : Text)
      → Keeps P (set_task_status env row target actor)
  pub adds_signal : (rt : Runtime) (row : Signal) → Keeps P (insert_signal rt row)
  pub sees_signal :
      (rt : Runtime) (env : Env) (id : Text) (row : Signal) (c : Bool)
      → Keeps P (update_signal rt id (λ old. seen_again rt env row old c))
  pub adds_occurrence : (o : Occurrence) → Keeps P (insert_occurrence o)
  pub adds_ingest : (rt : Runtime) (i : Ingest) → Keeps P (insert_ingest rt i)

module _ {P : Db → Type 0} {R : Ticket → Type 0} (rules : Rules P R) where
  Keeps-found :
      {B : Type 0} (o : Option Ticket) (e : Error) (f : Ticket → Action B) (db : Db)
      → P db
      → ((row : Ticket) → o ≡ some row → Keeps P (f row))
      → After P ((or_raise e o >>= f) db)
  unfolding or_raise ◌>>=◌
  Keeps-found none e f db h k = tt
  Keeps-found (some row) e f db h k = (k row refl).at db h

  -- The row that `require_ticket` finds satisfies `R`.
  Keeps-require :
      {B : Type 0} (id : Text) (f : Ticket → Action B)
      → ((row : Ticket) → R row → Keeps P (f row))
      → Keeps P (require_ticket id >>= f)
  unfolding require_ticket or_raise ◌>>=◌
  Keeps-require id f k = record {
    at = λ db h.
        Keeps-found (find (ticket_at id) db.tickets) ticket_not_found f db h
          λ row found. k row (All-find R (ticket_at id) db.tickets row (rules.rows db h) found);
  }

  Keeps-refuse :
      {B : Type 0} (c : Bool) (e : Error) (f : Unit {0} → Action B)
      → (c ≡ false → Keeps P (f tt))
      → Keeps P (refuse_if c e >>= f)
  unfolding ◌>>=◌
  Keeps-refuse true e f k = record { at = λ db h. tt }
  Keeps-refuse false e f k = record { at = λ db h. (k refl).at db h }

  after_lift :
      {A B : Type 0} (c : Checked A) (f : A → Action B)
      → ((a : A) → Keeps P (f a))
      → Keeps P (lift c >>= f)
  after_lift c f k = Keeps-bind (lift c) f (Keeps-lift c) k

  require_ticket-Keeps : (id : Text) → Keeps P (require_ticket id)
  unfolding require_ticket
  require_ticket-Keeps id = search keeps_rules

  require_signal-Keeps : (id : Text) → Keeps P (require_signal id)
  unfolding require_signal
  require_signal-Keeps id = search keeps_rules

  require_task-Keeps : (id : Text) → Keeps P (require_task id)
  unfolding require_task
  require_task-Keeps id = search keeps_rules

  select_ticket_for-Keeps : (id : Text) → Keeps P (select_ticket_for id)
  unfolding select_ticket_for
  select_ticket_for-Keeps id = search keeps_rules

  ruleset reads = (
    keeps_rules, require_ticket-Keeps, require_signal-Keeps, require_task-Keeps,
    select_ticket_for-Keeps,
  )

  find_or_open-Keeps :
      (env : Env) (input : NewTicket) (s : Signal) (id actor : Text) (p : Priority)
      (o : Option Text) (due : ℕ) (t : Option Ticket)
      → Keeps P (find_or_open env input s id actor p o due t)
  unfolding find_or_open new_ticket
  find_or_open-Keeps env input s id actor p o due (some t) = search keeps_rules
  find_or_open-Keeps env input s id actor p o due none = search (keeps_rules, rules.opens) depth 8

  create-Keeps : (env : Env) (input : NewTicket) → Keeps P (create_ticket_from_signal env input)
  unfolding create_ticket_from_signal
  create-Keeps env input = search (reads, find_or_open-Keeps) depth 20

  transition-Keeps :
      (env : Env) (id to actor : Text) (note : Option Text)
      → Keeps P (transition_ticket env id to actor note)
  unfolding transition_ticket
  transition-Keeps env id to actor why = after_lift _ _ λ key. after_lift _ _ λ target.
      after_lift _ _ λ who. after_lift _ _ λ reason. Keeps-refuse _ _ _ λ _.
        Keeps-require key _ λ row fits. Keeps-refuse _ _ _ λ permitted.
          Keeps-bind _ _ (rules.moves env row target who reason fits (not-false _ permitted))
            λ _. require_ticket-Keeps key

  touch_if-Keeps : (c : Bool) (id : Text) (now : ℕ) → Keeps P (touch_if c id now)
  unfolding touch_if
  touch_if-Keeps c id now = search (keeps_rules, rules.touches)

  change_owner-Keeps :
      (env : Env) (row : Ticket) (owner : Option Text) (actor : Text)
      → Keeps P (change_owner env row owner actor)
  unfolding change_owner
  change_owner-Keeps env row owner actor = search (keeps_rules, rules.owns)

  change_priority-Keeps :
      (env : Env) (row : Ticket) (p : Priority) (actor : Text)
      → Keeps P (change_priority env row p actor)
  unfolding change_priority
  change_priority-Keeps env row p actor = search (keeps_rules, rules.ranks) depth 8

  assign-Keeps :
      (env : Env) (id : Text) (owner : Option Text) (actor : Text)
      → Keeps P (assign_ticket env id owner actor)
  unfolding assign_ticket
  assign-Keeps env id owner actor = search (reads, change_owner-Keeps, touch_if-Keeps) depth 20

  set_priority-Keeps :
      (env : Env) (id p actor : Text) → Keeps P (set_ticket_priority env id p actor)
  unfolding set_ticket_priority
  set_priority-Keeps env id p actor = search (reads, change_priority-Keeps, touch_if-Keeps) depth 20

  govern-Keeps :
      (env : Env) (id : Text) (owner : Option Text) (p actor : Text)
      → Keeps P (update_ticket_governance env id owner p actor)
  unfolding update_ticket_governance
  govern-Keeps env id owner p actor =
      search (reads, change_owner-Keeps, change_priority-Keeps, touch_if-Keeps) depth 24

  recalculate_rows-Keeps :
      (env : Env) (actor : Text) (rows : List Ticket) → Keeps P (recalculate_rows env actor rows)
  unfolding recalculate_rows
  recalculate_rows-Keeps env actor [] = search keeps_rules
  recalculate_rows-Keeps env actor (row ∷ rest) =
      let others = recalculate_rows-Keeps env actor rest in
      after_lift _ _ λ due. Keeps-if _ _ _ others (
        Keeps-bind _ _ (rules.reschedules env row due actor)
          λ _. Keeps-bind _ _ others λ n. Keeps-pure (n + 1))

  recalculate-Keeps :
      (env : Env) (actor : Text) → Keeps P (recalculate_open_sla_deadlines env actor)
  unfolding recalculate_open_sla_deadlines
  recalculate-Keeps env actor = search (keeps_rules, recalculate_rows-Keeps) depth 12

  comment-Keeps : (env : Env) (id author body : Text) → Keeps P (add_comment env id author body)
  unfolding add_comment
  comment-Keeps env id author body =
      search (reads, rules.adds_comment, rules.touches, rules.notes_comment) depth 24

  open_task-Keeps :
      (env : Env) (actor id title : Text) (d o due : Option Text) (n : ℕ)
      → Keeps P (open_task env actor (Operations.new_task env id title d o due n))
  unfolding open_task Operations.new_task
  open_task-Keeps env actor id title d o due n =
      search (keeps_rules, rules.adds_task, rules.notes_task) depth 8

  add_task-Keeps : (env : Env) (input : NewTask) → Keeps P (add_task env input)
  unfolding add_task Operations.new_task
  add_task-Keeps env input =
      search (reads, rules.adds_task, rules.touches, rules.notes_task) depth 30

  add_missing-Keeps :
      (env : Env) (actor id : Text) (owner : Option Text) (titles : List Text) (n : ℕ)
      (ds : List (Text × Option Text))
      → Keeps P (add_missing env actor id owner titles n ds)
  unfolding add_missing
  add_missing-Keeps env actor id owner titles n [] = search keeps_rules
  add_missing-Keeps env actor id owner titles n ((title, d) ∷ rest) =
      Keeps-if _ _ _ (add_missing-Keeps env actor id owner titles n rest) (
        Keeps-bind _ _ (open_task-Keeps env actor id title d owner none (n + 1)) λ _.
          Keeps-bind _ _ (add_missing-Keeps env actor id owner (title ∷ titles) (n + 1) rest)
            λ k. Keeps-pure (k + 1))

  add_checklist-Keeps :
      (env : Env) (actor id : Text) (owner : Option Text) (ds : List (Text × Option Text))
      → Keeps P (add_checklist env actor id owner ds)
  unfolding add_checklist
  add_checklist-Keeps env actor id owner ds =
      search (keeps_rules, add_missing-Keeps, rules.touches) depth 12

  create_with_tasks-Keeps :
      (env : Env) (input : NewTicket) (tasks : List TaskInput)
      → Keeps P (create_ticket_with_tasks env input tasks)
  unfolding create_ticket_with_tasks
  create_with_tasks-Keeps env input tasks =
      search (reads, find_or_open-Keeps, add_checklist-Keeps) depth 28

  ensure-Keeps :
      (env : Env) (id actor : Text) (tasks : List TaskInput) (owner : Option Text)
      → Keeps P (ensure_tasks env id actor tasks owner)
  unfolding ensure_tasks
  ensure-Keeps env id actor tasks owner = search (reads, add_checklist-Keeps) depth 20

  task_status-Keeps :
      (env : Env) (id status actor : Text) → Keeps P (update_task_status env id status actor)
  unfolding update_task_status
  task_status-Keeps env id status actor = search (reads, rules.completes) depth 20

  module _ (rt : Runtime) where
    asset_set-Keeps : (ids : List Text) → Keeps P (asset_set ids)
    unfolding asset_set
    asset_set-Keeps [] = search keeps_rules
    asset_set-Keeps (id ∷ rest) =
        after_lift _ _ λ a. Keeps-bind _ _ (asset_set-Keeps rest) λ others. Keeps-pure _

    normalise-Keeps : (env : Env) (s : SignalInput) → Keeps P (normalise rt env s)
    unfolding normalise
    normalise-Keeps env s = search (keeps_rules, asset_set-Keeps) depth 40

    store_signal-Keeps :
        (env : Env) (row : Signal) (old : Option Signal) → Keeps P (store_signal rt env row old)
    unfolding store_signal
    store_signal-Keeps env row none =
        search (keeps_rules, rules.adds_signal, rules.adds_occurrence) depth 12
    store_signal-Keeps env row (some old) =
        search (keeps_rules, rules.sees_signal, rules.adds_occurrence) depth 12

    upsert_signal-Keeps : (env : Env) (s : SignalInput) → Keeps P (upsert_signal rt env s)
    unfolding upsert_signal
    upsert_signal-Keeps env s = search (keeps_rules, normalise-Keeps, store_signal-Keeps) depth 12

    upsert_all-Keeps : (env : Env) (batch : List SignalInput) → Keeps P (upsert_all rt env batch)
    unfolding upsert_all
    upsert_all-Keeps env [] = search keeps_rules
    upsert_all-Keeps env (s ∷ rest) =
        Keeps-bind _ _ (upsert_signal-Keeps env s)
          λ made. Keeps-bind _ _ (upsert_all-Keeps env rest) λ others. Keeps-pure _

    ingest-Keeps : (env : Env) (batch : List SignalInput) → Keeps P (ingest_signals rt env batch)
    unfolding ingest_signals
    ingest-Keeps env batch = search (keeps_rules, upsert_all-Keeps) depth 12

    ingest_new-Keeps :
        (env : Env) (batch : List SignalInput) (d i t : Text) (b : Bool)
        → Keeps P (ingest_new rt env batch d i t b)
    unfolding ingest_new
    ingest_new-Keeps env batch d i t true = search keeps_rules
    ingest_new-Keeps env batch d i t false =
        search (keeps_rules, upsert_all-Keeps, rules.adds_ingest) depth 12

    ingest_snapshot-Keeps :
        (env : Env) (batch : List SignalInput) (d i t : Text)
        → Keeps P (ingest_snapshot_signals rt env batch d i t)
    unfolding ingest_snapshot_signals
    ingest_snapshot-Keeps env batch d i t = search (keeps_rules, ingest_new-Keeps) depth 20

    pub handle-Keeps : (env : Env) (request : Request) → Keeps P (handle rt env request)
    unfolding handle
    handle-Keeps env (ingest batch) = search (keeps_rules, ingest-Keeps)
    handle-Keeps env (ingest_snapshot batch d i t) = search (keeps_rules, ingest_snapshot-Keeps)
    handle-Keeps env (create input) = search (keeps_rules, create-Keeps)
    handle-Keeps env (create_with_tasks input tasks) = search (keeps_rules, create_with_tasks-Keeps)
    handle-Keeps env (transition id to actor why) = search (keeps_rules, transition-Keeps)
    handle-Keeps env (assign id owner actor) = search (keeps_rules, assign-Keeps)
    handle-Keeps env (set_priority id p actor) = search (keeps_rules, set_priority-Keeps)
    handle-Keeps env (govern id owner p actor) = search (keeps_rules, govern-Keeps)
    handle-Keeps env (recalculate actor) = search (keeps_rules, recalculate-Keeps)
    handle-Keeps env (comment id author body) = search (keeps_rules, comment-Keeps)
    handle-Keeps env (Request.new_task input) = search (keeps_rules, add_task-Keeps)
    handle-Keeps env (ensure id actor tasks owner) = search (keeps_rules, ensure-Keeps)
    handle-Keeps env (task_status id status actor) = search (keeps_rules, task_status-Keeps)

    pub serve-Keeps : (calls : List (Env × Request)) (db : Db) → P db → P (serve rt calls db)
    unfolding serve
    serve-Keeps [] db h = h
    serve-Keeps ((env, request) ∷ rest) db h =
        serve-Keeps rest (transaction (handle rt env request) db).1
          (transaction-Keeps P (handle rt env request) (handle-Keeps env request) db h)
