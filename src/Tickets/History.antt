-- ===== src/Tickets/History.antt =====
-- Histories of the store: each public method that writes, run as one transaction.
use dtlab_control_center.Prelude.{Option, List, [], ◌∷◌, Text}
use dtlab_control_center.Tickets.Model.{Db}
use dtlab_control_center.Tickets.Validation.{TaskInput}
use dtlab_control_center.Tickets.Sla.{Env}
use dtlab_control_center.Tickets.Tables.{Action, pure, ◌>>◌, transaction}
use dtlab_control_center.Tickets.Operations.{
  NewTicket, create_ticket_from_signal, create_ticket_with_tasks, ensure_tasks,
}
use dtlab_control_center.Tickets.Workflow.{
  transition_ticket, assign_ticket, set_ticket_priority, update_ticket_governance,
  recalculate_open_sla_deadlines, add_comment, NewTask, add_task, update_task_status,
}
use dtlab_control_center.Tickets.Signals.{
  Runtime, SignalInput, ingest_signals, ingest_snapshot_signals,
}

-- The calls, with their arguments.
pub data Request : Type 0 where
  ingest : List SignalInput → Request
  ingest_snapshot : List SignalInput → Text → Text → Text → Request
  create : NewTicket → Request
  create_with_tasks : NewTicket → List TaskInput → Request
  transition : Text → Text → Text → Option Text → Request
  assign : Text → Option Text → Text → Request
  set_priority : Text → Text → Text → Request
  govern : Text → Option Text → Text → Text → Request
  recalculate : Text → Request
  comment : Text → Text → Text → Request
  new_task : NewTask → Request
  ensure : Text → Text → List TaskInput → Option Text → Request
  task_status : Text → Text → Text → Request

abbrev discard : {A : Type 0} → Action A → Action (Unit {0})
discard m = m >> pure tt

unfoldable pub handle : Runtime → Env → Request → Action (Unit {0})
handle rt env (ingest batch) = discard (ingest_signals rt env batch)
handle rt env (ingest_snapshot batch sha id at) =
    discard (ingest_snapshot_signals rt env batch sha id at)
handle rt env (create input) = discard (create_ticket_from_signal env input)
handle rt env (create_with_tasks input tasks) = discard (create_ticket_with_tasks env input tasks)
handle rt env (transition id status actor note) =
    discard (transition_ticket env id status actor note)
handle rt env (assign id owner actor) = discard (assign_ticket env id owner actor)
handle rt env (set_priority id priority actor) = discard (set_ticket_priority env id priority actor)
handle rt env (govern id owner priority actor) =
    discard (update_ticket_governance env id owner priority actor)
handle rt env (recalculate actor) = discard (recalculate_open_sla_deadlines env actor)
handle rt env (comment id author body) = discard (add_comment env id author body)
handle rt env (new_task input) = discard (add_task env input)
handle rt env (ensure id actor tasks owner) = discard (ensure_tasks env id actor tasks owner)
handle rt env (task_status id status actor) = discard (update_task_status env id status actor)

-- A request that raises leaves the database as it was, and the next one goes on from there.
unfoldable pub serve : Runtime → List (Env × Request) → Db → Db
unfolding handle
serve rt [] db = db
serve rt ((env, request) ∷ rest) db = serve rt rest (transaction (handle rt env request) db).1
