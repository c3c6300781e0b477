-- ===== src/Tickets/Escalation/Tests.antt =====
-- The policy on the signal of a shutdown, whose ticket was opened by hand with the lowest priority.
use dtlab_control_center.Prelude.{
  ℕ, ◌+◌, ◌*◌, ◌≡◌, ◌≤◌, refl, false, true, none, some, List, [], ◌∷◌, ◌++◌, Text, codes, ok, find,
  update,
}
use dtlab_control_center.Json.{Json, string, object, Members, end, member}
use dtlab_control_center.Hours.{hour}
use dtlab_control_center.Tickets.Model.{
  Status, Priority, Signal, Ticket, Db, empty_db, priority_rank,
}
use dtlab_control_center.Tickets.Validation.{TaskInput, required_text}
use dtlab_control_center.Tickets.Sla.{Env}
use dtlab_control_center.Tickets.Tables.{signal_at, transaction}
use dtlab_control_center.Tickets.Operations.{NewTicket}
use dtlab_control_center.Tickets.Signals.{Runtime, SignalInput}
use dtlab_control_center.Tickets.Policy.{
  PolicyResult, eligible, desired_priority, apply_host_ot_ticket_policy,
}
use dtlab_control_center.Tickets.History.{Request, serve}
use dtlab_control_center.Tickets.Escalation.{apply_host_ot_ticket_policy_lem}

abbrev runtime : Runtime
runtime = record { sha256 = λ t. t; dumps = λ v. codes "{}"; str = λ v. codes "value" }

abbrev at : ℕ → Env
at now = record {
  now = now;
  uuid = λ n. (now + n) ∷ [];
  calendar = record { zone_info = λ t. none; time_of = λ t. none };
  business_hours = none;
}

abbrev digest : Text
digest = codes "00112233445566778899aabbccddeeff00112233445566778899aabbccddeeff"

abbrev shutdown : SignalInput
shutdown = record {
  fingerprint = digest;
  signal_type = codes "host_modbus_write";
  snapshot_sha256 = digest;
  evidence = member (codes "source_id") (string (codes "src:dtlab-host-ot:plc-desktop")) end;
  severity = codes "critical";
  title = codes "Shutdown";
  description = codes "A shutdown";
  occurred_at = none;
  observed_at = codes "2026-01-01";
  asset_ids = [];
  recommended_action = none;
  payload = member (codes "source_scope") (string (codes "plc_host_side")) end;
}

abbrev signal : Text
signal = codes "signal:" ++ digest

abbrev watched : Db
unfolding serve
watched =
    serve runtime
      ((at 1, Request.ingest (shutdown ∷ []))
        ∷ (
          at 2,
          Request.create (record {
            signal_id = signal;
            actor = codes "ann";
            priority = codes "p4";
            owner = none;
            title = none;
            description = none;
          }),
        )
        ∷ [])
      empty_db

abbrev checklist : List TaskInput
checklist = record { title = codes "Look"; description = none } ∷ []

abbrev raised : PolicyResult
raised = record {
  ticket = record {
    id = codes "ticket:" ++ 2 ∷ [];
    signal_id = signal;
    title = codes "Shutdown";
    description = codes "A shutdown";
    status = Status.new;
    priority = Priority.p1;
    owner = none;
    created_by = codes "ann";
    created_at = 2;
    updated_at = 3;
    sla_due_at = 2 + 4 * hour;
    resolved_at = none;
    closed_at = none;
  };
  created = false;
  escalated = true;
  tasks_added = 1;
}

abbrev escalated : Db
unfolding apply_host_ot_ticket_policy transaction
escalated =
    (transaction (apply_host_ot_ticket_policy (at 3) checklist (codes "policy") signal) watched).1

escalation :
    apply_host_ot_ticket_policy (at 3) checklist (codes "policy") signal watched
    ≡ ok (raised, escalated)
unfolding dtlab_control_center.Tickets.Validation.required_text
    dtlab_control_center.Tickets.Validation.optional_text
    dtlab_control_center.Tickets.Validation.named
    dtlab_control_center.Tickets.Validation.normalize_priority
    dtlab_control_center.Tickets.Validation.normalize_status
    dtlab_control_center.Tickets.Validation.sha256_text
    dtlab_control_center.Tickets.Validation.definitions_from
    dtlab_control_center.Tickets.Validation.task_definitions
    dtlab_control_center.Tickets.Tables.pure dtlab_control_center.Tickets.Tables.raise
    dtlab_control_center.Tickets.Tables.lift dtlab_control_center.Tickets.Tables.gets
    dtlab_control_center.Tickets.Tables.transaction dtlab_control_center.Tickets.Tables.◌>>=◌
    dtlab_control_center.Tickets.Tables.modify dtlab_control_center.Tickets.Tables.or_raise
    dtlab_control_center.Tickets.Tables.require_signal
    dtlab_control_center.Tickets.Tables.select_ticket_for
    dtlab_control_center.Tickets.Tables.require_ticket
    dtlab_control_center.Tickets.Tables.insert_ticket
    dtlab_control_center.Tickets.Tables.update_ticket
    dtlab_control_center.Tickets.Tables.touch_ticket dtlab_control_center.Tickets.Tables.audit
    dtlab_control_center.Tickets.Tables.titles_of dtlab_control_center.Tickets.Tables.max_position
    dtlab_control_center.Tickets.Tables.insert_task
    dtlab_control_center.Tickets.Sla.business_hours_policy
    dtlab_control_center.Tickets.Sla.sla_due_at dtlab_control_center.Tickets.Operations.new_ticket
    dtlab_control_center.Tickets.Operations.open_ticket
    dtlab_control_center.Tickets.Operations.find_or_open
    dtlab_control_center.Tickets.Operations.create_ticket_from_signal
    dtlab_control_center.Tickets.Operations.open_task
    dtlab_control_center.Tickets.Operations.new_task
    dtlab_control_center.Tickets.Operations.add_missing
    dtlab_control_center.Tickets.Operations.add_checklist
    dtlab_control_center.Tickets.Operations.create_ticket_with_tasks
    dtlab_control_center.Tickets.Operations.ensure_tasks
    dtlab_control_center.Tickets.Workflow.write_priority
    dtlab_control_center.Tickets.Workflow.change_priority
    dtlab_control_center.Tickets.Workflow.touch_if
    dtlab_control_center.Tickets.Workflow.set_ticket_priority
    dtlab_control_center.Tickets.Signals.insert_sorted
    dtlab_control_center.Tickets.Signals.asset_set
    dtlab_control_center.Tickets.Signals.same_occurrence
    dtlab_control_center.Tickets.Signals.insert_occurrence
    dtlab_control_center.Tickets.Signals.payload_hash dtlab_control_center.Tickets.Signals.normalise
    dtlab_control_center.Tickets.Signals.occurrence_of
    dtlab_control_center.Tickets.Signals.insert_signal
    dtlab_control_center.Tickets.Signals.store_signal
    dtlab_control_center.Tickets.Signals.upsert_signal
    dtlab_control_center.Tickets.Signals.upsert_all
    dtlab_control_center.Tickets.Signals.ingest_signals
    dtlab_control_center.Tickets.Signals.insert_ingest
    dtlab_control_center.Tickets.Signals.ingest_new dtlab_control_center.Tickets.History.handle
    serve dtlab_control_center.Tickets.Model.sla_policy_hours
    dtlab_control_center.Tickets.Model.sla_stopped dtlab_control_center.Tickets.Model.is_decision
    dtlab_control_center.Tickets.Policy.desired_priority
    dtlab_control_center.Tickets.Policy.eligible dtlab_control_center.Tickets.Policy.escalate
    apply_host_ot_ticket_policy find update dtlab_control_center.Json.get_value
escalation = refl

apply_host_ot_ticket_policy_lem_example :
    (id : Text) × (s : Signal) × (required_text signal 128 ≡ ok id)
    × (find (signal_at id) watched.signals ≡ some s)
    × (eligible s ≡ true)
    × (priority_rank Priority.p1 ≤ priority_rank (desired_priority s))
apply_host_ot_ticket_policy_lem_example =
    apply_host_ot_ticket_policy_lem (at 3) checklist (codes "policy") signal watched escalated
      raised escalation
