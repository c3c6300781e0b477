-- ===== src/Tickets/Policy.antt =====
-- src/dtlab/services/ticket_policy.py: the automatic ticket of a PLC endpoint signal.
use dtlab_control_center.Prelude.{
  ℕ, Bool, true, false, ◌&&◌, not, Option, none, some, List, Text, String, codes, text_eq, ltb,
  is_some, if◌then◌else◌,
}
use dtlab_control_center.Json.{Json, string, object, get_value}
use dtlab_control_center.Tickets.Model.{Signal, Ticket, Priority, p1, p2, validation, priority_rank}
use dtlab_control_center.Tickets.Validation.{required_text, TaskInput}
use dtlab_control_center.Tickets.Sla.{Env}
use dtlab_control_center.Tickets.Tables.{
  Action, pure, lift, ◌>>=◌, ◌>>◌, require_signal, select_ticket_for,
}
use dtlab_control_center.Tickets.Operations.{create_ticket_with_tasks}
use dtlab_control_center.Tickets.Workflow.{set_ticket_priority, refuse_if}

-- `value.get(key) if isinstance(value, dict) else None`
abbrev field_of : Text → Json → Json
field_of key (object m) = get_value key m
field_of key v = Json.null

abbrev is_text : String → Json → Bool
is_text expected (string s) = text_eq s (codes expected)
is_text expected v = false

abbrev optional_is : String → Option Text → Bool
optional_is expected none = false
optional_is expected (some s) = text_eq s (codes expected)

-- _desired_priority
unfoldable pub desired_priority : Signal → Priority
unfolding get_value
desired_priority signal =
    let detection = field_of (codes "detection") (get_value (codes "event") signal.payload) in
    if is_text "process_shutdown_sequence" (field_of (codes "classification") detection)
    then p1
    else if text_eq signal.severity (codes "critical")
    then p1
    else p2

-- The signals that the policy accepts
unfoldable pub eligible : Signal → Bool
unfolding get_value
eligible signal =
    text_eq signal.signal_type (codes "host_modbus_write")
    && optional_is "src:dtlab-host-ot:plc-desktop" signal.source_id
    && is_text "plc_host_side" (get_value (codes "source_scope") signal.payload)

abbrev pub priority_text : Priority → Text
priority_text Priority.p1 = codes "p1"
priority_text Priority.p2 = codes "p2"
priority_text Priority.p3 = codes "p3"
priority_text Priority.p4 = codes "p4"

-- HostOtTicketPolicyResult
pub record PolicyResult : Type 0 where
  pub ticket : Ticket
  pub created : Bool
  pub escalated : Bool
  pub tasks_added : ℕ

-- The escalation at the end, on the ticket that `create_ticket_with_tasks` returned
unfoldable pub escalate : Env → Text → Priority → Ticket → Action (Ticket × Bool)
escalate env actor desired ticket =
    if ltb (priority_rank desired) (priority_rank ticket.priority)
    then (do
      raised ← set_ticket_priority env ticket.id (priority_text desired) actor
      pure (raised, true))
    else pure (ticket, false)

-- apply_host_ot_ticket_policy, as one action. The source runs its parts as transactions of their own;
-- `env` gives the clock and the identifiers that they see. `playbook` is `tasks_for_signal` of the type.
unfoldable pub apply_host_ot_ticket_policy :
    Env → List TaskInput → Text → Text → Action PolicyResult
unfolding eligible desired_priority escalate
apply_host_ot_ticket_policy env playbook actor signal_id = do
  id ← lift (required_text signal_id 128)
  signal ← require_signal id
  refuse_if (not (eligible signal)) validation
  let desired = desired_priority signal
  before ← select_ticket_for id
  made ←
      create_ticket_with_tasks env
        (record {
          signal_id = signal_id;
          actor = actor;
          priority = priority_text desired;
          owner = none;
          title = none;
          description = none;
        })
        playbook
  raised ← escalate env actor desired made.0
  pure (record {
    ticket = raised.0;
    created = not (is_some before);
    escalated = raised.1;
    tasks_added = made.1;
  })
