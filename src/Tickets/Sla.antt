-- ===== src/Tickets/Sla.antt =====
-- The SLA deadline and state of ticket_store.py.
use dtlab_control_center.Prelude.{
  ℕ, zero, suc, ◌+◌, ◌-◌, ◌*◌, ◌/◌, Option, none, some, Text, ok, err, leb, if◌then◌else◌,
}
use dtlab_control_center.Hours.{Calendar, Policy, hour, validate, add_business_hours}
use dtlab_control_center.Tickets.Model.{
  Status, closed, Priority, policy, Ticket, sla_policy_hours, sla_stopped, status_eq,
}
use dtlab_control_center.Tickets.Validation.{Checked}

-- What a call finds around it: the clock, the random identifiers that it draws, and the business
-- calendar, `none` where operational settings are not in use.
pub record Env : Type 0 where
  pub now : ℕ
  pub uuid : ℕ → Text
  pub calendar : Calendar
  pub business_hours : Option Policy

-- _business_hours_policy: the stored policy is validated whenever it is read.
unfoldable pub business_hours_policy : Env → Checked (Unit {0})
business_hours_policy env = elim env.business_hours [
  | none ↦ ok tt
  | some hours ↦ elim (validate env.calendar hours) [ ok w ↦ ok tt | err e ↦ err policy ]
]

-- _sla_due_at
unfoldable pub sla_due_at : Env → Priority → ℕ → Checked ℕ
sla_due_at env priority created_at = elim env.business_hours [
  | none ↦ ok (created_at + sla_policy_hours priority * hour)
  | some hours ↦
      elim (add_business_hours env.calendar created_at (sla_policy_hours priority) hours) [
        | ok due ↦ ok due
        | err e ↦ err policy
      ]
]

-- `negsuc n` is -(n + 1).
pub data ℤ : Type 0 where
  pos : ℕ → ℤ
  negsuc : ℕ → ℤ

abbrev pub minus : ℕ → ℤ
minus zero = pos 0
minus (suc n) = negsuc n

-- `int((due - reference).total_seconds())`
unfoldable pub whole_seconds : ℕ → ℕ → ℤ
whole_seconds due reference =
    if leb reference due
    then pos ((due - reference) / 1000000)
    else minus ((reference - due) / 1000000)

-- SLA_STATES
pub data SlaState : Type 0 where
  on_time due_soon overdue stopped : SlaState

pub record SlaView : Type 0 where
  pub state : SlaState
  pub due_at : ℕ
  pub evaluated_at : ℕ
  pub remaining_seconds : ℤ
  pub policy_hours : ℕ
  pub stopped_at : Option ℕ
  pub stop_reason : Option Status

-- `raw_stopped_at`
unfoldable pub stop_time : Ticket → ℕ
stop_time t = elim (if status_eq t.status closed then t.closed_at else t.resolved_at) [
  | none ↦ t.updated_at
  | some at ↦ at
]

-- SLA_DUE_SOON_FRACTION is a quarter of the priority's hours.
unfoldable pub due_soon_window : Priority → ℕ
due_soon_window priority = sla_policy_hours priority * hour / 4

unfoldable pub running_state : ℕ → Priority → ℕ → SlaState
unfolding due_soon_window
running_state due priority now =
    if leb due now
    then overdue
    else if leb (due - now) (due_soon_window priority)
    then due_soon
    else on_time

-- derive_ticket_sla, on a row whose deadline is set
unfoldable pub derive_ticket_sla : Ticket → ℕ → SlaView
unfolding stop_time running_state whole_seconds
derive_ticket_sla t now =
    let is_stopped = sla_stopped t.status in
    record {
      state = if is_stopped then stopped else running_state t.sla_due_at t.priority now;
      due_at = t.sla_due_at;
      evaluated_at = now;
      remaining_seconds = whole_seconds t.sla_due_at (if is_stopped then stop_time t else now);
      policy_hours = sla_policy_hours t.priority;
      stopped_at = if is_stopped then some (stop_time t) else none;
      stop_reason = if is_stopped then some t.status else none;
    }
