-- ===== src/Tickets/SlaStates.antt =====
-- The SLA state as time goes on.
use dtlab_control_center.Prelude.{ℕ, ◌-◌, ◌*◌, ◌≤◌, ◌<◌, ◌≡◌, ◌↔◌, false, arith}
use dtlab_control_center.Hours.{hour}
use dtlab_control_center.Tickets.Model.{Ticket, sla_stopped, sla_policy_hours}
use dtlab_control_center.Tickets.Sla.{on_time, due_soon, overdue, derive_ticket_sla}

-- For a status that does not stop the clock, the derived state is overdue exactly from the
-- deadline on, due soon exactly before it while the time left is at most a quarter of the hours
-- of the priority, and on time exactly while more than that is left.
pub derive_ticket_sla-running :
    (t : Ticket) (now : ℕ)
    → sla_stopped t.status ≡ false
    → (((derive_ticket_sla t now).state ≡ overdue) ↔ (t.sla_due_at ≤ now))
      × (((derive_ticket_sla t now).state ≡ due_soon) ↔ (
          (now < t.sla_due_at) × (4 * (t.sla_due_at - now) ≤ sla_policy_hours t.priority * hour)))
      × (((derive_ticket_sla t now).state ≡ on_time)
          ↔ (sla_policy_hours t.priority * hour < 4 * (t.sla_due_at - now)))
unfolding derive_ticket_sla
derive_ticket_sla-running t now h = rw h (ground arith)
