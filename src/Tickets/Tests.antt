-- ===== src/Tickets/Tests.antt =====
-- A short history of the store: a signal is ingested, and its ticket worked on.
use mathlib.Core.Option
use dtlab_control_center.Prelude.{
  ℕ, ◌+◌, ◌-◌, ◌*◌, ◌≤◌, ◌<◌, ◌≡◌, ◌↔◌, refl, true, false, not, any, none, Option, some, List, [],
  ◌∷◌, ◌++◌, Text, codes, text_eq, text_lower, ok, map, take, find, update, All, Extends,
}
use dtlab_control_center.Json.{Json, Members, end}
use dtlab_control_center.Hours.{Calendar, hour}
use dtlab_control_center.Tickets.Model.{
  Db, Ticket, Task, Status, Priority, AuditEvent, status_changed, allowed, is_decision, empty_db,
  sla_stopped, sla_policy_hours,
}
use dtlab_control_center.Tickets.Validation.{
  sha256_text, required_text, optional_text, normalize_status,
}
use dtlab_control_center.Tickets.Sla.{
  Env, sla_due_at, derive_ticket_sla, overdue, due_soon, on_time,
}
use dtlab_control_center.Tickets.Tables.{ticket_at}
use dtlab_control_center.Tickets.Operations.{NewTicket, create_ticket_from_signal}
use dtlab_control_center.Tickets.Signals.{
  Runtime, SignalInput, IngestStats, no_stats, ingest_snapshot_signals, snapshot_ingested,
}
use dtlab_control_center.Tickets.History.{Request, serve}
use dtlab_control_center.Tickets.Workflow.{transition_ticket}
use dtlab_control_center.Tickets.Transitions.{
  IsPermitted, transition_ticket_iff, transition_ticket_lem,
}
use dtlab_control_center.Tickets.Appended.{serve-Extends}
use dtlab_control_center.Tickets.Trail.{view_of, replay, serve-IsTraced}
use dtlab_control_center.Tickets.Dates.{IsDated, serve-IsDated}
use dtlab_control_center.Tickets.Keys.{IsKeyed, serve-IsKeyed}
use dtlab_control_center.Tickets.SlaStates.{derive_ticket_sla-running}
use dtlab_control_center.Tickets.Idempotent.{create_again}
use dtlab_control_center.Tickets.Ingested.{ingest_again}

-- Not a digest, but a function that keeps texts apart
abbrev runtime : Runtime
runtime = record { sha256 = λ t. t; dumps = λ v. codes "{}"; str = λ v. codes "value" }

abbrev calendar : Calendar
calendar = record { zone_info = λ t. none; time_of = λ t. none }

abbrev at : ℕ → Env
at now = record {
  now = now;
  uuid = λ n. (now + n) ∷ [];
  calendar = calendar;
  business_hours = none;
}

abbrev digest : Text
digest = codes "00112233445566778899aabbccddeeff00112233445566778899aabbccddeeff"

abbrev finding : SignalInput
finding = record {
  fingerprint = digest;
  signal_type = codes "host_modbus_write";
  snapshot_sha256 = digest;
  evidence = end;
  severity = codes "High";
  title = codes "Write";
  description = codes "A write";
  occurred_at = none;
  observed_at = codes "2026-01-01";
  asset_ids = codes "plc" ∷ [];
  recommended_action = none;
  payload = end;
}

abbrev signal : Text
signal = codes "signal:" ++ digest

abbrev ticket : Text
ticket = codes "ticket:" ++ 2 ∷ []

abbrev request_ticket : NewTicket
request_ticket = record {
  signal_id = signal;
  actor = codes "ann";
  priority = codes "p3";
  owner = none;
  title = none;
  description = none;
}

abbrev history : List (Env × Request)
history =
    (at 1, Request.ingest_snapshot (finding ∷ []) digest (codes "snapshot") (codes "2026-01-01"))
    ∷ (at 2, Request.create request_ticket)
    ∷ (at 3, Request.transition ticket (codes "investigating") (codes "ann") none)
    ∷ (at 4, Request.govern ticket (some (codes "bob")) (codes "p1") (codes "ann"))
    ∷ (at 5, Request.transition ticket (codes "closed") (codes "bob") none)
    ∷ (at 6, Request.transition ticket (codes "resolved") (codes "bob") (some (codes "done")))
    ∷ (at 7, Request.transition ticket (codes "closed") (codes "bob") (some (codes "done")))
    ∷ []

abbrev Outcome : Type 0
Outcome = Status × Priority × Option Text × Option ℕ × Option ℕ × ℕ

abbrev outcome : Ticket → Outcome
outcome t = (t.status, t.priority, t.owner, t.resolved_at, t.closed_at, t.sla_due_at)

abbrev ingested : Db
unfolding serve
ingested = serve runtime (take 1 history) empty_db

abbrev ticketed : Db
unfolding serve
ticketed = serve runtime (take 2 history) empty_db

abbrev one_signal : IngestStats
one_signal = record { signals_seen = 1; signals_created = 1; occurrences_created = 1 }

abbrev first_ticket : Ticket
first_ticket = record {
  id = ticket;
  signal_id = signal;
  title = codes "Write";
  description = codes "A write";
  status = Status.new;
  priority = Priority.p3;
  owner = none;
  created_by = codes "ann";
  created_at = 2;
  updated_at = 2;
  sla_due_at = 2 + 24 * hour;
  resolved_at = none;
  closed_at = none;
}

-- What the calls compute. The fifth one fails for its missing note, and leaves no trace.
runs :
    (map outcome (serve runtime history empty_db).tickets
      ≡ (Status.closed, Priority.p1, some (codes "bob"), some 6, some 7, 2 + 4 * hour) ∷ [])
    × (map (λ (e : AuditEvent). e.sequence) (serve runtime history empty_db).audit
        ≡ 1 ∷ 2 ∷ 3 ∷ 4 ∷ 5 ∷ 6 ∷ [])
    × (ingest_snapshot_signals runtime
          (at 1)
          (finding ∷ [])
          digest
          (codes "snapshot")
          (codes "2026-01-01")
          empty_db
        ≡ ok (one_signal, ingested))
    × (create_ticket_from_signal (at 2) request_ticket ingested ≡ ok (first_ticket, ticketed))
    × (sha256_text digest 64 ≡ ok digest)
    × (find (ticket_at ticket) ticketed.tickets ≡ some first_ticket)
unfolding dtlab_control_center.Tickets.Validation.required_text
    dtlab_control_center.Tickets.Validation.optional_text
    dtlab_control_center.Tickets.Validation.normalize_priority
    dtlab_control_center.Tickets.Validation.normalize_status sha256_text
    dtlab_control_center.Tickets.Tables.pure dtlab_control_center.Tickets.Tables.raise
    dtlab_control_center.Tickets.Tables.lift dtlab_control_center.Tickets.Tables.gets
    dtlab_control_center.Tickets.Tables.transaction dtlab_control_center.Tickets.Tables.◌>>=◌
    dtlab_control_center.Tickets.Tables.modify dtlab_control_center.Tickets.Tables.or_raise
    dtlab_control_center.Tickets.Tables.require_signal
    dtlab_control_center.Tickets.Tables.select_ticket_for
    dtlab_control_center.Tickets.Tables.require_ticket
    dtlab_control_center.Tickets.Tables.insert_ticket
    dtlab_control_center.Tickets.Tables.update_ticket
    dtlab_control_center.Tickets.Tables.touch_ticket dtlab_control_center.Tickets.Tables.audit
    dtlab_control_center.Tickets.Sla.business_hours_policy sla_due_at
    dtlab_control_center.Tickets.Operations.new_ticket
    dtlab_control_center.Tickets.Operations.open_ticket
    dtlab_control_center.Tickets.Operations.find_or_open create_ticket_from_signal
    dtlab_control_center.Tickets.Workflow.reopens
    dtlab_control_center.Tickets.Workflow.resolved_after
    dtlab_control_center.Tickets.Workflow.closed_after
    dtlab_control_center.Tickets.Workflow.change_status
    dtlab_control_center.Tickets.Workflow.transition_ticket
    dtlab_control_center.Tickets.Workflow.write_owner
    dtlab_control_center.Tickets.Workflow.write_priority
    dtlab_control_center.Tickets.Workflow.change_owner
    dtlab_control_center.Tickets.Workflow.change_priority
    dtlab_control_center.Tickets.Workflow.touch_if
    dtlab_control_center.Tickets.Workflow.update_ticket_governance
    dtlab_control_center.Tickets.Signals.insert_sorted
    dtlab_control_center.Tickets.Signals.asset_set
    dtlab_control_center.Tickets.Signals.same_occurrence
    dtlab_control_center.Tickets.Signals.insert_occurrence
    dtlab_control_center.Tickets.Signals.payload_hash dtlab_control_center.Tickets.Signals.normalise
    dtlab_control_center.Tickets.Signals.occurrence_of
    dtlab_control_center.Tickets.Signals.insert_signal
    dtlab_control_center.Tickets.Signals.store_signal
    dtlab_control_center.Tickets.Signals.upsert_signal
    dtlab_control_center.Tickets.Signals.upsert_all
    dtlab_control_center.Tickets.Signals.insert_ingest
    dtlab_control_center.Tickets.Signals.ingest_new ingest_snapshot_signals snapshot_ingested
    dtlab_control_center.Tickets.History.handle serve
    dtlab_control_center.Tickets.Model.sla_policy_hours
    dtlab_control_center.Tickets.Model.sla_stopped dtlab_control_center.Tickets.Model.is_decision
    dtlab_control_center.Tickets.Model.transitions dtlab_control_center.Tickets.Model.allowed find
    update dtlab_control_center.Json.get_value
runs = (refl, refl, refl, refl, refl, refl)

serve-IsDated_example : All IsDated (serve runtime history empty_db).tickets
serve-IsDated_example = serve-IsDated runtime history

serve-Extends_example : Extends ticketed.audit (serve runtime history ticketed).audit
serve-Extends_example = serve-Extends runtime history ticketed

serve-IsKeyed_example : IsKeyed (serve runtime history empty_db)
serve-IsKeyed_example = serve-IsKeyed runtime history

serve-IsTraced_example :
    Option.map view_of (find (ticket_at ticket) (serve runtime history empty_db).tickets)
    ≡ replay ticket (serve runtime history empty_db).audit
serve-IsTraced_example = serve-IsTraced runtime history ticket

-- An hour before its end, a ticket of 24 hours is due soon.
derive_ticket_sla-running_example :
    (((derive_ticket_sla first_ticket (23 * hour)).state ≡ overdue) ↔ (2 + 24 * hour ≤ 23 * hour))
    × (((derive_ticket_sla first_ticket (23 * hour)).state ≡ due_soon)
        ↔ ((23 * hour < 2 + 24 * hour) × (4 * (2 + 24 * hour - 23 * hour) ≤ 24 * hour)))
    × (((derive_ticket_sla first_ticket (23 * hour)).state ≡ on_time)
        ↔ (24 * hour < 4 * (2 + 24 * hour - 23 * hour)))
unfolding sla_stopped sla_policy_hours
derive_ticket_sla-running_example = derive_ticket_sla-running first_ticket (23 * hour) refl

same_digest :
    (d : Text)
    → sha256_text digest 64 ≡ ok d
    → any (λ (s : SignalInput). not (text_eq (text_lower s.snapshot_sha256) d)) (finding ∷ [])
      ≡ false
unfolding text_eq text_lower
same_digest d h =
    let (_, _, _, _, e, _) = runs in let same : digest ≡ d = cc (e, h) in rw⁻¹ same refl

ingest_again_example :
    (snapshot_ingested runtime digest ingested ≡ ok (true, ingested))
    × (ingest_snapshot_signals runtime
          (at 9)
          (finding ∷ [])
          digest
          (codes "snapshot")
          (codes "2026-01-01")
          ingested
        ≡ ok (no_stats runtime, ingested))
ingest_again_example =
    let (_, _, first, _, _, _) = runs in
    ingest_again runtime (at 1) (at 9) (finding ∷ []) (finding ∷ []) digest (codes "snapshot")
      (codes "2026-01-01") empty_db ingested one_signal first same_digest

ingested-IsKeyed : IsKeyed ingested
ingested-IsKeyed = unfold serve in serve-IsKeyed runtime (take 1 history)

plain_deadlines : (p : Priority) → (due : ℕ) × (sla_due_at (at 5) p 5 ≡ ok due)
unfolding sla_due_at
plain_deadlines p = (_, refl)

create_again_example :
    create_ticket_from_signal (at 5) request_ticket ticketed ≡ ok (first_ticket, ticketed)
create_again_example =
    let (_, _, _, first, _, _) = runs in
    create_again (at 2) (at 5) request_ticket ingested ticketed first_ticket ingested-IsKeyed first
      plain_deadlines

may_investigate : IsPermitted ticket (codes "investigating") (codes "ann") none ticketed
unfolding required_text optional_text normalize_status allowed is_decision
may_investigate =
    let (_, _, _, _, _, there) = runs in
    record {
      id = ticket;
      id_ok = refl;
      target = Status.investigating;
      target_ok = refl;
      who = codes "ann";
      who_ok = refl;
      reason = none;
      reason_ok = refl;
      noted = refl;
      row = first_ticket;
      found = there;
      reachable = refl;
    }

transition_ticket_iff_example :
    ((t : Ticket) × (end : Db) × (transition_ticket
          (at 3)
          ticket
          (codes "investigating")
          (codes "ann")
          none
          ticketed
        ≡ ok (t, end)))
    ↔ IsPermitted ticket (codes "investigating") (codes "ann") none ticketed
transition_ticket_iff_example =
    transition_ticket_iff (at 3) ticket (codes "investigating") (codes "ann") none ticketed

transition_ticket_lem_example :
    (t : Ticket) × (end : Db) × (transition_ticket
        (at 3)
        ticket
        (codes "investigating")
        (codes "ann")
        none
        ticketed
      ≡ ok (t, end))
    × (t.status ≡ Status.investigating)
    × (find (ticket_at ticket) end.tickets ≡ some t)
    × ((other : Text)
        → text_eq ticket other ≡ false
        → find (ticket_at other) end.tickets ≡ find (ticket_at other) ticketed.tickets)
    × (end.tasks ≡ ticketed.tasks)
    × (end.comments ≡ ticketed.comments)
    × (end.audit
        ≡ ticketed.audit
          ++ record {
            sequence = ticketed.audit_sequence + 1;
            ticket_id = ticket;
            actor = codes "ann";
            occurred_at = 3;
            details = status_changed Status.new Status.investigating none;
          }
            ∷ [])
unfolding may_investigate
transition_ticket_lem_example =
    transition_ticket_lem (at 3) ticket (codes "investigating") (codes "ann") none ticketed
      may_investigate
