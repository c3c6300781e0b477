-- ===== src/Tickets/Model.antt =====
-- The vocabulary and the tables of src/dtlab/services/ticket_store.py. A `_utc_text` time stamp
-- is the instant that it prints, in microseconds; a JSON column is the value that it prints.
use dtlab_control_center.Prelude.{ℕ, Bool, true, false, Option, List, [], ◌∷◌, Text, ◌==◌, any}
use dtlab_control_center.Json.{Members}

-- TICKET_STATUSES
pub data Status : Type 0 where
  new acknowledged investigating remediating waiting_ot resolved : Status
  closed false_positive accepted_risk suppressed : Status

-- TICKET_PRIORITIES
pub data Priority : Type 0 where
  p1 p2 p3 p4 : Priority

-- TASK_STATUSES
pub data TaskStatus : Type 0 where
  pending completed skipped : TaskStatus

-- The exception classes. `integrity` is sqlite3.IntegrityError, a constraint of the schema;
-- `policy` is the ValueError of an invalid business calendar.
pub data Error : Type 0 where
  validation signal_not_found ticket_not_found task_not_found : Error
  invalid_transition : Status → Status → Error
  integrity policy : Error

-- SLA_POLICY_HOURS
unfoldable pub sla_policy_hours : Priority → ℕ
sla_policy_hours p1 = 4
sla_policy_hours p2 = 8
sla_policy_hours p3 = 24
sla_policy_hours p4 = 72

-- SLA_STOPPED_STATUSES
unfoldable pub sla_stopped : Status → Bool
sla_stopped closed = true
sla_stopped false_positive = true
sla_stopped accepted_risk = true
sla_stopped suppressed = true
sla_stopped _ = false

-- `target in {"resolved", "false_positive", "accepted_risk", "suppressed"}`
unfoldable pub is_decision : Status → Bool
is_decision resolved = true
is_decision false_positive = true
is_decision accepted_risk = true
is_decision suppressed = true
is_decision _ = false

abbrev pub status_code : Status → ℕ
status_code new = 0
status_code acknowledged = 1
status_code investigating = 2
status_code remediating = 3
status_code waiting_ot = 4
status_code resolved = 5
status_code closed = 6
status_code false_positive = 7
status_code accepted_risk = 8
status_code suppressed = 9

abbrev pub status_eq : Status → Status → Bool
status_eq a b = status_code a == status_code b

abbrev pub priority_rank : Priority → ℕ
priority_rank p1 = 0
priority_rank p2 = 1
priority_rank p3 = 2
priority_rank p4 = 3

abbrev pub priority_eq : Priority → Priority → Bool
priority_eq a b = priority_rank a == priority_rank b

-- _TRANSITIONS
unfoldable pub transitions : Status → List Status
transitions new = acknowledged ∷ investigating ∷ false_positive ∷ accepted_risk ∷ suppressed ∷ []
transitions acknowledged = investigating ∷ false_positive ∷ accepted_risk ∷ suppressed ∷ []
transitions investigating =
    remediating ∷ waiting_ot ∷ resolved ∷ false_positive ∷ accepted_risk ∷ suppressed ∷ []
transitions remediating = investigating ∷ waiting_ot ∷ resolved ∷ []
transitions waiting_ot = investigating ∷ remediating ∷ resolved ∷ []
transitions resolved = closed ∷ investigating ∷ []
transitions closed = investigating ∷ []
transitions false_positive = investigating ∷ []
transitions accepted_risk = investigating ∷ []
transitions suppressed = investigating ∷ []

-- `to in _TRANSITIONS[from]`
unfoldable pub allowed : Status → Status → Bool
unfolding transitions
allowed from to = any (status_eq to) (transitions from)

-- a row of `signals`
pub record Signal : Type 0 where
  pub id : Text
  pub fingerprint : Text
  pub signal_type : Text
  pub snapshot_sha256 : Text
  pub source_id : Option Text
  pub source_record_id : Option Text
  pub evidence : Members
  pub severity : Text
  pub title : Text
  pub description : Text
  pub occurred_at : Option Text
  pub first_observed_at : Text
  pub last_observed_at : Text
  pub asset_ids : List Text
  pub recommended_action : Option Text
  pub payload : Members
  pub occurrence_count : ℕ
  pub created_at : ℕ
  pub updated_at : ℕ

-- a row of `signal_occurrences`, without its rowid
pub record Occurrence : Type 0 where
  pub signal_id : Text
  pub snapshot_sha256 : Text
  pub observed_at : Text
  pub occurred_at : Option Text
  pub payload_hash : Text
  pub payload : Members
  pub created_at : ℕ

-- a row of `snapshot_ingests`
pub record Ingest : Type 0 where
  pub snapshot_sha256 : Text
  pub snapshot_id : Text
  pub generated_at : Text
  pub signals_seen : ℕ
  pub ingested_at : ℕ

-- a row of `tickets`
pub record Ticket : Type 0 where
  pub id : Text
  pub signal_id : Text
  pub title : Text
  pub description : Text
  pub status : Status
  pub priority : Priority
  pub owner : Option Text
  pub created_by : Text
  pub created_at : ℕ
  pub updated_at : ℕ
  pub sla_due_at : ℕ
  pub resolved_at : Option ℕ
  pub closed_at : Option ℕ

-- a row of `ticket_comments`
pub record Comment : Type 0 where
  pub id : Text
  pub ticket_id : Text
  pub author : Text
  pub body : Text
  pub created_at : ℕ

-- a row of `ticket_tasks`
pub record Task : Type 0 where
  pub id : Text
  pub ticket_id : Text
  pub title : Text
  pub description : Option Text
  pub status : TaskStatus
  pub position : ℕ
  pub owner : Option Text
  pub due_at : Option Text
  pub completed_at : Option ℕ
  pub created_at : ℕ
  pub updated_at : ℕ

-- The action of an audit event with its details.
pub data Details : Type 0 where
  created : Text → Status → Priority → Option Text → ℕ → Details
  status_changed : Status → Status → Option Text → Details
  assigned : Option Text → Option Text → Details
  priority_changed : Priority → Priority → ℕ → ℕ → Details
  sla_recalculated : ℕ → ℕ → Details
  comment_added : Text → Details
  task_added : Text → ℕ → Text → Details
  task_status_changed : Text → TaskStatus → TaskStatus → Details

-- a row of `audit_events`
pub record AuditEvent : Type 0 where
  pub sequence : ℕ
  pub ticket_id : Text
  pub actor : Text
  pub occurred_at : ℕ
  pub details : Details

-- The database. `audit_sequence` is the counter behind AUTOINCREMENT.
pub record Db : Type 0 where
  pub signals : List Signal
  pub occurrences : List Occurrence
  pub ingests : List Ingest
  pub tickets : List Ticket
  pub comments : List Comment
  pub tasks : List Task
  pub audit : List AuditEvent
  pub audit_sequence : ℕ

abbrev pub empty_db : Db
empty_db = record {
  signals = [];
  occurrences = [];
  ingests = [];
  tickets = [];
  comments = [];
  tasks = [];
  audit = [];
  audit_sequence = 0;
}
