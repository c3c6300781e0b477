-- ===== src/Tickets.antt =====
-- src/dtlab/services/ticket_store.py and ticket_policy.py, by children.
pub mod Model
pub mod Validation
pub mod Sla
pub mod Tables
pub mod Operations
pub mod Workflow
pub mod Signals
pub mod Policy
pub mod History
pub mod Keeps
pub mod Rules
pub mod Trail
pub mod Dates
pub mod Keys
pub mod SlaStates
pub mod Runs
pub mod Idempotent
pub mod Ingested
pub mod Appended
pub mod Transitions
pub mod Escalation
pub mod Tests
