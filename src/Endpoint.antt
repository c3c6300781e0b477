-- ===== src/Endpoint.antt =====
-- The endpoint audit of integrations/plc_endpoint_audit/dtlab_plc_audit.
pub mod Episodes
pub mod Aggregator
pub mod Balance
pub mod Carried
pub mod Counts
pub mod Spool
pub mod Sender
pub mod Tests
