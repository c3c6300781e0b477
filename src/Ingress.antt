-- ===== src/Ingress.antt =====
-- The receiver of endpoint events: src/dtlab/services/host_ot_events.py and host_ot_ingress.py.
pub mod Auth
pub mod Checks
pub mod Compared
pub mod CredentialTests
pub mod Keyring
pub mod Signed
pub mod Agreement
pub mod Tests
