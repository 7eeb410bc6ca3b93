-- ===== src/Transport.antt =====
-- conduit/transport/: the connection's state machine and authentication.
pub mod ConnectionState
pub mod Auth
