-- ===== src/Messages.antt =====
-- conduit/messages/: queues of messages and the routing of messages to handlers.
pub mod Queue
pub mod Router
