-- ===== src/Rpc.antt =====
-- conduit/rpc/: the registry of methods, and their dispatch (Rpc/Dispatcher).
pub mod Registry
pub mod Dispatcher
pub mod Safety
pub mod Binding
pub mod Registration
pub mod Path
pub mod Examples
