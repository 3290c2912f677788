-- ===== src/Base.antt =====
-- What the processes are built on (base).
pub mod ProcessId
pub mod Checker
pub mod Connection
pub mod Connections
