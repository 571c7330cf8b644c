-- ===== src/Transport.antt =====
-- src/transports: where the server's output goes.
pub mod Stdio
pub mod Concurrent
pub mod Queue
pub mod QuickJs
