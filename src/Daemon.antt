-- ===== src/Daemon.antt =====
-- crates/guardian-daemon: the queue of approvals that a human answers, and the control socket.
pub mod Queue
pub mod Control
pub mod Config
pub mod Startup
