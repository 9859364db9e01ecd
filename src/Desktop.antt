-- ===== src/Desktop.antt =====
-- cmd/desktop: how the desktop application decides to quit, and how it drains its work before that.
pub mod Heartbeat
pub mod Signals
pub mod Handle
pub mod Quiet
pub mod Alarm
pub mod Shutdown
pub mod Drain
