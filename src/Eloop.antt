-- ===== src/Eloop.antt =====
-- The event loop of eloop/src/eloop.c, as CONFIG_ELOOP_SELECT compiles it.
pub mod Time
pub mod State
pub mod Table
pub mod Timeouts
pub mod World
pub mod Signals
pub mod Run
pub mod Poll
pub mod Destroy
mod Tests
