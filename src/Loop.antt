-- ===== src/Loop.antt =====
-- The event loop: channels and their events, the poller, timers and the pool of loops.
pub mod EventLoop
pub mod Dispatch
pub mod Poller
pub mod Timers
pub mod Pool
pub mod Events
