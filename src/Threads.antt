-- ===== src/Threads.antt =====
-- Threads and what they share.
pub mod Latch
pub mod Thread
pub mod EventLoopThread
pub mod Pool
pub mod Signal
