-- ===== src/Examples.antt =====
-- The servers under examples: messages with a length in front, and connections that time out.
pub mod Codec
pub mod Idle
