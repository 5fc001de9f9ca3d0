-- ===== src/Logging.antt =====
-- Logging: the text of a line, the stream it is put into, the logger that opens and closes it, and
-- the lines of all threads on their way to a file.
pub mod Stream
pub mod Format
pub mod Logger
pub mod Async
pub mod File
