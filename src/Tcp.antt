-- ===== src/Tcp.antt =====
-- TCP: connections, and who makes them.
pub mod Connection
pub mod Connector
pub mod Client
pub mod Acceptor
pub mod Server
