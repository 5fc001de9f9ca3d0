-- ===== src/Http.antt =====
-- pallette/http: requests, their parser, responses and the server.
pub mod Request
pub mod Context
pub mod Response
pub mod Server
mod Tests
