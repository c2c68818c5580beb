-- ===== src/Server.antt =====
-- src/libhttp/server: requests, responses, and the loop over the requests of a connection.
pub mod Request
pub mod Response
pub mod Loop
