-- ===== src/Client.antt =====
-- src/libhttp/client: requests and responses.
pub mod Request
pub mod Response
