-- ===== src/Headers.antt =====
-- src/libhttp/headers: reading and writing header lines.
pub mod Value
pub mod Readers
pub mod Serialization
pub mod Etag
pub mod Convertible
pub mod Connection
pub mod Media
pub mod Table
pub mod Lines
pub mod Types
pub mod Rows
