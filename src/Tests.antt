-- ===== src/Tests.antt =====
-- The theorems, each at a concrete input.
pub mod Wire
pub mod Maps
pub mod Replies
pub mod Exchange
pub mod Buffers
pub mod Values
pub mod Texts
pub mod Messages
