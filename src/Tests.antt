-- ===== src/Tests.antt =====
-- The theorems at concrete inputs.
pub mod Response
pub mod Reading
pub mod Events
pub mod Connections
pub mod Strings
pub mod Sockets
pub mod Names
pub mod Pages
pub mod Queries
pub mod Clients
pub mod Workers
pub mod Secure
