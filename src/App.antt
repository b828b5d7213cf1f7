-- ===== src/App.antt =====
-- The server: app/ and main.py.
pub mod Coerce
pub mod Models
pub mod Manager
pub mod Services
pub mod Auth
pub mod Deps
pub mod Invariant
pub mod Heartbeat
pub mod Users
pub mod Audit
pub mod Paging
pub mod Admin
pub mod Ws
pub mod Main
pub mod Server
