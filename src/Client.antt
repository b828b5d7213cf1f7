-- ===== src/Client.antt =====
-- The Python client: client/python/py_auth_client.
pub mod Bundle
pub mod Storage
pub mod Cache
pub mod Check
pub mod Wire
pub mod Identity
pub mod Deadlines
pub mod Errors
pub mod Network
pub mod Disks
pub mod Platform
pub mod Facts
pub mod Info
pub mod Start
pub mod Online
pub mod Background
