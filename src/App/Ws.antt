-- ===== src/App/Ws.antt =====
-- app/routers/ws.py: the WebSocket `/ws` of the admin console.
pub mod Act
pub mod Values
pub mod Devices
pub mod Batch
pub mod Session
pub mod Keeps
pub mod Entry
pub mod Update
pub mod Deletion
