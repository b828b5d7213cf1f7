-- ===== src/Tests.antt =====
-- Concrete inputs: a server with one administrator, one member and two devices, and the states of
-- the client, on which the theorems are run.
pub mod Data
mod Heartbeats
mod Accounts
mod Consoles
mod Clients
mod Systems
mod States
mod Revocations
mod Devices
