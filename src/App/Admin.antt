-- ===== src/App/Admin.antt =====
-- app/routers/admin.py: `/api/admin`: the configuration, the users and the audit log.
pub mod Config
pub mod Accounts
pub mod Logs
