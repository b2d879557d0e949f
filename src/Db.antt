-- ===== src/Db.antt =====
-- internal/db: the tables and the statements that the server runs on them.
pub mod Tables
pub mod Transfers
pub mod Clients
pub mod Admins
pub mod Grants
pub mod Organizations
pub mod SignIn
