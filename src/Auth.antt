-- ===== src/Auth.antt =====
-- internal/auth: the tokens of the ingest interface and the stored form of passwords.
pub mod Ingest
pub mod Password
