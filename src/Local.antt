-- ===== src/Local.antt =====
-- run_local.py: the development server, whose endpoints, database and tokens are its own.
pub mod Tables
pub mod Responses
pub mod Tokens
pub mod Endpoints
pub mod Seed
