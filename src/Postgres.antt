-- ===== src/Postgres.antt =====
-- internal/adapter/repository/postgres: the tables, the faults of the connection, and the
-- repositories over them.
pub mod Schema
pub mod Link
pub mod Auth
pub mod Sessions
pub mod Outbox
pub mod Users
pub mod Checks
