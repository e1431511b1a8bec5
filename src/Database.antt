-- ===== src/Database.antt =====
-- app/db: the tables, the sessions on them and the exceptions of the services.
pub mod Enums
pub mod Tables
pub mod AccountErrors
pub mod Errors
pub mod Session
pub mod Problems
