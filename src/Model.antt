-- ===== src/Model.antt =====
-- model/: the entities, the SQLite connection and the two repositories.
pub mod Records
pub mod Sqlite
pub mod Tables
pub mod Documented
pub mod Database
pub mod AccountRepository
pub mod TransactionRepository
pub mod Views
pub mod Ledger
pub mod Json
pub mod Queries
