-- ===== src/Qb/Query.antt =====
-- qb/query.go: the builders.
pub mod Clauses
pub mod Select
pub mod Insert
pub mod Update
