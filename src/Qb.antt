-- ===== src/Qb.antt =====
-- The package qb: a builder of SQL statements (qb/expr.go and qb/query.go).
pub mod Strings
pub mod Writer
pub mod Expr
pub mod Conditions
pub mod Query
pub mod Alike
pub mod Injection
pub mod Aligned
pub mod Numbered
pub mod Selected
pub mod Changed
pub mod Built
pub mod Guarded
