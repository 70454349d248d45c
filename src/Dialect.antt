-- ===== src/Dialect.antt =====
-- dialect.go, pg/pg.go and sqlite/sqlite.go: how engines differ.
pub mod Quote
pub mod Decimal
pub mod Placeholder
pub mod Engines
