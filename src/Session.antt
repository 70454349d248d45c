-- ===== src/Session.antt =====
-- row.go: how a statement gets to the driver.
pub mod Arguments
pub mod Prepare
pub mod Prepared
pub mod Run
pub mod Traced
pub mod Entry
