-- ===== src/Tx.antt =====
-- tx.go: transactions, savepoints and retries.
pub mod Session
pub mod Nested
pub mod Closed
pub mod Retry
pub mod Backoff
