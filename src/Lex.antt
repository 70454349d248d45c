-- ===== src/Lex.antt =====
-- lex.go: the SQL scanner.
pub mod Token
pub mod Skip
pub mod Scan
pub mod Bounds
pub mod Partition
pub mod Spelling
pub mod Merged
