-- ===== src/Write.antt =====
-- write.go: INSERT, UPDATE and DELETE from struct values.
pub mod Options
pub mod Statement
pub mod Many
pub mod Slices
pub mod Sizes
pub mod Aligned
pub mod Placeholders
pub mod Batches
pub mod Returned
pub mod Rows
pub mod Statements
