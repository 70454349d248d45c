-- ===== src/Rows.antt =====
-- scan.go: how the rows of a query get to the caller.
pub mod Deliver
pub mod Items
pub mod Single
pub mod Plan
pub mod Read
pub mod Nulls
pub mod Groups
pub mod Strict
pub mod Entry
pub mod Errors
