-- ===== src/Mapper.antt =====
-- mapper.go: how a struct type is mapped to columns.
pub mod Snake
pub mod Words
pub mod Parted
pub mod Types
pub mod Tag
pub mod Walk
pub mod Columns
pub mod Mapped
pub mod Depth
pub mod Nesting
