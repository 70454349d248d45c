-- ===== src/Tests.antt =====
-- Examples at concrete statements.
mod Lexing
mod Binding
mod Engines
mod Building
mod Transactions
mod Caching
mod Mapping
mod Writing
mod Sessions
mod Reading
