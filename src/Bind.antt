-- ===== src/Bind.antt =====
-- bind.go: compiling statements and binding arguments.
pub mod Value
pub mod Compile
pub mod Render
pub mod Denote
pub mod Loop
pub mod Refine
pub mod Pieces
pub mod Outcome
pub mod Verbatim
