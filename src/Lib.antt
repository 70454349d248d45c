-- ===== src/Lib.antt =====
-- row, a typed layer over Go's database/sql, and its query builder qb.
--
-- A statement that is given to row goes through `lex` (lex.go), which finds the parameters in it,
-- `compile` (bind.go), which makes a plan of the tokens, and `render` (bind.go), which puts the
-- plan together for a dialect with the caller's arguments. A dialect (dialect.go, pg/pg.go,
-- sqlite/sqlite.go) writes placeholders, quotes identifiers and classifies errors, which `wrap`
-- (errors.go) attaches to what the caller gets. The builders of qb (qb/expr.go, qb/query.go) write
-- SQL text and arguments for a dialect; they share `ExpandSlice` with bind.go. `InTx` (tx.go) runs a
-- function in a transaction or in a savepoint of one, and `InTxRetry` runs it again after an error
-- whose code says that this may help. The plans of `compile` are kept in a cache (cache.go), through
-- which `prepare` (row.go) goes; `runQuery` and `runExec` send a statement, with the hooks of hook.go
-- around it. `buildStruct` (mapper.go) maps a struct type to columns; the writes (write.go) make their
-- statements of such a mapping, and the reads (scan.go) assign the columns of a row by it.
--
-- The modules:
--   Prelude, with Tests, Lists and ByteStrings: Boolean tests, lists over the native numbers, and
--     byte strings. A Go string is the list of its bytes.
--   Lex: the scanner. Token and Skip hold the tokens and the inner loops, Scan one round of the
--     `switch` (`scan`) and the loop (`lex_loop`, `lex`); Bounds, Partition, Spelling and Merged
--     hold what is proved of them.
--   Bind: Value (what `sliceElems` sees of an `any`), Compile (`compile`) and Render (`render`);
--     Denote reads the tokens directly, Loop and Refine relate the plan to that, Pieces and Outcome
--     describe what is sent to the driver, and Verbatim the statements that are passed through.
--   Dialect: Engines (the interface and the two dialects), Quote (`QuoteWith`), Decimal and
--     Placeholder (`AppendOrdinal`).
--   Errors: codes, `wrap` and `CodeOf`, with Wrap and Collapse (`collapseSpace`).
--   Qb: Strings (the functions of the standard library that it uses), Writer, Expr and Conditions
--     (qb/expr.go), Query (the builders of qb/query.go); Alike and Injection compare two values of
--     the same shape, Aligned, Numbered, Selected, Changed and Built follow the placeholders,
--     Guarded the conditions of UPDATE and DELETE.
--   Tx: Session (`InTx` and `nest`), Retry (`InTxRetry`); Closed, Nested and Backoff hold what is
--     proved of them.
--   Cache: Shard (a stripe of the cache of cache.go, with its map and its list), Plans (the stripes
--     and the choice among them); Bounds, Elements and Sound hold what is proved of them.
--   Mapper: Snake (`SnakeCase`, with Words and Parted for the words it finds), Types,
--     Tag (`parseTag`) and Walk (`buildStruct`); Columns and Mapped follow the columns, Nesting the groups, Depth the recursion.
--   Write: Options, Statement (`Insert`, `Update` and `Delete`) and Many (`InsertMany`); Aligned,
--     Placeholders, Statements and Rows follow the placeholders and arguments, Slices and Sizes the
--     rows that a batch reads by their indexes, Batches and Returned the loop over the batches.
--   Session: Arguments (`splitArgs`), Prepare (`prepare`), Run (`runQuery`, `runExec` and the hooks)
--     and Entry (`bindFor` and `Exec`); Prepared compares `prepare` with and without the cache, Traced orders the hooks.
--   Rows: Plan (`buildScanPlan`), Read (which fields a row is assigned to), Deliver (`collect`,
--     `single` and `stream`) and Entry (`All`, `One` and `First`); Strict, Nulls, Groups, Items,
--     Single and Errors hold what is proved of them.
--   Tests: examples.
--
-- State is explicit: the variables of `lex` and `compile` and the writer of qb are records that the
-- operations take and return. Errors are values, with what their texts show; a nil dereference and
-- an index out of range are `panic`. A dialect is a record of functions, so that a theorem holds for
-- every dialect; that a dialect appends its placeholder to what is there is the hypothesis
-- `IsAppending`, which both dialects of the repository meet. database/sql is a record of functions on
-- the world outside (`Database`); what SQL and database/sql say of savepoints and of open transactions
-- are the hypotheses `IsSavepoints` and `IsTransactions`. A session's driver and a hook are records of
-- functions on the world, too; the functions of the package unicode are a record of which nothing is
-- assumed. What reflection sees is data: a type by what the mapper asks of it, a struct value as a
-- function from its fields to values, a row of a result as a list of values or an error.
--
-- Bounds and fuel: the number of a `$n` wraps at 2 ^ 64; offsets, lengths and argument numbers are
-- natural numbers, since they are bounded by the length of the statement or the number of arguments.
-- The loop of `lex` has a round for each byte of the statement, which is enough because each round
-- reads a byte; the digits of a number n are taken with n + 1 rounds. A delay is an int64, as its
-- two's complement below 2 ^ 64. The loop over the batches of `InsertMany` has a round for each row,
-- which is enough because each batch has a row. The recursion of `buildStruct` is as deep as there
-- are types, and one more, which is enough because it enters no type twice. A loop along the groups
-- of a row has as many rounds as there are groups, which is enough because a group stands behind the
-- one around it.
--
-- Not modelled: what a database or a driver does; the reading and making of Go values by reflection
-- (convert.go except `isLeaf`, `valueAt` of mapper.go, `scanBack` of write.go, the readers of
-- scan.go); the caches of mappings and of scan plans, which hold what is computed here where it is
-- used; the texts of error messages; of row.go the calls of database/sql and the options, of hook.go
-- the hook that logs, and of builder.go all but its interface.
pub mod Prelude
pub mod Lex
pub mod Errors
pub mod Dialect
pub mod Bind
pub mod Qb
pub mod Tx
pub mod Cache
pub mod Mapper
pub mod Write
pub mod Session
pub mod Rows
mod Tests
