-- ===== src/Errors.antt =====
-- errors.go: portable codes, the error type and its wrapping.
pub mod Collapse
pub mod Wrap
use row.Prelude.{ℕ, Bool, true, false, Option, none, some, Bytes}

-- `Code`, whose values are these constants
pub data Code : Type 0 where
  unknown unique_violation foreign_key_violation not_null_violation check_violation : Code
  deadlock serialization_failure busy timeout : Code

unfoldable pub retryable : Code → Bool
retryable deadlock = true
retryable serialization_failure = true
retryable busy = true
retryable _ = false

-- Go's error values, by what the code looks at: a `*pgconn.PgError` with its SQLSTATE, a
-- `*sqlite.Error` with its result code, any other value, one made by `fmt.Errorf` with a text and
-- a `%w`, and `*Error` with its operation, statement, code and underlying error.
pub data Err : Type 0 where
  pg_error : Bytes → Err
  sqlite_error : ℕ → Err
  other : ℕ → Err
  formatted : Bytes → Err → Err
  row_error : Bytes → Bytes → Code → Err → Err

-- `errors.As` to a `*Error`: the first one along `Unwrap`; its code
unfoldable pub as_error : Err → Option Code
as_error (row_error op sql c e) = some c
as_error (formatted s e) = as_error e
as_error _ = none

-- `errors.As` to a `*pgconn.PgError` and to a `*sqlite.Error`
unfoldable pub as_pg_error : Err → Option Bytes
as_pg_error (pg_error s) = some s
as_pg_error (formatted s e) = as_pg_error e
as_pg_error (row_error op sql c e) = as_pg_error e
as_pg_error _ = none

unfoldable pub as_sqlite_error : Err → Option ℕ
as_sqlite_error (sqlite_error n) = some n
as_sqlite_error (formatted s e) = as_sqlite_error e
as_sqlite_error (row_error op sql c e) = as_sqlite_error e
as_sqlite_error _ = none

unfoldable pub code_of : Err → Code
unfolding as_error
code_of err = elim (as_error err) [ none ↦ unknown | some c ↦ c ]

-- the code that a new `*Error` gets from the dialect's `ClassifyError`
unfoldable pub classified : Option (Err → Option Code) → Err → Code
classified none err = unknown
classified (some classify) err = elim (classify err) [ none ↦ unknown | some c ↦ c ]

-- `wrap`; `nil` is `none`, and the dialect stands for its `ClassifyError`
unfoldable pub wrap : Bytes → Bytes → Option (Err → Option Code) → Option Err → Option Err
unfolding classified as_error
wrap op query d none = none
wrap op query d (some err) = elim (as_error err) [
  | some _ ↦ some err
  | none ↦ some (row_error op query (classified d err) err)
]
