-- ===== src/Dialect/Engines.antt =====
-- dialect.go: the `Dialect` interface; pg/pg.go and sqlite/sqlite.go: its two implementations.
use row.Prelude.{
  ℕ, ◌%◌, Bool, true, false, ◌||◌, Option, none, some, [], ◌∷◌, ◌++◌, ◌≡◌, refl, arith, ◌==◌,
  if◌then◌else◌, Bytes, codes, bytes_eq, append_assoc,
}
use row.Errors.{
  Code, unique_violation, foreign_key_violation, not_null_violation, check_violation, deadlock,
  serialization_failure, busy, timeout, Err, as_pg_error, as_sqlite_error,
}
use row.Dialect.Decimal.{append_ordinal, append_int}
use row.Dialect.Quote.{quote_with}

pub record Features : Type 0 where
  pub returning : Bool
  pub savepoints : Bool
  pub upsert : Bool
  pub max_placeholders : ℕ

-- the interface
pub record Dialect : Type 0 where
  pub name : Bytes
  pub driver_name : Bytes
  pub append_placeholder : Bytes → ℕ → Bytes
  pub quote_ident : Bytes → Bytes
  pub features : Features
  pub classify_error : Err → Option Code

-- What the interface promises of `AppendPlaceholder`: it appends a text that depends on the
-- number alone.
pub record IsAppending (d : Dialect) : Type 0 where
  pub appends :
      (dst : Bytes) (n : ℕ) → d.append_placeholder dst n ≡ dst ++ d.append_placeholder [] n

-- the `switch` over SQLSTATE
unfoldable pub pg_code : Bytes → Option Code
pg_code s =
    if bytes_eq s (codes "23505")
    then some unique_violation
    else if bytes_eq s (codes "23503")
    then some foreign_key_violation
    else if bytes_eq s (codes "23502")
    then some not_null_violation
    else if bytes_eq s (codes "23514")
    then some check_violation
    else if bytes_eq s (codes "40P01")
    then some deadlock
    else if bytes_eq s (codes "40001")
    then some serialization_failure
    else if bytes_eq s (codes "55P03")
    then some busy
    else if bytes_eq s (codes "57014")
    then some timeout
    else none

unfoldable pub pg_classify : Err → Option Code
unfolding pg_code
pg_classify err = elim (as_pg_error err) [ none ↦ none | some s ↦ pg_code s ]

abbrev pub pg : Dialect
pg = record {
  name = codes "postgres";
  driver_name = codes "pgx";
  append_placeholder = λ dst n. append_ordinal dst b'$' n;
  quote_ident = λ name. quote_with name b'"';
  features = record {
    returning = true;
    savepoints = true;
    upsert = true;
    max_placeholders = 65535;
  };
  classify_error = pg_classify;
}

-- the `switch` over result codes
unfoldable pub sqlite_code : ℕ → Option Code
sqlite_code c =
    if c == 2067 || c == 1555 || c == 2579
    then some unique_violation
    else if c == 787
    then some foreign_key_violation
    else if c == 1299
    then some not_null_violation
    else if c == 275
    then some check_violation
    else if c == 5 || c == 261 || c == 517 || c == 6
    then some busy
    else if c == 773
    then some timeout
    else if c == 9
    then some timeout
    else if c % 256 == 19
    then some check_violation
    else none

unfoldable pub sqlite_classify : Err → Option Code
unfolding sqlite_code
sqlite_classify err = elim (as_sqlite_error err) [ none ↦ none | some c ↦ sqlite_code c ]

abbrev pub sqlite : Dialect
sqlite = record {
  name = codes "sqlite";
  driver_name = codes "sqlite";
  append_placeholder = λ dst n. dst ++ b'?' ∷ [];
  quote_ident = λ name. quote_with name b'"';
  features = record {
    returning = true;
    savepoints = true;
    upsert = true;
    max_placeholders = 32766;
  };
  classify_error = sqlite_classify;
}

pub pg-IsAppending : IsAppending pg
unfolding append_ordinal append_int
pg-IsAppending = record { appends = λ dst n. append_assoc dst (b'$' ∷ []) _ }

pub sqlite-IsAppending : IsAppending sqlite
sqlite-IsAppending = record { appends = λ dst n. refl }

-- Is this the code of a constraint failure?
abbrev pub is_constraint : Option Code → Bool
is_constraint (some unique_violation) = true
is_constraint (some foreign_key_violation) = true
is_constraint (some not_null_violation) = true
is_constraint (some check_violation) = true
is_constraint _ = false

-- SQLite's result codes whose primary code is 19, and no others, are classified as constraint
-- failures.
pub sqlite_code-constraint : (c : ℕ) → is_constraint (sqlite_code c) ≡ (c % 256 == 19)
unfolding sqlite_code
sqlite_code-constraint c = ground arith
