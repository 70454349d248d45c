-- ===== src/Tests/Engines.antt =====
-- Examples for the dialects and for errors.
use row.Prelude.{
  ◌+◌, ◌%◌, ◌^◌, [], ◌∷◌, ◌++◌, ◌≡◌, refl, inl, inr, none, some, Bytes, codes, length,
}
use row.Lex.Token.{text, numbered}
use row.Lex.Scan.{run, scan, advance, initial, lex}
use row.Dialect.Decimal.{append_ordinal}
use row.Dialect.Quote.{quote_body, quote_with, advance-quote_with, lex-quote_with}
use row.Dialect.Placeholder.{lex-append_ordinal}
use row.Dialect.Engines.{pg, sqlite, sqlite_code, is_constraint, sqlite_code-constraint}
use row.Errors.{
  Code, unknown, unique_violation, Err, pg_error, sqlite_error, formatted, row_error, as_error,
  code_of, classified, wrap,
}
use row.Errors.Wrap.{wrap-wrap}

-- a name with a quote in it
abbrev odd_name : Bytes
odd_name = codes "a\"?:b"

lex-quote_with_example :
    lex (quote_with odd_name b'"') ≡ run text 0 (length (quote_with odd_name b'"')) ∷ []
lex-quote_with_example = lex-quote_with b'"' odd_name (inr (inl refl))

advance-quote_with_example :
    advance initial (scan 0 b'"' (quote_body b'"' odd_name ++ (b'"' ∷ codes " = ?")))
    ≡ record initial { i = 0 + length (quote_with odd_name b'"') }
advance-quote_with_example =
    advance-quote_with initial b'"' odd_name (codes " = ?") (inr (inl refl)) refl

lex-append_ordinal_example :
    lex (append_ordinal [] b'$' 12)
    ≡ record {
      kind = numbered;
      lo = 0;
      hi = length (append_ordinal [] b'$' 12);
      name = [];
      num = 12 % 2 ^ 64;
    }
      ∷ []
lex-append_ordinal_example = lex-append_ordinal 12

abbrev duplicate : Err
duplicate = row_error (codes "row.Insert") (codes "INSERT") unique_violation (sqlite_error 2067)

wrapped :
    wrap
      (codes "row.Insert")
      (codes "INSERT")
      (some (sqlite.classify_error))
      (some (sqlite_error 2067))
    ≡ some duplicate
unfolding wrap row.Dialect.Engines.sqlite_classify row.Errors.as_sqlite_error
wrapped = refl

wrap-wrap_example :
    (wrap (codes "row.InTx") [] none (some duplicate) ≡ some duplicate)
    × (code_of duplicate ≡ elim (as_error (sqlite_error 2067)) [
      | none ↦ classified (some (sqlite.classify_error)) (sqlite_error 2067)
      | some c ↦ c
    ])
wrap-wrap_example =
    wrap-wrap (codes "row.Insert") (codes "INSERT") (codes "row.InTx") []
      (some (sqlite.classify_error)) none (sqlite_error 2067) duplicate wrapped
