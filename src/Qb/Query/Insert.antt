-- ===== src/Qb/Query/Insert.antt =====
-- qb/query.go: `InsertQuery`.
use row.Prelude.{
  ℕ, ◌+◌, Bool, true, false, not, ◌&&◌, List, [], ◌∷◌, ◌++◌, Option, none, some, ltb, ◌==◌,
  if◌then◌else◌, Bytes, codes, length,
}
use row.Dialect.Engines.{Dialect}
use row.Bind.Value.{Value}
use row.Qb.Writer.{Writer, str, bind, is_empty, ident, ident_list}
use row.Qb.Expr.{nil_dialect, needs_table, no_values, wrong_width, Result, ok, err, ◌>>=◌}
use row.Qb.Query.Clauses.{blank, built, returning}

pub record InsertQuery : Type 0 where
  pub table : Bytes
  pub columns : List Bytes
  pub rows : List (List Value)
  pub conflict : Bytes
  pub returning_columns : List Bytes

-- `InsertInto`, and the methods; the receiver comes last
abbrev pub insert_into : Bytes → InsertQuery
insert_into table = record {
  table = table;
  columns = [];
  rows = [];
  conflict = [];
  returning_columns = [];
}

abbrev pub insert_columns : List Bytes → InsertQuery → InsertQuery
insert_columns cs q = record q { columns = cs }

abbrev pub add_values : List Value → InsertQuery → InsertQuery
add_values vs q = record q { rows = q.rows ++ vs ∷ [] }

abbrev pub on_conflict : Bytes → InsertQuery → InsertQuery
on_conflict clause q = record q { conflict = clause }

abbrev pub insert_returning : List Bytes → InsertQuery → InsertQuery
insert_returning cs q = record q { returning_columns = q.returning_columns ++ cs }

unfoldable pub write_column_list : Dialect → List Bytes → Writer → Writer
unfolding ident_list
write_column_list d [] w = w
write_column_list d (c ∷ cs) w = str (codes ")") (ident_list d false (c ∷ cs) (str (codes " (") w))

-- the values of one row; the flag is `j > 0`
unfoldable pub bind_row : Dialect → Bool → List Value → Writer → Writer
unfolding bind
bind_row d later [] w = w
bind_row d later (v ∷ vs) w =
    bind_row d true vs (bind d v (if later then str (codes ", ") w else w))

-- the loop over the rows, from row `i`
unfoldable pub write_rows : Dialect → List Bytes → ℕ → List (List Value) → Writer → Result Writer
unfolding bind_row
write_rows d columns i [] w = ok w
write_rows d columns i (vals ∷ rest) w =
    let start = str (codes "(") (if ltb 0 i then str (codes ", ") w else w) in
    let others =
      write_rows d columns (i + 1) rest (str (codes ")") (bind_row d false vals start)) in
    if ltb 0 (length columns) && not (length vals == length columns)
    then err (wrong_width i (length vals) (length columns))
    else others

unfoldable pub write_conflict : Bytes → Writer → Writer
write_conflict [] w = w
write_conflict (c ∷ cs) w = str (c ∷ cs) (str (codes " ON CONFLICT ") w)

unfoldable pub write_insert : Dialect → InsertQuery → Writer → Result Writer
unfolding ident write_column_list write_rows write_conflict returning
write_insert d q w = do
  let head = ident d q.table (str (codes "INSERT INTO ") w)
  let columns = str (codes " VALUES ") (write_column_list d q.columns head)
  filled ← write_rows d q.columns 0 q.rows columns
  returning d q.returning_columns (write_conflict q.conflict filled)

-- `BuildSQL`
unfoldable pub build_insert : Option Dialect → InsertQuery → Result (Bytes × List Value)
unfolding write_insert
build_insert none q = err nil_dialect
build_insert (some d) q =
    if is_empty q.table
    then err needs_table
    else if length q.rows == 0
    then err (no_values q.table)
    else (write_insert d q blank >>= built)
