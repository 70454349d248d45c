-- ===== src/Qb/Query/Update.antt =====
-- qb/query.go: `UpdateQuery` and `DeleteQuery`.
use row.Prelude.{
  Bool, true, false, List, [], ◌∷◌, ◌++◌, map, Option, none, some, ◌==◌, if◌then◌else◌, Bytes,
  codes, length,
}
use row.Dialect.Engines.{Dialect}
use row.Bind.Value.{Value, nil}
use row.Qb.Writer.{Writer, str, bind, is_empty, ident}
use row.Qb.Expr.{
  Map, sorted_keys, value_at, Expr, nil_expr, is_nil_expr, write_expr, nil_dialect, needs_table,
  sets_nothing, no_where, Result, ok, err, ◌>>=◌,
}
use row.Qb.Query.Clauses.{blank, built, clause, returning}

pub record SetPair : Type 0 where
  pub col : Bytes
  pub val : Value
  pub raw : Expr

pub record UpdateQuery : Type 0 where
  pub table : Bytes
  pub sets : List SetPair
  pub where_exprs : List Expr
  pub returning_columns : List Bytes

-- `Update`, and the methods; the receiver comes last
abbrev pub update_table : Bytes → UpdateQuery
update_table table = record { table = table; sets = []; where_exprs = []; returning_columns = [] }

abbrev pub value_pair : Bytes → Value → SetPair
value_pair col val = record { col = col; val = val; raw = nil_expr }

abbrev pub set_value : Bytes → Value → UpdateQuery → UpdateQuery
set_value col val q = record q { sets = q.sets ++ value_pair col val ∷ [] }

abbrev pub set_map : Map → UpdateQuery → UpdateQuery
set_map m q = record q { sets = q.sets ++ map (λ k. value_pair k (value_at m k)) (sorted_keys m) }

abbrev pub set_expr : Bytes → Expr → UpdateQuery → UpdateQuery
set_expr col e q = record q { sets = q.sets ++ record { col = col; val = nil; raw = e } ∷ [] }

abbrev pub update_where : List Expr → UpdateQuery → UpdateQuery
update_where es q = record q { where_exprs = q.where_exprs ++ es }

abbrev pub update_returning : List Bytes → UpdateQuery → UpdateQuery
update_returning cs q = record q { returning_columns = q.returning_columns ++ cs }

unfoldable pub write_set : Dialect → SetPair → Writer → Result Writer
unfolding bind
write_set d s w = if is_nil_expr s.raw then ok (bind d s.val w) else write_expr d s.raw w

-- the loop over the assignments; the flag is `i > 0`
unfoldable pub write_sets : Dialect → Bool → List SetPair → Writer → Result Writer
unfolding write_set ident
write_sets d later [] w = ok w
write_sets d later (s ∷ ss) w =
    write_set d s (str (codes " = ") (ident d s.col (if later then str (codes ", ") w else w)))
    >>= write_sets d true ss

unfoldable pub write_update : Dialect → UpdateQuery → Writer → Result Writer
unfolding ident write_sets clause returning
write_update d q w = do
  assigned ←
      write_sets d false q.sets (str (codes " SET ") (ident d q.table (str (codes "UPDATE ") w)))
  filtered ← clause d (codes " WHERE ") q.where_exprs assigned
  returning d q.returning_columns filtered

-- `BuildSQL`
unfoldable pub build_update : Option Dialect → UpdateQuery → Result (Bytes × List Value)
unfolding write_update
build_update none q = err nil_dialect
build_update (some d) q =
    if is_empty q.table
    then err needs_table
    else if length q.sets == 0
    then err (sets_nothing q.table)
    else if length q.where_exprs == 0
    then err (no_where q.table)
    else (write_update d q blank >>= built)

pub record DeleteQuery : Type 0 where
  pub table : Bytes
  pub where_exprs : List Expr
  pub returning_columns : List Bytes

-- `DeleteFrom`, and the methods
abbrev pub delete_from : Bytes → DeleteQuery
delete_from table = record { table = table; where_exprs = []; returning_columns = [] }

abbrev pub delete_where : List Expr → DeleteQuery → DeleteQuery
delete_where es q = record q { where_exprs = q.where_exprs ++ es }

abbrev pub delete_returning : List Bytes → DeleteQuery → DeleteQuery
delete_returning cs q = record q { returning_columns = q.returning_columns ++ cs }

unfoldable pub write_delete : Dialect → DeleteQuery → Writer → Result Writer
unfolding ident clause returning
write_delete d q w = do
  filtered ←
      clause d (codes " WHERE ") q.where_exprs (ident d q.table (str (codes "DELETE FROM ") w))
  returning d q.returning_columns filtered

-- `BuildSQL`
unfoldable pub build_delete : Option Dialect → DeleteQuery → Result (Bytes × List Value)
unfolding write_delete
build_delete none q = err nil_dialect
build_delete (some d) q =
    if is_empty q.table
    then err needs_table
    else if length q.where_exprs == 0
    then err (no_where q.table)
    else (write_delete d q blank >>= built)
