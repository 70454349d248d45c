-- ===== src/Tests/Building.antt =====
-- Examples for the builders.
use row.Prelude.{false, List, [], ◌∷◌, ◌++◌, ◌≡◌, refl, some, Bytes, codes, bytes_eq}
use row.Dialect.Engines.{pg, sqlite, pg-IsAppending, sqlite-IsAppending}
use row.Bind.Value.{Value, nil, scalar, slice_of, item, end, slice_elems}
use row.Bind.Pieces.{Piece, show, args}
use row.Qb.Writer.{Writer, str, ident}
use row.Qb.Expr.{Expr, compare_expr, eq, write_expr, ok}
use row.Qb.Alike.{AlikeResults}
use row.Qb.Injection.{shape_expr, write_expr-shape}
use row.Qb.Query.Clauses.{blank}
use row.Qb.Query.Select.{SelectQuery, select, from_table, add_where, with_limit, build_select}
use row.Qb.Query.Insert.{InsertQuery, insert_into, insert_columns, add_values, build_insert}
use row.Qb.Query.Update.{
  UpdateQuery, update_table, set_value, update_where, write_sets, build_update, DeleteQuery,
  delete_from, delete_where, build_delete,
}
use row.Qb.Strings.{ℤ, pos}
use row.Qb.Built.{select_builder, build_sql-pieces}
use row.Qb.Guarded.{build_update-where, build_delete-where}

abbrev ids : Value
ids = slice_of false (item (scalar 1) (item (scalar 2) end))

abbrev with_id : Expr
with_id = compare_expr eq ((codes "id", scalar 3) ∷ [])

abbrev selected : SelectQuery
selected =
    with_limit (pos 5)
      (add_where (with_id ∷ []) (from_table (codes "users u") (select (codes "name" ∷ []))))

abbrev selected_sql : Bytes × List Value
selected_sql =
    (codes "SELECT \"name\" FROM \"users\" \"u\" WHERE \"id\" = $1 LIMIT 5", scalar 3 ∷ [])

select_built : build_select (some pg) selected ≡ ok selected_sql
unfolding build_select write_expr row.Qb.Strings.sort_strings bytes_eq slice_elems
    row.Dialect.Decimal.append_ordinal row.Dialect.Quote.quote_with
select_built = refl

abbrev inserted : InsertQuery
inserted =
    add_values (scalar 1 ∷ nil ∷ [])
      (insert_columns (codes "a" ∷ codes "b" ∷ []) (insert_into (codes "t")))

abbrev inserted_sql : Bytes × List Value
inserted_sql = (codes "INSERT INTO \"t\" (\"a\", \"b\") VALUES ($1, $2)", scalar 1 ∷ nil ∷ [])

insert_built : build_insert (some pg) inserted ≡ ok inserted_sql
unfolding build_insert row.Dialect.Decimal.append_ordinal bytes_eq row.Dialect.Quote.quote_with
insert_built = refl

abbrev updated : UpdateQuery
updated = update_where (with_id ∷ []) (set_value (codes "a") (scalar 9) (update_table (codes "t")))

abbrev updated_sql : Bytes × List Value
updated_sql = (codes "UPDATE \"t\" SET \"a\" = $1 WHERE \"id\" = $2", scalar 9 ∷ scalar 3 ∷ [])

update_built : build_update (some pg) updated ≡ ok updated_sql
unfolding build_update write_expr row.Qb.Strings.sort_strings bytes_eq slice_elems
    row.Dialect.Decimal.append_ordinal row.Dialect.Quote.quote_with
update_built = refl

abbrev deleted : DeleteQuery
deleted = delete_where (with_id ∷ []) (delete_from (codes "t"))

abbrev deleted_sql : Bytes × List Value
deleted_sql = (codes "DELETE FROM \"t\" WHERE \"id\" = ?", scalar 3 ∷ [])

delete_built : build_delete (some sqlite) deleted ≡ ok deleted_sql
unfolding build_delete write_expr row.Qb.Strings.sort_strings bytes_eq slice_elems
    row.Dialect.Quote.quote_with
delete_built = refl

build_sql-pieces_example :
    (ps : List Piece) × (selected_sql.0 ≡ show pg 0 ps) × (selected_sql.1 ≡ args ps)
build_sql-pieces_example =
    build_sql-pieces pg (select_builder selected) selected_sql pg-IsAppending select_built

build_update-where_example :
    (assigned : Writer) × (post : Bytes) × (write_sets pg false updated.sets
        (str (codes " SET ") (ident pg updated.table (str (codes "UPDATE ") blank)))
      ≡ ok assigned)
    × (updated_sql.0 ≡ assigned.b ++ (codes " WHERE " ++ post))
build_update-where_example = build_update-where pg updated updated_sql pg-IsAppending update_built

build_delete-where_example :
    (post : Bytes) × (deleted_sql.0
      ≡ (ident sqlite deleted.table (str (codes "DELETE FROM ") blank)).b
        ++ (codes " WHERE " ++ post))
build_delete-where_example =
    build_delete-where sqlite deleted deleted_sql sqlite-IsAppending delete_built

write_expr-shape_example :
    AlikeResults (write_expr pg with_id blank) (write_expr pg (shape_expr with_id) blank)
write_expr-shape_example = write_expr-shape pg with_id blank
