-- ===== src/Qb/Built.antt =====
-- What `BuildSQL` returns, for each of the four builders.
use row.Prelude.{
  Bool, true, false, List, ◌≡◌, refl, sym, ap, ◌∙◌, Option, some, ◌==◌, if◌then◌else◌, Bytes,
  length,
}
use row.Dialect.Engines.{Dialect, IsAppending}
use row.Bind.Value.{Value}
use row.Bind.Pieces.{Piece, show, args}
use row.Qb.Writer.{Writer, is_empty}
use row.Qb.Expr.{
  QbError, Result, ok, err, panic, ◌>>=◌, needs_table, no_values, sets_nothing, no_where,
}
use row.Qb.Query.Clauses.{blank, built}
use row.Qb.Query.Select.{SelectQuery, write_select, build_select}
use row.Qb.Query.Insert.{InsertQuery, write_insert, build_insert}
use row.Qb.Query.Update.{
  UpdateQuery, write_update, build_update, DeleteQuery, write_delete, build_delete,
}
use row.Qb.Aligned.{EmitsResult}
use row.Qb.Selected.{write_select-Emits}
use row.Qb.Changed.{write_insert-Emits, write_update-Emits, write_delete-Emits}

pub ok_injective {ℓ} : {A : Type ℓ} {a b : A} → ok a ≡ ok b → a ≡ b
ok_injective h = cc

-- What a writer made of nothing: the pieces, from the first placeholder.
built-pieces :
    (d : Dialect) (m : Result Writer) (r : Bytes × List Value)
    → EmitsResult d blank m
    → (m >>= built) ≡ ok r
    → (ps : List Piece) × (r.0 ≡ show d 0 ps) × (r.1 ≡ args ps)
built-pieces d (ok w) r h e = (
  h.pieces,
  ap (λ x. x.0) (sym (ok_injective e)) ∙ h.text_is,
  ap (λ x. x.1) (sym (ok_injective e)) ∙ h.args_are,
)
built-pieces d (err x) r h e = cc
built-pieces d panic r h e = cc

build_select-pieces :
    (d : Dialect) (q : SelectQuery) (r : Bytes × List Value)
    → IsAppending d
    → build_select (some d) q ≡ ok r
    → (ps : List Piece) × (r.0 ≡ show d 0 ps) × (r.1 ≡ args ps)
unfolding build_select
build_select-pieces d q r a h =
    built-pieces d (write_select d q blank) r (write_select-Emits d a q blank) h

-- A builder that returns has passed its check, and returns what follows the check.
pub guarded :
    {A : Type 0} (b : Bool) (e : QbError) (m : Result A) (r : A)
    → (if b then err e else m) ≡ ok r
    → (b ≡ false) × (m ≡ ok r)
guarded true e m r h = cc
guarded false e m r h = (refl, h)

build_insert-pieces :
    (d : Dialect) (q : InsertQuery) (r : Bytes × List Value)
    → IsAppending d
    → build_insert (some d) q ≡ ok r
    → (ps : List Piece) × (r.0 ≡ show d 0 ps) × (r.1 ≡ args ps)
unfolding build_insert
build_insert-pieces d q r a h =
    let g =
      guarded (is_empty q.table) needs_table
        (if length q.rows == 0 then err (no_values q.table) else (write_insert d q blank >>= built))
        r h in
    let g' =
      guarded (length q.rows == 0) (no_values q.table) (write_insert d q blank >>= built) r g.1 in
    built-pieces d (write_insert d q blank) r (write_insert-Emits d a q blank) g'.1

build_update-pieces :
    (d : Dialect) (q : UpdateQuery) (r : Bytes × List Value)
    → IsAppending d
    → build_update (some d) q ≡ ok r
    → (ps : List Piece) × (r.0 ≡ show d 0 ps) × (r.1 ≡ args ps)
unfolding build_update
build_update-pieces d q r a h =
    let g =
      guarded (is_empty q.table) needs_table
        (if length q.sets == 0
          then err (sets_nothing q.table)
          else if length q.where_exprs == 0
          then err (no_where q.table)
          else (write_update d q blank >>= built))
        r h in
    let g' =
      guarded (length q.sets == 0) (sets_nothing q.table)
        (if length q.where_exprs == 0
          then err (no_where q.table)
          else (write_update d q blank >>= built))
        r g.1 in
    let g'' =
      guarded (length q.where_exprs == 0) (no_where q.table) (write_update d q blank >>= built) r
        g'.1 in
    built-pieces d (write_update d q blank) r (write_update-Emits d a q blank) g''.1

build_delete-pieces :
    (d : Dialect) (q : DeleteQuery) (r : Bytes × List Value)
    → IsAppending d
    → build_delete (some d) q ≡ ok r
    → (ps : List Piece) × (r.0 ≡ show d 0 ps) × (r.1 ≡ args ps)
unfolding build_delete
build_delete-pieces d q r a h =
    let g =
      guarded (is_empty q.table) needs_table
        (if length q.where_exprs == 0
          then err (no_where q.table)
          else (write_delete d q blank >>= built))
        r h in
    let g' =
      guarded (length q.where_exprs == 0) (no_where q.table) (write_delete d q blank >>= built) r
        g.1 in
    built-pieces d (write_delete d q blank) r (write_delete-Emits d a q blank) g'.1

-- A value of the interface `Builder`, of the types that qb has, and its method `BuildSQL`.
pub data Builder : Type 0 where
  select_builder : SelectQuery → Builder
  insert_builder : InsertQuery → Builder
  update_builder : UpdateQuery → Builder
  delete_builder : DeleteQuery → Builder

abbrev pub build_sql : Option Dialect → Builder → Result (Bytes × List Value)
build_sql d (select_builder q) = build_select d q
build_sql d (insert_builder q) = build_insert d q
build_sql d (update_builder q) = build_update d q
build_sql d (delete_builder q) = build_delete d q

-- The SQL text that any of the builders returns for a dialect that appends its placeholders is
-- literal text and one placeholder for each argument, numbered from 1 in the order of the arguments.
pub build_sql-pieces :
    (d : Dialect) (b : Builder) (r : Bytes × List Value)
    → IsAppending d
    → build_sql (some d) b ≡ ok r
    → (ps : List Piece) × (r.0 ≡ show d 0 ps) × (r.1 ≡ args ps)
build_sql-pieces d (select_builder q) r a h = build_select-pieces d q r a h
build_sql-pieces d (insert_builder q) r a h = build_insert-pieces d q r a h
build_sql-pieces d (update_builder q) r a h = build_update-pieces d q r a h
build_sql-pieces d (delete_builder q) r a h = build_delete-pieces d q r a h
