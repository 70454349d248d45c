-- ===== src/Qb/Query/Select.antt =====
-- qb/query.go: `SelectQuery`.
use row.Prelude.{
  Bool, true, false, List, [], ◌∷◌, ◌++◌, Option, none, some, if◌then◌else◌, Bytes, codes,
}
use row.Dialect.Engines.{Dialect}
use row.Bind.Value.{Value}
use row.Qb.Strings.{ℤ, pos, format_int}
use row.Qb.Writer.{Writer, str, ident_list}
use row.Qb.Expr.{Expr, is_nil_expr, write_expr, nil_dialect, Result, ok, err, ◌>>=◌}
use row.Qb.Query.Clauses.{blank, built, clause, write_table_ref, write_order_term}

pub record Join : Type 0 where
  pub kind : Bytes
  pub table : Bytes
  pub on : Expr

pub record SelectQuery : Type 0 where
  pub distinct : Bool
  pub columns : List Bytes
  pub from : Bytes
  pub joins : List Join
  pub where_exprs : List Expr
  pub group_by : List Bytes
  pub having : List Expr
  pub order_by : List Bytes
  pub limit : ℤ
  pub has_limit : Bool
  pub offset : ℤ
  pub has_off : Bool

-- `Select`
abbrev pub select : List Bytes → SelectQuery
select columns = record {
  distinct = false;
  columns = columns;
  from = [];
  joins = [];
  where_exprs = [];
  group_by = [];
  having = [];
  order_by = [];
  limit = pos 0;
  has_limit = false;
  offset = pos 0;
  has_off = false;
}

-- The methods; each returns a new value, and its receiver comes last.
abbrev pub with_distinct : SelectQuery → SelectQuery
with_distinct q = record q { distinct = true }

abbrev pub with_columns : List Bytes → SelectQuery → SelectQuery
with_columns cs q = record q { columns = cs }

abbrev pub from_table : Bytes → SelectQuery → SelectQuery
from_table table q = record q { from = table }

abbrev pub add_join : Bytes → Bytes → Expr → SelectQuery → SelectQuery
add_join kind table on q = record q {
  joins = q.joins ++ record { kind = kind; table = table; on = on } ∷ [];
}

-- `Join`, `LeftJoin`, `RightJoin`, `InnerJoin`
abbrev pub plain_join : Bytes → Expr → SelectQuery → SelectQuery
plain_join = add_join (codes "JOIN")

abbrev pub left_join : Bytes → Expr → SelectQuery → SelectQuery
left_join = add_join (codes "LEFT JOIN")

abbrev pub right_join : Bytes → Expr → SelectQuery → SelectQuery
right_join = add_join (codes "RIGHT JOIN")

abbrev pub inner_join : Bytes → Expr → SelectQuery → SelectQuery
inner_join = add_join (codes "INNER JOIN")

-- `Where`, `GroupBy`, `Having`, `OrderBy`, `ClearOrder`, `Limit`, `Offset`
abbrev pub add_where : List Expr → SelectQuery → SelectQuery
add_where es q = record q { where_exprs = q.where_exprs ++ es }

abbrev pub add_group_by : List Bytes → SelectQuery → SelectQuery
add_group_by cs q = record q { group_by = q.group_by ++ cs }

abbrev pub add_having : List Expr → SelectQuery → SelectQuery
add_having es q = record q { having = q.having ++ es }

abbrev pub add_order_by : List Bytes → SelectQuery → SelectQuery
add_order_by ts q = record q { order_by = q.order_by ++ ts }

abbrev pub clear_order : SelectQuery → SelectQuery
clear_order q = record q { order_by = [] }

abbrev pub with_limit : ℤ → SelectQuery → SelectQuery
with_limit n q = record q { limit = n; has_limit = true }

abbrev pub with_offset : ℤ → SelectQuery → SelectQuery
with_offset n q = record q { offset = n; has_off = true }

-- the parts of `BuildSQL`, in its order
unfoldable pub write_columns : Dialect → List Bytes → Writer → Writer
unfolding ident_list
write_columns d [] w = str (codes "*") w
write_columns d (c ∷ cs) w = ident_list d false (c ∷ cs) w

unfoldable pub write_from : Dialect → Bytes → Writer → Writer
unfolding write_table_ref
write_from d [] w = w
write_from d (c ∷ cs) w = write_table_ref d (c ∷ cs) (str (codes " FROM ") w)

unfoldable pub write_on : Dialect → Expr → Writer → Result Writer
write_on d on w = if is_nil_expr on then ok w else write_expr d on (str (codes " ON ") w)

unfoldable pub write_joins : Dialect → List Join → Writer → Result Writer
unfolding write_on write_table_ref
write_joins d [] w = ok w
write_joins d (j ∷ js) w =
    write_on d j.on (write_table_ref d j.table (str (codes " ") (str j.kind (str (codes " ") w))))
    >>= write_joins d js

unfoldable pub write_group_by : Dialect → List Bytes → Writer → Writer
unfolding ident_list
write_group_by d [] w = w
write_group_by d (c ∷ cs) w = ident_list d false (c ∷ cs) (str (codes " GROUP BY ") w)

unfoldable pub order_loop : Dialect → Bool → List Bytes → Writer → Writer
unfolding write_order_term
order_loop d later [] w = w
order_loop d later (t ∷ ts) w =
    order_loop d true ts (write_order_term d t (if later then str (codes ", ") w else w))

unfoldable pub write_order_by : Dialect → List Bytes → Writer → Writer
unfolding order_loop
write_order_by d [] w = w
write_order_by d (t ∷ ts) w = order_loop d false (t ∷ ts) (str (codes " ORDER BY ") w)

unfoldable pub write_count : Bytes → Bool → ℤ → Writer → Writer
unfolding format_int
write_count keyword present n w = if present then str (format_int n) (str keyword w) else w

unfoldable pub write_select : Dialect → SelectQuery → Writer → Result Writer
unfolding write_columns write_from write_joins clause write_group_by write_order_by write_count
write_select d q w = do
  let head = str (codes "SELECT ") w
  let start = if q.distinct then str (codes "DISTINCT ") head else head
  joined ← write_joins d q.joins (write_from d q.from (write_columns d q.columns start))
  filtered ← clause d (codes " WHERE ") q.where_exprs joined
  grouped ← clause d (codes " HAVING ") q.having (write_group_by d q.group_by filtered)
  let ordered = write_order_by d q.order_by grouped
  let limited = write_count (codes " LIMIT ") q.has_limit q.limit ordered
  ok (write_count (codes " OFFSET ") q.has_off q.offset limited)

-- `BuildSQL`
unfoldable pub build_select : Option Dialect → SelectQuery → Result (Bytes × List Value)
unfolding write_select
build_select none q = err nil_dialect
build_select (some d) q = write_select d q blank >>= built
