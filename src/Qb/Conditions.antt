-- ===== src/Qb/Conditions.antt =====
-- qb/expr.go: the functions that make expressions.
use row.Prelude.{true, false, List, [], ◌∷◌, Bytes, codes, Option, some, none}
use row.Bind.Value.{Value, expand_slice}
use row.Qb.Expr.{Expr, Exprs, in_expr, null_expr, between_expr, group, not_expr, raw_expr}

-- the one element of a call with one argument, by what `expand` says of it
abbrev flatten_one : Value → Option (List Value) → List Value
flatten_one v (some elems) = elems
flatten_one v none = v ∷ []

unfoldable pub flatten : List Value → List Value
flatten (v ∷ []) = flatten_one v (expand_slice v)
flatten values = values

-- `In`, `NotIn`
unfoldable pub in_values : Bytes → List Value → Expr
unfolding flatten
in_values column values = in_expr column (flatten values) true

unfoldable pub not_in_values : Bytes → List Value → Expr
unfolding flatten
not_in_values column values = in_expr column (flatten values) false

-- `IsNull`, `NotNull`
abbrev pub is_null : Bytes → Expr
is_null column = null_expr column false

abbrev pub not_null : Bytes → Expr
not_null column = null_expr column true

-- `Between`, `NotBetween`
abbrev pub between : Bytes → Value → Value → Expr
between column lo hi = between_expr column lo hi false

abbrev pub not_between : Bytes → Value → Value → Expr
not_between column lo hi = between_expr column lo hi true

-- `And`, `Or`
abbrev pub and_group : Exprs → Expr
and_group = group (codes " AND ")

abbrev pub or_group : Exprs → Expr
or_group = group (codes " OR ")

-- `Not`, `Raw`
abbrev pub negate : Expr → Expr
negate = not_expr

abbrev pub raw : Bytes → List Value → Expr
raw = raw_expr
