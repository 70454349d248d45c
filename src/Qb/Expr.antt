-- ===== src/Qb/Expr.antt =====
-- qb/expr.go: expressions.
use row.Prelude.{
  ℕ, Bool, true, false, not, List, [], ◌∷◌, map, Option, none, some, ◌==◌, if◌then◌else◌, Bytes,
  codes, bytes_eq, length,
}
use row.Dialect.Engines.{Dialect}
use row.Bind.Value.{Value, nil, expand_slice}
use row.Qb.Strings.{sort_strings, count_byte, cut}
use row.Qb.Writer.{Writer, str, bind, ident}

-- A `map[string]any`, by its entries, whose keys are distinct.
abbrev pub Map : Type 0
Map = List (Bytes × Value)

-- The comparison maps `Eq`, `NotEq`, `Lt`, `Lte`, `Gt`, `Gte`, `Like` and `ILike`.
pub data Comparison : Type 0 where
  eq not_eq lt lte gt gte like ilike : Comparison

-- The implementations of the sealed interface `Expr`, and its nil value.
mutual
  pub data Expr : Type 0 where
    nil_expr : Expr
    compare_expr : Comparison → Map → Expr
    in_expr : Bytes → List Value → Bool → Expr
    null_expr : Bytes → Bool → Expr
    between_expr : Bytes → Value → Value → Bool → Expr
    group : Bytes → Exprs → Expr
    not_expr : Expr → Expr
    raw_expr : Bytes → List Value → Expr

  pub data Exprs : Type 0 where
    no_exprs : Exprs
    cons_expr : Expr → Exprs → Exprs

-- The errors of qb, with the values that their texts show.
pub data QbError : Type 0 where
  empty_condition : Bytes → QbError
  null_comparison : Bytes → Bytes → QbError
  empty_group : Bytes → QbError
  nil_in_group : Bytes → QbError
  not_nil : QbError
  nil_dialect : QbError
  raw_count : Bytes → ℕ → ℕ → QbError
  nil_in_clause : Bytes → QbError
  needs_table : QbError
  no_values : Bytes → QbError
  wrong_width : ℕ → ℕ → ℕ → QbError
  sets_nothing : Bytes → QbError
  no_where : Bytes → QbError
  no_returning : Bytes → QbError

-- The outcome of a method; `panic` is a call on a nil interface.
pub data Result {ℓ} (A : Type ℓ) : Type ℓ where
  ok : A → Result A
  err : QbError → Result A
  panic : Result A

infixl 5 ◌>>=◌
abbrev pub ◌>>=◌ {ℓ κ} : {A : Type ℓ} {B : Type κ} → Result A → (A → Result B) → Result B
ok a >>= f = f a
err e >>= f = err e
panic >>= f = panic

-- `sortedKeys`, and `m[k]`
abbrev pub sorted_keys {ℓ} : {V : Type ℓ} → List (Bytes × V) → List Bytes
sorted_keys m = sort_strings (map (λ e. e.0) m)

unfoldable pub value_at : Map → Bytes → Value
value_at [] k = nil
value_at ((j, v) ∷ m) k = if bytes_eq j k then v else value_at m k

-- the field `op`, for a dialect's name
unfoldable pub op_of : Bytes → Comparison → Bytes
op_of name eq = codes " = "
op_of name not_eq = codes " <> "
op_of name lt = codes " < "
op_of name lte = codes " <= "
op_of name gt = codes " > "
op_of name gte = codes " >= "
op_of name like = codes " LIKE "
op_of name ilike =
    if not (bytes_eq name (codes "postgres")) then codes " LIKE " else codes " ILIKE "

-- the field `null`
unfoldable pub null_of : Comparison → Bytes
null_of eq = codes "IS NULL"
null_of not_eq = codes "IS NOT NULL"
null_of _ = []

-- the elements of a list; the flag is `i > 0`
unfoldable pub bind_elems : Dialect → Bool → List Value → Writer → Writer
unfolding bind
bind_elems d later [] w = w
bind_elems d later (e ∷ es) w =
    bind_elems d true es (bind d e (if later then str (codes ",") w else w))

unfoldable pub write_in : Dialect → Bytes → List Value → Bool → Writer → Writer
unfolding bind_elems ident
write_in d col [] positive w = str (if positive then codes "1 = 0" else codes "1 = 1") w
write_in d col (e ∷ es) positive w = str (codes ")") (
    bind_elems d false (e ∷ es)
      (str (if positive then codes " IN (" else codes " NOT IN (") (ident d col w)))

-- one comparison of `cmp.write`
unfoldable pub write_null : Dialect → Bytes → Bytes → Bytes → Writer → Result Writer
unfolding ident
write_null d op [] k w = err (null_comparison op k)
write_null d op (c ∷ cs) k w = ok (str (c ∷ cs) (str (codes " ") (ident d k w)))

unfoldable pub is_nil : Value → Bool
is_nil nil = true
is_nil _ = false

-- the comparison with a value that is not nil, by what `expand` says of it
unfoldable pub write_expanded :
    Dialect → Bytes → Bytes → Value → Option (List Value) → Writer → Writer
unfolding write_in ident bind
write_expanded d op k v (some elems) w = write_in d k elems (bytes_eq op (codes " = ")) w
write_expanded d op k v none w = bind d v (str op (ident d k w))

unfoldable pub write_pair : Dialect → Bytes → Bytes → Bytes → Value → Writer → Result Writer
unfolding write_null write_expanded is_nil
write_pair d op null k v w =
    if is_nil v then write_null d op null k w else ok (write_expanded d op k v (expand_slice v) w)

-- the loop over the keys; the flag is `i > 0`
unfoldable pub write_pairs :
    Dialect → Bytes → Bytes → Map → Bool → List Bytes → Writer → Result Writer
unfolding write_pair value_at
write_pairs d op null m later [] w = ok w
write_pairs d op null m later (k ∷ ks) w =
    write_pair d op null k (value_at m k) (if later then str (codes " AND ") w else w)
    >>= write_pairs d op null m true ks

-- `cmp.write`
unfoldable pub write_cmp : Dialect → Bytes → Bytes → Map → Writer → Result Writer
unfolding write_pairs
write_cmp d op null [] w = err (empty_condition op)
write_cmp d op null (e ∷ m) w = write_pairs d op null (e ∷ m) false (sorted_keys (e ∷ m)) w

-- the loop of `rawExpr.write`, on the arguments, with `rest`
unfoldable pub raw_loop : Dialect → Bytes → List Value → Writer → Writer
unfolding bind cut
raw_loop d rest [] w = str rest w
raw_loop d rest (a ∷ as') w =
    let (before, after) = cut b'?' rest in raw_loop d after as' (bind d a (str before w))

unfoldable pub write_raw : Dialect → Bytes → List Value → Writer → Result Writer
unfolding raw_loop count_byte
write_raw d sql args w =
    if not (count_byte b'?' sql == length args)
    then err (raw_count sql (count_byte b'?' sql) (length args))
    else ok (raw_loop d sql args w)

abbrev pub is_nil_expr : Expr → Bool
is_nil_expr nil_expr = true
is_nil_expr _ = false

-- `write`, for each type of expression
unfoldable mutual
  unfolding write_cmp write_in write_raw ident bind op_of null_of

  pub write_expr : Dialect → Expr → Writer → Result Writer
  write_expr d nil_expr w = panic
  write_expr d (compare_expr c m) w = write_cmp d (op_of d.name c) (null_of c) m w
  write_expr d (in_expr col vals positive) w = ok (write_in d col vals positive w)
  write_expr d (null_expr col negated) w =
      ok (str (if negated then codes " IS NOT NULL" else codes " IS NULL") (ident d col w))
  write_expr d (between_expr col lo hi negative) w = ok (
      bind d hi (
        str (codes " AND ") (
          bind d lo
            (str (if negative then codes " NOT BETWEEN " else codes " BETWEEN ") (ident d col w)))))
  write_expr d (group sep no_exprs) w = err (empty_group sep)
  write_expr d (group sep (cons_expr e no_exprs)) w = write_expr d e w
  write_expr d (group sep (cons_expr e (cons_expr e' es))) w =
      write_group d sep false (cons_expr e (cons_expr e' es)) (str (codes "(") w) >>= λ w'.
      ok (str (codes ")") w')
  write_expr d (not_expr e) w =
      if is_nil_expr e
      then err not_nil
      else (write_expr d e (str (codes "NOT (") w) >>= λ w'. ok (str (codes ")") w'))
  write_expr d (raw_expr sql args) w = write_raw d sql args w

  -- the loop over `g.parts`; the flag is `i > 0`
  pub write_group : Dialect → Bytes → Bool → Exprs → Writer → Result Writer
  write_group d sep later no_exprs w = ok w
  write_group d sep later (cons_expr e es) w =
      if is_nil_expr e
      then err (nil_in_group sep)
      else (write_expr d e (if later then str sep w else w) >>= write_group d sep true es)
