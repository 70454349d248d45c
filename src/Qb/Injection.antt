-- ===== src/Qb/Injection.antt =====
-- The text of an expression does not depend on the values in it.
use row.Prelude.{
  suc, Bool, true, false, List, [], ◌∷◌, map, ◌≡◌, refl, ap, inl, inr, arith, Option, none, some,
  ◌==◌, if◌then◌else◌, Bytes, codes, bytes_eq, length, Bool-cases,
}
use row.Dialect.Engines.{Dialect}
use row.Bind.Value.{
  Value, nil, byte_slice, string, valuer, slice_of, scalar, Values, end, item, elems_of,
  slice_elems,
}
use row.Qb.Strings.{cut, count_byte}
use row.Qb.Writer.{Writer, str}
use row.Qb.Expr.{
  Map, sorted_keys, value_at, op_of, null_of, Expr, nil_expr, compare_expr, in_expr, null_expr,
  between_expr, group, not_expr, raw_expr, Exprs, no_exprs, cons_expr, is_nil_expr, is_nil, not_nil,
  nil_in_group, ok, ◌>>=◌, write_expanded, write_pair, write_pairs, write_cmp, raw_loop, write_raw,
  write_expr, write_group,
}
use row.Qb.Alike.{
  Alike, AlikeResults, >>=-Alike, str-Alike, later-Alike, bind-Alike, ident-Alike, write_in-Alike,
  write_null-Alike, guard-Alike,
}

-- What the text may depend on: whether a value is nil, and how many elements it expands to.
abbrev pub zero_values : Values → Values
zero_values end = end
zero_values (item v vs) = item (scalar 0) (zero_values vs)

unfoldable pub shape : Value → Value
shape nil = nil
shape (slice_of false vs) = slice_of false (zero_values vs)
shape (slice_of true vs) = scalar 0
shape (byte_slice b) = scalar 0
shape (string s) = scalar 0
shape (valuer v) = scalar 0
shape (scalar v) = scalar 0

abbrev pub shapes : List Value → List Value
shapes = map (λ v. scalar 0)

abbrev pub shape_map : Map → Map
shape_map = map (λ e. (e.0, shape e.1))

-- The same expression with each value replaced by a representative of its shape.
unfoldable mutual
  pub shape_expr : Expr → Expr
  shape_expr nil_expr = nil_expr
  shape_expr (compare_expr c m) = compare_expr c (shape_map m)
  shape_expr (in_expr col vals positive) = in_expr col (shapes vals) positive
  shape_expr (null_expr col negated) = null_expr col negated
  shape_expr (between_expr col lo hi negative) = between_expr col (scalar 0) (scalar 0) negative
  shape_expr (group sep es) = group sep (shape_exprs es)
  shape_expr (not_expr e) = not_expr (shape_expr e)
  shape_expr (raw_expr sql args) = raw_expr sql (shapes args)

  pub shape_exprs : Exprs → Exprs
  shape_exprs no_exprs = no_exprs
  shape_exprs (cons_expr e es) = cons_expr (shape_expr e) (shape_exprs es)

is_nil-shape : (x : Value) → is_nil (shape x) ≡ is_nil x
unfolding shape is_nil
is_nil-shape nil = refl
is_nil-shape (slice_of false vs) = refl
is_nil-shape (slice_of true vs) = refl
is_nil-shape (byte_slice b) = refl
is_nil-shape (string s) = refl
is_nil-shape (valuer v) = refl
is_nil-shape (scalar v) = refl

length-zero_values : (vs : Values) → length (elems_of vs) ≡ length (elems_of (zero_values vs))
unfolding elems_of
length-zero_values end = refl
length-zero_values (item v vs) = ap suc (length-zero_values vs)

length-shapes : (vs : List Value) → length vs ≡ length (shapes vs)
length-shapes [] = refl
length-shapes (v ∷ vs) = ap suc (length-shapes vs)

-- Both expand, to as many elements, or neither does.
abbrev SameExpansion : Option (List Value) → Option (List Value) → Type 0
SameExpansion none none = Unit {0}
SameExpansion (some es) (some fs) = length es ≡ length fs
SameExpansion _ _ = ⊥

slice_elems-shape : (x : Value) → SameExpansion (slice_elems x) (slice_elems (shape x))
unfolding slice_elems shape
slice_elems-shape nil = tt
slice_elems-shape (slice_of false vs) = length-zero_values vs
slice_elems-shape (slice_of true vs) = tt
slice_elems-shape (byte_slice b) = tt
slice_elems-shape (string s) = tt
slice_elems-shape (valuer v) = tt
slice_elems-shape (scalar v) = tt

module _ (d : Dialect) where
  write_expanded-Alike :
      (op k : Bytes) (x y : Value) (o o' : Option (List Value)) (w v : Writer)
      → SameExpansion o o'
      → Alike w v
      → Alike (write_expanded d op k x o w) (write_expanded d op k y o' v)
  unfolding write_expanded
  write_expanded-Alike op k x y none none w v n h =
      bind-Alike d x y _ _ (str-Alike op _ _ (ident-Alike d k w v h))
  write_expanded-Alike op k x y (some es) (some fs) w v n h =
      write_in-Alike d k es fs (bytes_eq op (codes " = ")) w v n h
  write_expanded-Alike op k x y none (some fs) w v n h = absurd n
  write_expanded-Alike op k x y (some es) none w v n h = absurd n

  write_pair-Alike :
      (op null k : Bytes) (x y : Value) (w v : Writer)
      → y ≡ shape x
      → Alike w v
      → AlikeResults (write_pair d op null k x w) (write_pair d op null k y v)
  unfolding write_pair
  write_pair-Alike op null k x y w v e h = elim (Bool-cases (is_nil x)) [
    | inl yes_nil ↦ rw (e, is_nil-shape, yes_nil) (write_null-Alike d op null k w v h)
    | inr some_value ↦
        rw (e, is_nil-shape, some_value)
          (write_expanded-Alike op k x (shape x) (slice_elems x) (slice_elems (shape x)) w v
            (slice_elems-shape x) h)
  ]

  value_at-shape : (m : Map) (k : Bytes) → value_at (shape_map m) k ≡ shape (value_at m k)
  unfolding value_at
  value_at-shape [] k = unfold shape in refl
  value_at-shape (e ∷ m) k = ground (arith, value_at-shape m k)

  keys-shape : (m : Map) → map (λ e. e.0) (shape_map m) ≡ map (λ e. e.0) m
  keys-shape [] = refl
  keys-shape (e ∷ m) = ap (◌∷◌ e.0) (keys-shape m)

  write_pairs-Alike :
      (op null : Bytes) (m : Map) (later : Bool) (ks : List Bytes) (w v : Writer)
      → Alike w v
      → AlikeResults
          (write_pairs d op null m later ks w)
          (write_pairs d op null (shape_map m) later ks v)
  unfolding write_pairs
  write_pairs-Alike op null m later [] w v h = h
  write_pairs-Alike op null m later (k ∷ ks) w v h =
      >>=-Alike (write_pair d op null k (value_at m k) (if later then str (codes " AND ") w else w))
        (write_pair d op null k (value_at (shape_map m) k)
          (if later then str (codes " AND ") v else v))
        (write_pairs d op null m true ks) (write_pairs d op null (shape_map m) true ks)
        (write_pair-Alike op null k (value_at m k) (value_at (shape_map m) k) _ _
          (value_at-shape m k) (later-Alike later (codes " AND ") w v h))
        (λ w' v' h'. write_pairs-Alike op null m true ks w' v' h')

  write_cmp-Alike :
      (op null : Bytes) (m : Map) (w v : Writer)
      → Alike w v
      → AlikeResults (write_cmp d op null m w) (write_cmp d op null (shape_map m) v)
  unfolding write_cmp
  write_cmp-Alike op null [] w v h = refl
  write_cmp-Alike op null (e ∷ m) w v h =
      rw keys-shape (write_pairs-Alike op null (e ∷ m) false (sorted_keys (e ∷ m)) w v h)

  raw_loop-Alike :
      (rest : Bytes) (vals : List Value) (w v : Writer)
      → Alike w v
      → Alike (raw_loop d rest vals w) (raw_loop d rest (shapes vals) v)
  unfolding raw_loop
  raw_loop-Alike rest [] w v h = str-Alike rest w v h
  raw_loop-Alike rest (a ∷ vals) w v h =
      raw_loop-Alike (cut b'?' rest).1 vals _ _
        (bind-Alike d a (scalar 0) _ _ (str-Alike (cut b'?' rest).0 w v h))

  write_raw-Alike :
      (sql : Bytes) (args : List Value) (w v : Writer)
      → Alike w v
      → AlikeResults (write_raw d sql args w) (write_raw d sql (shapes args) v)
  unfolding write_raw
  write_raw-Alike sql args w v h = elim (Bool-cases (count_byte b'?' sql == length args)) [
    | inl y ↦ rw (← length-shapes args, y) (raw_loop-Alike sql args w v h)
    | inr n ↦ rw (← length-shapes args, n) refl
  ]

is_nil-shape_expr : (e : Expr) → is_nil_expr (shape_expr e) ≡ is_nil_expr e
unfolding shape_expr
is_nil-shape_expr nil_expr = refl
is_nil-shape_expr _ = refl

mutual
  unfolding write_expr shape_expr

  write_expr-Alike :
      (d : Dialect) (e : Expr) (w v : Writer)
      → Alike w v
      → AlikeResults (write_expr d e w) (write_expr d (shape_expr e) v)
  write_expr-Alike d nil_expr w v h = tt
  write_expr-Alike d (compare_expr c m) w v h =
      write_cmp-Alike d (op_of d.name c) (null_of c) m w v h
  write_expr-Alike d (in_expr col vals positive) w v h =
      write_in-Alike d col vals (shapes vals) positive w v (length-shapes vals) h
  write_expr-Alike d (null_expr col negated) w v h = str-Alike _ _ _ (ident-Alike d col w v h)
  write_expr-Alike d (between_expr col lo hi negative) w v h =
      bind-Alike d hi (scalar 0) _ _ (
        str-Alike _ _ _
          (bind-Alike d lo (scalar 0) _ _ (str-Alike _ _ _ (ident-Alike d col w v h))))
  write_expr-Alike d (group sep no_exprs) w v h = refl
  write_expr-Alike d (group sep (cons_expr e no_exprs)) w v h = write_expr-Alike d e w v h
  write_expr-Alike d (group sep (cons_expr e (cons_expr e' es))) w v h =
      >>=-Alike (write_group d sep false (cons_expr e (cons_expr e' es)) (str (codes "(") w))
        (write_group d sep false (shape_exprs (cons_expr e (cons_expr e' es))) (str (codes "(") v))
        (λ x. ok (str (codes ")") x)) (λ x. ok (str (codes ")") x))
        (write_group-Alike d sep false (cons_expr e (cons_expr e' es)) _ _
          (str-Alike (codes "(") w v h))
        (λ x y k. str-Alike (codes ")") x y k)
  write_expr-Alike d (not_expr e) w v h =
      guard-Alike (is_nil_expr e) (is_nil_expr (shape_expr e)) not_nil
        (write_expr d e (str (codes "NOT (") w) >>= λ x. ok (str (codes ")") x))
        (write_expr d (shape_expr e) (str (codes "NOT (") v) >>= λ x. ok (str (codes ")") x))
        (is_nil-shape_expr e)
        (>>=-Alike (write_expr d e (str (codes "NOT (") w))
          (write_expr d (shape_expr e) (str (codes "NOT (") v)) (λ x. ok (str (codes ")") x))
          (λ x. ok (str (codes ")") x)) (write_expr-Alike d e _ _ (str-Alike (codes "NOT (") w v h))
          (λ x y k. str-Alike (codes ")") x y k))
  write_expr-Alike d (raw_expr sql args) w v h = write_raw-Alike d sql args w v h

  write_group-Alike :
      (d : Dialect) (sep : Bytes) (later : Bool) (es : Exprs) (w v : Writer)
      → Alike w v
      → AlikeResults (write_group d sep later es w) (write_group d sep later (shape_exprs es) v)
  write_group-Alike d sep later no_exprs w v h = h
  write_group-Alike d sep later (cons_expr e es) w v h =
      let k = later-Alike later sep w v h in
      guard-Alike (is_nil_expr e) (is_nil_expr (shape_expr e)) (nil_in_group sep)
        (write_expr d e (if later then str sep w else w) >>= write_group d sep true es)
        (write_expr d (shape_expr e) (if later then str sep v else v)
          >>= write_group d sep true (shape_exprs es))
        (is_nil-shape_expr e)
        (>>=-Alike (write_expr d e (if later then str sep w else w))
          (write_expr d (shape_expr e) (if later then str sep v else v)) (write_group d sep true es)
          (write_group d sep true (shape_exprs es)) (write_expr-Alike d e _ _ k)
          (λ x y k'. write_group-Alike d sep true es x y k'))

-- The text that an expression is written as, and whether it is refused, depend only on the names
-- and the structure of the expression and on the shapes of its values: whether a value in a
-- comparison is nil, and to how many elements a slice expands.
pub write_expr-shape :
    (d : Dialect) (e : Expr) (w : Writer)
    → AlikeResults (write_expr d e w) (write_expr d (shape_expr e) w)
write_expr-shape d e w = write_expr-Alike d e w w (refl, refl)
