-- ===== src/Qb/Numbered.antt =====
-- In every statement that qb builds, the placeholders are numbered from 1 in the order of the
-- arguments.
use row.Prelude.{
  Bool, true, false, not, List, [], ◌∷◌, Option, none, some, ◌==◌, if◌then◌else◌, Bytes, codes,
  bytes_eq, length, Bool-cases, inl, inr,
}
use row.Dialect.Engines.{Dialect, IsAppending}
use row.Bind.Value.{Value, expand_slice}
use row.Qb.Strings.{cut, count_byte, fields, folds_to_as}
use row.Qb.Writer.{Writer, str, ident_list}
use row.Qb.Expr.{
  Map, sorted_keys, value_at, op_of, null_of, Expr, nil_expr, compare_expr, in_expr, null_expr,
  between_expr, group, not_expr, raw_expr, Exprs, no_exprs, cons_expr, is_nil_expr, is_nil, not_nil,
  nil_in_group, raw_count, nil_in_clause, ok, ◌>>=◌, write_null, write_expanded, write_pair,
  write_pairs, write_cmp, raw_loop, write_raw, write_expr, write_group,
}
use row.Qb.Query.Clauses.{
  clause_loop, clause, table_words, write_table_ref, order_words, write_order_term, returning,
}
use row.Qb.Aligned.{
  Emits, EmitsResult, Emits-refl, Emits-trans, Emits-str, Emits-if, Emits-later, Emits-result,
  >>=-Emits, Emits-guard, ident-Emits, ident_list-Emits, bind-Emits, write_in-Emits,
}

module _ (d : Dialect) (a : IsAppending d) where
  write_null-Emits : (op null k : Bytes) (w : Writer) → EmitsResult d w (write_null d op null k w)
  unfolding write_null
  write_null-Emits op [] k w = tt
  write_null-Emits op (c ∷ cs) k w =
      Emits-trans d (Emits-trans d (ident-Emits d k w) (Emits-str d _ _)) (Emits-str d (c ∷ cs) _)

  write_expanded-Emits :
      (op k : Bytes) (v : Value) (o : Option (List Value)) (w : Writer)
      → Emits d w (write_expanded d op k v o w)
  unfolding write_expanded
  write_expanded-Emits op k v (some es) w = write_in-Emits d a k es (bytes_eq op (codes " = ")) w
  write_expanded-Emits op k v none w =
      Emits-trans d (Emits-trans d (ident-Emits d k w) (Emits-str d op _)) (bind-Emits d a v _)

  write_pair-Emits :
      (op null k : Bytes) (v : Value) (w : Writer) → EmitsResult d w (write_pair d op null k v w)
  unfolding write_pair
  write_pair-Emits op null k v w = elim (Bool-cases (is_nil v)) [
    | inl y ↦ rw y (write_null-Emits op null k w)
    | inr n ↦ rw n (write_expanded-Emits op k v (expand_slice v) w)
  ]

  write_pairs-Emits :
      (op null : Bytes) (m : Map) (later : Bool) (ks : List Bytes) (w : Writer)
      → EmitsResult d w (write_pairs d op null m later ks w)
  unfolding write_pairs
  write_pairs-Emits op null m later [] w = Emits-refl d w
  write_pairs-Emits op null m later (k ∷ ks) w =
      let w' = if later then str (codes " AND ") w else w in
      >>=-Emits d w (write_pair d op null k (value_at m k) w') (write_pairs d op null m true ks)
        (Emits-result d (write_pair d op null k (value_at m k) w')
          (Emits-later d later (codes " AND ") w) (write_pair-Emits op null k (value_at m k) w'))
        (λ v. write_pairs-Emits op null m true ks v)

  write_cmp-Emits :
      (op null : Bytes) (m : Map) (w : Writer) → EmitsResult d w (write_cmp d op null m w)
  unfolding write_cmp
  write_cmp-Emits op null [] w = tt
  write_cmp-Emits op null (e ∷ m) w =
      write_pairs-Emits op null (e ∷ m) false (sorted_keys (e ∷ m)) w

  raw_loop-Emits :
      (rest : Bytes) (vals : List Value) (w : Writer) → Emits d w (raw_loop d rest vals w)
  unfolding raw_loop
  raw_loop-Emits rest [] w = Emits-str d rest w
  raw_loop-Emits rest (v ∷ vals) w =
      Emits-trans d (Emits-trans d (Emits-str d (cut b'?' rest).0 w) (bind-Emits d a v _))
        (raw_loop-Emits (cut b'?' rest).1 vals _)

  write_raw-Emits :
      (sql : Bytes) (vals : List Value) (w : Writer) → EmitsResult d w (write_raw d sql vals w)
  unfolding write_raw
  write_raw-Emits sql vals w =
      Emits-guard d w (not (count_byte b'?' sql == length vals))
        (raw_count sql (count_byte b'?' sql) (length vals)) (ok (raw_loop d sql vals w))
        (raw_loop-Emits sql vals w)

mutual
  unfolding write_expr

  pub write_expr-Emits :
      (d : Dialect) (a : IsAppending d) (e : Expr) (w : Writer) → EmitsResult d w (write_expr d e w)
  write_expr-Emits d a nil_expr w = tt
  write_expr-Emits d a (compare_expr c m) w = write_cmp-Emits d a (op_of d.name c) (null_of c) m w
  write_expr-Emits d a (in_expr col vals positive) w = write_in-Emits d a col vals positive w
  write_expr-Emits d a (null_expr col negated) w =
      Emits-trans d (ident-Emits d col w) (Emits-str d _ _)
  write_expr-Emits d a (between_expr col lo hi negative) w =
      Emits-trans d
        (Emits-trans d
          (Emits-trans d (Emits-trans d (ident-Emits d col w) (Emits-str d _ _))
            (bind-Emits d a lo _))
          (Emits-str d _ _))
        (bind-Emits d a hi _)
  write_expr-Emits d a (group sep no_exprs) w = tt
  write_expr-Emits d a (group sep (cons_expr e no_exprs)) w = write_expr-Emits d a e w
  write_expr-Emits d a (group sep (cons_expr e (cons_expr e' es))) w =
      let inside = write_group d sep false (cons_expr e (cons_expr e' es)) (str (codes "(") w) in
      >>=-Emits d w inside (λ x. ok (str (codes ")") x))
        (Emits-result d inside (Emits-str d (codes "(") w)
          (write_group-Emits d a sep false (cons_expr e (cons_expr e' es)) (str (codes "(") w)))
        (λ v. Emits-str d (codes ")") v)
  write_expr-Emits d a (not_expr e) w =
      let inside = write_expr d e (str (codes "NOT (") w) in
      Emits-guard d w (is_nil_expr e) not_nil (inside >>= λ x. ok (str (codes ")") x)) (
        >>=-Emits d w inside (λ x. ok (str (codes ")") x))
          (Emits-result d inside (Emits-str d (codes "NOT (") w)
            (write_expr-Emits d a e (str (codes "NOT (") w)))
          (λ v. Emits-str d (codes ")") v))
  write_expr-Emits d a (raw_expr sql vals) w = write_raw-Emits d a sql vals w

  write_group-Emits :
      (d : Dialect) (a : IsAppending d) (sep : Bytes) (later : Bool) (es : Exprs) (w : Writer)
      → EmitsResult d w (write_group d sep later es w)
  write_group-Emits d a sep later no_exprs w = Emits-refl d w
  write_group-Emits d a sep later (cons_expr e es) w =
      let w' = if later then str sep w else w in
      Emits-guard d w (is_nil_expr e) (nil_in_group sep)
        (write_expr d e w' >>= write_group d sep true es)
        (>>=-Emits d w (write_expr d e w') (write_group d sep true es)
          (Emits-result d (write_expr d e w') (Emits-later d later sep w)
            (write_expr-Emits d a e w'))
          (λ v. write_group-Emits d a sep true es v))

module _ (d : Dialect) (a : IsAppending d) where
  pub clause_loop-Emits :
      (keyword : Bytes) (later : Bool) (es : List Expr) (w : Writer)
      → EmitsResult d w (clause_loop d keyword later es w)
  unfolding clause_loop
  clause_loop-Emits keyword later [] w = Emits-refl d w
  clause_loop-Emits keyword later (e ∷ es) w =
      let w' = if later then str (codes " AND ") w else w in
      Emits-guard d w (is_nil_expr e) (nil_in_clause keyword)
        (write_expr d e w' >>= clause_loop d keyword true es)
        (>>=-Emits d w (write_expr d e w') (clause_loop d keyword true es)
          (Emits-result d (write_expr d e w') (Emits-later d later (codes " AND ") w)
            (write_expr-Emits d a e w'))
          (λ v. clause_loop-Emits keyword true es v))

  pub clause-Emits :
      (keyword : Bytes) (es : List Expr) (w : Writer) → EmitsResult d w (clause d keyword es w)
  unfolding clause
  clause-Emits keyword [] w = Emits-refl d w
  clause-Emits keyword (e ∷ es) w =
      Emits-result d (clause_loop d keyword false (e ∷ es) (str keyword w)) (Emits-str d keyword w)
        (clause_loop-Emits keyword false (e ∷ es) (str keyword w))

  pub write_table_ref-Emits : (ref : Bytes) (w : Writer) → Emits d w (write_table_ref d ref w)
  unfolding write_table_ref
  write_table_ref-Emits ref w = words (fields ref)
    where
      words : (ws : List Bytes) → Emits d w (table_words d ref ws w)
      words [] = unfold table_words in ident-Emits d ref w
      words (x ∷ []) = unfold table_words in ident-Emits d ref w
      words (x ∷ y ∷ []) =
          unfold table_words in
          Emits-trans d (Emits-trans d (ident-Emits d x w) (Emits-str d _ _)) (ident-Emits d y _)
      words (x ∷ y ∷ z ∷ []) =
          unfold table_words in
          Emits-if d (folds_to_as y) _ _
            (Emits-trans d (Emits-trans d (ident-Emits d x w) (Emits-str d _ _))
              (ident-Emits d z _))
            (Emits-str d ref w)
      words (x ∷ y ∷ z ∷ u ∷ ws) = unfold table_words in ident-Emits d ref w

  pub write_order_term-Emits : (term : Bytes) (w : Writer) → Emits d w (write_order_term d term w)
  unfolding write_order_term
  write_order_term-Emits term w = words (fields term)
    where
      words : (ws : List Bytes) → Emits d w (order_words d term ws w)
      words [] = unfold order_words in ident-Emits d term w
      words (x ∷ []) = unfold order_words in ident-Emits d term w
      words (x ∷ y ∷ []) =
          unfold order_words in
          Emits-if d _ _ _
            (Emits-trans d (Emits-trans d (ident-Emits d x w) (Emits-str d _ _)) (Emits-str d _ _))
            (ident-Emits d term w)
      words (x ∷ y ∷ z ∷ ws) = unfold order_words in ident-Emits d term w

  pub returning-Emits : (cs : List Bytes) (w : Writer) → EmitsResult d w (returning d cs w)
  unfolding returning
  returning-Emits [] w = Emits-refl d w
  returning-Emits (c ∷ cs) w =
      Emits-guard d w (not d.features.returning) _
        (ok (ident_list d false (c ∷ cs) (str (codes " RETURNING ") w)))
        (Emits-trans d (Emits-str d (codes " RETURNING ") w) (ident_list-Emits d false (c ∷ cs) _))
