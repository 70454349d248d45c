-- ===== src/Qb/Selected.antt =====
-- Everything that the parts of a `SELECT` write.
use row.Prelude.{
  Bool, true, false, List, [], ◌∷◌, if◌then◌else◌, Bytes, codes, Bool-cases, inl, inr,
}
use row.Dialect.Engines.{Dialect, IsAppending}
use row.Qb.Strings.{ℤ, format_int}
use row.Qb.Writer.{Writer, str}
use row.Qb.Expr.{Expr, is_nil_expr, write_expr}
use row.Qb.Query.Clauses.{clause, write_table_ref}
use row.Qb.Query.Select.{
  Join, SelectQuery, write_columns, write_from, write_on, write_joins, write_group_by, order_loop,
  write_order_by, write_count, write_select,
}
use row.Qb.Aligned.{
  Emits, EmitsResult, Emits-refl, Emits-trans, Emits-str, Emits-if, Emits-later, Emits-result,
  >>=-Emits, ident_list-Emits,
}
use row.Qb.Numbered.{write_expr-Emits, clause-Emits, write_table_ref-Emits, write_order_term-Emits}

module _ (d : Dialect) (a : IsAppending d) where
  write_columns-Emits : (cs : List Bytes) (w : Writer) → Emits d w (write_columns d cs w)
  unfolding write_columns
  write_columns-Emits [] w = Emits-str d (codes "*") w
  write_columns-Emits (c ∷ cs) w = ident_list-Emits d false (c ∷ cs) w

  write_from-Emits : (t : Bytes) (w : Writer) → Emits d w (write_from d t w)
  unfolding write_from
  write_from-Emits [] w = Emits-refl d w
  write_from-Emits (c ∷ cs) w =
      Emits-trans d (Emits-str d _ w) (write_table_ref-Emits d a (c ∷ cs) _)

  write_on-Emits : (on : Expr) (w : Writer) → EmitsResult d w (write_on d on w)
  unfolding write_on
  write_on-Emits on w = elim (Bool-cases (is_nil_expr on)) [
    | inl y ↦ rw y (Emits-refl d w)
    | inr n ↦ rw n (
        Emits-result d (write_expr d on (str (codes " ON ") w)) (Emits-str d (codes " ON ") w)
          (write_expr-Emits d a on (str (codes " ON ") w)))
  ]

  write_joins-Emits : (js : List Join) (w : Writer) → EmitsResult d w (write_joins d js w)
  unfolding write_joins
  write_joins-Emits [] w = Emits-refl d w
  write_joins-Emits (j ∷ js) w =
      let w' = str (codes " ") (str j.kind (str (codes " ") w)) in
      let t = write_table_ref d j.table w' in
      let named =
        Emits-trans d (Emits-trans d (Emits-str d (codes " ") w) (Emits-str d j.kind _))
          (Emits-str d (codes " ") _) in
      >>=-Emits d w (write_on d j.on t) (write_joins d js)
        (Emits-result d (write_on d j.on t)
          (Emits-trans d named (write_table_ref-Emits d a j.table w')) (write_on-Emits j.on t))
        (λ v. write_joins-Emits js v)

  write_group_by-Emits : (cs : List Bytes) (w : Writer) → Emits d w (write_group_by d cs w)
  unfolding write_group_by
  write_group_by-Emits [] w = Emits-refl d w
  write_group_by-Emits (c ∷ cs) w =
      Emits-trans d (Emits-str d _ w) (ident_list-Emits d false (c ∷ cs) _)

  order_loop-Emits :
      (later : Bool) (ts : List Bytes) (w : Writer) → Emits d w (order_loop d later ts w)
  unfolding order_loop
  order_loop-Emits later [] w = Emits-refl d w
  order_loop-Emits later (t ∷ ts) w =
      Emits-trans d
        (Emits-trans d (Emits-later d later (codes ", ") w) (write_order_term-Emits d a t _))
        (order_loop-Emits true ts _)

  write_order_by-Emits : (ts : List Bytes) (w : Writer) → Emits d w (write_order_by d ts w)
  unfolding write_order_by
  write_order_by-Emits [] w = Emits-refl d w
  write_order_by-Emits (t ∷ ts) w =
      Emits-trans d (Emits-str d _ w) (order_loop-Emits false (t ∷ ts) _)

  write_count-Emits :
      (keyword : Bytes) (present : Bool) (n : ℤ) (w : Writer)
      → Emits d w (write_count keyword present n w)
  unfolding write_count
  write_count-Emits keyword present n w =
      Emits-if d present _ _ (Emits-trans d (Emits-str d keyword w) (Emits-str d (format_int n) _))
        (Emits-refl d w)

  pub write_select-Emits : (q : SelectQuery) (w : Writer) → EmitsResult d w (write_select d q w)
  unfolding write_select
  write_select-Emits q w =
      let head = str (codes "SELECT ") w in
      let start = if q.distinct then str (codes "DISTINCT ") head else head in
      let front = write_from d q.from (write_columns d q.columns start) in
      let emitted =
        Emits-trans d
          (Emits-trans d
            (Emits-trans d (Emits-str d (codes "SELECT ") w)
              (Emits-later d q.distinct (codes "DISTINCT ") head))
            (write_columns-Emits q.columns start))
          (write_from-Emits q.from (write_columns d q.columns start)) in
      >>=-Emits d w (write_joins d q.joins front) _
        (Emits-result d (write_joins d q.joins front) emitted (write_joins-Emits q.joins front))
        λ joined.
          >>=-Emits d joined (clause d (codes " WHERE ") q.where_exprs joined) _
            (clause-Emits d a (codes " WHERE ") q.where_exprs joined)
            λ filtered.
              let g = write_group_by d q.group_by filtered in
              >>=-Emits d filtered (clause d (codes " HAVING ") q.having g) _
                (Emits-result d (clause d (codes " HAVING ") q.having g)
                  (write_group_by-Emits q.group_by filtered)
                  (clause-Emits d a (codes " HAVING ") q.having g))
                λ grouped.
                  Emits-trans d
                    (Emits-trans d (write_order_by-Emits q.order_by grouped)
                      (write_count-Emits (codes " LIMIT ") q.has_limit q.limit _))
                    (write_count-Emits (codes " OFFSET ") q.has_off q.offset _)
