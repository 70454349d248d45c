-- ===== src/Qb/Changed.antt =====
-- Everything that the parts of `INSERT`, `UPDATE` and `DELETE` write.
use row.Prelude.{
  ℕ, ◌+◌, Bool, true, false, not, ◌&&◌, List, [], ◌∷◌, ltb, ◌==◌, if◌then◌else◌, Bytes, codes,
  length, Bool-cases, inl, inr,
}
use row.Dialect.Engines.{Dialect, IsAppending}
use row.Bind.Value.{Value}
use row.Qb.Writer.{Writer, str, ident}
use row.Qb.Expr.{is_nil_expr, wrong_width}
use row.Qb.Query.Clauses.{clause, returning}
use row.Qb.Query.Insert.{
  InsertQuery, write_column_list, bind_row, write_rows, write_conflict, write_insert,
}
use row.Qb.Query.Update.{
  SetPair, UpdateQuery, write_set, write_sets, write_update, DeleteQuery, write_delete,
}
use row.Qb.Aligned.{
  Emits, EmitsResult, Emits-refl, Emits-trans, Emits-str, Emits-later, Emits-result, >>=-Emits,
  Emits-guard, ident-Emits, ident_list-Emits, bind-Emits,
}
use row.Qb.Numbered.{write_expr-Emits, clause-Emits, returning-Emits}

module _ (d : Dialect) (a : IsAppending d) where
  write_column_list-Emits : (cs : List Bytes) (w : Writer) → Emits d w (write_column_list d cs w)
  unfolding write_column_list
  write_column_list-Emits [] w = Emits-refl d w
  write_column_list-Emits (c ∷ cs) w =
      Emits-trans d (Emits-trans d (Emits-str d _ w) (ident_list-Emits d false (c ∷ cs) _))
        (Emits-str d (codes ")") _)

  bind_row-Emits : (later : Bool) (vs : List Value) (w : Writer) → Emits d w (bind_row d later vs w)
  unfolding bind_row
  bind_row-Emits later [] w = Emits-refl d w
  bind_row-Emits later (v ∷ vs) w =
      Emits-trans d (Emits-trans d (Emits-later d later (codes ", ") w) (bind-Emits d a v _))
        (bind_row-Emits true vs _)

  write_rows-Emits :
      (columns : List Bytes) (i : ℕ) (rows : List (List Value)) (w : Writer)
      → EmitsResult d w (write_rows d columns i rows w)
  unfolding write_rows
  write_rows-Emits columns i [] w = Emits-refl d w
  write_rows-Emits columns i (vals ∷ rest) w =
      let sep = if ltb 0 i then str (codes ", ") w else w in
      let start = str (codes "(") sep in
      let row = str (codes ")") (bind_row d false vals start) in
      let others = write_rows d columns (i + 1) rest row in
      Emits-guard d w (ltb 0 (length columns) && not (length vals == length columns))
        (wrong_width i (length vals) (length columns)) others
        (Emits-result d others
          (Emits-trans d
            (Emits-trans d
              (Emits-trans d (Emits-later d (ltb 0 i) (codes ", ") w) (Emits-str d (codes "(") sep))
              (bind_row-Emits false vals start))
            (Emits-str d (codes ")") _))
          (write_rows-Emits columns (i + 1) rest row))

  write_conflict-Emits : (clause : Bytes) (w : Writer) → Emits d w (write_conflict clause w)
  unfolding write_conflict
  write_conflict-Emits [] w = Emits-refl d w
  write_conflict-Emits (c ∷ cs) w = Emits-trans d (Emits-str d _ w) (Emits-str d (c ∷ cs) _)

  pub write_insert-Emits : (q : InsertQuery) (w : Writer) → EmitsResult d w (write_insert d q w)
  unfolding write_insert
  write_insert-Emits q w =
      let head = ident d q.table (str (codes "INSERT INTO ") w) in
      let columns = str (codes " VALUES ") (write_column_list d q.columns head) in
      let emitted =
        Emits-trans d
          (Emits-trans d
            (Emits-trans d (Emits-str d (codes "INSERT INTO ") w) (ident-Emits d q.table _))
            (write_column_list-Emits q.columns head))
          (Emits-str d (codes " VALUES ") _) in
      >>=-Emits d w (write_rows d q.columns 0 q.rows columns) _
        (Emits-result d (write_rows d q.columns 0 q.rows columns) emitted
          (write_rows-Emits q.columns 0 q.rows columns))
        λ filled.
          Emits-result d (returning d q.returning_columns (write_conflict q.conflict filled))
            (write_conflict-Emits q.conflict filled) (returning-Emits d a q.returning_columns _)

  write_set-Emits : (s : SetPair) (w : Writer) → EmitsResult d w (write_set d s w)
  unfolding write_set
  write_set-Emits s w = elim (Bool-cases (is_nil_expr s.raw)) [
    | inl y ↦ rw y (bind-Emits d a s.val w)
    | inr n ↦ rw n (write_expr-Emits d a s.raw w)
  ]

  write_sets-Emits :
      (later : Bool) (ss : List SetPair) (w : Writer) → EmitsResult d w (write_sets d later ss w)
  unfolding write_sets
  write_sets-Emits later [] w = Emits-refl d w
  write_sets-Emits later (s ∷ ss) w =
      let sep = if later then str (codes ", ") w else w in
      let start = str (codes " = ") (ident d s.col sep) in
      >>=-Emits d w (write_set d s start) (write_sets d true ss)
        (Emits-result d (write_set d s start)
          (Emits-trans d
            (Emits-trans d (Emits-later d later (codes ", ") w) (ident-Emits d s.col sep))
            (Emits-str d (codes " = ") _))
          (write_set-Emits s start))
        (λ v. write_sets-Emits true ss v)

  pub write_update-Emits : (q : UpdateQuery) (w : Writer) → EmitsResult d w (write_update d q w)
  unfolding write_update
  write_update-Emits q w =
      let start = str (codes " SET ") (ident d q.table (str (codes "UPDATE ") w)) in
      let emitted =
        Emits-trans d (Emits-trans d (Emits-str d (codes "UPDATE ") w) (ident-Emits d q.table _))
          (Emits-str d (codes " SET ") _) in
      >>=-Emits d w (write_sets d false q.sets start) _
        (Emits-result d (write_sets d false q.sets start) emitted
          (write_sets-Emits false q.sets start))
        λ assigned.
          >>=-Emits d assigned (clause d (codes " WHERE ") q.where_exprs assigned)
            (returning d q.returning_columns)
            (clause-Emits d a (codes " WHERE ") q.where_exprs assigned)
            (λ v. returning-Emits d a q.returning_columns v)

  pub write_delete-Emits : (q : DeleteQuery) (w : Writer) → EmitsResult d w (write_delete d q w)
  unfolding write_delete
  write_delete-Emits q w =
      let start = ident d q.table (str (codes "DELETE FROM ") w) in
      >>=-Emits d w (clause d (codes " WHERE ") q.where_exprs start)
        (returning d q.returning_columns)
        (Emits-result d (clause d (codes " WHERE ") q.where_exprs start)
          (Emits-trans d (Emits-str d (codes "DELETE FROM ") w) (ident-Emits d q.table _))
          (clause-Emits d a (codes " WHERE ") q.where_exprs start))
        (λ v. returning-Emits d a q.returning_columns v)
