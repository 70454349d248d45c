-- ===== src/Qb/Guarded.antt =====
-- No `UPDATE` or `DELETE` without a condition.
use row.Prelude.{
  false, List, [], ◌∷◌, ◌++◌, ◌≡◌, refl, sym, ap, ◌∙◌, some, ◌==◌, if◌then◌else◌, Bytes, codes,
  length, append_assoc,
}
use row.Dialect.Engines.{Dialect, IsAppending}
use row.Bind.Value.{Value}
use row.Bind.Pieces.{show}
use row.Qb.Writer.{Writer, str, ident, is_empty}
use row.Qb.Expr.{Expr, Result, ok, err, panic, ◌>>=◌, needs_table, sets_nothing, no_where}
use row.Qb.Query.Clauses.{blank, built, clause_loop, clause, returning}
use row.Qb.Query.Update.{
  UpdateQuery, write_sets, write_update, build_update, DeleteQuery, write_delete, build_delete,
}
use row.Qb.Aligned.{EmitsResult}
use row.Qb.Numbered.{clause_loop-Emits, returning-Emits}
use row.Qb.Built.{guarded, ok_injective}

-- What a chain of writers returns comes from what its first one returns.
>>=-ok :
    {A B : Type 0} (m : Result A) (f : A → Result B) (r : B)
    → (m >>= f) ≡ ok r
    → (x : A) × (m ≡ ok x) × (f x ≡ ok r)
>>=-ok (ok x) f r h = (x, refl, h)
>>=-ok (err e) f r h = cc
>>=-ok panic f r h = cc

emitted :
    (d : Dialect) (w w' : Writer) (m : Result Writer)
    → EmitsResult d w m
    → m ≡ ok w'
    → (post : Bytes) × (w'.b ≡ w.b ++ post)
emitted d w w' (ok v) h e =
    (show d (length w.args) h.pieces, ap (λ x. x.b) (sym (ok_injective e)) ∙ h.text_is)
emitted d w w' (err x) h e = cc
emitted d w w' panic h e = cc

-- A clause of at least one expression begins with its keyword.
clause-keyword :
    (d : Dialect) (keyword : Bytes) (es : List Expr) (w w' : Writer)
    → IsAppending d
    → (length es == 0) ≡ false
    → clause d keyword es w ≡ ok w'
    → (post : Bytes) × (w'.b ≡ w.b ++ (keyword ++ post))
unfolding clause
clause-keyword d keyword [] w w' a n h = cc
clause-keyword d keyword (e ∷ es) w w' a n h =
    let (post, t) =
      emitted d (str keyword w) w' (clause_loop d keyword false (e ∷ es) (str keyword w))
        (clause_loop-Emits d a keyword false (e ∷ es) (str keyword w)) h in
    (post, t ∙ append_assoc w.b keyword post)

-- What follows a clause leaves its keyword where it is.
filtered-keyword :
    (d : Dialect) (es : List Expr) (cols : List Bytes) (w w' : Writer)
    → IsAppending d
    → (length es == 0) ≡ false
    → (clause d (codes " WHERE ") es w >>= returning d cols) ≡ ok w'
    → (post : Bytes) × (w'.b ≡ w.b ++ (codes " WHERE " ++ post))
filtered-keyword d es cols w w' a n h =
    let (v, c, t) = >>=-ok (clause d (codes " WHERE ") es w) (returning d cols) w' h in
    let (post, p) = clause-keyword d (codes " WHERE ") es w v a n c in
    let (more, m) = emitted d v w' (returning d cols v) (returning-Emits d a cols v) t in
    (
      post ++ more,
      m
          ∙ ap (λ x. x ++ more) p
          ∙ append_assoc w.b (codes " WHERE " ++ post) more
          ∙ ap (λ x. w.b ++ x) (append_assoc (codes " WHERE ") post more),
    )

-- A `DELETE` that is built, for a dialect that appends its placeholders, has a condition: its text
-- is `DELETE FROM`, the table, ` WHERE ` and the rest.
pub build_delete-where :
    (d : Dialect) (q : DeleteQuery) (r : Bytes × List Value)
    → IsAppending d
    → build_delete (some d) q ≡ ok r
    → (post : Bytes) × (r.0
        ≡ (ident d q.table (str (codes "DELETE FROM ") blank)).b ++ (codes " WHERE " ++ post))
unfolding build_delete write_delete
build_delete-where d q r a h =
    let g =
      guarded (is_empty q.table) needs_table
        (if length q.where_exprs == 0
          then err (no_where q.table)
          else (write_delete d q blank >>= built))
        r h in
    let g' =
      guarded (length q.where_exprs == 0) (no_where q.table) (write_delete d q blank >>= built) r
        g.1 in
    let (w, c, e) = >>=-ok (write_delete d q blank) built r g'.1 in
    let (post, t) =
      filtered-keyword d q.where_exprs q.returning_columns
        (ident d q.table (str (codes "DELETE FROM ") blank)) w a g'.0 c in
    (post, ap (λ x. x.0) (sym (ok_injective e)) ∙ t)

-- An `UPDATE` that is built, for a dialect that appends its placeholders, has a condition: its text
-- is what the assignments are written as, ` WHERE ` and the rest.
pub build_update-where :
    (d : Dialect) (q : UpdateQuery) (r : Bytes × List Value)
    → IsAppending d
    → build_update (some d) q ≡ ok r
    → (assigned : Writer) × (post : Bytes) × (write_sets d false q.sets
          (str (codes " SET ") (ident d q.table (str (codes "UPDATE ") blank)))
        ≡ ok assigned)
      × (r.0 ≡ assigned.b ++ (codes " WHERE " ++ post))
unfolding build_update write_update
build_update-where d q r a h =
    let g =
      guarded (is_empty q.table) needs_table
        (if length q.sets == 0
          then err (sets_nothing q.table)
          else if length q.where_exprs == 0
          then err (no_where q.table)
          else (write_update d q blank >>= built))
        r h in
    let g' =
      guarded (length q.sets == 0) (sets_nothing q.table)
        (if length q.where_exprs == 0
          then err (no_where q.table)
          else (write_update d q blank >>= built))
        r g.1 in
    let g'' =
      guarded (length q.where_exprs == 0) (no_where q.table) (write_update d q blank >>= built) r
        g'.1 in
    let (w, c, e) = >>=-ok (write_update d q blank) built r g''.1 in
    let (v, s, t) =
      >>=-ok
        (write_sets d false q.sets
          (str (codes " SET ") (ident d q.table (str (codes "UPDATE ") blank))))
        _ w c in
    let (post, p) = filtered-keyword d q.where_exprs q.returning_columns v w a g''.0 t in
    (v, post, s, ap (λ x. x.0) (sym (ok_injective e)) ∙ p)
