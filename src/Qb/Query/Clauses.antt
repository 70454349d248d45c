-- ===== src/Qb/Query/Clauses.antt =====
-- qb/query.go: the clauses that the statements share.
use row.Prelude.{
  Bool, true, false, not, ◌&&◌, ◌||◌, List, [], ◌∷◌, if◌then◌else◌, Bytes, codes, bytes_eq,
}
use row.Dialect.Engines.{Dialect}
use row.Bind.Value.{Value}
use row.Qb.Strings.{fields, to_upper, folds_to_as}
use row.Qb.Writer.{Writer, str, is_quotable_ident, ident, ident_list}
use row.Qb.Expr.{Expr, is_nil_expr, write_expr, nil_in_clause, no_returning, Result, ok, err, ◌>>=◌}

abbrev pub blank : Writer
blank = record { b = []; args = [] }

abbrev pub built : Writer → Result (Bytes × List Value)
built w = ok (w.b, w.args)

-- `clause`: its loop, with the flag `i > 0`
unfoldable pub clause_loop : Dialect → Bytes → Bool → List Expr → Writer → Result Writer
clause_loop d keyword later [] w = ok w
clause_loop d keyword later (e ∷ es) w =
    if is_nil_expr e
    then err (nil_in_clause keyword)
    else (write_expr d e (if later then str (codes " AND ") w else w)
        >>= clause_loop d keyword true es)

unfoldable pub clause : Dialect → Bytes → List Expr → Writer → Result Writer
unfolding clause_loop
clause d keyword [] w = ok w
clause d keyword (e ∷ es) w = clause_loop d keyword false (e ∷ es) (str keyword w)

-- `writeTableRef`, by the words of the reference
unfoldable pub table_words : Dialect → Bytes → List Bytes → Writer → Writer
unfolding ident folds_to_as
table_words d ref (a ∷ b ∷ []) w = ident d b (str (codes " ") (ident d a w))
table_words d ref (a ∷ b ∷ c ∷ []) w =
    if folds_to_as b then ident d c (str (codes " AS ") (ident d a w)) else str ref w
table_words d ref _ w = ident d ref w

unfoldable pub write_table_ref : Dialect → Bytes → Writer → Writer
unfolding table_words fields
write_table_ref d ref w = table_words d ref (fields ref) w

-- `writeOrderTerm`, by the words of the term
unfoldable pub order_words : Dialect → Bytes → List Bytes → Writer → Writer
unfolding ident is_quotable_ident to_upper
order_words d term (a ∷ b ∷ []) w =
    if is_quotable_ident a
      && (bytes_eq (to_upper b) (codes "ASC") || bytes_eq (to_upper b) (codes "DESC"))
    then str (to_upper b) (str (codes " ") (ident d a w))
    else ident d term w
order_words d term _ w = ident d term w

unfoldable pub write_order_term : Dialect → Bytes → Writer → Writer
unfolding order_words fields
write_order_term d term w = order_words d term (fields term) w

-- `returning`
unfoldable pub returning : Dialect → List Bytes → Writer → Result Writer
unfolding ident_list
returning d [] w = ok w
returning d (c ∷ cs) w =
    if not d.features.returning
    then err (no_returning d.name)
    else ok (ident_list d false (c ∷ cs) (str (codes " RETURNING ") w))
