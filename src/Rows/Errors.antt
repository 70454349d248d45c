-- ===== src/Rows/Errors.antt =====
-- scan.go, row.go: the errors that calls with a statement return.
use row.Prelude.{
  Bool, true, false, List, [], ◌∷◌, ◌++◌, ◌≡◌, refl, inl, inr, Option, none, some, Option-cases,
  Bytes, codes,
}
use row.Errors.{Code, Err, as_error, wrap}
use row.Dialect.Engines.{Dialect}
use row.Bind.Value.{Value}
use row.Cache.Plans.{PlanCache}
use row.Session.Arguments.{Argument}
use row.Session.Prepare.{Prepared, ready, unbound, no_mapping, crashed, prepare}
use row.Session.Run.{Reply, got, met, Hook, Driver, wrapped, wrap_reply, run_query, run_exec}
use row.Session.Entry.{
  Call, returned, panicked, bind_failure, mapping_failure, bound_call, bind_for, call_then, exec,
}
use row.Rows.Deliver.{
  RowSet, RowErrors, row_value, reader_for, collect_loop, collect_rows, single_end, single_row,
  single_rows, collect, single,
}
use row.Rows.Items.{Reply-cases}
use row.Rows.Entry.{collect_query, single_query, all_rows, one_row, first_row}

-- A `*Error` is in the error.
abbrev pub IsRowError : Err → Type 0
IsRowError e = (c : Code) × (as_error e ≡ some c)

-- Each error of a reply, or of a call, has one.
abbrev pub ErrorsAre : {A : Type 0} → Reply A → Type 0
ErrorsAre (got a) = Unit {0}
ErrorsAre (met e) = IsRowError e

abbrev pub CallErrorsAre : {A : Type 0} → Call A → Type 0
CallErrorsAre (returned r) = ErrorsAre r
CallErrorsAre panicked = Unit {0}

wrapped-IsRowError : (op query : Bytes) (d : Dialect) (e : Err) → IsRowError (wrapped op query d e)
unfolding wrap as_error
wrapped-IsRowError op query d e = elim (Option-cases (as_error e)) [
  | inl plain ↦ rw (plain, wrapped, wrap) (_, refl)
  | inr (c, already) ↦ rw (already, wrapped, wrap) (c, already)
]

wrap_reply-ErrorsAre :
    {A : Type 0} (op query : Bytes) (d : Dialect) (r : Reply A)
    → ErrorsAre (wrap_reply op query d r)
wrap_reply-ErrorsAre op query d (got a) = tt
wrap_reply-ErrorsAre op query d (met e) = wrapped-IsRowError op query d e

bound_call-CallErrorsAre :
    (op query : Bytes) (d : Dialect) (p : Prepared) → CallErrorsAre (bound_call op query d p)
bound_call-CallErrorsAre op query d (ready q a) = tt
bound_call-CallErrorsAre op query d (unbound e) = wrapped-IsRowError op query d bind_failure
bound_call-CallErrorsAre op query d (no_mapping e) = wrapped-IsRowError op query d mapping_failure
bound_call-CallErrorsAre op query d crashed = tt

bind_for-CallErrorsAre :
    (op : Bytes) (d : Dialect) (query : Bytes) (args : List Argument) (pc : Option PlanCache)
    → CallErrorsAre (bind_for op (some d) query args pc).1
unfolding bind_for
bind_for-CallErrorsAre op d query args pc =
    bound_call-CallErrorsAre op query d (prepare d query args pc).1

call_then-CallErrorsAre :
    {W A B : Type 0} (c : Call A) (next : A → W → W × Reply B) (w : W)
    → CallErrorsAre c
    → ((a : A) (v : W) → ErrorsAre (next a v).1)
    → CallErrorsAre (call_then c next w).1
call_then-CallErrorsAre (returned (got a)) next w h k = k a w
call_then-CallErrorsAre (returned (met e)) next w h k = h
call_then-CallErrorsAre panicked next w h k = tt

module _ {T : Type 0} (new_reader : List Bytes → Reply (List Value → Reply T))
    (wrap_error : Err → Err) (wraps : (e : Err) → IsRowError (wrap_error e)) where
  collect_loop-ErrorsAre :
      (read : List Value → Reply T) (failure : Option Err) (rs : List (Reply (List Value)))
      (out : List T)
      → ErrorsAre (collect_loop new_reader wrap_error read failure rs out)
  unfolding collect_loop
  collect_loop-ErrorsAre read none [] out = tt
  collect_loop-ErrorsAre read (some e) [] out = wraps e
  collect_loop-ErrorsAre read failure (r ∷ rs) out = elim (Reply-cases (row_value read r)) [
    | inl (v, is_got) ↦
        rw (is_got, collect_loop) (collect_loop-ErrorsAre read failure rs (out ++ v ∷ []))
    | inr (e, is_met) ↦ rw (is_met, collect_loop) (wraps e)
  ]

  single_end-ErrorsAre :
      (errors : RowErrors) (exactly : Bool) (early failure : Option Err)
      (rs : List (Reply (List Value))) (v : T)
      → ErrorsAre (single_end new_reader wrap_error errors exactly early failure rs v)
  single_end-ErrorsAre errors false (some e) failure rs v = wraps e
  single_end-ErrorsAre errors false none failure rs v = tt
  single_end-ErrorsAre errors true early failure (r ∷ rs) v = wraps errors.too_many_rows
  single_end-ErrorsAre errors true early (some e) [] v = wraps e
  single_end-ErrorsAre errors true early none [] v = tt

  single_row-ErrorsAre :
      (errors : RowErrors) (exactly : Bool) (read : List Value → Reply T)
      (early failure : Option Err) (rs : List (Reply (List Value)))
      → ErrorsAre (single_row new_reader wrap_error errors exactly read early failure rs)
  unfolding single_row
  single_row-ErrorsAre errors exactly read early (some e) [] = wraps e
  single_row-ErrorsAre errors exactly read early none [] = wraps errors.no_rows
  single_row-ErrorsAre errors exactly read early failure (r ∷ rs) =
      elim (Reply-cases (row_value read r)) [
        | inl (v, is_got) ↦
            rw (is_got, single_row) (single_end-ErrorsAre errors exactly early failure rs v)
        | inr (e, is_met) ↦ rw (is_met, single_row) (wraps e)
      ]

  collect-ErrorsAre :
      {W : Type 0} (w : W) (reply : Reply (RowSet W))
      → ErrorsAre reply
      → ErrorsAre (collect new_reader wrap_error (w, reply)).1
  unfolding collect
  collect-ErrorsAre w (met e) h = h
  collect-ErrorsAre w (got rows) h = elim (Reply-cases (reader_for new_reader rows.columns)) [
    | inl (read, is_got) ↦
        rw (is_got, collect_rows) (collect_loop-ErrorsAre read rows.failure rows.pending [])
    | inr (e, is_met) ↦ rw (is_met, collect_rows) (wraps e)
  ]

  single-ErrorsAre :
      {W : Type 0} (errors : RowErrors) (exactly : Bool) (w : W) (reply : Reply (RowSet W))
      → ErrorsAre reply
      → ErrorsAre (single new_reader wrap_error errors exactly (w, reply)).1
  unfolding single
  single-ErrorsAre errors exactly w (met e) h = h
  single-ErrorsAre errors exactly w (got rows) h =
      elim (Reply-cases (reader_for new_reader rows.columns)) [
        | inl (read, is_got) ↦
            rw (is_got, single_rows)
              (single_row-ErrorsAre errors exactly read rows.early rows.failure rows.pending)
        | inr (e, is_met) ↦ rw (is_met, single_rows) (wraps e)
      ]

module _ {W C T : Type 0} (driver : Driver W C (RowSet W)) (hooks : List (Hook W C)) (d : Dialect)
    (new_reader : List Bytes → Reply (List Value → Reply T)) where
  run_query-ErrorsAre :
      (ctx : C) (op q : Bytes) (a : List Value) (w : W)
      → ErrorsAre (run_query driver hooks d ctx op q a w).1
  unfolding run_query
  run_query-ErrorsAre ctx op q a w = wrap_reply-ErrorsAre op q d _

  -- Every error that `exec`, `all_rows`, `one_row` and `first_row` return for a session contains a
  -- `*Error`, whether it is one of the statement, of its arguments, of the driver, of a row or of the
  -- number of rows.
  pub calls-CallErrorsAre :
      (errors : RowErrors) (ctx : C) (query : Bytes) (args : List Argument) (pc : Option PlanCache)
      (w : W)
      → CallErrorsAre (exec driver hooks d ctx query args pc w).1.1
        × CallErrorsAre (all_rows driver hooks d new_reader ctx query args pc w).1.1
        × CallErrorsAre (one_row driver hooks d new_reader errors ctx query args pc w).1.1
        × CallErrorsAre (first_row driver hooks d new_reader errors ctx query args pc w).1.1
  unfolding exec all_rows one_row first_row collect_query single_query run_exec
  calls-CallErrorsAre errors ctx query args pc w =
      let single_errors : (op : Bytes) (exactly : Bool) (q : Bytes × List Value) (v : W)
          → ErrorsAre (single_query driver hooks d new_reader errors exactly ctx op q v).1 =
        λ op exactly q v.
          single-ErrorsAre new_reader (wrapped op q.0 d) (wrapped-IsRowError op q.0 d) errors
            exactly _ _ (run_query-ErrorsAre ctx op q.0 q.1 v) in
      (
        call_then-CallErrorsAre _ _ w (bind_for-CallErrorsAre (codes "row.Exec") d query args pc)
            (λ q v. wrap_reply-ErrorsAre (codes "row.Exec") q.0 d _),
        call_then-CallErrorsAre _ _ w (bind_for-CallErrorsAre (codes "row.All") d query args pc)
            (λ q v.
              collect-ErrorsAre new_reader (wrapped (codes "row.All") q.0 d)
                (wrapped-IsRowError (codes "row.All") q.0 d) _ _
                (run_query-ErrorsAre ctx (codes "row.All") q.0 q.1 v)),
        call_then-CallErrorsAre _ _ w (bind_for-CallErrorsAre (codes "row.One") d query args pc)
            (single_errors (codes "row.One") true),
        call_then-CallErrorsAre _ _ w (bind_for-CallErrorsAre (codes "row.First") d query args pc)
            (single_errors (codes "row.First") false),
      )
