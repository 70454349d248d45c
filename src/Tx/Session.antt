-- ===== src/Tx/Session.antt =====
-- tx.go: `InTx` and `nest`.
use row.Prelude.{
  ℕ, ◌+◌, ◌%◌, ◌^◌, Bool, not, [], ◌++◌, Option, none, some, if◌then◌else◌, Bytes, codes,
}
use row.Errors.{Err, other, formatted, wrap}
use row.Dialect.Decimal.{append_int}
use row.Dialect.Engines.{Dialect}

-- What database/sql does: each call changes the world outside and may fail. `is_tx_done` is the
-- comparison with `sql.ErrTxDone`, and `err_text` is what an error prints.
pub record Database (W : Type 0) : Type 0 where
  pub begin : W → W × Option Err
  pub commit : W → W × Option Err
  pub rollback : W → W × Option Err
  pub exec : Bytes → W → W × Option Err
  pub is_tx_done : Err → Bool
  pub err_text : Err → Bytes

-- The variable `savepointSeq`, and the world outside.
pub record World (W : Type 0) : Type 0 where
  pub seq : ℕ
  pub outer : W

-- the fields of `Tx` that the operations read and set
pub record Tx : Type 0 where
  pub savepoint : Bytes
  pub depth : ℕ

-- How a call ends: it returns an error or nil, or it panics.
pub data Outcome : Type 0 where
  returned : Option Err → Outcome
  panicked : Outcome

-- `fn`
abbrev pub Body : Type 0 → Type 0
Body W = Tx → World W → World W × Outcome

-- The session that `InTx` is given: nil, one that can begin a transaction, a transaction, or
-- another.
pub data Session : Type 0 where
  no_session : Session
  beginner : Session
  in_progress : Tx → Session
  other_session : Session

-- The errors that `InTx` makes itself are `other` with a number of their own.
abbrev pub op : Bytes
op = codes "row.InTx"

module _ {W : Type 0} (db : Database W) (d : Dialect) where
  -- `t.tx.ExecContext`, on a statement about a savepoint
  unfoldable pub savepoint_call : Bytes → Bytes → World W → World W × Option Err
  savepoint_call words name w =
      let (o, e) = db.exec (words ++ d.quote_ident name) w.outer in (record w { outer = o }, e)

  -- `fmt.Errorf("%w (… also failed: %v)", err, rbErr)`
  abbrev pub also_failed : Bytes → Err → Err → Err
  also_failed what err rb = formatted (what ++ db.err_text rb) err

  -- `nest`, when `fn` returned an error: the result of `ROLLBACK TO SAVEPOINT` decides
  unfoldable pub after_failure : Bytes → Err → World W × Option Err → World W × Outcome
  unfolding savepoint_call
  after_failure name err (w, some rb) =
      (w, returned (some (also_failed (codes "savepoint rollback") err rb)))
  after_failure name err (w, none) =
      let (w', _) = savepoint_call (codes "RELEASE SAVEPOINT ") name w in (w', returned (some err))

  -- `nest`, behind the call of `fn`
  unfoldable pub after_nested : Bytes → World W × Outcome → World W × Outcome
  unfolding savepoint_call after_failure
  after_nested name (w, panicked) =
      let (w', _) = savepoint_call (codes "ROLLBACK TO SAVEPOINT ") name w in (w', panicked)
  after_nested name (w, returned none) =
      let (w', e) = savepoint_call (codes "RELEASE SAVEPOINT ") name w in
      (w', returned (wrap op (codes "RELEASE SAVEPOINT") (some d.classify_error) e))
  after_nested name (w, returned (some err)) =
      after_failure name err (savepoint_call (codes "ROLLBACK TO SAVEPOINT ") name w)

  -- `nest`, behind the `SAVEPOINT`
  unfoldable pub after_savepoint : Tx → Body W → Bytes → World W × Option Err → World W × Outcome
  unfolding after_nested
  after_savepoint t fn name (w, some e) =
      (w, returned (wrap op (codes "SAVEPOINT") (some d.classify_error) (some e)))
  after_savepoint t fn name (w, none) =
      after_nested name (fn (record { savepoint = name; depth = t.depth + 1 }) w)

  abbrev pub savepoint_name : ℕ → Bytes
  savepoint_name seq = append_int (codes "row_sp_") seq

  unfoldable pub nest : Tx → Body W → World W → World W × Outcome
  unfolding savepoint_call after_savepoint append_int
  nest t fn w =
      let seq = (w.seq + 1) % 2 ^ 64 in
      let name = savepoint_name seq in
      after_savepoint t fn name (savepoint_call (codes "SAVEPOINT ") name (record w { seq = seq }))

  -- `InTx` of a session that can begin a transaction, behind the call of `fn`
  unfoldable pub after_body : World W × Outcome → World W × Outcome
  after_body (w, panicked) = let (o, _) = db.rollback w.outer in (record w { outer = o }, panicked)
  after_body (w, returned none) =
      let (o, e) = db.commit w.outer in
      (record w { outer = o }, returned (wrap op [] (some d.classify_error) e))
  after_body (w, returned (some err)) =
      let (o, e) = db.rollback w.outer in
      (
        record w { outer = o },
        elim e [
          | none ↦ returned (some err)
          | some rb ↦
              if db.is_tx_done rb
              then returned (some err)
              else returned (some (also_failed (codes "rollback") err rb))
        ],
      )

  -- behind `b.begin`
  unfoldable pub after_begin : Body W → World W × Option Err → World W × Outcome
  unfolding after_body
  after_begin fn (w, some e) = (w, returned (wrap op [] (some d.classify_error) (some e)))
  after_begin fn (w, none) = after_body (fn (record { savepoint = []; depth = 0 }) w)

  unfoldable pub begin_tx : Body W → World W → World W × Outcome
  unfolding after_begin
  begin_tx fn w = let (o, e) = db.begin w.outer in after_begin fn (record w { outer = o }, e)

  -- `InTx`; the flag says that options are given
  unfoldable pub in_tx : Session → Bool → Body W → World W → World W × Outcome
  unfolding nest begin_tx
  in_tx no_session with_opts fn w = (w, returned (some (other 0)))
  in_tx (in_progress t) with_opts fn w =
      if with_opts
      then (w, returned (some (other 1)))
      else if not d.features.savepoints
      then (w, returned (some (other 2)))
      else nest t fn w
  in_tx other_session with_opts fn w = (w, returned (some (other 3)))
  in_tx beginner with_opts fn w = begin_tx fn w
