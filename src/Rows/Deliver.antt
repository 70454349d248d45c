-- ===== src/Rows/Deliver.antt =====
-- scan.go: `collect`, `single` and `stream`, which `All`, `One`, `First` and `Iter` end in.
use row.Prelude.{Bool, true, false, List, [], ◌∷◌, ◌++◌, Option, none, some, Bytes, if◌then◌else◌}
use row.Errors.{Err}
use row.Bind.Value.{Value}
use row.Session.Run.{Reply, got, met}

-- A `*sql.Rows`: its columns; what `Scan` finds in each row that `Next` gives; what `Err` returns
-- before `Next` has found no more of them (as when the context was cancelled), and after; and `Close`.
pub record RowSet (W : Type 0) : Type 0 where
  pub columns : Reply (List Bytes)
  pub pending : List (Reply (List Value))
  pub early : Option Err
  pub failure : Option Err
  pub close : W → W

-- The errors that these functions know: `ErrNoRows` and `errTooManyRows`.
pub record RowErrors : Type 0 where
  pub no_rows : Err
  pub too_many_rows : Err

-- the value of a row, or the error of `Scan` or of the reader
abbrev pub row_value : {T : Type 0} → (List Value → Reply T) → Reply (List Value) → Reply T
row_value read (got raw) = read raw
row_value read (met e) = met e

module _ {T : Type 0} (new_reader : List Bytes → Reply (List Value → Reply T)) where
  -- `readerFor`
  abbrev pub reader_for : Reply (List Bytes) → Reply (List Value → Reply T)
  reader_for (got cols) = new_reader cols
  reader_for (met e) = met e

  -- `wrap_error` is `wrap` for the statement.
  module _ (wrap_error : Err → Err) where
    -- the end of a loop over the rows
    abbrev pub at_end : Option Err → List T → Reply (List T)
    at_end none out = got out
    at_end (some e) out = met (wrap_error e)

    -- the loop of `collect`; `read v` is the result of `rd.read`
    unfoldable pub collect_loop :
        (List Value → Reply T) → Option Err → List (Reply (List Value)) → List T → Reply (List T)
    collect_loop read failure [] out = at_end failure out
    collect_loop read failure (r ∷ rs) out = elim (row_value read r) [
      | met e ↦ met (wrap_error e)
      | got v ↦ collect_loop read failure rs (out ++ v ∷ [])
    ]

    abbrev pub collect_rows : {W : Type 0} → RowSet W → Reply (List T)
    collect_rows rows = elim (reader_for rows.columns) [
      | met e ↦ met (wrap_error e)
      | got read ↦ collect_loop read rows.failure rows.pending []
    ]

    -- `single`, behind a row whose value is `v`
    abbrev pub single_end :
        RowErrors → Bool → Option Err → Option Err → List (Reply (List Value)) → T → Reply T
    single_end errors false (some e) failure rest v = met (wrap_error e)
    single_end errors false none failure rest v = got v
    single_end errors true early failure (r ∷ rs) v = met (wrap_error errors.too_many_rows)
    single_end errors true early (some e) [] v = met (wrap_error e)
    single_end errors true early none [] v = got v

    unfoldable pub single_row :
        RowErrors
        → Bool
        → (List Value → Reply T)
        → Option Err
        → Option Err
        → List (Reply (List Value))
        → Reply T
    single_row errors exactly read early (some e) [] = met (wrap_error e)
    single_row errors exactly read early none [] = met (wrap_error errors.no_rows)
    single_row errors exactly read early failure (r ∷ rs) = elim (row_value read r) [
      | met e ↦ met (wrap_error e)
      | got v ↦ single_end errors exactly early failure rs v
    ]

    abbrev pub single_rows : {W : Type 0} → RowErrors → Bool → RowSet W → Reply T
    single_rows errors exactly rows = elim (reader_for rows.columns) [
      | met e ↦ met (wrap_error e)
      | got read ↦ single_row errors exactly read rows.early rows.failure rows.pending
    ]

    module _ {W : Type 0} (yield_to : Reply T → W → W × Bool) where
      abbrev pub last_yield : Option Err → W → W
      last_yield none w = w
      last_yield (some e) w = (yield_to (met (wrap_error e)) w).0

      -- the loop of `stream`; it goes on while `yield` returns true
      unfoldable pub stream_loop :
          (List Value → Reply T) → Option Err → List (Reply (List Value)) → W → W
      stream_loop read failure [] w = last_yield failure w
      stream_loop read failure (r ∷ rs) w = elim (row_value read r) [
        | met e ↦ (yield_to (met (wrap_error e)) w).0
        | got v ↦
            let (w', more) = yield_to (got v) w in
            let rest = stream_loop read failure rs w' in if more then rest else w'
      ]

      abbrev pub stream_rows : RowSet W → W → W
      stream_rows rows w = elim (reader_for rows.columns) [
        | met e ↦ (yield_to (met (wrap_error e)) w).0
        | got read ↦ stream_loop read rows.failure rows.pending w
      ]

  -- The three functions, from the reply of `runQuery` on. The rows are closed at the end.
  module _ {W : Type 0} (wrap_error : Err → Err) where
    unfoldable pub collect : W × Reply (RowSet W) → W × Reply (List T)
    unfolding collect_loop
    collect (w, met e) = (w, met e)
    collect (w, got rows) = (rows.close w, collect_rows wrap_error rows)

    unfoldable pub single : RowErrors → Bool → W × Reply (RowSet W) → W × Reply T
    unfolding single_row
    single errors exactly (w, met e) = (w, met e)
    single errors exactly (w, got rows) = (rows.close w, single_rows wrap_error errors exactly rows)

    unfoldable pub stream : (Reply T → W → W × Bool) → W × Reply (RowSet W) → W
    unfolding stream_loop
    stream yield_to (w, met e) = (yield_to (met e) w).0
    stream yield_to (w, got rows) = rows.close (stream_rows wrap_error yield_to rows w)
