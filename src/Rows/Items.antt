-- ===== src/Rows/Items.antt =====
-- scan.go: what `stream` yields, and what `collect` makes of it.
use row.Prelude.{
  Bool, true, false, List, [], ◌∷◌, ◌++◌, ◌≡◌, refl, sym, ap, ◌⊎◌, inl, inr, Option, none, some,
  Bytes, if◌then◌else◌,
}
use row.Errors.{Err}
use row.Bind.Value.{Value}
use row.Session.Run.{Reply, got, met}
use row.Rows.Deliver.{
  RowSet, row_value, reader_for, collect_loop, collect_rows, stream_loop, stream_rows, collect,
  stream,
}

pub Reply-cases : {A : Type 0} (r : Reply A) → ((a : A) × (r ≡ got a)) ⊎ ((e : Err) × (r ≡ met e))
Reply-cases (got a) = inl (a, refl)
Reply-cases (met e) = inr (e, refl)

module _ {T : Type 0} where
  -- An error is the last of the items.
  abbrev pub IsEndedByError : List (Reply T) → Type 0
  IsEndedByError [] = Unit {0}
  IsEndedByError (got v ∷ items) = IsEndedByError items
  IsEndedByError (met e ∷ items) = items ≡ []

  -- the values in front of an error, or the error
  abbrev gather_from : List T → List (Reply T) → Reply (List T)
  gather_from out [] = got out
  gather_from out (got v ∷ items) = gather_from (out ++ v ∷ []) items
  gather_from out (met e ∷ items) = met e

  abbrev pub gather : List (Reply T) → Reply (List T)
  gather = gather_from []

  -- items given to a function as long as it wants more
  abbrev pub feed : {W : Type 0} → (Reply T → W → W × Bool) → List (Reply T) → W → W
  feed yield_to [] w = w
  feed yield_to (i ∷ items) w =
      let (w', more) = yield_to i w in
      let rest = feed yield_to items w' in if more then rest else w'

module _ {T : Type 0} (new_reader : List Bytes → Reply (List Value → Reply T))
    (wrap_error : Err → Err) where
  -- The items of a set of rows: a value for each row, up to the first error.
  abbrev end_items : Option Err → List (Reply T)
  end_items none = []
  end_items (some e) = met (wrap_error e) ∷ []

  unfoldable pub row_items :
      (List Value → Reply T) → Option Err → List (Reply (List Value)) → List (Reply T)
  row_items read failure [] = end_items failure
  row_items read failure (r ∷ rs) = elim (row_value read r) [
    | met e ↦ met (wrap_error e) ∷ []
    | got v ↦ got v ∷ row_items read failure rs
  ]

  abbrev set_items : {W : Type 0} → RowSet W → List (Reply T)
  set_items rows = elim (reader_for new_reader rows.columns) [
    | met e ↦ met (wrap_error e) ∷ []
    | got read ↦ row_items read rows.failure rows.pending
  ]

  abbrev pub items_of : {W : Type 0} → Reply (RowSet W) → List (Reply T)
  items_of (met e) = met e ∷ []
  items_of (got rows) = set_items rows

  abbrev pub closed : {W : Type 0} → Reply (RowSet W) → W → W
  closed (met e) w = w
  closed (got rows) w = rows.close w

  if_same : {W : Type 0} (b : Bool) (w : W) → (if b then w else w) ≡ w
  if_same true w = refl
  if_same false w = refl

  row_items-IsEndedByError :
      (read : List Value → Reply T) (failure : Option Err) (rs : List (Reply (List Value)))
      → IsEndedByError (row_items read failure rs)
  unfolding row_items
  row_items-IsEndedByError read none [] = tt
  row_items-IsEndedByError read (some e) [] = refl
  row_items-IsEndedByError read failure (r ∷ rs) = elim (Reply-cases (row_value read r)) [
    | inl (v, is_got) ↦ rw (is_got, row_items) (row_items-IsEndedByError read failure rs)
    | inr (e, is_met) ↦ rw (is_met, row_items) refl
  ]

  collect_loop-gather :
      (read : List Value → Reply T) (failure : Option Err) (rs : List (Reply (List Value)))
      (out : List T)
      → collect_loop new_reader wrap_error read failure rs out
        ≡ gather_from out (row_items read failure rs)
  unfolding collect_loop row_items
  collect_loop-gather read none [] out = refl
  collect_loop-gather read (some e) [] out = refl
  collect_loop-gather read failure (r ∷ rs) out = elim (Reply-cases (row_value read r)) [
    | inl (v, is_got) ↦
        rw (is_got, collect_loop, row_items) (collect_loop-gather read failure rs (out ++ v ∷ []))
    | inr (e, is_met) ↦ rw (is_met, collect_loop, row_items) refl
  ]

  module _ {W : Type 0} (yield_to : Reply T → W → W × Bool) where
    stream_loop-feed :
        (read : List Value → Reply T) (failure : Option Err) (rs : List (Reply (List Value)))
        (w : W)
        → stream_loop new_reader wrap_error yield_to read failure rs w
          ≡ feed yield_to (row_items read failure rs) w
    unfolding stream_loop row_items
    stream_loop-feed read none [] w = refl
    stream_loop-feed read (some e) [] w = sym (if_same _ _)
    stream_loop-feed read failure (r ∷ rs) w = elim (Reply-cases (row_value read r)) [
      | inl (v, is_got) ↦
          let (w', more) = yield_to (got v) w in
          rw (is_got, stream_loop, row_items)
            (ap (λ x. if more then x else w') (stream_loop-feed read failure rs w'))
      | inr (e, is_met) ↦ rw (is_met, stream_loop, row_items) (sym (if_same _ _))
    ]

    stream_rows-feed :
        (rows : RowSet W) (w : W)
        → stream_rows new_reader wrap_error yield_to rows w ≡ feed yield_to (set_items rows) w
    stream_rows-feed rows w = elim (Reply-cases (reader_for new_reader rows.columns)) [
      | inl (read, is_got) ↦
          rw (is_got, stream_rows, set_items) (stream_loop-feed read rows.failure rows.pending w)
      | inr (e, is_met) ↦ rw (is_met, stream_rows, set_items) (sym (if_same _ _))
    ]

  set_items-IsEndedByError : {W : Type 0} (rows : RowSet W) → IsEndedByError (set_items rows)
  set_items-IsEndedByError rows = elim (Reply-cases (reader_for new_reader rows.columns)) [
    | inl (read, is_got) ↦
        rw (is_got, set_items) (row_items-IsEndedByError read rows.failure rows.pending)
    | inr (e, is_met) ↦ rw (is_met, set_items) refl
  ]

  collect_rows-gather :
      {W : Type 0} (rows : RowSet W)
      → collect_rows new_reader wrap_error rows ≡ gather (set_items rows)
  collect_rows-gather rows = elim (Reply-cases (reader_for new_reader rows.columns)) [
    | inl (read, is_got) ↦
        rw (is_got, collect_rows, set_items) (collect_loop-gather read rows.failure rows.pending [])
    | inr (e, is_met) ↦ rw (is_met, collect_rows, set_items) refl
  ]

  -- For a reply of `run_query` there are items, of which only the last may be an error, so that
  -- `stream` gives them to the function of its caller as long as this wants more, and then closes the
  -- rows; and `collect` returns the values of the same items, or their error, the rows closed too.
  pub stream-collect :
      {W : Type 0} (yield_to : Reply T → W → W × Bool) (w : W) (reply : Reply (RowSet W))
      → IsEndedByError (items_of reply)
        × (stream new_reader wrap_error yield_to (w, reply)
            ≡ closed reply (feed yield_to (items_of reply) w))
        × (collect new_reader wrap_error (w, reply) ≡ (closed reply w, gather (items_of reply)))
  unfolding stream collect
  stream-collect yield_to w (met e) = (refl, sym (if_same _ _), refl)
  stream-collect yield_to w (got rows) = (
    set_items-IsEndedByError rows,
    ap rows.close (stream_rows-feed yield_to rows w),
    ap (λ x. (rows.close w, x)) (collect_rows-gather rows),
  )
