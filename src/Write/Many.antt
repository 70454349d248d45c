-- ===== src/Write/Many.antt =====
-- write.go: `InsertMany`.
use Prim.Native.Nat.{min}
use row.Prelude.{
  ℕ, zero, suc, ◌+◌, ◌-◌, ◌/◌, get_elem?, Bool, true, false, ◌&&◌, ltb, ◌==◌, List, [], ◌∷◌, ◌++◌,
  map, Option, none, some, Bytes, codes, length, if◌then◌else◌,
}
use row.Errors.{Err}
use row.Dialect.Engines.{Dialect}
use row.Bind.Value.{Value}
use row.Qb.Writer.{Writer, str}
use row.Mapper.Types.{Field, StructInfo}
use row.Write.Options.{WriteConfig, quote_table, writable_fields, join}
use row.Write.Statement.{
  WriteError, no_writable, too_wide, Result, ok, err, panic, ◌>>=◌, Struct, Subject, struct_of,
  append_returning,
}

-- How `InsertMany` ends: it returns nil, an error of its own, or one that a statement
-- met. The last two are a panic, and the fuel of the model used up.
pub data Outcome : Type 0 where
  done : Outcome
  refused : WriteError → Outcome
  failed : Err → Outcome
  crashed : Outcome
  exhausted : Outcome

-- the rows of one statement
unfoldable pub batch_size : Dialect → ℕ → ℕ → ℕ
batch_size d per_row count =
    if ltb 0 d.features.max_placeholders
      && ltb 0 per_row
      && ltb (d.features.max_placeholders / per_row) count
    then d.features.max_placeholders / per_row
    else count

-- the loop over the fields of a row; `ph` is its buffer
unfoldable pub row_values :
    Dialect → Struct → Bool → List Field → Bytes → List Value → Bytes × List Value
row_values d v later [] ph args = (ph, args)
row_values d v later (f ∷ fs) ph args =
    let args' = args ++ v f ∷ [] in
    row_values d v true fs
      (d.append_placeholder (if later then ph ++ codes ", " else ph) (length args')) args'

abbrev pub write_row : Dialect → List Field → Bool → Struct → Writer → Writer
write_row d fields later v w =
    let w' = str (codes "(") (if later then str (codes ", ") w else w) in
    let (ph, args) = row_values d v false fields [] w'.args in
    str (codes ")") (record { b = w'.b ++ ph; args = args })

-- `vs[i]`
unfoldable pub row_at : List Subject → ℕ → Result Subject
row_at rows i = elim (get_elem? rows i) [ none ↦ panic | some s ↦ ok s ]

-- the loop over the rows of a batch that begins at `start`: `n` rounds, from the row `i` on
unfoldable pub batch_rows :
    Dialect → StructInfo → List Field → List Subject → ℕ → ℕ → ℕ → Writer → Result Writer
unfolding row_at struct_of row_values
batch_rows d si fields rows start i zero w = ok w
batch_rows d si fields rows start i (suc n) w = row_at rows i >>= λ s. struct_of si s >>= λ v.
    batch_rows d si fields rows start (i + 1) n (write_row d fields (ltb start i) v w)

unfoldable pub insert_prefix : Dialect → Bytes → List Field → Bytes
unfolding quote_table join
insert_prefix d table fields =
    codes "INSERT INTO "
    ++ (quote_table d table
        ++ (codes " ("
            ++ (join (codes ", ") (map (λ f. d.quote_ident f.column) fields) ++ codes ") VALUES ")))

-- the statement of the batch from the row `start` to the row before `stop`
unfoldable pub batch_statement :
    Dialect → StructInfo → List Field → Bytes → List Bytes → List Subject → ℕ → ℕ → Result Writer
unfolding batch_rows append_returning
batch_statement d si fields prefix returning rows start stop =
    batch_rows d si fields rows start start (stop - start) (record { b = prefix; args = [] })
    >>= append_returning d returning

module _ {W : Type 0} (send : Writer → ℕ → W → W × Option Err) where
  -- behind a statement that was sent, and before it; `next` is the rest of the loop
  unfoldable pub after_send : (W → W × Outcome) → W × Option Err → W × Outcome
  after_send next (w, some e) = (w, failed e)
  after_send next (w, none) = next w

  unfoldable pub send_statement : Result Writer → ℕ → (W → W × Outcome) → W → W × Outcome
  unfolding after_send
  send_statement (ok st) n next w = after_send next (send st n w)
  send_statement (err e) n next w = (w, refused e)
  send_statement panic n next w = (w, crashed)

  -- The loop over the batches of `count` rows, from the row `start` on, on fuel; `statement` makes
  -- the statement of a batch, and `send` is `runExec`, or `scanBack` into so many values.
  unfoldable pub send_batches : ℕ → ℕ → ℕ → (ℕ → ℕ → Result Writer) → ℕ → W → W × Outcome
  unfolding send_statement
  send_batches zero batch count statement start w =
      if ltb start count then (w, exhausted) else (w, done)
  send_batches (suc fuel) batch count statement start w = elim (ltb start count) [
    | false ↦ (w, done)
    | true ↦
        let stop = min (start + batch) count in
        send_statement (statement start stop) (stop - start)
          (send_batches fuel batch count statement (start + batch)) w
  ]

  -- `InsertMany`, once the type is described
  unfoldable pub send_rows :
      Dialect → Bytes → StructInfo → List Field → List Bytes → List Subject → W → W × Outcome
  unfolding send_batches batch_size batch_statement insert_prefix
  send_rows d table si fields returning rows w =
      let batch = batch_size d (length fields) (length rows) in
      if length fields == 0
      then (w, refused no_writable)
      else if ltb batch 1
      then (w, refused (too_wide (length fields)))
      else send_batches (length rows) batch (length rows)
          (batch_statement d si fields (insert_prefix d table fields) returning rows) 0 w

  unfoldable pub described : Result Struct → (W → W × Outcome) → W → W × Outcome
  described (ok v) next w = next w
  described (err e) next w = (w, refused e)
  described panic next w = (w, crashed)

  unfoldable pub insert_many :
      Dialect → Bytes → StructInfo → WriteConfig → List Subject → W → W × Outcome
  unfolding described send_rows struct_of
  insert_many d table si c [] w = (w, done)
  insert_many d table si c (s ∷ ss) w =
      described (struct_of si s)
        (send_rows d table si (writable_fields si c false) c.returning (s ∷ ss)) w
