-- ===== src/Write/Slices.antt =====
-- The rows that a batch of `InsertMany` reads by their indexes are those of a slice.
use Prim.Native.Nat.{min}
use row.Prelude.{
  ℕ, zero, suc, ◌+◌, ◌-◌, ◌≤◌, ◌<◌, Bool, true, false, ltb, List, [], ◌∷◌, ◌≡◌, refl, sym, ap, ◌∙◌,
  arith, some, Bytes, length, get_elem?, take, drop, slice, take_of_length-le, ap₂, ◌++◌,
  length-take, length-drop, drop-drop, take-append-drop, Bool-cases, inl, inr,
}
use row.Dialect.Engines.{Dialect}
use row.Qb.Writer.{Writer}
use row.Mapper.Types.{Field, StructInfo}
use row.Write.Statement.{Result, ok, ◌>>=◌, Struct, Subject, struct_of, append_returning}
use row.Write.Many.{write_row, row_at, batch_rows, batch_statement}

-- A row that is in range is read, and it is the first one of those from its index on.
pub get_elem?-drop :
    (rows : List Subject) (i : ℕ)
    → i < length rows
    → (s : Subject) × (get_elem? rows i ≡ some s) × (drop i rows ≡ s ∷ drop (suc i) rows)
get_elem?-drop [] i h = absurd (omega (arith, h))
get_elem?-drop (s ∷ rows) zero h = (s, refl, refl)
get_elem?-drop (s ∷ rows) (suc i) h = get_elem?-drop rows i (omega (arith, h))

pub row_at-ok :
    (rows : List Subject) (i : ℕ) (s : Subject) → get_elem? rows i ≡ some s → row_at rows i ≡ ok s
unfolding row_at
row_at-ok rows i s e = rw (e, row_at) refl

pub length-slice :
    (rows : List Subject) (start stop : ℕ)
    → start ≤ stop
    → stop ≤ length rows
    → length (slice rows start stop) ≡ stop - start
length-slice rows start stop p h =
    omega (arith, p, h, length-take (stop - start) (drop start rows), length-drop start rows)

take-min : (n : ℕ) (rows : List Subject) → take (min n (length rows)) rows ≡ take n rows
take-min n rows = elim (Bool-cases (ltb (length rows) n)) [
  | inl longer ↦
      let m : length rows ≤ min n (length rows) = ground (arith, longer) in
      let k : length rows ≤ n = ground (arith, longer) in
      take_of_length-le (min n (length rows)) rows m ∙ sym (take_of_length-le n rows k)
  | inr within ↦ ap (λ k. take k rows) (ground (arith, within))
]

-- A batch and the rows behind it are the rows from its start on.
pub slice-append-drop :
    (rows : List Subject) (start batch : ℕ)
    → start ≤ length rows
    → slice rows start (min (start + batch) (length rows)) ++ drop (start + batch) rows
      ≡ drop start rows
slice-append-drop rows start batch p =
    let n : min (start + batch) (length rows) - start ≡ min batch (length (drop start rows)) =
      omega (arith, p, length-drop start rows) in
    ap (λ k. take k (drop start rows) ++ drop (start + batch) rows) n
    ∙ ap₂ (λ x y. x ++ y) (take-min batch (drop start rows)) (sym (drop-drop batch start rows))
    ∙ take-append-drop batch (drop start rows)

module _ (d : Dialect) (si : StructInfo) (fs : List Field) where
  -- the rows of a list, one after the other; the flag says that a row stands before them
  unfoldable pub each_row : Bool → List Subject → Writer → Result Writer
  each_row later [] w = ok w
  each_row later (s ∷ ss) w = struct_of si s >>= λ v. each_row true ss (write_row d fs later v w)

  batch_rows-each_row :
      (rows : List Subject) (start i n : ℕ) (w : Writer)
      → start ≤ i
      → i + n ≤ length rows
      → batch_rows d si fs rows start i n w ≡ each_row (ltb start i) (take n (drop i rows)) w
  unfolding batch_rows each_row
  batch_rows-each_row rows start i zero w p h = refl
  batch_rows-each_row rows start i (suc n) w p h =
      let (s, found, split) = get_elem?-drop rows i (omega (arith, h)) in
      let one : i + 1 ≡ suc i = omega arith in
      let later : ltb start (i + 1) ≡ true = ground arith in
      let rest : (v : Struct)
          → batch_rows d si fs rows start (i + 1) n (write_row d fs (ltb start i) v w)
            ≡ each_row true (take n (drop (suc i) rows)) (write_row d fs (ltb start i) v w) =
        λ v.
          batch_rows-each_row rows start (i + 1) n (write_row d fs (ltb start i) v w)
            (omega (arith, p)) (omega (arith, h))
          ∙ ap (λ b. each_row b (take n (drop (i + 1) rows)) (write_row d fs (ltb start i) v w))
              later
          ∙ ap (λ k. each_row true (take n (drop k rows)) (write_row d fs (ltb start i) v w)) one in
      ap
        (λ r. r >>= (λ t. struct_of si t >>= λ v.
          batch_rows d si fs rows start (i + 1) n (write_row d fs (ltb start i) v w)))
        (row_at-ok rows i s found)
      ∙ ap (λ f. struct_of si s >>= f) (λ k v. rest v k)
      ∙ ap (λ ss. each_row (ltb start i) (take (suc n) ss) w) (sym split)

  -- the statement of a list of rows
  abbrev pub each_statement : Bytes → List Bytes → List Subject → Result Writer
  each_statement prefix returning ss =
      each_row false ss (record { b = prefix; args = [] }) >>= append_returning d returning

  -- The statement of a batch in range is that of its slice of the rows.
  pub batch_statement-slice :
      (prefix : Bytes) (returning : List Bytes) (rows : List Subject) (start stop : ℕ)
      → start ≤ stop
      → stop ≤ length rows
      → batch_statement d si fs prefix returning rows start stop
        ≡ each_statement prefix returning (slice rows start stop)
  unfolding batch_statement
  batch_statement-slice prefix returning rows start stop p h =
      let first : ltb start start ≡ false = ground arith in
      let begun : Writer = record { b = prefix; args = [] } in
      ap (λ r. r >>= append_returning d returning)
        (batch_rows-each_row rows start start (stop - start) begun (omega arith)
            (omega (arith, p, h))
          ∙ ap (λ b. each_row b (slice rows start stop) begun) first)

  -- All rows of a list are a batch.
  pub batch_statement-all :
      (prefix : Bytes) (returning : List Bytes) (ss : List Subject)
      → batch_statement d si fs prefix returning ss 0 (length ss)
        ≡ each_statement prefix returning ss
  batch_statement-all prefix returning ss =
      batch_statement-slice prefix returning ss 0 (length ss) (omega arith) (omega arith)
      ∙ ap (each_statement prefix returning) (take_of_length-le (length ss - 0) ss (omega arith))
