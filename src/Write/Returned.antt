-- ===== src/Write/Returned.antt =====
-- `InsertMany` returns: its loop ends, and no index is out of range.
use Prim.Native.Nat.{min}
use row.Prelude.{
  ℕ, zero, suc, ◌+◌, ◌-◌, ◌≤◌, ◌<◌, Bool, true, false, not, ltb, ◌==◌, List, [], ◌∷◌, ◌≡◌, refl, ap,
  inl, inr, arith, Option, Bytes, length, Bool-cases, Option-cases,
}
use row.Write.Slices.{get_elem?-drop, row_at-ok}
use row.Errors.{Err}
use row.Dialect.Engines.{Dialect}
use row.Qb.Writer.{Writer}
use row.Mapper.Types.{Field, StructInfo}
use row.Write.Options.{WriteConfig, writable_fields}
use row.Write.Statement.{
  Result, ok, err, panic, ◌>>=◌, Struct, Subject, nil_subject, other_subject, struct_subject,
  struct_of, append_returning,
}
use row.Write.Many.{
  Outcome, crashed, exhausted, batch_size, write_row, row_at, batch_rows, insert_prefix,
  batch_statement, after_send, send_statement, send_batches, send_rows, described, insert_many,
}

-- The function gives its caller nil or an error.
abbrev pub is_returned : Outcome → Bool
is_returned crashed = false
is_returned exhausted = false
is_returned _ = true

abbrev pub is_panic {ℓ} : {A : Type ℓ} → Result A → Bool
is_panic panic = true
is_panic _ = false

>>=-is_panic :
    {A B : Type 0} (m : Result A) (f : A → Result B)
    → is_panic m ≡ false
    → ((a : A) → is_panic (f a) ≡ false)
    → is_panic (m >>= f) ≡ false
>>=-is_panic (ok a) f p q = q a
>>=-is_panic (err e) f p q = refl
>>=-is_panic panic f p q = p

pub struct_of-is_panic : (si : StructInfo) (s : Subject) → is_panic (struct_of si s) ≡ false
unfolding struct_of
struct_of-is_panic si nil_subject = refl
struct_of-is_panic si other_subject = refl
struct_of-is_panic si (struct_subject v) = elim (Option-cases si.error) [
  | inl e ↦ rw e refl
  | inr (x, e) ↦ rw e refl
]

append_returning-is_panic :
    (d : Dialect) (cs : List Bytes) (w : Writer) → is_panic (append_returning d cs w) ≡ false
unfolding append_returning
append_returning-is_panic d [] w = refl
append_returning-is_panic d (c ∷ cs) w = elim (Bool-cases (not d.features.returning)) [
  | inl y ↦ rw y refl
  | inr n ↦ rw n refl
]

batch_rows-is_panic :
    (d : Dialect) (si : StructInfo) (fs : List Field) (rows : List Subject) (start i n : ℕ)
    (w : Writer)
    → i + n ≤ length rows
    → is_panic (batch_rows d si fs rows start i n w) ≡ false
unfolding batch_rows
batch_rows-is_panic d si fs rows start i zero w h = refl
batch_rows-is_panic d si fs rows start i (suc n) w h =
    let (s, found, split) = get_elem?-drop rows i (omega (arith, h)) in
    let read : is_panic (row_at rows i) ≡ false = ap is_panic (row_at-ok rows i s found) in
    >>=-is_panic (row_at rows i) _ read (λ t.
      >>=-is_panic (struct_of si t) _ (struct_of-is_panic si t) (λ v.
        batch_rows-is_panic d si fs rows start (i + 1) n (write_row d fs (ltb start i) v w)
          (omega (arith, h))))

batch_statement-is_panic :
    (d : Dialect) (si : StructInfo) (fs : List Field) (prefix : Bytes) (returning : List Bytes)
    (rows : List Subject) (start stop : ℕ)
    → start ≤ stop
    → stop ≤ length rows
    → is_panic (batch_statement d si fs prefix returning rows start stop) ≡ false
unfolding batch_statement
batch_statement-is_panic d si fs prefix returning rows start stop p h =
    >>=-is_panic (batch_rows d si fs rows start start (stop - start) _) _
      (batch_rows-is_panic d si fs rows start start (stop - start)
        (record { b = prefix; args = [] }) (omega (arith, p, h)))
      (append_returning-is_panic d returning)

module _ {W : Type 0} (send : Writer → ℕ → W → W × Option Err) where
  send_statement-returned :
      (r : Result Writer) (n : ℕ) (next : W → W × Outcome) (w : W)
      → is_panic r ≡ false
      → ((v : W) → is_returned (next v).1 ≡ true)
      → is_returned (send_statement send r n next w).1 ≡ true
  unfolding send_statement after_send
  send_statement-returned (ok st) n next w p q = elim (Option-cases (send st n w).1) [
    | inl sent ↦ rw (sent, after_send) (q (send st n w).0)
    | inr (e, met) ↦ rw (met, after_send) refl
  ]
  send_statement-returned (err e) n next w p q = refl
  send_statement-returned panic n next w p q = cc

  send_batches-returned :
      (fuel batch count : ℕ) (statement : ℕ → ℕ → Result Writer) (start : ℕ) (w : W)
      → 0 < batch
      → count ≤ start + fuel
      → ((from to : ℕ) → from ≤ to → to ≤ count → is_panic (statement from to) ≡ false)
      → is_returned (send_batches send fuel batch count statement start w).1 ≡ true
  unfolding send_batches
  send_batches-returned zero batch count statement start w p q r =
      let past : ltb start count ≡ false = ground (arith, q) in rw past refl
  send_batches-returned (suc fuel) batch count statement start w p q r =
      elim (Bool-cases (ltb start count)) [
        | inr past ↦ rw (past, send_batches) refl
        | inl inside ↦
            let below : start < count = ground (arith, inside) in
            let stop = min (start + batch) count in
            rw (inside, send_batches)
              (send_statement-returned (statement start stop) (stop - start)
                (send_batches send fuel batch count statement (start + batch)) w
                (r start stop (omega (arith, below)) (omega arith))
                (λ v.
                  send_batches-returned fuel batch count statement (start + batch) v p
                    (omega (arith, p, q)) r))
      ]

  described-returned :
      (r : Result Struct) (next : W → W × Outcome) (w : W)
      → is_panic r ≡ false
      → ((v : W) → is_returned (next v).1 ≡ true)
      → is_returned (described send r next w).1 ≡ true
  unfolding described
  described-returned (ok v) next w p q = q w
  described-returned (err e) next w p q = refl
  described-returned panic next w p q = cc

  send_rows-returned :
      (d : Dialect) (table : Bytes) (si : StructInfo) (fields : List Field) (returning : List Bytes)
      (rows : List Subject) (w : W)
      → is_returned (send_rows send d table si fields returning rows w).1 ≡ true
  unfolding send_rows
  send_rows-returned d table si fields returning rows w =
      let batch = batch_size d (length fields) (length rows) in
      elim (Bool-cases (length fields == 0)) [
        | inl y ↦ rw y refl
        | inr n ↦ elim (Bool-cases (ltb batch 1)) [
          | inl y ↦ rw (n, y) refl
          | inr m ↦
              rw (n, m)
                (send_batches-returned (length rows) batch (length rows) _ 0 w (ground arith)
                  (omega arith)
                  (batch_statement-is_panic d si fields (insert_prefix d table fields) returning
                    rows))
        ]
      ]

  -- `insert_many` returns nil or an error, whatever its rows and the options are: its loop ends
  -- within as many rounds as it has rows, and each row that it reads by an index is in range.
  pub insert_many-returned :
      (d : Dialect) (table : Bytes) (si : StructInfo) (c : WriteConfig) (rows : List Subject)
      (w : W)
      → is_returned (insert_many send d table si c rows w).1 ≡ true
  unfolding insert_many
  insert_many-returned d table si c [] w = refl
  insert_many-returned d table si c (s ∷ ss) w =
      described-returned (struct_of si s)
        (send_rows send d table si (writable_fields si c false) c.returning (s ∷ ss)) w
        (struct_of-is_panic si s)
        (send_rows-returned d table si (writable_fields si c false) c.returning (s ∷ ss))
