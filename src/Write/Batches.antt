-- ===== src/Write/Batches.antt =====
-- What `InsertMany` sends.
use Prim.Native.Nat.{min}
use row.Prelude.{
  ℕ, zero, suc, ◌+◌, ◌-◌, ap₂, slice, drop_of_length-le, ◌≤◌, ◌<◌, false, ltb, ◌==◌, List, [], ◌∷◌,
  ◌++◌, ◌≡◌, refl, sym, ap, ◌∙◌, inl, inr, arith, Option, none, Bytes, length, drop, Bool-cases,
  Option-cases,
}
use row.Errors.{Err}
use row.Dialect.Engines.{Dialect}
use row.Qb.Writer.{Writer}
use row.Mapper.Types.{Field, StructInfo}
use row.Write.Options.{WriteConfig, writable_fields}
use row.Write.Statement.{no_writable, too_wide, Result, ok, err, panic, Struct, Subject, struct_of}
use row.Write.Sizes.{concat, AllSized, AllWithin, batch_size-bound, AllSized-AllWithin}
use row.Write.Slices.{length-slice, slice-append-drop, batch_statement-slice, batch_statement-all}
use row.Write.Many.{
  Outcome, done, refused, failed, exhausted, batch_size, insert_prefix, batch_statement, after_send,
  send_statement, send_batches, send_rows, described, insert_many,
}

-- Each of the batches has a statement, and these are sent in their order, each with success.
abbrev pub Sent :
    {W : Type 0}
    → (Writer → ℕ → W → W × Option Err)
    → (List Subject → Result Writer)
    → List (List Subject)
    → W
    → W
    → Type 0
Sent send statement [] w w' = w ≡ w'
Sent send statement (b ∷ bs) w w' =
    (st : Writer) × (statement b ≡ ok st)
    × ((send st (length b) w).1 ≡ none)
    × Sent send statement bs (send st (length b) w).0 w'

module _ {W : Type 0} (send : Writer → ℕ → W → W × Option Err) where
  -- A statement after which the loop ends well: it is there, it is sent, and the rest ends well.
  send_statement-done :
      (r : Result Writer) (n : ℕ) (next : W → W × Outcome) (w w' : W)
      → send_statement send r n next w ≡ (w', done)
      → (st : Writer) × (r ≡ ok st) × ((send st n w).1 ≡ none) × (next (send st n w).0 ≡ (w', done))
  unfolding send_statement after_send
  send_statement-done (ok st) n next w w' h = elim (Option-cases (send st n w).1) [
    | inl sent ↦ (st, refl, sent, sym (rw (sent, after_send) refl) ∙ h)
    | inr (e, met) ↦
        let x : (((send st n w).0, failed e)) ≡ (w', done) = sym (rw (met, after_send) refl) ∙ h in
        cc
  ]
  send_statement-done (err e) n next w w' h = cc
  send_statement-done panic n next w w' h = cc

  -- The loop, where the statement of a batch in range is that of its slice of the rows.
  module _ (batch : ℕ) (rows : List Subject) (made : ℕ → ℕ → Result Writer)
      (statement : List Subject → Result Writer)
      (same : (start stop : ℕ)
        → start ≤ stop
        → stop ≤ length rows
        → made start stop ≡ statement (slice rows start stop))
      (some_rows : 0 < batch) where
    ended-Sent :
        (start : ℕ) (w w' : W)
        → ltb start (length rows) ≡ false
        → w ≡ w'
        → (bs : List (List Subject)) × (concat bs ≡ drop start rows)
          × AllSized batch bs
          × Sent send statement bs w w'
    ended-Sent start w w' past h =
        let beyond : length rows ≤ start = ground (arith, past) in
        ([], sym (drop_of_length-le start rows beyond), tt, h)

    send_batches-Sent :
        (fuel start : ℕ) (w w' : W)
        → send_batches send fuel batch (length rows) made start w ≡ (w', done)
        → (bs : List (List Subject)) × (concat bs ≡ drop start rows)
          × AllSized batch bs
          × Sent send statement bs w w'
    unfolding send_batches
    send_batches-Sent zero start w w' h = elim (Bool-cases (ltb start (length rows))) [
      | inl more ↦ let x : (w, exhausted) ≡ (w', done) = sym (rw more refl) ∙ h in cc
      | inr past ↦
          let x : (w, done) ≡ (w', done) = sym (rw past refl) ∙ h in
          ended-Sent start w w' past (ap (λ y. y.0) x)
    ]
    send_batches-Sent (suc fuel) start w w' h = elim (Bool-cases (ltb start (length rows))) [
      | inr past ↦
          let x : (w, done) ≡ (w', done) = sym (rw (past, send_batches) refl) ∙ h in
          ended-Sent start w w' past (ap (λ y. y.0) x)
      | inl inside ↦
          let below : start < length rows = ground (arith, inside) in
          let stop = min (start + batch) (length rows) in
          let b = slice rows start stop in
          let next = send_batches send fuel batch (length rows) made (start + batch) in
          let lo : start ≤ stop = omega (arith, below) in
          let hi : stop ≤ length rows = omega arith in
          let n : length b ≡ stop - start = length-slice rows start stop lo hi in
          let x : send_statement send (made start stop) (stop - start) next w ≡ (w', done) =
            sym (rw (inside, send_batches) refl) ∙ h in
          let y : send_statement send (statement b) (length b) next w ≡ (w', done) =
            ap₂ (λ r k. send_statement send r k next w) (sym (same start stop lo hi)) n ∙ x in
          let (st, is_made, sent, more) =
            send_statement-done (statement b) (length b) next w w' y in
          let (bs, all, sized, others) =
            send_batches-Sent fuel (start + batch) (send st (length b) w).0 w' more in
          (
            b ∷ bs,
            ap (λ z. b ++ z) all ∙ slice-append-drop rows start batch (omega (arith, below)),
            (omega (arith, n, below, some_rows), omega (arith, n), sized),
            (st, is_made, sent, others),
          )
    ]

module _ {W : Type 0} (send : Writer → ℕ → W → W × Option Err) (d : Dialect) (table : Bytes)
    (si : StructInfo) where
  described-done :
      (r : Result Struct) (next : W → W × Outcome) (w w' : W)
      → described send r next w ≡ (w', done)
      → next w ≡ (w', done)
  unfolding described
  described-done (ok v) next w w' h = h
  described-done (err e) next w w' h = cc
  described-done panic next w w' h = cc

  send_rows-Sent :
      (fields : List Field) (returning : List Bytes) (rows : List Subject) (w w' : W)
      → send_rows send d table si fields returning rows w ≡ (w', done)
      → (bs : List (List Subject)) × (concat bs ≡ rows)
        × AllWithin d (length fields) bs
        × Sent send
            (λ b.
              batch_statement d si fields (insert_prefix d table fields) returning b 0 (length b))
            bs
            w
            w'
  unfolding send_rows
  send_rows-Sent fields returning rows w w' h =
      let batch = batch_size d (length fields) (length rows) in
      let prefix = insert_prefix d table fields in
      let made = batch_statement d si fields prefix returning rows in
      let statement : List Subject → Result Writer =
        λ b. batch_statement d si fields prefix returning b 0 (length b) in
      let same : (start stop : ℕ)
          → start ≤ stop
          → stop ≤ length rows
          → made start stop ≡ statement (slice rows start stop) =
        λ start stop p q.
          batch_statement-slice d si fields prefix returning rows start stop p q
          ∙ sym (batch_statement-all d si fields prefix returning (slice rows start stop)) in
      elim (Bool-cases (length fields == 0)) [
        | inl y ↦ let x : (w, refused no_writable) ≡ (w', done) = sym (rw y refl) ∙ h in cc
        | inr n ↦ elim (Bool-cases (ltb batch 1)) [
          | inl y ↦
              let x : (w, refused (too_wide (length fields))) ≡ (w', done) =
                sym (rw (n, y) refl) ∙ h in
              cc
          | inr m ↦
              let x : send_batches send (length rows) batch (length rows) made 0 w ≡ (w', done) =
                sym (rw (n, m) refl) ∙ h in
              let (bs, all, sized, sent) =
                send_batches-Sent send batch rows made statement same (ground (arith, m))
                  (length rows) 0 w w' x in
              (
                bs,
                all,
                AllSized-AllWithin d (length fields) batch bs
                    (batch_size-bound d (length fields) (length rows)) sized,
                sent,
              )
        ]
      ]

  -- If `insert_many` returns nil, then its rows, in their order, are those of batches, of which none is
  -- empty and none has more values than the dialect has placeholders, when it limits them; and the
  -- statements of the batches, which all exist, were sent in that order, each with success.
  pub insert_many-Sent :
      (c : WriteConfig) (rows : List Subject) (w w' : W)
      → insert_many send d table si c rows w ≡ (w', done)
      → (bs : List (List Subject)) × (concat bs ≡ rows)
        × AllWithin d (length (writable_fields si c false)) bs
        × Sent send
            (λ b.
              batch_statement d si
                (writable_fields si c false)
                (insert_prefix d table (writable_fields si c false))
                c.returning
                b
                0
                (length b))
            bs
            w
            w'
  unfolding insert_many described
  insert_many-Sent c [] w w' h = ([], refl, tt, ap (λ x. x.0) h)
  insert_many-Sent c (s ∷ ss) w w' h =
      let fields = writable_fields si c false in
      let next = send_rows send d table si fields c.returning (s ∷ ss) in
      let go : described send (struct_of si s) next w ≡ (w', done) → next w ≡ (w', done) =
        described-done (struct_of si s) next w w' in
      send_rows-Sent fields c.returning (s ∷ ss) w w' (go h)
