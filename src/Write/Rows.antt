-- ===== src/Write/Rows.antt =====
-- What the statement of a batch of `InsertMany` binds.
use row.Prelude.{
  ℕ, ◌*◌, ◌-◌, ◌≤◌, slice, subst, Bool, true, false, List, [], ◌∷◌, ◌++◌, map, ◌≡◌, refl, sym, ap,
  ◌∙◌, inl, inr, arith, none, Option-cases, Bytes, length, length-append, length-map, append-nil,
}
use row.Dialect.Engines.{Dialect, IsAppending}
use row.Bind.Value.{Value}
use row.Bind.Pieces.{Piece, show, args}
use row.Qb.Writer.{Writer}
use row.Qb.Aligned.{Emits-refl}
use row.Mapper.Types.{Field, StructInfo}
use row.Write.Statement.{
  unmapped, Result, ok, err, panic, ◌>>=◌, Struct, Subject, nil_subject, other_subject,
  struct_subject, struct_of, append_returning,
}
use row.Write.Many.{write_row, batch_statement}
use row.Write.Slices.{each_row, each_statement, batch_statement-slice, length-slice}
use row.Write.Aligned.{PutsResult, >>=-Puts, append_returning-Puts}
use row.Write.Placeholders.{write_row-Puts}

-- The values of rows, one row after the other.
abbrev pub row_list : List Field → List Subject → List Value
row_list fs [] = []
row_list fs (struct_subject v ∷ ss) = map v fs ++ row_list fs ss
row_list fs (_ ∷ ss) = row_list fs ss

-- A statement, if there is one, is `prefix` and pieces with these values: its placeholders are
-- numbered from 1 in the order of the arguments, which are the values, so many. It is no panic.
abbrev pub BindsRows : Dialect → Bytes → List Value → ℕ → Result Writer → Type 0
BindsRows d prefix vs n (ok st) =
    (ps : List Piece) × (st.b ≡ prefix ++ show d 0 ps)
    × (st.args ≡ args ps)
    × (st.args ≡ vs)
    × (length st.args ≡ n)
BindsRows d prefix vs n (err e) = Unit {0}
BindsRows d prefix vs n panic = ⊥

-- Rows of which each is a struct.
abbrev IsStructs : List Subject → Type 0
IsStructs [] = Unit {0}
IsStructs (struct_subject v ∷ ss) = IsStructs ss
IsStructs (_ ∷ ss) = ⊥

length-row_list :
    (fs : List Field) (ss : List Subject)
    → IsStructs ss
    → length (row_list fs ss) ≡ length ss * length fs
length-row_list fs [] h = omega arith
length-row_list fs (struct_subject v ∷ ss) h =
    omega
      (arith, length-append (map v fs) (row_list fs ss), length-map v fs, length-row_list fs ss h)
length-row_list fs (nil_subject ∷ ss) h = absurd h
length-row_list fs (other_subject ∷ ss) h = absurd h

module _ (d : Dialect) (a : IsAppending d) (si : StructInfo) (fs : List Field) where
  each_row-Puts :
      (later : Bool) (ss : List Subject) (w : Writer)
      → PutsResult d (row_list fs ss) w (each_row d si fs later ss w)
  unfolding each_row struct_of
  each_row-Puts later [] w = (Emits-refl d w, sym (append-nil w.args))
  each_row-Puts later (nil_subject ∷ ss) w = tt
  each_row-Puts later (other_subject ∷ ss) w = tt
  each_row-Puts later (struct_subject v ∷ ss) w = elim (Option-cases si.error) [
    | inr (x, e) ↦ rw e tt
    | inl e ↦ rw e (
        >>=-Puts d (map v fs) (row_list fs ss) w (ok (write_row d fs later v w))
          (each_row d si fs true ss) (write_row-Puts d a fs later v w) (each_row-Puts true ss))
  ]

  struct_of-ok : (v : Struct) → si.error ≡ none → struct_of si (struct_subject v) ≡ ok v
  unfolding struct_of
  struct_of-ok v e = rw e refl

  each_row-IsStructs :
      (later : Bool) (ss : List Subject) (w w' : Writer)
      → each_row d si fs later ss w ≡ ok w'
      → IsStructs ss
  unfolding each_row struct_of
  each_row-IsStructs later [] w w' h = tt
  each_row-IsStructs later (nil_subject ∷ ss) w w' h = cc
  each_row-IsStructs later (other_subject ∷ ss) w w' h = cc
  each_row-IsStructs later (struct_subject v ∷ ss) w w' h = elim (Option-cases si.error) [
    | inr (x, e) ↦ let g : err (unmapped x) ≡ ok w' = sym (rw e refl) ∙ h in cc
    | inl e ↦
        let next : Struct → Result Writer =
          λ u. each_row d si fs true ss (write_row d fs later u w) in
        each_row-IsStructs true ss (write_row d fs later v w) w'
          (sym (ap (λ m. m >>= next) (struct_of-ok v e)) ∙ h)
  ]

  counted :
      (prefix : Bytes) (ss : List Subject) (r : Result Writer)
      → IsStructs ss
      → PutsResult d (row_list fs ss ++ []) (record { b = prefix; args = [] }) r
      → BindsRows d prefix (row_list fs ss) (length ss * length fs) r
  counted prefix ss (ok st) s (h, p) =
      let q = p ∙ append-nil (row_list fs ss) in
      (h.pieces, h.text_is, h.args_are, q, ap length q ∙ length-row_list fs ss s)
  counted prefix ss (err e) s h = tt
  counted prefix ss panic s h = h

  made :
      (prefix : Bytes) (returning : List Bytes) (ss : List Subject) (r : Result Writer)
      → PutsResult d
          (row_list fs ss ++ [])
          (record { b = prefix; args = [] })
          (r >>= append_returning d returning)
      → ((w : Writer) → r ≡ ok w → IsStructs ss)
      → BindsRows d prefix
          (row_list fs ss)
          (length ss * length fs)
          (r >>= append_returning d returning)
  made prefix returning ss (ok w) h s =
      counted prefix ss (append_returning d returning w) (s w refl) h
  made prefix returning ss (err e) h s = tt
  made prefix returning ss panic h s = h

  each_statement-BindsRows :
      (prefix : Bytes) (returning : List Bytes) (ss : List Subject)
      → BindsRows d prefix
          (row_list fs ss)
          (length ss * length fs)
          (each_statement d si fs prefix returning ss)
  each_statement-BindsRows prefix returning ss =
      let begun : Writer = record { b = prefix; args = [] } in
      made prefix returning ss (each_row d si fs false ss begun)
        (>>=-Puts d (row_list fs ss) [] begun (each_row d si fs false ss begun)
          (append_returning d returning) (each_row-Puts false ss begun)
          (append_returning-Puts d returning))
        (each_row-IsStructs false ss begun)

  -- For a dialect that appends its placeholders, the statement of any batch of `insert_many` that is
  -- in range, if there is one, numbers its placeholders from 1 in the order of its arguments. These
  -- are the values of the rows from `start` to the one before `stop`, one row after the other, as many
  -- as rows times columns.
  pub batch_statement-BindsRows :
      (prefix : Bytes) (returning : List Bytes) (rows : List Subject) (start stop : ℕ)
      → start ≤ stop
      → stop ≤ length rows
      → BindsRows d prefix
          (row_list fs (slice rows start stop))
          ((stop - start) * length fs)
          (batch_statement d si fs prefix returning rows start stop)
  batch_statement-BindsRows prefix returning rows start stop p h =
      let b = slice rows start stop in
      let n : length b ≡ stop - start = length-slice rows start stop p h in
      subst (λ r. BindsRows d prefix (row_list fs b) ((stop - start) * length fs) r)
        (sym (batch_statement-slice d si fs prefix returning rows start stop p h))
        (subst
          (λ k.
            BindsRows d prefix (row_list fs b) (k * length fs)
              (each_statement d si fs prefix returning b))
          n (each_statement-BindsRows prefix returning b))
