-- ===== src/Write/Placeholders.antt =====
-- write.go: the placeholders of a row, behind the columns of `Insert` and in a batch of `InsertMany`.
use row.Prelude.{
  ℕ, ◌+◌, Bool, true, false, ltb, List, [], ◌∷◌, ◌++◌, map, ◌≡◌, refl, sym, ap, ap₂, subst, ◌∙◌,
  arith, Bytes, codes, length, length-append, append-nil, append_assoc, if◌then◌else◌,
}
use row.Dialect.Engines.{Dialect, IsAppending}
use row.Bind.Value.{Value}
use row.Bind.Pieces.{show}
use row.Qb.Writer.{Writer, str}
use row.Mapper.Types.{Field}
use row.Write.Statement.{Struct, insert_columns, insert_placeholders}
use row.Write.Many.{row_values, write_row}
use row.Write.Aligned.{Puts, slots, Puts-trans, Puts-str, Puts-then, Puts-later, slots-Puts}

abbrev writer_of : Bytes → List Value → Writer
writer_of b xs = record { b = b; args = xs }

abbrev with_args : Bytes → List Value → Bytes × List Value
with_args b xs = (b, xs)

module _ (d : Dialect) where
  insert_columns-args :
      (v : Struct) (later : Bool) (fs : List Field) (w : Writer)
      → (insert_columns d v later fs w).args ≡ w.args ++ map v fs
  unfolding insert_columns
  insert_columns-args v later [] w = sym (append-nil w.args)
  insert_columns-args v later (f ∷ fs) w =
      insert_columns-args v true fs _
      ∙ append_assoc _ (v f ∷ []) (map v fs)
      ∙ ap (λ xs. xs ++ v f ∷ map v fs) (same_args later w)
    where
      same_args : (b : Bool) (u : Writer) → (if b then str (codes ", ") u else u).args ≡ u.args
      same_args true u = refl
      same_args false u = refl

  insert_columns-text :
      (v : Struct) (later : Bool) (fs : List Field) (w : Writer)
      → (t : Bytes) × ((insert_columns d v later fs w).b ≡ w.b ++ t)
  unfolding insert_columns
  insert_columns-text v later [] w = ([], sym (append-nil w.b))
  insert_columns-text v later (f ∷ fs) w =
      let (t, e) = insert_columns-text v true fs _ in
      let (t', e') = separated later w in
      let q = d.quote_ident f.column in
      (
        t' ++ (q ++ t),
        e
            ∙ ap (λ x. (x ++ q) ++ t) e'
            ∙ append_assoc (w.b ++ t') q t
            ∙ append_assoc w.b t' (q ++ t),
      )
    where
      separated :
          (b : Bool) (u : Writer)
          → (t : Bytes) × ((if b then str (codes ", ") u else u).b ≡ u.b ++ t)
      separated true u = (codes ", ", refl)
      separated false u = ([], sym (append-nil u.b))

  module _ (a : IsAppending d) where
    -- one more placeholder
    placeholder-show :
        (ph : Bytes) (n : ℕ) (later : Bool) (x : Value) (xs : List Value)
        → d.append_placeholder (if later then ph ++ codes ", " else ph) (n + 1)
            ++ show d (n + 1) (slots true xs)
          ≡ ph ++ show d n (slots later (x ∷ xs))
    placeholder-show ph n true x xs =
        let p = d.append_placeholder [] (n + 1) in
        let rest = show d (n + 1) (slots true xs) in
        ap (λ y. y ++ rest) (a.appends (ph ++ codes ", ") (n + 1))
        ∙ append_assoc (ph ++ codes ", ") p rest
        ∙ append_assoc ph (codes ", ") (p ++ rest)
    placeholder-show ph n false x xs =
        let p = d.append_placeholder [] (n + 1) in
        let rest = show d (n + 1) (slots true xs) in
        ap (λ y. y ++ rest) (a.appends ph (n + 1)) ∙ append_assoc ph p rest

    insert_placeholders-show :
        (v : Struct) (i : ℕ) (fs : List Field) (ph : Bytes)
        → insert_placeholders d i fs ph ≡ ph ++ show d i (slots (ltb 0 i) (map v fs))
    unfolding insert_placeholders
    insert_placeholders-show v i [] ph = sym (append-nil ph)
    insert_placeholders-show v i (f ∷ fs) ph =
        let ph' = d.append_placeholder (if ltb 0 i then ph ++ codes ", " else ph) (i + 1) in
        let e : ltb 0 (i + 1) ≡ true = ground arith in
        insert_placeholders-show v (i + 1) fs ph'
        ∙ ap (λ b. ph' ++ show d (i + 1) (slots b (map v fs))) e
        ∙ placeholder-show ph i (ltb 0 i) (v f) (map v fs)

    row_values-show :
        (v : Struct) (later : Bool) (fs : List Field) (ph : Bytes) (xs : List Value)
        → row_values d v later fs ph xs
          ≡ (ph ++ show d (length xs) (slots later (map v fs)), xs ++ map v fs)
    unfolding row_values
    row_values-show v later [] ph xs =
        let f : (ph, xs) ≡ (ph ++ [], xs ++ []) =
          ap₂ with_args (sym (append-nil ph)) (sym (append-nil xs)) in
        f
    row_values-show v later (f ∷ fs) ph xs =
        let n : length (xs ++ v f ∷ []) ≡ length xs + 1 =
          omega (arith, length-append xs (v f ∷ [])) in
        let buffer = if later then ph ++ codes ", " else ph in
        row_values-show v true fs _ _
        ∙ ap₂ with_args
            (ap (λ k. d.append_placeholder buffer k ++ show d k (slots true (map v fs))) n
              ∙ placeholder-show ph (length xs) later (v f) (map v fs))
            (append_assoc xs (v f ∷ []) (map v fs))

    pub write_row-Puts :
        (fs : List Field) (later : Bool) (v : Struct) (w : Writer)
        → Puts d (map v fs) w (write_row d fs later v w)
    write_row-Puts fs later v w =
        let u = str (codes "(") (if later then str (codes ", ") w else w) in
        let xs = map v fs in
        let filled : Writer = record {
          b = u.b ++ show d (length u.args) (slots false xs);
          args = u.args ++ xs;
        } in
        let e = row_values-show v false fs [] u.args in
        subst (λ p. Puts d xs w (str (codes ")") (record { b = u.b ++ p.0; args = p.1 }))) (sym e)
          (Puts-then d xs (codes ")") w filled (
            Puts-trans d [] xs w u filled
              (Puts-then d [] (codes "(") w _ (Puts-later d later (codes ", ") w))
              (slots-Puts d a false xs u)))

    -- what `Insert` writes behind its table: the columns, and a placeholder for each
    pub insert_values-Puts :
        (v : Struct) (fs : List Field) (b : Bytes)
        → Puts d (map v fs) (writer_of b []) (
            str (codes ")") (
              str
                (insert_placeholders d 0 fs [])
                (str (codes ") VALUES (") (insert_columns d v false fs (writer_of b [])))))
    insert_values-Puts v fs b =
        let w = writer_of b [] in
        let vs = map v fs in
        let (t, e) = insert_columns-text v false fs w in
        let listed = str (codes ") VALUES (") (str t w) in
        let filled = writer_of (listed.b ++ show d 0 (slots false vs)) vs in
        let same =
          ap₂ writer_of
            (ap₂ (λ x y. (x ++ codes ") VALUES (") ++ y) e (insert_placeholders-show v 0 fs []))
            (insert_columns-args v false fs w) in
        subst (λ x. Puts d vs w (str (codes ")") x)) (sym same)
          (Puts-then d vs (codes ")") w filled (
            Puts-trans d [] vs w listed filled
              (Puts-then d [] (codes ") VALUES (") w _ (Puts-str d t w))
              (slots-Puts d a false vs listed)))
