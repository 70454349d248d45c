-- ===== src/Write/Statements.antt =====
-- What the statements of `Insert`, `InsertMany`, `Update` and `Delete` bind.
use row.Prelude.{
  ℕ, ◌+◌, Bool, true, false, ◌==◌, List, [], ◌∷◌, ◌++◌, map, ◌≡◌, refl, sym, ap, subst, ◌∙◌, inl,
  inr, arith, some, Option-cases, Bytes, codes, length, length-append, get_elem?, append-nil,
  append_assoc, if◌then◌else◌,
}
use row.Dialect.Engines.{Dialect, IsAppending}
use row.Bind.Value.{Value}
use row.Bind.Pieces.{Piece, show, args}
use row.Qb.Writer.{Writer, str}
use row.Qb.Query.Clauses.{blank}
use row.Qb.Aligned.{Emits-refl}
use row.Mapper.Types.{Field, StructInfo}
use row.Mapper.Columns.{pk_from}
use row.Write.Options.{WriteConfig, quote_table, writable_fields}
use row.Write.Statement.{
  WriteError, no_writable, no_primary_key, nothing_to_update, Result, ok, err, panic, ◌>>=◌, Struct,
  struct_subject, struct_of, append_returning, insert_statement, build_insert, assignment,
  set_clause, where_key, update_statement, update_fields, build_update, delete_statement,
  build_delete,
}
use row.Write.Aligned.{
  Puts, PutsResult, Puts-trans, Puts-str, Puts-then, >>=-Puts, append_returning-Puts,
  assignment-Puts, set_clause-Puts,
}
use row.Write.Placeholders.{insert_values-Puts}

-- The fields of the primary key.
unfoldable pub key_fields : List Field → List Field
key_fields [] = []
key_fields (f ∷ fs) = let rest = key_fields fs in if f.pk then f ∷ rest else rest

-- A statement, if there is one, is made of pieces with these values: its placeholders are numbered
-- from 1 in the order of the arguments, which are the values. It is no panic.
abbrev pub Binds : Dialect → List Value → Result Writer → Type 0
Binds d vs (ok st) = (ps : List Piece) × (st.b ≡ show d 0 ps) × (st.args ≡ args ps) × (st.args ≡ vs)
Binds d vs (err e) = Unit {0}
Binds d vs panic = ⊥

get_elem?-append :
    (pre : List Field) (f : Field) (fs : List Field)
    → get_elem? (pre ++ f ∷ fs) (length pre) ≡ some f
get_elem?-append [] f fs = refl
get_elem?-append (g ∷ pre) f fs = get_elem?-append pre f fs

module _ (d : Dialect) where
  PutsResult-Binds : (vs : List Value) (r : Result Writer) → PutsResult d vs blank r → Binds d vs r
  PutsResult-Binds vs (ok st) (h, p) = (h.pieces, h.text_is, h.args_are, p)
  PutsResult-Binds vs (err e) h = tt
  PutsResult-Binds vs panic h = h

  Binds-guard :
      (vs : List Value) (b : Bool) (e : WriteError) (r : Result Writer)
      → Binds d vs r
      → Binds d vs (if b then err e else r)
  Binds-guard vs true e r h = tt
  Binds-guard vs false e r h = h

  -- the rest of an operation, behind `structOf`
  struct_of-Binds :
      (si : StructInfo) (v : Struct) (vs : List Value) (f : Struct → Result Writer)
      → Binds d vs (f v)
      → Binds d vs (struct_of si (struct_subject v) >>= f)
  unfolding struct_of
  struct_of-Binds si v vs f h = elim (Option-cases si.error) [
    | inl e ↦ rw e h
    | inr (x, e) ↦ rw e tt
  ]

  module _ (a : IsAppending d) (table : Bytes) (si : StructInfo) where
    where_key-some :
        (v : Struct) (later : Bool) (i : ℕ) (is : List ℕ) (f : Field) (w : Writer)
        → get_elem? si.fields i ≡ some f
        → where_key d si v later (i ∷ is) w
          ≡ where_key d si v true is (assignment d v later (codes " AND ") f w)
    unfolding where_key
    where_key-some v later i is f w found = rw (found, where_key) refl

    where_key-Puts :
        (v : Struct) (later : Bool) (pre fs : List Field) (w : Writer)
        → si.fields ≡ pre ++ fs
        → PutsResult d
            (map v (key_fields fs))
            w
            (where_key d si v later (pk_from (length pre) fs) w)
    unfolding where_key pk_from key_fields
    where_key-Puts v later pre [] w e = (Emits-refl d w, sym (append-nil w.args))
    where_key-Puts v later pre (f ∷ fs) w e =
        let e' : si.fields ≡ (pre ++ f ∷ []) ++ fs = e ∙ sym (append_assoc pre (f ∷ []) fs) in
        let n : length (pre ++ f ∷ []) ≡ length pre + 1 =
          omega (arith, length-append pre (f ∷ [])) in
        let rest : (b : Bool) (u : Writer)
            → PutsResult d (map v (key_fields fs)) u
                (where_key d si v b (pk_from (length pre + 1) fs) u) =
          λ b u.
            subst
              (λ k. PutsResult d (map v (key_fields fs)) u (where_key d si v b (pk_from k fs) u)) n
              (where_key-Puts v b (pre ++ f ∷ []) fs u e') in
        let found : get_elem? si.fields (length pre) ≡ some f =
          ap (λ gs. get_elem? gs (length pre)) e ∙ get_elem?-append pre f fs in
        let next = pk_from (length pre + 1) fs in
        let keys = key_fields fs in
        let Motive : Bool → Type 0 = λ b.
          PutsResult d (map v (if b then f ∷ keys else keys)) w
            (where_key d si v later (if b then length pre ∷ next else next) w) in
        elim f.pk as (λ b. Motive b) [
          | false ↦ rest later w
          | true ↦
              subst (λ r. PutsResult d (v f ∷ map v keys) w r)
                (sym (where_key-some v later (length pre) next f w found))
                (>>=-Puts d (v f ∷ []) (map v keys) w
                  (ok (assignment d v later (codes " AND ") f w)) (where_key d si v true next)
                  (assignment-Puts d a v later (codes " AND ") f w) (rest true))
        ]

    -- the end of a statement: the columns that it returns, behind the key or not
    returning-Binds :
        (vs : List Value) (returning : List Bytes) (w : Writer)
        → Puts d vs blank w
        → Binds d vs (append_returning d returning w)
    returning-Binds vs returning w h =
        subst (λ xs. Binds d xs (append_returning d returning w)) (append-nil vs)
          (PutsResult-Binds (vs ++ []) (append_returning d returning w) (
            >>=-Puts d vs [] blank (ok w) (append_returning d returning) h
              (append_returning-Puts d returning)))

    keyed-Binds :
        (us : List Value) (v : Struct) (returning : List Bytes) (w : Writer)
        → si.pks ≡ pk_from 0 si.fields
        → Puts d us blank w
        → Binds d
            (us ++ map v (key_fields si.fields))
            (where_key d si v false si.pks w >>= append_returning d returning)
    keyed-Binds us v returning w keys h =
        let ks = map v (key_fields si.fields) in
        let found : (u : Writer) → PutsResult d ks u (where_key d si v false si.pks u) = λ u.
          subst (λ is. PutsResult d ks u (where_key d si v false is u)) (sym keys)
            (where_key-Puts v false [] si.fields u refl) in
        subst
          (λ xs.
            Binds d (us ++ xs) (where_key d si v false si.pks w >>= append_returning d returning))
          (append-nil ks)
          (PutsResult-Binds (us ++ (ks ++ []))
            (where_key d si v false si.pks w >>= append_returning d returning)
            (>>=-Puts d us (ks ++ []) blank (ok w)
              (λ u. where_key d si v false si.pks u >>= append_returning d returning) h
              (λ u.
                >>=-Puts d ks [] u (where_key d si v false si.pks u) (append_returning d returning)
                  (found u) (append_returning-Puts d returning))))

    insert_statement-Binds :
        (fields : List Field) (v : Struct) (returning : List Bytes)
        → Binds d (map v fields) (insert_statement d table fields v returning)
    unfolding insert_statement
    insert_statement-Binds fields v returning =
        let b = (codes "INSERT INTO " ++ quote_table d table) ++ codes " (" in
        returning-Binds (map v fields) returning _ (
          Puts-trans d [] (map v fields) blank (str b blank) _ (Puts-str d b blank)
            (insert_values-Puts d a v fields b))

    update_statement-Binds :
        (fields : List Field) (v : Struct) (returning : List Bytes)
        → si.pks ≡ pk_from 0 si.fields
        → Binds d
            (map v fields ++ map v (key_fields si.fields))
            (update_statement d table si fields v returning)
    unfolding update_statement
    update_statement-Binds fields v returning keys =
        let head = str ((codes "UPDATE " ++ quote_table d table) ++ codes " SET ") blank in
        keyed-Binds (map v fields) v returning _ keys (
          Puts-then d (map v fields) (codes " WHERE ") blank (set_clause d v false fields head) (
            Puts-trans d [] (map v fields) blank head _ (Puts-str d _ blank)
              (set_clause-Puts d a v false fields head)))

    delete_statement-Binds :
        (v : Struct) (returning : List Bytes)
        → si.pks ≡ pk_from 0 si.fields
        → Binds d (map v (key_fields si.fields)) (delete_statement d table si v returning)
    unfolding delete_statement
    delete_statement-Binds v returning keys =
        keyed-Binds [] v returning _ keys
          (Puts-str d ((codes "DELETE FROM " ++ quote_table d table) ++ codes " WHERE ") blank)

    -- For a dialect that appends its placeholders, and a mapping whose primary key is the fields that
    -- are marked so, the statements that `build_insert`, `build_update` and `build_delete` make of a
    -- struct number their placeholders from 1 in the order of their arguments. These are the values
    -- of the columns to write; those of the columns to write, then those of the whole primary key; and
    -- those of the whole primary key. None of the three panics.
    pub writes-Binds :
        (c : WriteConfig) (v : Struct)
        → si.pks ≡ pk_from 0 si.fields
        → Binds d
            (map v (writable_fields si c false))
            (build_insert d table si c (struct_subject v))
          × Binds d
              (map v (writable_fields si c true) ++ map v (key_fields si.fields))
              (build_update d table si c (struct_subject v))
          × Binds d (map v (key_fields si.fields)) (build_delete d table si c (struct_subject v))
    unfolding build_insert build_update build_delete update_fields
    writes-Binds c v keys =
        let inserted = writable_fields si c false in
        let updated = writable_fields si c true in
        let pk = map v (key_fields si.fields) in
        (
          struct_of-Binds si v (map v inserted) _ (
              Binds-guard (map v inserted) (length inserted == 0) no_writable _
                (insert_statement-Binds inserted v c.returning)),
          struct_of-Binds si v (map v updated ++ pk) _ (
              Binds-guard (map v updated ++ pk) (length si.pks == 0) no_primary_key _ (
                Binds-guard (map v updated ++ pk) (length updated == 0) nothing_to_update _
                  (update_statement-Binds updated v c.returning keys))),
          struct_of-Binds si v pk _ (
              Binds-guard pk (length si.pks == 0) no_primary_key _
                (delete_statement-Binds v c.returning keys)),
        )
