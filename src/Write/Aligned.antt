-- ===== src/Write/Aligned.antt =====
-- The statements of writes as pieces: literal text, and values with their placeholders.
use row.Prelude.{
  ◌+◌, Bool, true, false, not, List, [], ◌∷◌, ◌++◌, map, ◌≡◌, refl, sym, ap, ◌∙◌, inl, inr, arith,
  Bytes, codes, length, length-append, append-nil, append_assoc, if◌then◌else◌, Bool-cases,
}
use row.Dialect.Engines.{Dialect, IsAppending}
use row.Bind.Value.{Value}
use row.Bind.Pieces.{Piece, lit, slot, show, args}
use row.Qb.Writer.{Writer, str}
use row.Qb.Aligned.{Emits, Emits-refl, Emits-trans, Emits-str}
use row.Mapper.Types.{Field}
use row.Write.Statement.{
  Result, ok, err, panic, ◌>>=◌, Struct, quoted, quoted_list, append_returning, assignment,
  set_clause,
}

-- `w'` is `w` with pieces appended, whose values are `vs`.
abbrev pub Puts : Dialect → List Value → Writer → Writer → Type 0
Puts d vs w w' = Emits d w w' × (w'.args ≡ w.args ++ vs)

-- So is what a result holds; it is no panic.
abbrev pub PutsResult : Dialect → List Value → Writer → Result Writer → Type 0
PutsResult d vs w (ok w') = Puts d vs w w'
PutsResult d vs w (err e) = Unit {0}
PutsResult d vs w panic = ⊥

-- slots with commas between them
abbrev pub slots : Bool → List Value → List Piece
slots later [] = []
slots false (x ∷ xs) = slot x ∷ slots true xs
slots true (x ∷ xs) = lit (codes ", ") ∷ slot x ∷ slots true xs

args-slots : (later : Bool) (xs : List Value) → args (slots later xs) ≡ xs
args-slots later [] = refl
args-slots false (x ∷ xs) = ap (◌∷◌ x) (args-slots true xs)
args-slots true (x ∷ xs) = ap (◌∷◌ x) (args-slots true xs)

module _ (d : Dialect) where
  pub Puts-trans :
      (us vs : List Value) (u v w : Writer) → Puts d us u v → Puts d vs v w → Puts d (us ++ vs) u w
  Puts-trans us vs u v w (h, p) (k, q) =
      (Emits-trans d h k, q ∙ ap (λ x. x ++ vs) p ∙ append_assoc u.args us vs)

  pub Puts-str : (s : Bytes) (w : Writer) → Puts d [] w (str s w)
  Puts-str s w = (Emits-str d s w, sym (append-nil w.args))

  -- literal text between two parts
  pub Puts-then :
      (vs : List Value) (s : Bytes) (u v : Writer) → Puts d vs u v → Puts d vs u (str s v)
  Puts-then vs s u v (h, p) = (Emits-trans d h (Emits-str d s v), p)

  pub Puts-later :
      (later : Bool) (s : Bytes) (w : Writer) → Puts d [] w (if later then str s w else w)
  Puts-later true s w = Puts-str s w
  Puts-later false s w = (Emits-refl d w, sym (append-nil w.args))

  pub >>=-Puts :
      (us vs : List Value) (w : Writer) (m : Result Writer) (f : Writer → Result Writer)
      → PutsResult d us w m
      → ((v : Writer) → PutsResult d vs v (f v))
      → PutsResult d (us ++ vs) w (m >>= f)
  >>=-Puts us vs w (ok v) f h k = go (f v) (k v)
    where
      go : (r : Result Writer) → PutsResult d vs v r → PutsResult d (us ++ vs) w r
      go (ok x) q = Puts-trans us vs w v x h q
      go (err e) q = tt
      go panic q = q
  >>=-Puts us vs w (err e) f h k = tt
  >>=-Puts us vs w panic f h k = h

  pub quoted_list-Puts :
      (later : Bool) (cs : List Bytes) (w : Writer) → Puts d [] w (quoted_list d later cs w)
  unfolding quoted_list
  quoted_list-Puts later [] w = (Emits-refl d w, sym (append-nil w.args))
  quoted_list-Puts later (c ∷ cs) w =
      let w' = quoted d later (codes ", ") c w in
      Puts-trans [] [] w w' (quoted_list d true cs w')
        (Puts-then [] (d.quote_ident c) w _ (Puts-later later (codes ", ") w))
        (quoted_list-Puts true cs w')

  pub append_returning-Puts :
      (cs : List Bytes) (w : Writer) → PutsResult d [] w (append_returning d cs w)
  unfolding append_returning
  append_returning-Puts [] w = (Emits-refl d w, sym (append-nil w.args))
  append_returning-Puts (c ∷ cs) w = elim (Bool-cases (not d.features.returning)) [
    | inl y ↦ rw y tt
    | inr n ↦ rw n (
        Puts-trans [] [] w (str (codes " RETURNING ") w) _ (Puts-str (codes " RETURNING ") w)
          (quoted_list-Puts false (c ∷ cs) (str (codes " RETURNING ") w)))
  ]

  module _ (a : IsAppending d) where
    -- a placeholder for a value that is appended to the arguments
    pub slot-Puts :
        (x : Value) (s : Bytes) (w : Writer)
        → Puts d (x ∷ []) w (record {
          b = w.b ++ d.append_placeholder [] (length (w.args ++ x ∷ []));
          args = w.args ++ x ∷ [];
        })
    slot-Puts x s w = (
      record {
        pieces = slot x ∷ [];
        text_is =
            ap (λ k. w.b ++ d.append_placeholder [] k)
              (omega (arith, length-append w.args (x ∷ [])))
            ∙ ap (λ y. w.b ++ y) (sym (append-nil (d.append_placeholder [] (length w.args + 1))));
        args_are = refl;
      },
      refl,
    )

    pub slots-Puts :
        (later : Bool) (xs : List Value) (w : Writer)
        → Puts d xs w
            (record { b = w.b ++ show d (length w.args) (slots later xs); args = w.args ++ xs })
    slots-Puts later xs w = (
      record {
        pieces = slots later xs;
        text_is = refl;
        args_are = ap (λ ys. w.args ++ ys) (sym (args-slots later xs));
      },
      refl,
    )

    pub assignment-Puts :
        (v : Struct) (later : Bool) (sep : Bytes) (f : Field) (w : Writer)
        → Puts d (v f ∷ []) w (assignment d v later sep f w)
    assignment-Puts v later sep f w =
        let w' = str (codes " = ") (quoted d later sep f.column w) in
        Puts-trans [] (v f ∷ []) w w' (assignment d v later sep f w)
          (Puts-then [] (codes " = ") w _
            (Puts-then [] (d.quote_ident f.column) w _ (Puts-later later sep w)))
          (slot-Puts (v f) [] w')

    pub set_clause-Puts :
        (v : Struct) (later : Bool) (fs : List Field) (w : Writer)
        → Puts d (map v fs) w (set_clause d v later fs w)
    unfolding set_clause
    set_clause-Puts v later [] w = (Emits-refl d w, sym (append-nil w.args))
    set_clause-Puts v later (f ∷ fs) w =
        Puts-trans (v f ∷ []) (map v fs) w _ _ (assignment-Puts v later (codes ", ") f w)
          (set_clause-Puts v true fs _)
