-- ===== src/Qb/Aligned.antt =====
-- Placeholders and arguments stay aligned: all that a writer does is to append literal text, and
-- values with their placeholders.
use row.Prelude.{
  ◌+◌, Bool, true, false, not, List, [], ◌∷◌, ◌++◌, ◌≡◌, refl, sym, ap, ◌∙◌, arith, if◌then◌else◌,
  Bytes, codes, bytes_eq, length, length-append, append-nil, append_assoc,
}
use row.Dialect.Engines.{Dialect, IsAppending}
use row.Bind.Value.{Value}
use row.Bind.Pieces.{Piece, lit, slot, show, args, show-append, args-append}
use row.Qb.Strings.{split}
use row.Qb.Writer.{Writer, str, bind, is_quotable_ident, ident_parts, ident, ident_list}
use row.Qb.Expr.{QbError, Result, ok, err, panic, ◌>>=◌, bind_elems, write_in}

-- `w'` is `w` with pieces appended; the placeholders go on from the arguments of `w`.
pub record Emits (d : Dialect) (w w' : Writer) : Type 0 where
  pub pieces : List Piece
  pub text_is : w'.b ≡ w.b ++ show d (length w.args) pieces
  pub args_are : w'.args ≡ w.args ++ args pieces

-- So does a method, if it returns.
abbrev pub EmitsResult : Dialect → Writer → Result Writer → Type 0
EmitsResult d w (ok w') = Emits d w w'
EmitsResult d w (err e) = Unit {0}
EmitsResult d w panic = Unit {0}

module _ (d : Dialect) where
  pub Emits-refl : (w : Writer) → Emits d w w
  Emits-refl w = record {
    pieces = [];
    text_is = sym (append-nil w.b);
    args_are = sym (append-nil w.args);
  }

  pub Emits-trans : {u v w : Writer} → Emits d u v → Emits d v w → Emits d u w
  Emits-trans {u} {v} {w} h k =
      let n : length v.args ≡ length u.args + length (args h.pieces) =
        ap length h.args_are ∙ length-append u.args (args h.pieces) in
      record {
        pieces = h.pieces ++ k.pieces;
        text_is =
            k.text_is
            ∙ ap (λ x. x ++ show d (length v.args) k.pieces) h.text_is
            ∙ append_assoc u.b (show d (length u.args) h.pieces) (show d (length v.args) k.pieces)
            ∙ ap (λ m. u.b ++ (show d (length u.args) h.pieces ++ show d m k.pieces)) n
            ∙ ap (λ x. u.b ++ x) (sym (show-append d (length u.args) h.pieces k.pieces));
        args_are =
            k.args_are
            ∙ ap (λ x. x ++ args k.pieces) h.args_are
            ∙ append_assoc u.args (args h.pieces) (args k.pieces)
            ∙ ap (λ x. u.args ++ x) (sym (args-append h.pieces k.pieces));
      }

  pub Emits-str : (s : Bytes) (w : Writer) → Emits d w (str s w)
  Emits-str s w = record {
    pieces = lit s ∷ [];
    text_is = ap (λ x. w.b ++ x) (sym (append-nil s));
    args_are = sym (append-nil w.args);
  }

  pub Emits-if :
      (b : Bool) {u : Writer} (v w : Writer)
      → Emits d u v
      → Emits d u w
      → Emits d u (if b then v else w)
  Emits-if true v w h k = h
  Emits-if false v w h k = k

  pub Emits-later : (b : Bool) (s : Bytes) (w : Writer) → Emits d w (if b then str s w else w)
  Emits-later b s w = Emits-if b (str s w) w (Emits-str s w) (Emits-refl w)

  pub Emits-result :
      {w v : Writer} (m : Result Writer) → Emits d w v → EmitsResult d v m → EmitsResult d w m
  Emits-result (ok x) h k = Emits-trans h k
  Emits-result (err e) h k = tt
  Emits-result panic h k = tt

  pub >>=-Emits :
      (w : Writer) (m : Result Writer) (f : Writer → Result Writer)
      → EmitsResult d w m
      → ((v : Writer) → EmitsResult d v (f v))
      → EmitsResult d w (m >>= f)
  >>=-Emits w (ok v) f h k = Emits-result (f v) h (k v)
  >>=-Emits w (err e) f h k = tt
  >>=-Emits w panic f h k = tt

  pub Emits-guard :
      (w : Writer) (b : Bool) (e : QbError) (m : Result Writer)
      → EmitsResult d w m
      → EmitsResult d w (if b then err e else m)
  Emits-guard w true e m h = tt
  Emits-guard w false e m h = h

  ident_parts-Emits :
      (later : Bool) (ps : List Bytes) (w : Writer) → Emits d w (ident_parts d later ps w)
  unfolding ident_parts
  ident_parts-Emits later [] w = Emits-refl w
  ident_parts-Emits later (p ∷ ps) w =
      let w' = if later then str (codes ".") w else w in
      Emits-trans
        (Emits-trans (Emits-later later (codes ".") w) (
          Emits-if (bytes_eq p (codes "*")) _ _ (Emits-str (codes "*") w')
            (Emits-str (d.quote_ident p) w')))
        (ident_parts-Emits true ps _)

  pub ident-Emits : (name : Bytes) (w : Writer) → Emits d w (ident d name w)
  unfolding ident
  ident-Emits name w =
      Emits-if (not (is_quotable_ident name)) _ _ (Emits-str name w)
        (ident_parts-Emits false (split b'.' name) w)

  pub ident_list-Emits :
      (later : Bool) (cs : List Bytes) (w : Writer) → Emits d w (ident_list d later cs w)
  unfolding ident_list
  ident_list-Emits later [] w = Emits-refl w
  ident_list-Emits later (c ∷ cs) w =
      Emits-trans (Emits-trans (Emits-later later (codes ", ") w) (ident-Emits c _))
        (ident_list-Emits true cs _)

  module _ (a : IsAppending d) where
    pub bind-Emits : (v : Value) (w : Writer) → Emits d w (bind d v w)
    unfolding bind
    bind-Emits v w = record {
      pieces = slot v ∷ [];
      text_is =
          a.appends w.b (length (w.args ++ v ∷ []))
          ∙ ap (λ k. w.b ++ d.append_placeholder [] k)
              (omega (arith, length-append w.args (v ∷ [])))
          ∙ ap (λ x. w.b ++ x) (sym (append-nil (d.append_placeholder [] (length w.args + 1))));
      args_are = refl;
    }

    bind_elems-Emits :
        (later : Bool) (es : List Value) (w : Writer) → Emits d w (bind_elems d later es w)
    unfolding bind_elems
    bind_elems-Emits later [] w = Emits-refl w
    bind_elems-Emits later (e ∷ es) w =
        Emits-trans (Emits-trans (Emits-later later (codes ",") w) (bind-Emits e _))
          (bind_elems-Emits true es _)

    pub write_in-Emits :
        (col : Bytes) (es : List Value) (positive : Bool) (w : Writer)
        → Emits d w (write_in d col es positive w)
    unfolding write_in
    write_in-Emits col [] positive w = Emits-str _ w
    write_in-Emits col (e ∷ es) positive w =
        Emits-trans
          (Emits-trans (Emits-trans (ident-Emits col w) (Emits-str _ _))
            (bind_elems-Emits false (e ∷ es) _))
          (Emits-str (codes ")") _)
