-- ===== src/Bind/Outcome.antt =====
-- What `render` returns for the plan that `compile` makes of a statement.
use row.Prelude.{
  ℕ, zero, suc, ◌+◌, ◌≤◌, ◌<◌, false, List, [], ◌∷◌, ◌++◌, ◌≡◌, ◌≢◌, refl, ap, ◌∙◌, arith, none,
  some, ◌==◌, if◌then◌else◌, Bytes, codes, length, get_elem?, slice,
}
use row.Lex.Token.{TokenKind, text, named, ordinal, numbered, escaped_q, Token}
use row.Lex.Scan.{lex}
use row.Dialect.Engines.{Dialect, IsAppending}
use row.Bind.Value.{Value}
use row.Bind.Compile.{
  style_named, style_ordinal, Plan, wrong_count, ok, err, ◌>>=◌, is_named, is_ordinal, has, compile,
}
use row.Bind.Render.{NamedSource, ordinal_value, blank, result, render_as, render_ordinal, render}
use row.Bind.Denote.{>>=-assoc}
use row.Bind.Refine.{
  render-denote_named, render-denote_ordinal, compile-nslots, compile-compiled,
  choose_style-ordinal,
}
use row.Bind.Loop.{count_ordinals}
use row.Bind.Pieces.{
  emit, Piece, lit, value_pieces, ordinal_token_pieces, show, args, named_pieces, ordinal_pieces,
  denote_named-emit, denote_ordinal-emit,
}

-- A statement that compiles in the named style, rendered with a source of named arguments and no
-- positional ones for a dialect that appends its placeholders: the text is the pieces of its tokens
-- with the placeholders numbered from 1, and the arguments are the values of the pieces, in the
-- same order; or it is the error that the first name without an argument gives.
pub render-named_pieces :
    (sql : Bytes) (p : Plan) (d : Dialect) (src : NamedSource)
    → IsAppending d
    → compile sql ≡ ok p
    → p.style ≡ style_named
    → render p d (some src) []
      ≡ (named_pieces src sql (lex sql) >>= λ ps. ok (show d 0 ps, args ps))
render-named_pieces sql p d src a h s =
    render-denote_named sql p d src h s
    ∙ ap (λ m. m >>= result) (denote_named-emit d a src sql (lex sql) blank)
    ∙ >>=-assoc (named_pieces src sql (lex sql)) _ result

-- A value for each index below the length.
get_elem?-some :
    (pos : List Value) (i : ℕ) → i < length pos → (v : Value) × (get_elem? pos i ≡ some v)
get_elem?-some [] i h = absurd (omega arith)
get_elem?-some (v ∷ vs) zero h = (v, refl)
get_elem?-some (v ∷ vs) (suc i) h = get_elem?-some vs i (omega arith)

-- With an argument for each `?` that is left, every `?` finds its argument.
ordinal_token_total :
    (k : TokenKind) (pos : List Value) (i : ℕ) (sql : Bytes) (t : Token)
    → is_named k ≡ false
    → i + (if is_ordinal k then 1 else 0) ≤ length pos
    → (ps : List Piece) × (ordinal_token_pieces k pos i sql t ≡ ok ps)
unfolding ordinal_value
ordinal_token_total text pos i sql t h n = (lit (slice sql t.lo t.hi) ∷ [], refl)
ordinal_token_total escaped_q pos i sql t h n = (lit (codes "?") ∷ [], refl)
ordinal_token_total numbered pos i sql t h n = (lit (slice sql t.lo t.hi) ∷ [], refl)
ordinal_token_total named pos i sql t h n = cc
ordinal_token_total ordinal pos i sql t h n =
    let (v, e) = get_elem?-some pos i (omega arith) in (value_pieces v, rw (e, ordinal_value))

ordinal_pieces_total :
    (pos : List Value) (i : ℕ) (sql : Bytes) (ts : List Token)
    → has is_named ts ≡ false
    → i + count_ordinals ts ≤ length pos
    → (ps : List Piece) × (ordinal_pieces pos i sql ts ≡ ok ps)
unfolding ordinal_pieces has count_ordinals
ordinal_pieces_total pos i sql [] h n = ([], refl)
ordinal_pieces_total pos i sql (t ∷ ts) h n =
    let i' = if is_ordinal t.kind then i + 1 else i in
    let (ps, first) = ordinal_token_total t.kind pos i sql t (ground arith) (ground arith) in
    let (qs, others) = ordinal_pieces_total pos i' sql ts (ground arith) (ground arith) in
    (ps ++ qs, rw (first, others))

-- A statement that compiles in the ordinal style, rendered with as many arguments as it has `?` for
-- a dialect that appends its placeholders: rendering succeeds (no index is out of range), and gives
-- the pieces of its tokens with the placeholders numbered from 1 and the values of the pieces, in
-- the same order.
pub render-ordinal_pieces :
    (sql : Bytes) (p : Plan) (d : Dialect) (pos : List Value)
    → IsAppending d
    → compile sql ≡ ok p
    → p.style ≡ style_ordinal
    → length pos ≡ count_ordinals (lex sql)
    → (ps : List Piece) × (ordinal_pieces pos 0 sql (lex sql) ≡ ok ps)
      × (render p d none pos ≡ ok (show d 0 ps, args ps))
render-ordinal_pieces sql p d pos a h s n =
    let v = compile-compiled sql p h in
    let plain = choose_style-ordinal _ _ _ (v.0 ∙ ap ok s) in
    let (ps, e) = ordinal_pieces_total pos 0 sql (lex sql) plain.0 (omega arith) in
    (
      ps,
      e,
      render-denote_ordinal sql p d pos h s n
          ∙ ap (λ m. m >>= result)
              (denote_ordinal-emit d a pos 0 sql (lex sql) blank
                ∙ ap (λ m. m >>= λ qs. ok (emit d qs blank)) e),
    )

-- A statement that compiles in the ordinal style is refused, with both numbers, for any number of
-- arguments other than the number of its `?`.
pub render-wrong_count :
    (sql : Bytes) (p : Plan) (d : Dialect) (pos : List Value)
    → compile sql ≡ ok p
    → p.style ≡ style_ordinal
    → length pos ≢ count_ordinals (lex sql)
    → render p d none pos ≡ err (wrong_count (count_ordinals (lex sql)) (length pos))
unfolding render_as render_ordinal
render-wrong_count sql p d pos h s n =
    let c = compile-nslots sql p h s in
    let other : (length pos == p.nslots) ≡ false = ground arith in
    ap (λ style. render_as style p d none pos) s
    ∙ rw other (ap (λ k. err (wrong_count k (length pos))) c)
