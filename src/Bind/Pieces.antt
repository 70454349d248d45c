-- ===== src/Bind/Pieces.antt =====
-- A rendered statement seen without the dialect: a list of literal texts and bound values. The
-- placeholders are numbered from 1 in the order of the values.
use row.Prelude.{
  ℕ, suc, ◌+◌, true, List, [], ◌∷◌, ◌++◌, ◌≡◌, refl, sym, ap, ◌∙◌, inl, inr, arith, none, some,
  if◌then◌else◌, Bytes, codes, length, length-append, slice, append-nil, append_assoc, Option-cases,
}
use row.Lex.Token.{TokenKind, text, named, ordinal, numbered, escaped_q, Token}
use row.Dialect.Engines.{Dialect, IsAppending}
use row.Bind.Value.{Value, slice_elems}
use row.Bind.Compile.{Result, ok, panic, ◌>>=◌, is_ordinal}
use row.Bind.Render.{
  NamedSource, Rendered, write, bind_one, bind_elems, bind_list, bind_value, named_value,
  ordinal_value,
}
use row.Bind.Denote.{
  denote_named_token, denote_named, denote_ordinal_token, denote_ordinal, >>=-assoc, >>=-ext,
}

pub data Piece : Type 0 where
  lit : Bytes → Piece
  slot : Value → Piece

-- An argument: one slot, or a slot for each element of a slice, or `NULL` for an empty one.
abbrev pub more_slots : List Value → List Piece
more_slots [] = []
more_slots (e ∷ es) = lit (codes ",") ∷ slot e ∷ more_slots es

abbrev pub list_pieces : List Value → List Piece
list_pieces [] = lit (codes "NULL") ∷ []
list_pieces (e ∷ es) = slot e ∷ more_slots es

unfoldable pub value_pieces : Value → List Piece
value_pieces v = elim (slice_elems v) [ none ↦ slot v ∷ [] | some es ↦ list_pieces es ]

-- The text, when `n` values are bound already, and the values.
abbrev pub show : Dialect → ℕ → List Piece → Bytes
show d n [] = []
show d n (lit s ∷ ps) = s ++ show d n ps
show d n (slot v ∷ ps) = d.append_placeholder [] (n + 1) ++ show d (n + 1) ps

abbrev pub args : List Piece → List Value
args [] = []
args (lit s ∷ ps) = args ps
args (slot v ∷ ps) = v ∷ args ps

-- The pieces of a statement in the named style and in the ordinal style.
abbrev pub named_token_pieces : TokenKind → NamedSource → Bytes → Token → Result (List Piece)
named_token_pieces text src sql t = ok (lit (slice sql t.lo t.hi) ∷ [])
named_token_pieces escaped_q src sql t = ok (lit (codes "?") ∷ [])
named_token_pieces numbered src sql t = ok (lit (slice sql t.lo t.hi) ∷ [])
named_token_pieces ordinal src sql t = ok (lit (codes "?") ∷ [])
named_token_pieces named src sql t = named_value src t.name >>= λ v. ok (value_pieces v)

unfoldable pub named_pieces : NamedSource → Bytes → List Token → Result (List Piece)
named_pieces src sql [] = ok []
named_pieces src sql (t ∷ ts) =
    named_token_pieces t.kind src sql t >>= λ ps. named_pieces src sql ts >>= λ qs. ok (ps ++ qs)

abbrev pub ordinal_token_pieces : TokenKind → List Value → ℕ → Bytes → Token → Result (List Piece)
ordinal_token_pieces text pos k sql t = ok (lit (slice sql t.lo t.hi) ∷ [])
ordinal_token_pieces escaped_q pos k sql t = ok (lit (codes "?") ∷ [])
ordinal_token_pieces numbered pos k sql t = ok (lit (slice sql t.lo t.hi) ∷ [])
ordinal_token_pieces ordinal pos k sql t = ordinal_value pos k >>= λ v. ok (value_pieces v)
ordinal_token_pieces named pos k sql t = panic

unfoldable pub ordinal_pieces : List Value → ℕ → Bytes → List Token → Result (List Piece)
ordinal_pieces pos k sql [] = ok []
ordinal_pieces pos k sql (t ∷ ts) = ordinal_token_pieces t.kind pos k sql t >>= λ ps.
    ordinal_pieces pos (if is_ordinal t.kind then k + 1 else k) sql ts >>= λ qs. ok (ps ++ qs)

rendered_path :
    {b b' : Bytes} {o o' : List Value}
    → b ≡ b'
    → o ≡ o'
    → ◌≡◌ {A = Rendered} (record { buf = b; out = o }) (record { buf = b'; out = o' })
rendered_path p q = λ i. record { buf = p i; out = q i }

pub args-append : (ps qs : List Piece) → args (ps ++ qs) ≡ args ps ++ args qs
args-append [] qs = refl
args-append (lit s ∷ ps) qs = args-append ps qs
args-append (slot v ∷ ps) qs = ap (◌∷◌ v) (args-append ps qs)

module _ (d : Dialect) where
  pub show-append :
      (n : ℕ) (ps qs : List Piece)
      → show d n (ps ++ qs) ≡ show d n ps ++ show d (n + length (args ps)) qs
  show-append n [] qs = ap (λ k. show d k qs) (omega arith)
  show-append n (lit s ∷ ps) qs =
      ap (λ x. s ++ x) (show-append n ps qs) ∙ sym (append_assoc s (show d n ps) _)
  show-append n (slot v ∷ ps) qs =
      let e : n + 1 + length (args ps) ≡ n + suc (length (args ps)) = omega arith in
      ap (λ x. d.append_placeholder [] (n + 1) ++ x)
        (show-append (n + 1) ps qs ∙ ap (λ k. show d (n + 1) ps ++ show d k qs) e)
      ∙ sym (append_assoc (d.append_placeholder [] (n + 1)) (show d (n + 1) ps) _)

  -- Pieces behind what is rendered already.
  abbrev pub emit : List Piece → Rendered → Rendered
  emit ps r = record { buf = r.buf ++ show d (length r.out) ps; out = r.out ++ args ps }

  emit-append : (ps qs : List Piece) (r : Rendered) → emit (ps ++ qs) r ≡ emit qs (emit ps r)
  emit-append ps qs r =
      rendered_path
        (ap (λ x. r.buf ++ x) (show-append (length r.out) ps qs)
          ∙ sym (append_assoc r.buf (show d (length r.out) ps) _)
          ∙ ap (λ k. (r.buf ++ show d (length r.out) ps) ++ show d k qs)
              (sym (length-append r.out (args ps))))
        (ap (λ x. r.out ++ x) (args-append ps qs) ∙ sym (append_assoc r.out (args ps) (args qs)))

  pub write-emit : (s : Bytes) (r : Rendered) → write s r ≡ emit (lit s ∷ []) r
  write-emit s r =
      rendered_path (ap (λ x. r.buf ++ x) (sym (append-nil s))) (sym (append-nil r.out))

  module _ (a : IsAppending d) where
    bind_one-emit : (v : Value) (r : Rendered) → bind_one d v r ≡ emit (slot v ∷ []) r
    unfolding bind_one
    bind_one-emit v r =
        let n : length (r.out ++ v ∷ []) ≡ length r.out + 1 =
          omega (arith, length-append r.out (v ∷ [])) in
        rendered_path
          (a.appends r.buf (length (r.out ++ v ∷ []))
            ∙ ap (λ k. r.buf ++ d.append_placeholder [] k) n
            ∙ ap (λ x. r.buf ++ x) (sym (append-nil (d.append_placeholder [] (length r.out + 1)))))
          refl

    bind_elems-emit :
        (es : List Value) (r : Rendered) → bind_elems d true es r ≡ emit (more_slots es) r
    unfolding bind_elems
    bind_elems-emit [] r = sym (rendered_path (append-nil r.buf) (append-nil r.out))
    bind_elems-emit (e ∷ es) r =
        bind_elems-emit es (bind_one d e (write (codes ",") r))
        ∙ ap (λ x. emit (more_slots es) (bind_one d e x)) (write-emit (codes ",") r)
        ∙ ap (emit (more_slots es)) (bind_one-emit e (emit (lit (codes ",") ∷ []) r))
        ∙ ap (emit (more_slots es)) (sym (emit-append (lit (codes ",") ∷ []) (slot e ∷ []) r))
        ∙ sym (emit-append (lit (codes ",") ∷ slot e ∷ []) (more_slots es) r)

    bind_list-emit : (es : List Value) (r : Rendered) → bind_list d es r ≡ emit (list_pieces es) r
    unfolding bind_list bind_elems
    bind_list-emit [] r = write-emit (codes "NULL") r
    bind_list-emit (e ∷ es) r =
        bind_elems-emit es (bind_one d e r)
        ∙ ap (emit (more_slots es)) (bind_one-emit e r)
        ∙ sym (emit-append (slot e ∷ []) (more_slots es) r)

    pub bind_value-emit : (v : Value) (r : Rendered) → bind_value d v r ≡ emit (value_pieces v) r
    unfolding bind_value value_pieces
    bind_value-emit v r = elim (Option-cases (slice_elems v)) [
      | inl whole ↦ rw (whole, bind_value, value_pieces) (bind_one-emit v r)
      | inr (es, list) ↦ rw (list, bind_value, value_pieces) (bind_list-emit es r)
    ]

    -- One token, and then the others.
    token-emit :
        (m : Result (List Piece)) (f : Result Rendered) (r : Rendered) (rest : Result (List Piece))
        (g : Rendered → Result Rendered)
        → f ≡ (m >>= λ ps. ok (emit ps r))
        → ((r' : Rendered) → g r' ≡ (rest >>= λ qs. ok (emit qs r')))
        → (f >>= g) ≡ ((m >>= λ ps. rest >>= λ qs. ok (ps ++ qs)) >>= λ ps. ok (emit ps r))
    token-emit m f r rest g h k =
        ap (λ x. x >>= g) h
        ∙ >>=-assoc m (λ ps. ok (emit ps r)) g
        ∙ >>=-ext m (λ ps. g (emit ps r)) (λ ps. rest >>= λ qs. ok (emit (ps ++ qs) r))
            (λ ps. k (emit ps r) ∙ >>=-ext rest _ _ (λ qs. ap ok (sym (emit-append ps qs r))))
        ∙ sym (
            >>=-assoc m (λ ps. rest >>= λ qs. ok (ps ++ qs)) (λ ps. ok (emit ps r))
            ∙ >>=-ext m _ _ (λ ps. >>=-assoc rest (λ qs. ok (ps ++ qs)) (λ x. ok (emit x r))))

    named_token-emit :
        (k : TokenKind) (src : NamedSource) (sql : Bytes) (t : Token) (r : Rendered)
        → denote_named_token d k src sql t r
          ≡ (named_token_pieces k src sql t >>= λ ps. ok (emit ps r))
    unfolding denote_named_token
    named_token-emit text src sql t r = ap ok (write-emit (slice sql t.lo t.hi) r)
    named_token-emit escaped_q src sql t r = ap ok (write-emit (codes "?") r)
    named_token-emit numbered src sql t r = ap ok (write-emit (slice sql t.lo t.hi) r)
    named_token-emit ordinal src sql t r = ap ok (write-emit (codes "?") r)
    named_token-emit named src sql t r =
        >>=-ext (named_value src t.name) _ _ (λ v. ap ok (bind_value-emit v r))
        ∙ sym (>>=-assoc (named_value src t.name) (λ v. ok (value_pieces v)) (λ ps. ok (emit ps r)))

    pub denote_named-emit :
        (src : NamedSource) (sql : Bytes) (ts : List Token) (r : Rendered)
        → denote_named d src sql ts r ≡ (named_pieces src sql ts >>= λ ps. ok (emit ps r))
    unfolding denote_named named_pieces
    denote_named-emit src sql [] r =
        ap ok (sym (rendered_path (append-nil r.buf) (append-nil r.out)))
    denote_named-emit src sql (t ∷ ts) r =
        token-emit (named_token_pieces t.kind src sql t) (denote_named_token d t.kind src sql t r) r
          (named_pieces src sql ts) (denote_named d src sql ts)
          (named_token-emit t.kind src sql t r) (denote_named-emit src sql ts)

    ordinal_token-emit :
        (k : TokenKind) (pos : List Value) (i : ℕ) (sql : Bytes) (t : Token) (r : Rendered)
        → denote_ordinal_token d k pos i sql t r
          ≡ (ordinal_token_pieces k pos i sql t >>= λ ps. ok (emit ps r))
    unfolding denote_ordinal_token
    ordinal_token-emit text pos i sql t r = ap ok (write-emit (slice sql t.lo t.hi) r)
    ordinal_token-emit escaped_q pos i sql t r = ap ok (write-emit (codes "?") r)
    ordinal_token-emit numbered pos i sql t r = ap ok (write-emit (slice sql t.lo t.hi) r)
    ordinal_token-emit named pos i sql t r = refl
    ordinal_token-emit ordinal pos i sql t r =
        >>=-ext (ordinal_value pos i) _ _ (λ v. ap ok (bind_value-emit v r))
        ∙ sym (>>=-assoc (ordinal_value pos i) (λ v. ok (value_pieces v)) (λ ps. ok (emit ps r)))

    pub denote_ordinal-emit :
        (pos : List Value) (i : ℕ) (sql : Bytes) (ts : List Token) (r : Rendered)
        → denote_ordinal d pos i sql ts r ≡ (ordinal_pieces pos i sql ts >>= λ ps. ok (emit ps r))
    unfolding denote_ordinal ordinal_pieces
    denote_ordinal-emit pos i sql [] r =
        ap ok (sym (rendered_path (append-nil r.buf) (append-nil r.out)))
    denote_ordinal-emit pos i sql (t ∷ ts) r =
        let i' = if is_ordinal t.kind then i + 1 else i in
        token-emit (ordinal_token_pieces t.kind pos i sql t)
          (denote_ordinal_token d t.kind pos i sql t r) r (ordinal_pieces pos i' sql ts)
          (denote_ordinal d pos i' sql ts) (ordinal_token-emit t.kind pos i sql t r)
          (denote_ordinal-emit pos i' sql ts)
