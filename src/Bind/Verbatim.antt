-- ===== src/Bind/Verbatim.antt =====
-- Statements without parameters, and those with the engine's own: which statements compile, and
-- that such a statement passes through unchanged.
use row.Prelude.{
  Bool, true, false, ◌&&◌, ◌||◌, List, [], ◌∷◌, ◌++◌, ◌≡◌, refl, sym, ap, ◌∙◌, ◌⊎◌, ◌↔◌, inl, inr,
  arith, none, ltb, if◌then◌else◌, Bytes, codes, length, slice, append-nil, append_assoc,
  Bool-cases,
}
use row.Lex.Token.{TokenKind, text, named, ordinal, numbered, escaped_q, Token}
use row.Lex.Scan.{lex}
use row.Lex.Partition.{source, lex-source}
use row.Dialect.Engines.{Dialect}
use row.Bind.Value.{Value}
use row.Bind.Compile.{
  ParamStyle, style_none, style_named, style_ordinal, style_numbered, Part, text_part, Plan, ok,
  is_named, is_ordinal, is_numbered, has, choose_style, Compiler, flush_lit, compile_kind,
  compile_loop, fresh, finish, compile_tokens, compile,
}
use row.Bind.Render.{texts, render_as, render_verbatim, render}
use row.Bind.Denote.{nil_of_length}
use row.Bind.Refine.{compiled, compile-compiled}

abbrev pub is_escaped : TokenKind → Bool
is_escaped escaped_q = true
is_escaped _ = false

-- The statement with `?` for each `??`.
unfoldable pub unescaped : Bytes → List Token → Bytes
unescaped sql [] = []
unescaped sql (t ∷ ts) =
    (if is_escaped t.kind then codes "?" else slice sql t.lo t.hi) ++ unescaped sql ts

unescaped-source :
    (sql : Bytes) (ts : List Token) → has is_escaped ts ≡ false → unescaped sql ts ≡ source sql ts
unfolding unescaped source has
unescaped-source sql [] h = refl
unescaped-source sql (t ∷ ts) h =
    let e : is_escaped t.kind ≡ false = ground arith in
    rw e (ap (λ x. slice sql t.lo t.hi ++ x) (unescaped-source sql ts (ground arith)))

texts-append : (ps qs : List Part) → texts (ps ++ qs) ≡ texts ps ++ texts qs
unfolding texts
texts-append [] qs = refl
texts-append (p ∷ ps) qs =
    ap (λ x. p.text ++ x) (texts-append ps qs) ∙ sym (append_assoc p.text (texts ps) (texts qs))

-- the text compiled so far
abbrev written : Compiler → Bytes
written c = texts c.parts ++ c.lit

flush_lit-texts : (c : Compiler) → texts (flush_lit c).parts ≡ written c
unfolding flush_lit
flush_lit-texts c = elim (Bool-cases (ltb 0 (length c.lit))) [
  | inl y ↦ rw y (
      texts-append c.parts (text_part c.lit ∷ [])
      ∙ ap (λ x. texts c.parts ++ x) (unfold texts in append-nil c.lit))
  | inr n ↦
      rw n (sym (ap (λ x. texts c.parts ++ x) (nil_of_length c.lit n) ∙ append-nil (texts c.parts)))
]

compile_kind-written :
    (k : TokenKind) (style : ParamStyle) (sql : Bytes) (t : Token) (c : Compiler)
    → is_named k ≡ false
    → is_ordinal k ≡ false
    → written (compile_kind k style sql t c)
      ≡ written c ++ (if is_escaped k then codes "?" else slice sql t.lo t.hi)
unfolding compile_kind
compile_kind-written text style sql t c h g =
    sym (append_assoc (texts c.parts) c.lit (slice sql t.lo t.hi))
compile_kind-written escaped_q style sql t c h g =
    sym (append_assoc (texts c.parts) c.lit (codes "?"))
compile_kind-written numbered style sql t c h g =
    sym (append_assoc (texts c.parts) c.lit (slice sql t.lo t.hi))
compile_kind-written named style sql t c h g = cc
compile_kind-written ordinal style sql t c h g = cc

compile_loop-written :
    (style : ParamStyle) (sql : Bytes) (ts : List Token) (c : Compiler)
    → has is_named ts ≡ false
    → has is_ordinal ts ≡ false
    → written (compile_loop style sql ts c) ≡ written c ++ unescaped sql ts
unfolding compile_loop unescaped has
compile_loop-written style sql [] c h g = sym (append-nil (written c))
compile_loop-written style sql (t ∷ ts) c h g =
    compile_loop-written style sql ts (compile_kind t.kind style sql t c) (ground arith)
      (ground arith)
    ∙ ap (λ x. x ++ unescaped sql ts)
        (compile_kind-written t.kind style sql t c (ground arith) (ground arith))
    ∙ append_assoc (written c) (if is_escaped t.kind then codes "?" else slice sql t.lo t.hi)
        (unescaped sql ts)

-- The styles in which the statement is passed through.
abbrev pub IsVerbatim : ParamStyle → Type 0
IsVerbatim style = (style ≡ style_none) ⊎ (style ≡ style_numbered)

choose_style-verbatim :
    (n o m : Bool) (style : ParamStyle)
    → choose_style n o m ≡ ok style
    → IsVerbatim style
    → (n ≡ false) × (o ≡ false)
unfolding choose_style
choose_style-verbatim n o m style h v = ground arith

-- Rendering a statement without `:name` and `?` parameters puts the texts of the plan together.
render-texts :
    (style : ParamStyle) (p : Plan) (d : Dialect) (pos : List Value)
    → IsVerbatim style
    → render_as style p d none pos ≡ ok (texts p.parts, pos)
unfolding render_as render_verbatim
render-texts style_none p d pos w = refl
render-texts style_numbered p d pos w = refl
render-texts style_named p d pos w = ground arith
render-texts style_ordinal p d pos w = ground arith

-- A statement that compiles and has no `:name` and `?` parameters is passed through with its
-- positional arguments; only each `??` is replaced, by `?`.
pub render-verbatim :
    (sql : Bytes) (p : Plan) (d : Dialect) (pos : List Value)
    → compile sql ≡ ok p
    → IsVerbatim p.style
    → render p d none pos ≡ ok (unescaped sql (lex sql), pos)
unfolding compiled unescaped texts
render-verbatim sql p d pos h s =
    let v = compile-compiled sql p h in
    let plain = choose_style-verbatim _ _ _ p.style v.0 s in
    let all : texts p.parts ≡ unescaped sql (lex sql) =
      ap (λ q. texts q.parts) v.1
      ∙ flush_lit-texts (compile_loop p.style sql (lex sql) fresh)
      ∙ compile_loop-written p.style sql (lex sql) fresh plain.0 plain.1 in
    render-texts p.style p d pos s ∙ ap (λ t. ok (t, pos)) all

-- A statement that compiles and has no `:name`, `?` and `??` reaches the driver byte for byte, with
-- the positional arguments as they are.
pub render-untouched :
    (sql : Bytes) (p : Plan) (d : Dialect) (pos : List Value)
    → compile sql ≡ ok p
    → IsVerbatim p.style
    → has is_escaped (lex sql) ≡ false
    → render p d none pos ≡ ok (sql, pos)
render-untouched sql p d pos h s e =
    render-verbatim sql p d pos h s
    ∙ ap (λ t. ok (t, pos)) (unescaped-source sql (lex sql) e ∙ lex-source sql)

-- A statement mixes conventions if it has `$n` next to `:name` or `?`.
abbrev pub mixes : List Token → Bool
mixes ts = has is_numbered ts && (has is_named ts || has is_ordinal ts)

choose_style_total :
    (n o m : Bool)
    → (m && (n || o)) ≡ false
    → (style : ParamStyle) × (choose_style n o m ≡ ok style)
unfolding choose_style
choose_style_total true o true h = cc
choose_style_total false true true h = cc
choose_style_total true o false h = (style_named, ground arith)
choose_style_total false true false h = (style_ordinal, refl)
choose_style_total false false true h = (style_numbered, refl)
choose_style_total false false false h = (style_none, refl)

choose_style-mixes :
    (n o m : Bool) (style : ParamStyle) → choose_style n o m ≡ ok style → (m && (n || o)) ≡ false
unfolding choose_style
choose_style-mixes n o m style h = ground arith

-- `compile` gives a plan for every statement that does not mix `$n` with `:name` or `?`, and for no
-- other.
pub compile-mixes : (sql : Bytes) → ((p : Plan) × (compile sql ≡ ok p)) ↔ (mixes (lex sql) ≡ false)
unfolding compile compile_tokens
compile-mixes sql = (
  λ x.
      choose_style-mixes (has is_named (lex sql)) (has is_ordinal (lex sql))
        (has is_numbered (lex sql)) x.0.style (compile-compiled sql x.0 x.1).0,
  λ h.
      let (style, e) =
        choose_style_total (has is_named (lex sql)) (has is_ordinal (lex sql))
          (has is_numbered (lex sql)) h in
      (finish style (flush_lit (compile_loop style sql (lex sql) fresh)), rw e),
)
