-- ===== src/Bind/Refine.antt =====
-- `compile` followed by `render` computes what the tokens of the statement mean.
use row.Prelude.{
  Bool, true, false, List, [], ◌≡◌, refl, sym, ap, ◌∙◌, arith, none, some, ◌==◌, ==_iff, Bytes,
  length,
}
use row.Lex.Scan.{lex}
use row.Dialect.Engines.{Dialect}
use row.Bind.Value.{Value}
use row.Bind.Compile.{
  ParamStyle, style_named, style_ordinal, Plan, Result, ok, err, panic, ◌>>=◌, is_named, is_ordinal,
  is_numbered, has, choose_style, finish, flush_lit, compile_loop, fresh, compile_tokens, compile,
}
use row.Bind.Render.{
  NamedSource, render_parts, blank, result, render_as, render, render_named, render_ordinal,
}
use row.Bind.Denote.{denote_named, denote_ordinal, flush_lit-parts}
use row.Bind.Loop.{
  compile_loop-named, compile_loop-ordinal, compile_loop-nslots, count_ordinals, flush_lit-nslots,
}

-- The plan of a statement that compiles.
unfoldable pub compiled : ParamStyle → Bytes → Plan
unfolding compile_loop
compiled style sql = finish style (flush_lit (compile_loop style sql (lex sql) fresh))

abbrev pub style_of : Bytes → Result ParamStyle
style_of sql =
    choose_style (has is_named (lex sql)) (has is_ordinal (lex sql)) (has is_numbered (lex sql))

ok_injective {ℓ} : {A : Type ℓ} {a b : A} → ok a ≡ ok b → a ≡ b
ok_injective h = cc

-- A plan comes from the style that the tokens choose.
pub compile-compiled :
    (sql : Bytes) (p : Plan)
    → compile sql ≡ ok p
    → (style_of sql ≡ ok p.style) × (p ≡ compiled p.style sql)
unfolding compile compile_tokens compiled
compile-compiled sql p h = go (style_of sql) refl h
  where
    plan_of : ParamStyle → Plan
    plan_of style = finish style (flush_lit (compile_loop style sql (lex sql) fresh))

    go :
        (m : Result ParamStyle)
        → style_of sql ≡ m
        → (m >>= λ style. ok (plan_of style)) ≡ ok p
        → (style_of sql ≡ ok p.style) × (p ≡ plan_of p.style)
    go (ok style) e h =
        let q : plan_of style ≡ p = ok_injective h in
        (e ∙ ap (λ x. ok x.style) q, sym q ∙ ap (λ x. plan_of x.style) q)
    go (err x) e h = cc
    go panic e h = cc

-- In the ordinal style no token is a name.
pub choose_style-ordinal :
    (n o m : Bool) → choose_style n o m ≡ ok style_ordinal → (n ≡ false) × (m ≡ false)
unfolding choose_style
choose_style-ordinal n o m h = ground arith

-- A statement in the named style, rendered, is what its tokens mean in one pass: text is copied
-- from the source, `??` and `?` become `?`, and each name is replaced by the placeholders of its
-- argument; the first name without an argument is the error.
pub render-denote_named :
    (sql : Bytes) (p : Plan) (d : Dialect) (src : NamedSource)
    → compile sql ≡ ok p
    → p.style ≡ style_named
    → render p d (some src) [] ≡ (denote_named d src sql (lex sql) blank >>= result)
unfolding render_as render_named compiled
render-denote_named sql p d src h s =
    let c = compile_loop style_named sql (lex sql) fresh in
    ap (λ style. render_as style p d (some src) []) s
    ∙ ap (λ q. render_parts d (some src) [] q.parts blank >>= result)
        ((compile-compiled sql p h).1 ∙ ap (λ style. compiled style sql) s)
    ∙ ap (λ m. m >>= result)
        (flush_lit-parts d (some src) [] c blank
          ∙ compile_loop-named d src sql (lex sql) fresh blank
          ∙ (unfold render_parts in refl))

-- A plan of the ordinal style has a slot for each `?`.
pub compile-nslots :
    (sql : Bytes) (p : Plan)
    → compile sql ≡ ok p
    → p.style ≡ style_ordinal
    → p.nslots ≡ count_ordinals (lex sql)
unfolding compiled
compile-nslots sql p h s =
    let v = compile-compiled sql p h in
    let plain = choose_style-ordinal _ _ _ (v.0 ∙ ap ok s) in
    ap (λ q. q.nslots) (v.1 ∙ ap (λ style. compiled style sql) s)
    ∙ flush_lit-nslots (compile_loop style_ordinal sql (lex sql) fresh)
    ∙ compile_loop-nslots sql (lex sql) fresh plain.0
    ∙ omega arith

-- A statement in the ordinal style, rendered with as many arguments as it has placeholders, is
-- what its tokens mean in one pass, the k-th `?` standing for the k-th argument.
pub render-denote_ordinal :
    (sql : Bytes) (p : Plan) (d : Dialect) (pos : List Value)
    → compile sql ≡ ok p
    → p.style ≡ style_ordinal
    → length pos ≡ count_ordinals (lex sql)
    → render p d none pos ≡ (denote_ordinal d pos 0 sql (lex sql) blank >>= result)
unfolding render_as render_ordinal compiled
render-denote_ordinal sql p d pos h s n =
    let c = compile_loop style_ordinal sql (lex sql) fresh in
    let v = compile-compiled sql p h in
    let plain = choose_style-ordinal _ _ _ (v.0 ∙ ap ok s) in
    let enough : (length pos == p.nslots) ≡ true =
      (==_iff _ _).1 (n ∙ sym (compile-nslots sql p h s)) in
    ap (λ style. render_as style p d none pos) s
    ∙ rw enough (
        ap (λ q. render_parts d none pos q.parts blank >>= result)
          (v.1 ∙ ap (λ style. compiled style sql) s)
        ∙ ap (λ m. m >>= result)
            (flush_lit-parts d none pos c blank
              ∙ compile_loop-ordinal d pos sql (lex sql) fresh blank plain.0
              ∙ (unfold render_parts in refl)))
