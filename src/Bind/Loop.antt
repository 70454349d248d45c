-- ===== src/Bind/Loop.antt =====
-- What the loop of `compile` adds to a plan, in the named and in the ordinal style.
use row.Prelude.{
  ℕ, ◌+◌, false, List, [], ◌∷◌, ◌++◌, ◌≡◌, refl, sym, ap, ◌∙◌, inl, inr, arith, none, some, ltb,
  if◌then◌else◌, Bytes, codes, length, slice, Bool-cases,
}
use row.Lex.Token.{TokenKind, text, named, ordinal, numbered, escaped_q, Token}
use row.Dialect.Engines.{Dialect}
use row.Bind.Value.{Value}
use row.Bind.Compile.{
  style_named, style_ordinal, ok, ◌>>=◌, is_named, is_ordinal, has, Compiler, named_part,
  ordinal_part, flush_lit, note_name, add_named, add_ordinal, compile_ordinal, compile_kind,
  compile_loop,
}
use row.Bind.Render.{NamedSource, Rendered, part_value, render_part}
use row.Bind.Denote.{
  denote_named_token, denote_named, denote_ordinal_token, denote_ordinal, >>=-assoc, >>=-ext,
  >>=-ok, meaning, meaning-write_lit, meaning-flush, nil_of_length,
}

flush_lit-lit : (c : Compiler) → (flush_lit c).lit ≡ []
unfolding flush_lit
flush_lit-lit c = elim (Bool-cases (ltb 0 (length c.lit))) [
  | inl y ↦ rw y
  | inr n ↦ rw n (nil_of_length c.lit n)
]

pub flush_lit-nslots : (c : Compiler) → (flush_lit c).nslots ≡ c.nslots
unfolding flush_lit
flush_lit-nslots c = elim (Bool-cases (ltb 0 (length c.lit))) [ inl y ↦ rw y | inr n ↦ rw n ]

note_name-parts : (n : Bytes) (c : Compiler) → (note_name n c).parts ≡ c.parts
unfolding note_name
note_name-parts n c = ground arith

note_name-lit : (n : Bytes) (c : Compiler) → (note_name n c).lit ≡ c.lit
unfolding note_name
note_name-lit n c = ground arith

add_named-parts :
    (n : Bytes) (c : Compiler) → (add_named n c).parts ≡ (flush_lit c).parts ++ named_part n ∷ []
unfolding add_named
add_named-parts n c =
    note_name-parts n (record (flush_lit c) { parts = (flush_lit c).parts ++ named_part n ∷ [] })

add_named-lit : (n : Bytes) (c : Compiler) → (add_named n c).lit ≡ []
unfolding add_named
add_named-lit n c =
    note_name-lit n (record (flush_lit c) { parts = (flush_lit c).parts ++ named_part n ∷ [] })
    ∙ flush_lit-lit c

module _ (d : Dialect) (src : NamedSource) (sql : Bytes) where
  compile_kind-named :
      (k : TokenKind) (t : Token) (c : Compiler) (r : Rendered)
      → meaning d (some src) [] (compile_kind k style_named sql t c) r
        ≡ (meaning d (some src) [] c r >>= denote_named_token d k src sql t)
  unfolding compile_kind compile_ordinal denote_named_token
  compile_kind-named text t c r = meaning-write_lit d (some src) [] (slice sql t.lo t.hi) c r
  compile_kind-named escaped_q t c r = meaning-write_lit d (some src) [] (codes "?") c r
  compile_kind-named numbered t c r = meaning-write_lit d (some src) [] (slice sql t.lo t.hi) c r
  compile_kind-named ordinal t c r = meaning-write_lit d (some src) [] (codes "?") c r
  compile_kind-named named t c r =
      meaning-flush d (some src) [] c (named_part t.name) r (add_named t.name c)
        (add_named-parts t.name c) (add_named-lit t.name c)
      ∙ >>=-ext (meaning d (some src) [] c r) (render_part d (some src) [] (named_part t.name))
          (denote_named_token d named src sql t) (λ r'. unfold render_part part_value in refl)

  pub compile_loop-named :
      (ts : List Token) (c : Compiler) (r : Rendered)
      → meaning d (some src) [] (compile_loop style_named sql ts c) r
        ≡ (meaning d (some src) [] c r >>= denote_named d src sql ts)
  unfolding compile_loop denote_named
  compile_loop-named [] c r = sym (>>=-ok (meaning d (some src) [] c r) (λ x. ok x) (λ x. refl))
  compile_loop-named (t ∷ ts) c r =
      compile_loop-named ts (compile_kind t.kind style_named sql t c) r
      ∙ ap (λ m. m >>= denote_named d src sql ts) (compile_kind-named t.kind t c r)
      ∙ >>=-assoc (meaning d (some src) [] c r) (denote_named_token d t.kind src sql t)
          (denote_named d src sql ts)

add_ordinal-parts :
    (c : Compiler) → (add_ordinal c).parts ≡ (flush_lit c).parts ++ ordinal_part c.nslots ∷ []
unfolding add_ordinal
add_ordinal-parts c = ap (λ n. (flush_lit c).parts ++ ordinal_part n ∷ []) (flush_lit-nslots c)

compile_kind-nslots :
    (k : TokenKind) (sql : Bytes) (t : Token) (c : Compiler)
    → is_named k ≡ false
    → (compile_kind k style_ordinal sql t c).nslots
      ≡ (if is_ordinal k then c.nslots + 1 else c.nslots)
unfolding compile_kind compile_ordinal add_ordinal
compile_kind-nslots text sql t c h = refl
compile_kind-nslots escaped_q sql t c h = refl
compile_kind-nslots numbered sql t c h = refl
compile_kind-nslots ordinal sql t c h = ap (λ n. n + 1) (flush_lit-nslots c)
compile_kind-nslots named sql t c h = cc

unfoldable pub count_ordinals : List Token → ℕ
count_ordinals [] = 0
count_ordinals (t ∷ ts) = (if is_ordinal t.kind then 1 else 0) + count_ordinals ts

pub compile_loop-nslots :
    (sql : Bytes) (ts : List Token) (c : Compiler)
    → has is_named ts ≡ false
    → (compile_loop style_ordinal sql ts c).nslots ≡ c.nslots + count_ordinals ts
unfolding compile_loop has count_ordinals
compile_loop-nslots sql [] c h = omega arith
compile_loop-nslots sql (t ∷ ts) c h = ground (
  arith,
  compile_kind-nslots t.kind sql t c,
  compile_loop-nslots sql ts (compile_kind t.kind style_ordinal sql t c),
)

module _ (d : Dialect) (pos : List Value) (sql : Bytes) where
  compile_kind-ordinal :
      (k : TokenKind) (t : Token) (c : Compiler) (r : Rendered)
      → is_named k ≡ false
      → meaning d none pos (compile_kind k style_ordinal sql t c) r
        ≡ (meaning d none pos c r >>= denote_ordinal_token d k pos c.nslots sql t)
  unfolding compile_kind compile_ordinal denote_ordinal_token
  compile_kind-ordinal text t c r h = meaning-write_lit d none pos (slice sql t.lo t.hi) c r
  compile_kind-ordinal escaped_q t c r h = meaning-write_lit d none pos (codes "?") c r
  compile_kind-ordinal numbered t c r h = meaning-write_lit d none pos (slice sql t.lo t.hi) c r
  compile_kind-ordinal named t c r h = cc
  compile_kind-ordinal ordinal t c r h =
      meaning-flush d none pos c (ordinal_part c.nslots) r (add_ordinal c) (add_ordinal-parts c)
        (unfold add_ordinal in flush_lit-lit c)
      ∙ >>=-ext (meaning d none pos c r) (render_part d none pos (ordinal_part c.nslots))
          (denote_ordinal_token d ordinal pos c.nslots sql t)
          (λ r'. unfold render_part part_value in refl)

  pub compile_loop-ordinal :
      (ts : List Token) (c : Compiler) (r : Rendered)
      → has is_named ts ≡ false
      → meaning d none pos (compile_loop style_ordinal sql ts c) r
        ≡ (meaning d none pos c r >>= denote_ordinal d pos c.nslots sql ts)
  unfolding compile_loop denote_ordinal has
  compile_loop-ordinal [] c r h = sym (>>=-ok (meaning d none pos c r) (λ x. ok x) (λ x. refl))
  compile_loop-ordinal (t ∷ ts) c r h =
      let k : is_named t.kind ≡ false = ground arith in
      compile_loop-ordinal ts (compile_kind t.kind style_ordinal sql t c) r (ground arith)
      ∙ ap
          (λ m.
            m >>= denote_ordinal d pos (compile_kind t.kind style_ordinal sql t c).nslots sql ts)
          (compile_kind-ordinal t.kind t c r k)
      ∙ ap
          (λ n.
            meaning d none pos c r
            >>= denote_ordinal_token d t.kind pos c.nslots sql t
            >>= denote_ordinal d pos n sql ts)
          (compile_kind-nslots t.kind sql t c k)
      ∙ >>=-assoc (meaning d none pos c r) (denote_ordinal_token d t.kind pos c.nslots sql t)
          (denote_ordinal d pos (if is_ordinal t.kind then c.nslots + 1 else c.nslots) sql ts)
