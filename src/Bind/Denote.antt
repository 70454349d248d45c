-- ===== src/Bind/Denote.antt =====
-- What a statement means, read off its tokens in one pass, and that `compile` followed by the loop
-- of `render` computes it: no text is lost, doubled or moved across a parameter.
use row.Prelude.{
  ℕ, ◌+◌, false, List, [], ◌∷◌, ◌++◌, ◌≡◌, refl, sym, ap, ◌∙◌, inl, inr, arith, Option, ltb,
  if◌then◌else◌, Bytes, codes, length, slice, append-nil, append_assoc, Bool-cases,
}
use row.Lex.Token.{TokenKind, text, named, ordinal, numbered, escaped_q, Token}
use row.Dialect.Engines.{Dialect}
use row.Bind.Value.{Value}
use row.Bind.Compile.{
  Part, Result, ok, err, panic, ◌>>=◌, is_ordinal, Compiler, text_part, flush_lit, write_lit,
}
use row.Bind.Render.{
  NamedSource, Rendered, write, bind_value, named_value, ordinal_value, render_part, render_parts,
}

module _ (d : Dialect) where
  -- The named style: `?` is text, and a name is looked up.
  unfoldable pub denote_named_token :
      TokenKind → NamedSource → Bytes → Token → Rendered → Result Rendered
  denote_named_token text src sql t r = ok (write (slice sql t.lo t.hi) r)
  denote_named_token escaped_q src sql t r = ok (write (codes "?") r)
  denote_named_token numbered src sql t r = ok (write (slice sql t.lo t.hi) r)
  denote_named_token ordinal src sql t r = ok (write (codes "?") r)
  denote_named_token named src sql t r = named_value src t.name >>= λ v. ok (bind_value d v r)

  unfoldable pub denote_named : NamedSource → Bytes → List Token → Rendered → Result Rendered
  unfolding denote_named_token
  denote_named src sql [] r = ok r
  denote_named src sql (t ∷ ts) r =
      denote_named_token t.kind src sql t r >>= denote_named src sql ts

  -- The ordinal style: the k-th `?` takes the k-th argument. No name stands in such a statement.
  unfoldable pub denote_ordinal_token :
      TokenKind → List Value → ℕ → Bytes → Token → Rendered → Result Rendered
  denote_ordinal_token text pos k sql t r = ok (write (slice sql t.lo t.hi) r)
  denote_ordinal_token escaped_q pos k sql t r = ok (write (codes "?") r)
  denote_ordinal_token numbered pos k sql t r = ok (write (slice sql t.lo t.hi) r)
  denote_ordinal_token ordinal pos k sql t r = ordinal_value pos k >>= λ v. ok (bind_value d v r)
  denote_ordinal_token named pos k sql t r = panic

  unfoldable pub denote_ordinal : List Value → ℕ → Bytes → List Token → Rendered → Result Rendered
  unfolding denote_ordinal_token
  denote_ordinal pos k sql [] r = ok r
  denote_ordinal pos k sql (t ∷ ts) r =
      denote_ordinal_token t.kind pos k sql t r
      >>= denote_ordinal pos (if is_ordinal t.kind then k + 1 else k) sql ts

-- The laws of `>>=`.
pub >>=-assoc {ℓ κ ι} :
    {A : Type ℓ} {B : Type κ} {C : Type ι} (m : Result A) (f : A → Result B) (g : B → Result C)
    → (m >>= f >>= g) ≡ (m >>= λ a. f a >>= g)
>>=-assoc (ok a) f g = refl
>>=-assoc (err e) f g = refl
>>=-assoc panic f g = refl

pub >>=-ext {ℓ κ} :
    {A : Type ℓ} {B : Type κ} (m : Result A) (f g : A → Result B)
    → ((a : A) → f a ≡ g a)
    → (m >>= f) ≡ (m >>= g)
>>=-ext (ok a) f g h = h a
>>=-ext (err e) f g h = refl
>>=-ext panic f g h = refl

pub >>=-ok {ℓ} :
    {A : Type ℓ} (m : Result A) (f : A → Result A) → ((a : A) → f a ≡ ok a) → (m >>= f) ≡ m
>>=-ok (ok a) f h = h a
>>=-ok (err e) f h = refl
>>=-ok panic f h = refl

write-nil : (r : Rendered) → write [] r ≡ r
write-nil r = ap (λ b. record r { buf = b }) (append-nil r.buf)

write-write : (s t : Bytes) (r : Rendered) → write t (write s r) ≡ write (s ++ t) r
write-write s t r = ap (λ b. record r { buf = b }) (append_assoc r.buf s t)

pub nil_of_length : (s : Bytes) → ltb 0 (length s) ≡ false → s ≡ []
nil_of_length [] h = refl
nil_of_length (b ∷ bs) h = ground arith

module _ (d : Dialect) (src : Option NamedSource) (pos : List Value) where
  render_parts-append :
      (ps qs : List Part) (r : Rendered)
      → render_parts d src pos (ps ++ qs) r
        ≡ (render_parts d src pos ps r >>= render_parts d src pos qs)
  unfolding render_parts
  render_parts-append [] qs r = refl
  render_parts-append (p ∷ ps) qs r =
      >>=-ext (render_part d src pos p r) (render_parts d src pos (ps ++ qs))
        (λ r'. render_parts d src pos ps r' >>= render_parts d src pos qs)
        (λ r'. render_parts-append ps qs r')
      ∙ sym (
          >>=-assoc (render_part d src pos p r) (render_parts d src pos ps)
            (render_parts d src pos qs))

  -- What has been compiled so far, rendered: the parts, and the text not yet flushed.
  abbrev pub meaning : Compiler → Rendered → Result Rendered
  meaning c r = render_parts d src pos c.parts r >>= λ r'. ok (write c.lit r')

  pub meaning-write_lit :
      (s : Bytes) (c : Compiler) (r : Rendered)
      → meaning (write_lit s c) r ≡ (meaning c r >>= λ r'. ok (write s r'))
  meaning-write_lit s c r =
      >>=-ext (render_parts d src pos c.parts r) (λ r'. ok (write (c.lit ++ s) r'))
        (λ r'. ok (write s (write c.lit r'))) (λ r'. ap ok (sym (write-write c.lit s r')))
      ∙ sym (
          >>=-assoc (render_parts d src pos c.parts r) (λ r'. ok (write c.lit r'))
            (λ r'. ok (write s r')))

  pub flush_lit-parts :
      (c : Compiler) (r : Rendered) → render_parts d src pos (flush_lit c).parts r ≡ meaning c r
  unfolding flush_lit render_parts render_part
  flush_lit-parts c r = elim (Bool-cases (ltb 0 (length c.lit))) [
    | inl y ↦ rw y (render_parts-append c.parts (text_part c.lit ∷ []) r)
    | inr n ↦ rw n (
        sym (
          >>=-ok (render_parts d src pos c.parts r) (λ r'. ok (write c.lit r'))
            (λ r'. ap ok (ap (λ l. write l r') (nil_of_length c.lit n) ∙ write-nil r'))))
  ]

  -- A parameter is one more round of the loop of `render`.
  pub meaning-flush :
      (c : Compiler) (p : Part) (r : Rendered) (g : Compiler)
      → g.parts ≡ (flush_lit c).parts ++ p ∷ []
      → g.lit ≡ []
      → meaning g r ≡ (meaning c r >>= render_part d src pos p)
  unfolding render_parts
  meaning-flush c p r g e l =
      let before = render_parts d src pos (flush_lit c).parts r in
      >>=-ok (render_parts d src pos g.parts r) (λ r'. ok (write g.lit r'))
        (λ r'. ap ok (ap (λ t. write t r') l ∙ write-nil r'))
      ∙ ap (λ ps. render_parts d src pos ps r) e
      ∙ render_parts-append (flush_lit c).parts (p ∷ []) r
      ∙ >>=-ext before (render_parts d src pos (p ∷ [])) (render_part d src pos p)
          (λ r'. >>=-ok (render_part d src pos p r') (λ x. ok x) (λ x. refl))
      ∙ ap (λ m. m >>= render_part d src pos p) (flush_lit-parts c r)
