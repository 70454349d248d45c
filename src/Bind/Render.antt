-- ===== src/Bind/Render.antt =====
-- bind.go: `namedSource` and `render`.
use row.Prelude.{
  ℕ, Bool, true, false, not, List, [], ◌∷◌, ◌++◌, Option, none, some, ltb, ◌==◌, if◌then◌else◌,
  Bytes, codes, length, get_elem?,
}
use row.Dialect.Engines.{Dialect}
use row.Bind.Value.{Value, slice_elems}
use row.Bind.Compile.{
  ParamStyle, style_none, style_named, style_ordinal, style_numbered, Part, Plan,
  no_named_parameters, named_missing, positional_supplied, named_supplied, wrong_count, no_argument,
  Result, ok, err, panic, ◌>>=◌,
}

-- the interface `namedSource`
pub record NamedSource : Type 0 where
  pub lookup : Bytes → Option Value
  pub describe : List Bytes

-- `buf` and `out` of `render`
pub record Rendered : Type 0 where
  pub buf : Bytes
  pub out : List Value

abbrev pub write : Bytes → Rendered → Rendered
write s r = record r { buf = r.buf ++ s }

module _ (d : Dialect) where
  -- a value, and its placeholder
  unfoldable pub bind_one : Value → Rendered → Rendered
  bind_one v r =
      let out = r.out ++ v ∷ [] in
      record { buf = d.append_placeholder r.buf (length out); out = out }

  -- the elements of a slice; the flag is `i > 0`
  unfoldable pub bind_elems : Bool → List Value → Rendered → Rendered
  unfolding bind_one
  bind_elems later [] r = r
  bind_elems later (e ∷ es) r =
      bind_elems true es (bind_one e (if later then write (codes ",") r else r))

  unfoldable pub bind_list : List Value → Rendered → Rendered
  unfolding bind_elems
  bind_list [] r = write (codes "NULL") r
  bind_list (e ∷ es) r = bind_elems false (e ∷ es) r

  -- behind the lookup of an argument
  unfoldable pub bind_value : Value → Rendered → Rendered
  unfolding bind_one bind_list
  bind_value v r = elim (slice_elems v) [ none ↦ bind_one v r | some es ↦ bind_list es r ]

-- the argument of a parameter, in the named style and in the ordinal style
unfoldable pub named_value : NamedSource → Bytes → Result Value
named_value src n = elim (src.lookup n) [ none ↦ err (no_argument n src.describe) | some v ↦ ok v ]

unfoldable pub ordinal_value : List Value → ℕ → Result Value
ordinal_value pos i = elim (get_elem? pos i) [ none ↦ panic | some v ↦ ok v ]

-- `val = …`, by the source for the style: names, or positions
unfoldable pub part_value : Option NamedSource → List Value → Part → Result Value
unfolding named_value ordinal_value
part_value (some src) pos p = named_value src p.name
part_value none pos p = ordinal_value pos p.pos

-- one round of the loop over the parts, and the loop
unfoldable pub render_part :
    Dialect → Option NamedSource → List Value → Part → Rendered → Result Rendered
unfolding part_value bind_value
render_part d src pos p r =
    if not p.param
    then ok (write p.text r)
    else part_value src pos p >>= (λ v. ok (bind_value d v r))

unfoldable pub render_parts :
    Dialect → Option NamedSource → List Value → List Part → Rendered → Result Rendered
unfolding render_part
render_parts d src pos [] r = ok r
render_parts d src pos (p ∷ ps) r = do r' ← render_part d src pos p r; render_parts d src pos ps r'

-- `for _, pt := range p.parts { b.WriteString(pt.text) }`
unfoldable pub texts : List Part → Bytes
texts [] = []
texts (p ∷ ps) = p.text ++ texts ps

abbrev pub blank : Rendered
blank = record { buf = []; out = [] }

abbrev pub result : Rendered → Result (Bytes × List Value)
result r = ok (r.buf, r.out)

-- `case styleNone, styleNumbered`
unfoldable pub render_verbatim :
    Plan → Option NamedSource → List Value → Result (Bytes × List Value)
unfolding texts
render_verbatim p (some src) pos = err no_named_parameters
render_verbatim p none pos = ok (texts p.parts, pos)

unfoldable pub render_named :
    Plan → Dialect → Option NamedSource → List Value → Result (Bytes × List Value)
unfolding render_parts
render_named p d none pos = err (named_missing p.names)
render_named p d (some src) pos =
    if ltb 0 (length pos)
    then err (positional_supplied (length pos))
    else render_parts d (some src) pos p.parts blank >>= result

unfoldable pub render_ordinal :
    Plan → Dialect → Option NamedSource → List Value → Result (Bytes × List Value)
unfolding render_parts
render_ordinal p d (some src) pos = err (named_supplied p.style)
render_ordinal p d none pos =
    if not (length pos == p.nslots)
    then err (wrong_count p.nslots (length pos))
    else render_parts d none pos p.parts blank >>= result

unfoldable pub render_as :
    ParamStyle → Plan → Dialect → Option NamedSource → List Value → Result (Bytes × List Value)
unfolding render_verbatim render_named render_ordinal
render_as style_none p d src pos = render_verbatim p src pos
render_as style_numbered p d src pos = render_verbatim p src pos
render_as style_named p d src pos = render_named p d src pos
render_as style_ordinal p d src pos = render_ordinal p d src pos

abbrev pub render : Plan → Dialect → Option NamedSource → List Value → Result (Bytes × List Value)
render p = render_as p.style p
