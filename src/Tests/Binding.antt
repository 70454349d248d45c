-- ===== src/Tests/Binding.antt =====
-- Examples for the compilation and the rendering of statements.
use row.Prelude.{
  false, List, [], ◌∷◌, ◌≡◌, refl, sym, ap, ◌↔◌, inr, arith, none, some, if◌then◌else◌, Bytes,
  codes, bytes_eq,
}
use row.Lex.Token.{TokenKind, text, named, ordinal, numbered, escaped_q, Token}
use row.Lex.Scan.{run, lex}
use row.Bind.Compile.{compile_tokens, text_part, named_part, ordinal_part}
use row.Bind.Render.{render_as}
use row.Dialect.Engines.{pg, sqlite, pg-IsAppending, sqlite-IsAppending}
use row.Bind.Value.{Value, scalar, slice_of, Values, item, end, elems_of}
use row.Bind.Compile.{
  style_named, style_ordinal, style_numbered, Plan, ok, err, ◌>>=◌, has, wrong_count, compile,
}
use row.Bind.Render.{NamedSource, render_as, render}
use row.Bind.Loop.{count_ordinals}
use row.Bind.Pieces.{Piece, show, args, named_pieces, ordinal_pieces}
use row.Bind.Outcome.{render-named_pieces, render-ordinal_pieces, render-wrong_count}
use row.Bind.Verbatim.{
  is_escaped, unescaped, mixes, render-verbatim, render-untouched, compile-mixes,
}

-- one argument, a list of two
abbrev ids : Value
ids = slice_of false (item (scalar 1) (item (scalar 2) end))

abbrev id_source : NamedSource
id_source = record {
  lookup = λ k. if bytes_eq k (codes "id") then some ids else none;
  describe = codes "id" ∷ [];
}

abbrev by_name : Bytes
by_name = codes "a IN (:id)"

abbrev by_position : Bytes
by_position = codes "a = ? AND b IN (?)"

abbrev by_number : Bytes
by_number = codes "a = $1"

abbrev id_token : Token
id_token = record { kind = named; lo = 6; hi = 9; name = codes "id"; num = 0 }

abbrev name_plan : Plan
name_plan = record {
  style = style_named;
  parts = text_part (codes "a IN (") ∷ named_part (codes "id") ∷ text_part (codes ")") ∷ [];
  names = codes "id" ∷ [];
  nslots = 1;
  size = 7;
}

lexed_name : lex by_name ≡ run text 0 6 ∷ id_token ∷ run text 9 10 ∷ []
unfolding lex row.Lex.Token.is_ident_start row.Lex.Skip.skip_ident row.Lex.Token.is_ident_byte
    row.Lex.Scan.lex_colon
lexed_name = refl

compiled_name : compile by_name ≡ ok name_plan
unfolding compile compile_tokens
compiled_name = ap (compile_tokens by_name) lexed_name

named_rendered :
    render name_plan pg (some id_source) [] ≡ ok (codes "a IN ($1,$2)", scalar 1 ∷ scalar 2 ∷ [])
unfolding render_as bytes_eq row.Bind.Value.slice_elems row.Dialect.Decimal.append_ordinal
named_rendered = refl

abbrev position_plan : Plan
position_plan = record {
  style = style_ordinal;
  parts =
      text_part (codes "a = ")
      ∷ ordinal_part 0
      ∷ text_part (codes " AND b IN (")
      ∷ ordinal_part 1
      ∷ text_part (codes ")")
      ∷ [];
  names = [];
  nslots = 2;
  size = 16;
}

lexed_position :
    lex by_position
    ≡ run text 0 4 ∷ run ordinal 4 5 ∷ run text 5 16 ∷ run ordinal 16 17 ∷ run text 17 18 ∷ []
unfolding lex row.Lex.Token.is_ident_start row.Lex.Skip.skip_ident row.Lex.Token.is_ident_byte
    row.Lex.Scan.lex_question
lexed_position = refl

compiled_position : compile by_position ≡ ok position_plan
unfolding compile compile_tokens
compiled_position = ap (compile_tokens by_position) lexed_position

ordinal_rendered :
    render position_plan sqlite none (scalar 7 ∷ ids ∷ [])
    ≡ ok (codes "a = ? AND b IN (?,?)", scalar 7 ∷ scalar 1 ∷ scalar 2 ∷ [])
unfolding render_as row.Bind.Value.slice_elems
ordinal_rendered = refl

abbrev number_plan : Plan
number_plan = record {
  style = style_numbered;
  parts = text_part (codes "a = $1") ∷ [];
  names = [];
  nslots = 0;
  size = 6;
}

lexed_number :
    lex by_number
    ≡ run text 0 4 ∷ record { kind = numbered; lo = 4; hi = 6; name = []; num = 1 } ∷ []
unfolding lex row.Lex.Token.is_ident_start row.Lex.Skip.skip_ident row.Lex.Token.is_ident_byte
    row.Lex.Scan.lex_dollar row.Lex.Skip.read_number
lexed_number = refl

compiled_number : compile by_number ≡ ok number_plan
unfolding compile compile_tokens
compiled_number = ap (compile_tokens by_number) lexed_number

count_position : count_ordinals (lex by_position) ≡ 2
unfolding count_ordinals
count_position = ap count_ordinals lexed_position

unescaped_number : has is_escaped (lex by_number) ≡ false
unfolding has
unescaped_number = ap (has is_escaped) lexed_number

render-named_pieces_example :
    render name_plan pg (some id_source) []
    ≡ (named_pieces id_source by_name (lex by_name) >>= λ ps. ok (show pg 0 ps, args ps))
render-named_pieces_example =
    render-named_pieces by_name name_plan pg id_source pg-IsAppending compiled_name refl

render-ordinal_pieces_example :
    (ps : List Piece) × (ordinal_pieces (scalar 7 ∷ ids ∷ []) 0 by_position (lex by_position)
      ≡ ok ps)
    × (render position_plan sqlite none (scalar 7 ∷ ids ∷ []) ≡ ok (show sqlite 0 ps, args ps))
render-ordinal_pieces_example =
    render-ordinal_pieces by_position position_plan sqlite (scalar 7 ∷ ids ∷ []) sqlite-IsAppending
      compiled_position refl (sym count_position)

render-wrong_count_example :
    render position_plan sqlite none (scalar 7 ∷ [])
    ≡ err (wrong_count (count_ordinals (lex by_position)) 1)
render-wrong_count_example =
    render-wrong_count by_position position_plan sqlite (scalar 7 ∷ []) compiled_position refl
      (let n = count_position in λ h. omega arith)

render-verbatim_example :
    render number_plan pg none (scalar 7 ∷ [])
    ≡ ok (unescaped by_number (lex by_number), scalar 7 ∷ [])
render-verbatim_example =
    render-verbatim by_number number_plan pg (scalar 7 ∷ []) compiled_number (inr refl)

render-untouched_example :
    render number_plan pg none (scalar 7 ∷ []) ≡ ok (by_number, scalar 7 ∷ [])
render-untouched_example =
    render-untouched by_number number_plan pg (scalar 7 ∷ []) compiled_number (inr refl)
      unescaped_number

compile-mixes_example : ((p : Plan) × (compile by_number ≡ ok p)) ↔ (mixes (lex by_number) ≡ false)
compile-mixes_example = compile-mixes by_number
