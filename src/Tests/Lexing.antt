-- ===== src/Tests/Lexing.antt =====
-- Examples for the scanner.
use row.Prelude.{true, false, [], ◌∷◌, ◌≡◌, refl, arith, Bytes, codes, length}
use row.Lex.Token.{TokenKind, text, named, ordinal, numbered, escaped_q, Token}
use row.Lex.Scan.{run, lex, lex_loop, initial}
use row.Lex.Partition.{Covers, source, lex-Covers, lex-source}
use row.Lex.Spelling.{AllSpelled, lex-AllSpelled}
use row.Lex.Merged.{merged, lex-merged, lex_loop-reaches_end}

abbrev pub by_name : Bytes
by_name = codes "a = :id -- :no"

lexed :
    lex by_name
    ≡ run text 0 4
      ∷ record { kind = named; lo = 4; hi = 7; name = codes "id"; num = 0 }
      ∷ run text 7 14
      ∷ []
unfolding lex row.Lex.Token.is_ident_start row.Lex.Skip.skip_ident row.Lex.Token.is_ident_byte
    row.Lex.Scan.lex_colon row.Lex.Skip.skip_line
lexed = refl

-- In a dollar-quoted string and in a cast nothing is a parameter.
lexed_quoted :
    lex (codes "$f$ :a ? $f$ x::int ?? $12")
    ≡ run text 0 20
      ∷ run escaped_q 20 22
      ∷ run text 22 23
      ∷ record { kind = numbered; lo = 23; hi = 26; name = []; num = 12 }
      ∷ []
unfolding lex row.Lex.Scan.lex_dollar row.Lex.Token.is_digit row.Lex.Skip.skip_ident
    row.Lex.Token.is_ident_byte row.Lex.Skip.index row.Lex.Scan.lex_colon row.Lex.Scan.lex_question
    row.Lex.Skip.read_number
lexed_quoted = refl

lex-Covers_example : Covers 0 (lex by_name) (length by_name)
lex-Covers_example = lex-Covers by_name

lex-source_example : source by_name (lex by_name) ≡ by_name
lex-source_example = lex-source by_name

lex-AllSpelled_example : AllSpelled by_name (lex by_name)
lex-AllSpelled_example = lex-AllSpelled by_name

lex-merged_example : merged false (lex by_name) ≡ true
lex-merged_example = lex-merged by_name

lex_loop-reaches_end_example : (lex_loop 20 by_name initial).i ≡ length by_name
lex_loop-reaches_end_example = lex_loop-reaches_end by_name 20 (omega arith)
