-- ===== src/Lex/Scan.antt =====
-- lex.go: `lexDollar` and the main loop of `lex`.
use row.Prelude.{
  ℕ, zero, suc, ◌+◌, ◌-◌, Bool, false, ◌&&◌, ◌||◌, List, [], ◌∷◌, ◌++◌, none, some, ◌==◌, ltb,
  if◌then◌else◌, Bytes, length, take, drop,
}
use row.Lex.Token.{
  TokenKind, text, named, ordinal, numbered, escaped_q, Token, is_text, is_ident_start, is_digit,
}
use row.Lex.Skip.{
  next_is, skip_line, skip_block, skip_doubled, skip_escape_string, skip_ident, read_number, index,
}

-- One round of the loop reads a run of bytes from `i`. The run is given as a token; `text` says
-- that the round only moves `i`, so that the run is merged with the text around it.
abbrev pub run : TokenKind → ℕ → ℕ → Token
run k i j = record { kind = k; lo = i; hi = j; name = []; num = 0 }

-- `lexDollar`; `cs` is the text behind the `$` at `i`
unfoldable pub lex_number : ℕ → Bytes → Token
lex_number i cs =
    let (num, j) = read_number 0 (i + 1) cs in
    record { kind = numbered; lo = i; hi = j; name = []; num = num }

-- behind the tag, which ends before `j`: `close` holds the bytes from its second `$` on
unfoldable pub lex_tag : ℕ → ℕ → Bytes → Bytes → Token
lex_tag i j cs [] = run text i (i + 1)
lex_tag i j cs (d ∷ rest) =
    let tag = b'$' ∷ take (j + 1 - (i + 1)) cs in
    if d == b'$'
    then elim (index tag rest) [
      | some k ↦ run text i (j + 1 + k + length tag)
      | none ↦ run text i (i + 1 + length cs)
    ]
    else run text i (i + 1)

unfoldable pub starts_with_digit : Bytes → Bool
starts_with_digit [] = false
starts_with_digit (c ∷ _) = is_digit c

unfoldable pub lex_dollar : ℕ → Bytes → Token
unfolding lex_number lex_tag starts_with_digit
lex_dollar i cs =
    if starts_with_digit cs
    then lex_number i cs
    else (let j = skip_ident (i + 1) cs in lex_tag i j cs (drop (j - (i + 1)) cs))

-- a `:` before the start of an identifier
unfoldable pub lex_name : ℕ → Bytes → Token
lex_name i cs =
    let j = skip_ident (i + 1) cs in
    record { kind = named; lo = i; hi = j; name = take (j - (i + 1)) cs; num = 0 }

-- `case c == ':'`
unfoldable pub lex_colon : ℕ → Bytes → Token
unfolding lex_name
lex_colon i [] = run text i (i + 1)
lex_colon i (d ∷ cs) =
    if d == b':'
    then run text i (i + 2)
    else if is_ident_start d
    then lex_name i (d ∷ cs)
    else run text i (i + 1)

-- `case c == '?'`
unfoldable pub lex_question : ℕ → Bytes → Token
lex_question i cs =
    if next_is b'|' cs || next_is b'&' cs
    then run text i (i + 2)
    else if next_is b'?' cs
    then run escaped_q i (i + 2)
    else run ordinal i (i + 1)

-- the `switch` in the loop; `cs` is the text behind the byte `c` at `i`
unfoldable pub scan : ℕ → ℕ → Bytes → Token
scan i c cs =
    if c == b'-' && next_is b'-' cs
    then run text i (skip_line (i + 2) (drop 1 cs))
    else if c == b'/' && next_is b'*' cs
    then run text i (skip_block 1 (i + 2) (drop 1 cs))
    else if (c == b'E' || c == b'e') && next_is b'\'' cs
    then run text i (skip_escape_string cs (i + 1))
    else if c == b'\'' || c == b'"' || c == b'`'
    then run text i (skip_doubled (c ∷ cs) i c)
    else if c == b'$'
    then lex_dollar i cs
    else if c == b':'
    then lex_colon i cs
    else if c == b'?'
    then lex_question i cs
    else if is_ident_start c
    then run text i (skip_ident (i + 1) cs)
    else run text i (i + 1)

-- the variables of `lex`
pub record Scanner : Type 0 where
  pub i : ℕ
  pub text_start : ℕ
  pub toks : List Token

-- the closure `flush`
abbrev pub flush : ℕ → Scanner → List Token
flush end s = if ltb s.text_start end then s.toks ++ run text s.text_start end ∷ [] else s.toks

-- A parameter is appended behind the text before it.
unfoldable pub advance : Scanner → Token → Scanner
advance s t =
    if is_text t.kind
    then record s { i = t.hi }
    else record { i = t.hi; text_start = t.hi; toks = flush s.i s ++ t ∷ [] }

-- The loop, on fuel; `i < n` says that `sql[i:]` is not empty.
unfoldable pub lex_loop : ℕ → Bytes → Scanner → Scanner
unfolding scan advance
lex_loop zero sql s = s
lex_loop (suc fuel) sql s = elim (drop s.i sql) [
  | [] ↦ s
  | c ∷ cs ↦ lex_loop fuel sql (advance s (scan s.i c cs))
]

abbrev pub initial : Scanner
initial = record { i = 0; text_start = 0; toks = [] }

-- Each round moves `i`, so `n` rounds reach the end.
unfoldable pub lex : Bytes → List Token
unfolding lex_loop
lex sql = flush (length sql) (lex_loop (length sql) sql initial)
