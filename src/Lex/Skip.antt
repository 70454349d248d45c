-- ===== src/Lex/Skip.antt =====
-- lex.go: the inner loops of the scanner. Each takes an offset `i` with the text from there on,
-- `sql[i:]`, and returns the offset to resume at.
use row.Prelude.{
  ℕ, zero, suc, ◌+◌, ◌-◌, ◌*◌, ◌%◌, ◌^◌, Bool, true, false, ◌&&◌, [], ◌∷◌, Option, none, some, ◌==◌,
  if◌then◌else◌, Bytes,
}
use mathlib.Core.Option
use row.Lex.Token.{is_ident_byte, is_digit}

-- `i+1 < n && sql[i+1] == b`, on the text behind `i`
abbrev pub next_is : ℕ → Bytes → Bool
next_is b [] = false
next_is b (c ∷ _) = c == b

-- `for i < n && sql[i] != '\n' { i++ }`
unfoldable pub skip_line : ℕ → Bytes → ℕ
skip_line i [] = i
skip_line i (c ∷ cs) = if c == b'\n' then i else skip_line (i + 1) cs

-- the loop over a block comment, at a nesting depth
unfoldable pub skip_block : ℕ → ℕ → Bytes → ℕ
skip_block zero i cs = i
skip_block (suc depth) i [] = i
skip_block (suc depth) i (c ∷ []) = i + 1
skip_block (suc depth) i (c ∷ d ∷ cs) = elim (c == b'/' && d == b'*') [
  | true ↦ skip_block (suc (suc depth)) (i + 2) cs
  | false ↦ elim (c == b'*' && d == b'/') [
    | true ↦ skip_block depth (i + 2) cs
    | false ↦ skip_block (suc depth) (i + 1) (d ∷ cs)
  ]
]

-- the loop of `skipDoubled`; one byte before the end both of its branches stop at `n`
unfoldable pub doubled_loop : ℕ → ℕ → Bytes → ℕ
doubled_loop q i [] = i
doubled_loop q i (c ∷ []) = i + 1
doubled_loop q i (c ∷ d ∷ cs) = elim (c == q) [
  | true ↦ elim (d == q) [ true ↦ doubled_loop q (i + 2) cs | false ↦ i + 1 ]
  | false ↦ doubled_loop q (i + 1) (d ∷ cs)
]

unfoldable pub skip_doubled : Bytes → ℕ → ℕ → ℕ
unfolding doubled_loop
skip_doubled [] i q = i
skip_doubled (_ ∷ cs) i q = doubled_loop q (i + 1) cs

-- the loop of `skipEscapeString`
unfoldable pub escape_loop : ℕ → Bytes → ℕ
escape_loop i [] = i
escape_loop i (c ∷ []) = i + 1
escape_loop i (c ∷ d ∷ cs) = elim (c == b'\\') [
  | true ↦ escape_loop (i + 2) cs
  | false ↦ elim (c == b'\'') [
    | true ↦ elim (d == b'\'') [ true ↦ escape_loop (i + 2) cs | false ↦ i + 1 ]
    | false ↦ escape_loop (i + 1) (d ∷ cs)
  ]
]

unfoldable pub skip_escape_string : Bytes → ℕ → ℕ
unfolding escape_loop
skip_escape_string [] i = i
skip_escape_string (_ ∷ cs) i = escape_loop (i + 1) cs

-- `for j < n && isIdentByte(sql[j]) { j++ }`
unfoldable pub skip_ident : ℕ → Bytes → ℕ
skip_ident j [] = j
skip_ident j (c ∷ cs) = if is_ident_byte c then skip_ident (j + 1) cs else j

-- The digits of `$12`: the number, with the wrap-around of a 64-bit `int`, and the end.
unfoldable pub read_number : ℕ → ℕ → Bytes → ℕ × ℕ
read_number num j [] = (num, j)
read_number num j (c ∷ cs) =
    if is_digit c then read_number ((num * 10 + (c - b'0')) % 2 ^ 64) (j + 1) cs else (num, j)

-- Go's `strings.HasPrefix` and `strings.Index`
unfoldable pub starts_with : Bytes → Bytes → Bool
starts_with [] s = true
starts_with (p ∷ ps) [] = false
starts_with (p ∷ ps) (c ∷ cs) = c == p && starts_with ps cs

unfoldable pub index : Bytes → Bytes → Option ℕ
unfolding starts_with
index tag [] = if starts_with tag [] then some 0 else none
index tag (c ∷ cs) =
    if starts_with tag (c ∷ cs) then some 0 else Option.map (λ k. k + 1) (index tag cs)
