-- ===== src/Lex/Bounds.antt =====
-- Where the inner loops of the scanner stop: never before the offset that they start from, and
-- never behind the end of the statement.
use row.Prelude.{
  ℕ, zero, suc, ◌+◌, ◌-◌, ◌*◌, ◌%◌, ◌^◌, ◌≤◌, ◌<◌, true, [], ◌∷◌, some, ◌≡◌, inl, inr, arith, ◌==◌,
  Bytes, length, take, drop, Bool-cases, Option-cases, length-drop,
}
use row.Lex.Token.{Token}
use row.Lex.Skip.{
  next_is, skip_line, skip_block, doubled_loop, skip_doubled, escape_loop, skip_escape_string,
  skip_ident, read_number, starts_with, index,
}
use row.Lex.Scan.{lex_number, lex_tag, starts_with_digit, lex_dollar, lex_colon, lex_question, scan}

-- `j` lies between `i` and the end of the text `cs` that begins at `i`.
abbrev pub Within : ℕ → Bytes → ℕ → Type 0
Within i cs j = (i ≤ j) × (j ≤ i + length cs)

pub skip_line-Within : (i : ℕ) (cs : Bytes) → Within i cs (skip_line i cs)
unfolding skip_line
skip_line-Within i [] = omega arith
skip_line-Within i (c ∷ cs) = ground (arith, skip_line-Within (i + 1) cs)

pub skip_block-Within : (depth i : ℕ) (cs : Bytes) → Within i cs (skip_block depth i cs)
unfolding skip_block
skip_block-Within zero i cs = omega arith
skip_block-Within (suc depth) i [] = omega arith
skip_block-Within (suc depth) i (c ∷ []) = omega arith
skip_block-Within (suc depth) i (c ∷ d ∷ cs) = ground (
  arith,
  skip_block-Within (suc (suc depth)) (i + 2) cs,
  skip_block-Within depth (i + 2) cs,
  skip_block-Within (suc depth) (i + 1) (d ∷ cs),
)

doubled_loop-Within : (q i : ℕ) (cs : Bytes) → Within i cs (doubled_loop q i cs)
unfolding doubled_loop
doubled_loop-Within q i [] = omega arith
doubled_loop-Within q i (c ∷ []) = omega arith
doubled_loop-Within q i (c ∷ d ∷ cs) =
    ground (arith, doubled_loop-Within q (i + 2) cs, doubled_loop-Within q (i + 1) (d ∷ cs))

escape_loop-Within : (i : ℕ) (cs : Bytes) → Within i cs (escape_loop i cs)
unfolding escape_loop
escape_loop-Within i [] = omega arith
escape_loop-Within i (c ∷ []) = omega arith
escape_loop-Within i (c ∷ d ∷ cs) =
    ground (arith, escape_loop-Within (i + 2) cs, escape_loop-Within (i + 1) (d ∷ cs))

pub skip_ident-Within : (i : ℕ) (cs : Bytes) → Within i cs (skip_ident i cs)
unfolding skip_ident
skip_ident-Within i [] = omega arith
skip_ident-Within i (c ∷ cs) = ground (arith, skip_ident-Within (i + 1) cs)

read_number-Within : (num i : ℕ) (cs : Bytes) → Within i cs (read_number num i cs).1
unfolding read_number
read_number-Within num i [] = omega arith
read_number-Within num i (c ∷ cs) =
    ground (arith, read_number-Within ((num * 10 + (c - b'0')) % 2 ^ 64) (i + 1) cs)

starts_with-length : (p s : Bytes) → starts_with p s ≡ true → length p ≤ length s
unfolding starts_with
starts_with-length [] s h = omega arith
starts_with-length (x ∷ p) [] h = ground arith
starts_with-length (x ∷ p) (c ∷ s) h = ground (arith, starts_with-length p s)

-- What `strings.Index` finds fits into the text.
index-length : (p s : Bytes) (k : ℕ) → index p s ≡ some k → k + length p ≤ length s
unfolding index
index-length p [] k h = ground (arith, starts_with-length p [])
index-length p (c ∷ s) k h = ground (arith, starts_with-length p (c ∷ s), index-length p s (k - 1))

-- A round that starts at `i`, with `cs` behind the byte there, reads that byte and at most `cs`.
pub record Moves (i : ℕ) (cs : Bytes) (t : Token) : Type 0 where
  pub begins : t.lo ≡ i
  pub moves : i < t.hi
  pub stays : t.hi ≤ i + suc (length cs)

lex_tag-Moves :
    (i j : ℕ) (cs behind : Bytes)
    → i < j
    → j + length behind ≡ i + 1 + length cs
    → Moves i cs (lex_tag i j cs behind)
unfolding lex_tag
lex_tag-Moves i j cs [] p e = omega arith
lex_tag-Moves i j cs (d ∷ rest) p e =
    let tag = b'$' ∷ take (j + 1 - (i + 1)) cs in
    elim (Bool-cases (d == b'$')) [
      | inl quote ↦ elim (Option-cases (index tag rest)) [
        | inl open_ended ↦ rw (quote, open_ended, lex_tag) (omega arith)
        | inr (k, closed) ↦
            rw (quote, closed, lex_tag) (omega (arith, index-length tag rest k closed))
      ]
      | inr lone ↦ rw lone (omega arith)
    ]

lex_dollar-Moves : (i : ℕ) (cs : Bytes) → Moves i cs (lex_dollar i cs)
unfolding lex_dollar lex_number
lex_dollar-Moves i cs =
    let j = skip_ident (i + 1) cs in
    let w = skip_ident-Within (i + 1) cs in
    let tail = drop (j - (i + 1)) cs in
    let tag =
      lex_tag-Moves i j cs tail (omega (arith, w))
        (omega (arith, w, length-drop (j - (i + 1)) cs)) in
    elim (Bool-cases (starts_with_digit cs)) [
      | inl digits ↦ rw digits (omega (arith, read_number-Within 0 (i + 1) cs))
      | inr word ↦ rw word tag
    ]

lex_colon-Moves : (i : ℕ) (cs : Bytes) → Moves i cs (lex_colon i cs)
unfolding lex_colon
lex_colon-Moves i [] = omega arith
lex_colon-Moves i (d ∷ cs) = ground (arith, skip_ident-Within (i + 1) (d ∷ cs))

lex_question-Moves : (i : ℕ) (cs : Bytes) → Moves i cs (lex_question i cs)
unfolding lex_question
lex_question-Moves i [] = omega arith
lex_question-Moves i (d ∷ cs) = ground arith

skip_doubled-Within : (c i q : ℕ) (cs : Bytes) → Within (i + 1) cs (skip_doubled (c ∷ cs) i q)
unfolding skip_doubled
skip_doubled-Within c i q cs = doubled_loop-Within q (i + 1) cs

-- Behind an `E` the text goes on with the quote.
skip_escape-Within :
    (i : ℕ) (cs : Bytes)
    → next_is b'\'' cs ≡ true
    → Within (i + 1) cs (skip_escape_string cs (i + 1))
unfolding skip_escape_string
skip_escape-Within i [] h = cc
skip_escape-Within i (d ∷ cs) h = omega (arith, escape_loop-Within (i + 1 + 1) cs)

pub scan-Moves : (i c : ℕ) (cs : Bytes) → Moves i cs (scan i c cs)
unfolding scan
scan-Moves i c [] = ground (
  arith,
  lex_dollar-Moves i [],
  lex_colon-Moves i [],
  lex_question-Moves i [],
  skip_doubled-Within c i c [],
  skip_ident-Within (i + 1) [],
)
scan-Moves i c (d ∷ cs) = ground (
  arith,
  lex_dollar-Moves i (d ∷ cs),
  lex_colon-Moves i (d ∷ cs),
  lex_question-Moves i (d ∷ cs),
  skip_doubled-Within c i c (d ∷ cs),
  skip_escape-Within i (d ∷ cs),
  skip_ident-Within (i + 1) (d ∷ cs),
  skip_line-Within (i + 2) cs,
  skip_block-Within 1 (i + 2) cs,
)
