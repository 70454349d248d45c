-- ===== src/Lex/Spelling.antt =====
-- How each token is spelled in the statement.
use row.Prelude.{
  ℕ, zero, suc, ◌+◌, ◌-◌, ◌*◌, ◌%◌, ◌^◌, Bool, true, false, ◌&&◌, ◌||◌, List, [], ◌∷◌, ◌++◌, ◌≡◌,
  ◌≢◌, refl, sym, ap, ◌∙◌, inl, inr, arith, ◌==◌, ==_iff, ltb, if◌then◌else◌, Bytes, length, take,
  drop, Bool-cases, List-cases,
}
use row.Lex.Token.{
  text, named, ordinal, numbered, escaped_q, Token, is_text, is_ident_start, is_ident_byte,
  is_digit,
}
use row.Lex.Skip.{next_is, skip_ident, read_number}
use row.Lex.Scan.{
  run, lex_name, lex_number, lex_tag, starts_with_digit, lex_dollar, lex_colon, lex_question, scan,
  Scanner, flush, advance, lex_loop, initial, lex,
}
use row.Lex.Bounds.{scan-Moves}

-- The longest prefix of identifier bytes, and of digits.
unfoldable pub ident_prefix : Bytes → Bytes
ident_prefix [] = []
ident_prefix (c ∷ cs) = if is_ident_byte c then c ∷ ident_prefix cs else []

unfoldable pub digit_prefix : Bytes → Bytes
digit_prefix [] = []
digit_prefix (c ∷ cs) = if is_digit c then c ∷ digit_prefix cs else []

-- The decimal value of digits behind a number, in 64 bits.
unfoldable pub decimal : ℕ → Bytes → ℕ
decimal num [] = num
decimal num (c ∷ cs) = decimal ((num * 10 + (c - b'0')) % 2 ^ 64) cs

-- What stands at the offset of a token, `at`, for each kind of parameter.
pub data Spells (t : Token) (at : Bytes) : Type 0 where
  as_text : t.kind ≡ text → Spells t at
  as_named :
      (rest : Bytes)
      → t.kind ≡ named
      → at ≡ b':' ∷ rest
      → t.name ≡ ident_prefix rest
      → t.name ≢ []
      → t.hi ≡ t.lo + 1 + length t.name
      → Spells t at
  as_numbered :
      (rest : Bytes)
      → t.kind ≡ numbered
      → at ≡ b'$' ∷ rest
      → t.num ≡ decimal 0 (digit_prefix rest)
      → digit_prefix rest ≢ []
      → t.hi ≡ t.lo + 1 + length (digit_prefix rest)
      → Spells t at
  as_ordinal :
      (rest : Bytes)
      → t.kind ≡ ordinal
      → at ≡ b'?' ∷ rest
      → (next_is b'?' rest || next_is b'|' rest || next_is b'&' rest) ≡ false
      → t.hi ≡ t.lo + 1
      → Spells t at
  as_escaped_q :
      (rest : Bytes) → t.kind ≡ escaped_q → at ≡ b'?' ∷ b'?' ∷ rest → t.hi ≡ t.lo + 2 → Spells t at

skip_ident-ident_prefix : (j : ℕ) (cs : Bytes) → skip_ident j cs ≡ j + length (ident_prefix cs)
unfolding skip_ident ident_prefix
skip_ident-ident_prefix j [] = omega arith
skip_ident-ident_prefix j (c ∷ cs) = ground (arith, skip_ident-ident_prefix (j + 1) cs)

take-ident_prefix : (cs : Bytes) → take (length (ident_prefix cs)) cs ≡ ident_prefix cs
unfolding ident_prefix
take-ident_prefix [] = refl
take-ident_prefix (c ∷ cs) = elim (Bool-cases (is_ident_byte c)) [
  | inl y ↦ rw y (ap (◌∷◌ c) (take-ident_prefix cs))
  | inr n ↦ rw n
]

pub read_number-decimal :
    (num j : ℕ) (cs : Bytes)
    → read_number num j cs ≡ (decimal num (digit_prefix cs), j + length (digit_prefix cs))
unfolding read_number decimal digit_prefix
read_number-decimal num j [] = ground arith
read_number-decimal num j (c ∷ cs) =
    ground (arith, read_number-decimal ((num * 10 + (c - b'0')) % 2 ^ 64) (j + 1) cs)

lex_number-Spells :
    (i : ℕ) (cs : Bytes) → starts_with_digit cs ≡ true → Spells (lex_number i cs) (b'$' ∷ cs)
unfolding lex_number starts_with_digit digit_prefix
lex_number-Spells i [] h = cc
lex_number-Spells i (c ∷ cs) h =
    let e = read_number-decimal 0 (i + 1) (c ∷ cs) in
    as_numbered (c ∷ cs) refl refl (ap (λ p. p.0) e) (ground arith) (ap (λ p. p.1) e)

lex_tag-text : (i j : ℕ) (cs behind : Bytes) → (lex_tag i j cs behind).kind ≡ text
unfolding lex_tag
lex_tag-text i j cs [] = refl
lex_tag-text i j cs (d ∷ rest) = ground arith

lex_dollar-Spells : (i : ℕ) (cs : Bytes) → Spells (lex_dollar i cs) (b'$' ∷ cs)
unfolding lex_dollar
lex_dollar-Spells i cs = elim (Bool-cases (starts_with_digit cs)) [
  | inl y ↦ rw y (lex_number-Spells i cs y)
  | inr n ↦ rw n (
      as_text
        (lex_tag-text i (skip_ident (i + 1) cs) cs (drop (skip_ident (i + 1) cs - (i + 1)) cs)))
]

ident_prefix-ne_nil : (d : ℕ) (cs : Bytes) → is_ident_start d ≡ true → ident_prefix (d ∷ cs) ≢ []
unfolding ident_prefix is_ident_byte
ident_prefix-ne_nil d cs h = ground arith

lex_name-Spells :
    (i d : ℕ) (cs : Bytes) → is_ident_start d ≡ true → Spells (lex_name i (d ∷ cs)) (b':' ∷ d ∷ cs)
unfolding lex_name
lex_name-Spells i d cs y =
    let j = skip_ident (i + 1) (d ∷ cs) in
    let e = skip_ident-ident_prefix (i + 1) (d ∷ cs) in
    let n : j - (i + 1) ≡ length (ident_prefix (d ∷ cs)) = omega (arith, e) in
    let name = ap (λ k. take k (d ∷ cs)) n ∙ take-ident_prefix (d ∷ cs) in
    as_named (d ∷ cs) refl refl name (λ empty. ident_prefix-ne_nil d cs y (sym name ∙ empty))
      (e ∙ ap (λ x. i + 1 + length x) (sym name))

lex_colon-Spells : (i : ℕ) (cs : Bytes) → Spells (lex_colon i cs) (b':' ∷ cs)
unfolding lex_colon
lex_colon-Spells i [] = as_text refl
lex_colon-Spells i (d ∷ cs) = elim (Bool-cases (d == b':')) [
  | inl y ↦ rw y (as_text refl)
  | inr n ↦ rw n (elim (Bool-cases (is_ident_start d)) [
    | inl y ↦ rw y (lex_name-Spells i d cs y)
    | inr n' ↦ rw n' (as_text refl)
  ])
]

lex_question-Spells : (i : ℕ) (cs : Bytes) → Spells (lex_question i cs) (b'?' ∷ cs)
unfolding lex_question
lex_question-Spells i [] = as_ordinal [] refl refl refl refl
lex_question-Spells i (d ∷ cs) = elim (Bool-cases (d == b'|' || d == b'&')) [
  | inl y ↦ rw y (as_text refl)
  | inr n ↦ rw n (elim (Bool-cases (d == b'?')) [
    | inl y ↦ rw y (as_escaped_q cs refl (ap (λ x. b'?' ∷ x ∷ cs) ((==_iff d b'?').0 y)) refl)
    | inr n' ↦ rw n' (as_ordinal (d ∷ cs) refl refl (ground arith) refl)
  ])
]

Spells-if :
    (b : Bool) {t e : Token} {at : Bytes}
    → (b ≡ true → Spells t at)
    → (b ≡ false → Spells e at)
    → Spells (if b then t else e) at
Spells-if true h k = h refl
Spells-if false h k = k refl

scan-Spells : (i c : ℕ) (cs : Bytes) → Spells (scan i c cs) (c ∷ cs)
unfolding scan
scan-Spells i c cs =
    Spells-if (c == b'-' && next_is b'-' cs) (λ _. as_text refl)
      λ _.
        Spells-if (c == b'/' && next_is b'*' cs) (λ _. as_text refl)
          λ _.
            Spells-if ((c == b'E' || c == b'e') && next_is b'\'' cs) (λ _. as_text refl)
              λ _.
                Spells-if (c == b'\'' || c == b'"' || c == b'`') (λ _. as_text refl)
                  λ _.
                    Spells-if (c == b'$') (λ y. at_byte c b'$' y (lex_dollar-Spells i cs))
                      λ _.
                        Spells-if (c == b':') (λ y. at_byte c b':' y (lex_colon-Spells i cs))
                          λ _.
                            Spells-if (c == b'?') (λ y. at_byte c b'?' y (lex_question-Spells i cs))
                              λ _.
                                Spells-if (is_ident_start c) (λ _. as_text refl) λ _. as_text refl
  where
    at_byte : (c d : ℕ) → (c == d) ≡ true → {t : Token} → Spells t (d ∷ cs) → Spells t (c ∷ cs)
    at_byte c d y s = rw ((==_iff c d).0 y) s

-- Every token is spelled in `sql`, at its offset, as its kind says.
abbrev pub AllSpelled : Bytes → List Token → Type 0
AllSpelled sql [] = Unit {0}
AllSpelled sql (t ∷ ts) = Spells t (drop t.lo sql) × AllSpelled sql ts

AllSpelled-concat :
    (sql : Bytes) (ts : List Token) (t : Token)
    → AllSpelled sql ts
    → Spells t (drop t.lo sql)
    → AllSpelled sql (ts ++ t ∷ [])
AllSpelled-concat sql [] t h k = (k, tt)
AllSpelled-concat sql (u ∷ ts) t h k = (h.0, AllSpelled-concat sql ts t h.1 k)

flush-AllSpelled :
    (sql : Bytes) (end : ℕ) (s : Scanner) → AllSpelled sql s.toks → AllSpelled sql (flush end s)
flush-AllSpelled sql end s h = elim (Bool-cases (ltb s.text_start end)) [
  | inl y ↦ rw y (AllSpelled-concat sql s.toks (run text s.text_start end) h (as_text refl))
  | inr n ↦ rw n h
]

advance-AllSpelled :
    (sql : Bytes) (s : Scanner) (t : Token)
    → AllSpelled sql s.toks
    → Spells t (drop t.lo sql)
    → AllSpelled sql (advance s t).toks
unfolding advance
advance-AllSpelled sql s t h k = elim (Bool-cases (is_text t.kind)) [
  | inl y ↦ rw y h
  | inr n ↦ rw n (AllSpelled-concat sql (flush s.i s) t (flush-AllSpelled sql s.i s h) k)
]

lex_loop-AllSpelled :
    (fuel : ℕ) (sql : Bytes) (s : Scanner)
    → AllSpelled sql s.toks
    → AllSpelled sql (lex_loop fuel sql s).toks
unfolding lex_loop
lex_loop-AllSpelled zero sql s h = h
lex_loop-AllSpelled (suc fuel) sql s h = elim (List-cases (drop s.i sql)) [
  | inl done ↦ rw (done, lex_loop) h
  | inr (c, cs, more) ↦
      let t = scan s.i c cs in
      let at : drop t.lo sql ≡ c ∷ cs = ap (λ k. drop k sql) (scan-Moves s.i c cs).begins ∙ more in
      rw (more, lex_loop)
        (lex_loop-AllSpelled fuel sql (advance s t)
          (advance-AllSpelled sql s t h (rw at (scan-Spells s.i c cs))))
]

-- Every token of `lex` is spelled in the statement, at its own offset, as its kind says: a named
-- one is a colon and the longest run of identifier bytes behind it, which is its name and not
-- empty; a numbered one is a dollar sign and the longest run of digits, of which its number is the
-- decimal value in 64 bits; an ordinal one is a question mark that no `?`, `|` or `&` follows; an
-- escaped one is `??`.
pub lex-AllSpelled : (sql : Bytes) → AllSpelled sql (lex sql)
unfolding lex
lex-AllSpelled sql =
    flush-AllSpelled sql (length sql) (lex_loop (length sql) sql initial)
      (lex_loop-AllSpelled (length sql) sql initial tt)
