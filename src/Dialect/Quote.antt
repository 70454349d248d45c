-- ===== src/Dialect/Quote.antt =====
-- `QuoteWith` of dialect.go, and how the scanner reads what it writes.
use row.Prelude.{
  ℕ, zero, suc, ◌+◌, false, [], ◌∷◌, ◌++◌, ◌≡◌, refl, arith, ◌==◌, ==_iff, ap, ◌∙◌, ◌⊎◌,
  if◌then◌else◌, Bytes, length, length-append, drop_of_length-le, Bool-cases, inl, inr,
}
use row.Lex.Token.{text}
use row.Lex.Scan.{run, scan, Scanner, flush, advance, lex_loop, initial, lex}
use row.Lex.Skip.{next_is, doubled_loop, skip_doubled}

-- the second loop of `QuoteWith`: `q` before each `q` of the name
unfoldable pub quote_body : ℕ → Bytes → Bytes
quote_body q [] = []
quote_body q (c ∷ cs) = if c == q then q ∷ c ∷ quote_body q cs else c ∷ quote_body q cs

unfoldable pub quote_with : Bytes → ℕ → Bytes
unfolding quote_body
quote_with name q = q ∷ (quote_body q name ++ q ∷ [])

doubled_loop_pair :
    (q i : ℕ) (cs : Bytes) → doubled_loop q i (q ∷ q ∷ cs) ≡ doubled_loop q (i + 2) cs
unfolding doubled_loop
doubled_loop_pair q i cs = ground arith

doubled_loop_other :
    (q i c : ℕ) (cs : Bytes)
    → (c == q) ≡ false
    → doubled_loop q i (c ∷ cs) ≡ doubled_loop q (i + 1) cs
unfolding doubled_loop
doubled_loop_other q i c [] h = refl
doubled_loop_other q i c (d ∷ cs) h = ground arith

-- Behind the opening quote the scanner stops right behind the closing one.
doubled_loop-quote_body :
    (q i : ℕ) (name rest : Bytes)
    → next_is q rest ≡ false
    → doubled_loop q i (quote_body q name ++ (q ∷ rest)) ≡ i + length (quote_body q name) + 1
unfolding quote_body
doubled_loop-quote_body q i [] [] h = unfold doubled_loop in ground arith
doubled_loop-quote_body q i [] (d ∷ rest) h = unfold doubled_loop in ground arith
doubled_loop-quote_body q i (c ∷ cs) rest h = elim (Bool-cases (c == q)) [
  | inl y ↦
      let pair =
        ap (λ x. doubled_loop q i (q ∷ x ∷ (quote_body q cs ++ (q ∷ rest)))) ((==_iff c q).0 y)
        ∙ doubled_loop_pair q i (quote_body q cs ++ (q ∷ rest))
        ∙ doubled_loop-quote_body q (i + 2) cs rest h in
      rw y (pair ∙ omega arith)
  | inr n ↦ rw n (
      doubled_loop_other q i c (quote_body q cs ++ (q ∷ rest)) n
      ∙ doubled_loop-quote_body q (i + 1) cs rest h
      ∙ omega arith)
]

-- the delimiters of `case c == '\'' || c == '"' || c == '`'`
abbrev pub IsQuote : ℕ → Type 0
IsQuote q = (q ≡ b'\'') ⊎ (q ≡ b'"') ⊎ (q ≡ b'`')

scan_quote :
    (i q : ℕ) (cs : Bytes) → IsQuote q → scan i q cs ≡ run text i (skip_doubled (q ∷ cs) i q)
unfolding scan
scan_quote i q cs h = ground arith

-- Where the scanner meets a name that `QuoteWith` has quoted with one of the three quotes, one
-- round takes it past the closing quote and adds no token, whatever bytes the name holds, if what
-- follows does not begin with the quote.
pub advance-quote_with :
    (s : Scanner) (q : ℕ) (name rest : Bytes)
    → IsQuote q
    → next_is q rest ≡ false
    → advance s (scan s.i q (quote_body q name ++ (q ∷ rest)))
      ≡ record s { i = s.i + length (quote_with name q) }
unfolding advance skip_doubled quote_with
advance-quote_with s q name rest h k =
    let m = length-append (quote_body q name) (q ∷ []) in
    rw scan_quote (
      ap (λ k. record s { i = k })
        (doubled_loop-quote_body q (s.i + 1) name rest k ∙ omega (arith, m)))

pub lex_loop_done :
    (fuel : ℕ) (sql : Bytes) (s : Scanner) → s.i ≡ length sql → lex_loop fuel sql s ≡ s
unfolding lex_loop
lex_loop_done zero sql s h = refl
lex_loop_done (suc fuel) sql s h = rw (drop_of_length-le s.i sql (omega arith), lex_loop)

flush_first :
    (n : ℕ)
    → flush (suc n) (record { i = 0 + suc n; text_start = 0; toks = [] }) ≡ run text 0 (suc n) ∷ []
flush_first n = ground arith

-- A name quoted by `QuoteWith` with one of the three quotes of the scanner is scanned as one text
-- token: nothing in it is taken for a parameter.
pub lex-quote_with :
    (q : ℕ) (name : Bytes)
    → IsQuote q
    → lex (quote_with name q) ≡ run text 0 (length (quote_with name q)) ∷ []
unfolding lex lex_loop quote_with
lex-quote_with q name h =
    let sql = quote_with name q in
    let first = advance-quote_with initial q name [] h refl in
    let done =
      lex_loop_done (length (quote_body q name ++ q ∷ [])) sql
        (record initial { i = 0 + length sql }) (omega arith) in
    ap (λ s. flush (length sql) (lex_loop (length (quote_body q name ++ q ∷ [])) sql s)) first
    ∙ ap (flush (length sql)) done
    ∙ flush_first (length (quote_body q name ++ q ∷ []))
