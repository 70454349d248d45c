-- ===== src/Dialect/Placeholder.antt =====
-- The placeholders `$n` and the scanner.
use row.Prelude.{
  ℕ, suc, ◌+◌, ◌/◌, ◌%◌, ◌^◌, true, [], ◌∷◌, ◌≡◌, refl, ap, ◌∙◌, inl, inr, arith, ltb, Bytes,
  Bool-cases, length, length-append,
}
use row.Lex.Token.{Token, numbered}
use row.Lex.Scan.{
  scan, lex_dollar, lex_number, starts_with_digit, advance, initial, lex, lex_loop, flush,
}
use row.Lex.Spelling.{decimal, digit_prefix, read_number-decimal}
use row.Dialect.Decimal.{
  decimal_digits, append_int, append_ordinal, AllDigits, decimal_digits-AllDigits,
  decimal-decimal_digits,
}
use row.Dialect.Quote.{lex_loop_done}

digit_prefix-AllDigits : (ds : Bytes) → AllDigits ds → digit_prefix ds ≡ ds
unfolding digit_prefix
digit_prefix-AllDigits [] h = refl
digit_prefix-AllDigits (c ∷ cs) h = rw (h.0, digit_prefix-AllDigits cs h.1)

starts-AllDigits :
    (ds : Bytes) → AllDigits ds → ltb 0 (length ds) ≡ true → starts_with_digit ds ≡ true
unfolding starts_with_digit
starts-AllDigits [] h n = cc
starts-AllDigits (c ∷ cs) h n = h.0

decimal_digits-nonempty : (n : ℕ) → ltb 0 (length (decimal_digits (suc n) n)) ≡ true
unfolding decimal_digits
decimal_digits-nonempty n = elim (Bool-cases (ltb n 10)) [
  | inl y ↦ rw y refl
  | inr m ↦ rw m (ground (arith, length-append (decimal_digits n (n / 10)) ((b'0' + n % 10) ∷ [])))
]

scan-digits :
    (ds : Bytes)
    → AllDigits ds
    → ltb 0 (length ds) ≡ true
    → scan 0 b'$' ds
      ≡ record { kind = numbered; lo = 0; hi = 1 + length ds; name = []; num = decimal 0 ds }
unfolding scan lex_dollar lex_number
scan-digits ds all n =
    rw (starts-AllDigits ds all n, read_number-decimal 0 1 ds, digit_prefix-AllDigits ds all) refl

lex-digits :
    (ds : Bytes)
    → AllDigits ds
    → ltb 0 (length ds) ≡ true
    → lex (b'$' ∷ ds)
      ≡ record { kind = numbered; lo = 0; hi = suc (length ds); name = []; num = decimal 0 ds } ∷ []
unfolding lex lex_loop advance
lex-digits ds all n =
    let t : Token = record {
      kind = numbered;
      lo = 0;
      hi = suc (length ds);
      name = [];
      num = decimal 0 ds;
    } in
    ap (λ u. flush (suc (length ds)) (lex_loop (length ds) (b'$' ∷ ds) (advance initial u)))
      (scan-digits ds all n
        ∙ ap (λ k. record { kind = numbered; lo = 0; hi = k; name = []; num = decimal 0 ds })
            (let e : 1 + length ds ≡ suc (length ds) = omega arith in e))
    ∙ ap (flush (suc (length ds))) (
        lex_loop_done (length ds) (b'$' ∷ ds)
          (record { i = suc (length ds); text_start = suc (length ds); toks = t ∷ [] })
          (omega arith))
    ∙ ground arith

-- The placeholder `$n` that a dialect writes for its n-th parameter is scanned as one parameter
-- with the number n, in 64 bits.
pub lex-append_ordinal :
    (n : ℕ)
    → lex (append_ordinal [] b'$' n)
      ≡ record {
        kind = numbered;
        lo = 0;
        hi = length (append_ordinal [] b'$' n);
        name = [];
        num = n % 2 ^ 64;
      }
        ∷ []
unfolding append_ordinal append_int
lex-append_ordinal n =
    let ds = decimal_digits (suc n) n in
    lex-digits ds (decimal_digits-AllDigits (suc n) n) (decimal_digits-nonempty n)
    ∙ ap (λ k. record { kind = numbered; lo = 0; hi = suc (length ds); name = []; num = k } ∷ [])
        (decimal-decimal_digits (suc n) n (omega arith))
