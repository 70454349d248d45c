-- ===== src/Dialect/Decimal.antt =====
-- `strconv.AppendInt` in base 10, and `AppendOrdinal` of dialect.go.
use row.Prelude.{
  ℕ, zero, suc, ◌+◌, ◌-◌, ◌*◌, ◌/◌, ◌%◌, ◌^◌, ◌<◌, true, [], ◌∷◌, ◌++◌, ◌≡◌, refl, ◌∙◌, inl, inr,
  arith, ltb, if◌then◌else◌, Bytes, Bool-cases,
}
use row.Lex.Token.{is_digit}
use row.Lex.Spelling.{decimal}

-- The decimal digits of a number, on fuel; a number has fewer digits than itself and one.
unfoldable pub decimal_digits : ℕ → ℕ → Bytes
decimal_digits zero n = []
decimal_digits (suc fuel) n =
    let front = decimal_digits fuel (n / 10) in
    if ltb n 10 then (b'0' + n) ∷ [] else front ++ (b'0' + n % 10) ∷ []

unfoldable pub append_int : Bytes → ℕ → Bytes
unfolding decimal_digits
append_int dst n = dst ++ decimal_digits (suc n) n

unfoldable pub append_ordinal : Bytes → ℕ → ℕ → Bytes
unfolding append_int
append_ordinal dst prefix n = append_int (dst ++ prefix ∷ []) n

abbrev pub AllDigits : Bytes → Type 0
AllDigits [] = Unit {0}
AllDigits (c ∷ cs) = (is_digit c ≡ true) × AllDigits cs

AllDigits-concat :
    (cs : Bytes) (c : ℕ) → AllDigits cs → is_digit c ≡ true → AllDigits (cs ++ c ∷ [])
AllDigits-concat [] c h k = (k, tt)
AllDigits-concat (d ∷ cs) c h k = (h.0, AllDigits-concat cs c h.1 k)

pub decimal_digits-AllDigits : (fuel n : ℕ) → AllDigits (decimal_digits fuel n)
unfolding decimal_digits
decimal_digits-AllDigits zero n = tt
decimal_digits-AllDigits (suc fuel) n = elim (Bool-cases (ltb n 10)) [
  | inl one ↦ rw one ((unfold is_digit in ground arith), tt)
  | inr more ↦ rw more (
      AllDigits-concat (decimal_digits fuel (n / 10)) (b'0' + n % 10)
        (decimal_digits-AllDigits fuel (n / 10)) (unfold is_digit in ground arith))
]

decimal-concat :
    (num : ℕ) (cs : Bytes) (c : ℕ)
    → decimal num (cs ++ c ∷ []) ≡ (decimal num cs * 10 + (c - b'0')) % 2 ^ 64
unfolding decimal
decimal-concat num [] c = refl
decimal-concat num (d ∷ cs) c = decimal-concat ((num * 10 + (d - b'0')) % 2 ^ 64) cs c

-- Reading back the digits of a number gives the number, in 64 bits.
pub decimal-decimal_digits :
    (fuel n : ℕ) → n < fuel → decimal 0 (decimal_digits fuel n) ≡ n % 2 ^ 64
unfolding decimal_digits
decimal-decimal_digits zero n h = elim h [ ]
decimal-decimal_digits (suc fuel) n h = elim (Bool-cases (ltb n 10)) [
  | inl one ↦ rw one (unfold decimal in ground arith)
  | inr more ↦ rw more (
      decimal-concat 0 (decimal_digits fuel (n / 10)) (b'0' + n % 10)
      ∙ omega (arith, decimal-decimal_digits fuel (n / 10) (ground arith)))
]
