-- ===== src/Lex/Partition.antt =====
-- The tokens of `lex` partition the statement.
use row.Prelude.{
  ℕ, zero, suc, ◌+◌, ◌-◌, ◌≤◌, ◌<◌, List, [], ◌∷◌, ◌++◌, ◌≡◌, refl, sym, ap, ◌∙◌, inl, inr, arith,
  ltb, Bytes, length, take, drop, slice, Bool-cases, length-drop, ltb→lt, List-cases, slice-append,
  take_of_length-le,
}
use row.Lex.Token.{text, Token, is_text}
use row.Lex.Scan.{run, scan, Scanner, flush, advance, lex_loop, initial, lex}
use row.Lex.Bounds.{Moves, scan-Moves}

-- The tokens follow one another from offset `lo` to offset `hi`, none of them empty.
abbrev pub Covers : ℕ → List Token → ℕ → Type 0
Covers lo [] hi = lo ≡ hi
Covers lo (t ∷ ts) hi = (t.lo ≡ lo) × (t.lo < t.hi) × Covers t.hi ts hi

pub Covers-concat :
    (lo mid hi : ℕ) (ts : List Token) (t : Token)
    → Covers lo ts mid
    → t.lo ≡ mid
    → t.lo < t.hi
    → t.hi ≡ hi
    → Covers lo (ts ++ t ∷ []) hi
Covers-concat lo mid hi [] t c p q r = (p ∙ sym c, q, r)
Covers-concat lo mid hi (u ∷ ts) t c p q r = (c.0, c.1, Covers-concat u.hi mid hi ts t c.2 p q r)

-- The invariant of the loop.
record IsScanning (n : ℕ) (s : Scanner) : Type 0 where
  covers : Covers 0 s.toks s.text_start
  behind : s.text_start ≤ s.i
  inside : s.i ≤ n

Covers-end : (lo : ℕ) {mid hi : ℕ} (ts : List Token) → Covers lo ts mid → mid ≡ hi → Covers lo ts hi
Covers-end lo [] c e = c ∙ e
Covers-end lo (t ∷ ts) c e = (c.0, c.1, Covers-end t.hi ts c.2 e)

flush-Covers :
    (s : Scanner) (end : ℕ)
    → Covers 0 s.toks s.text_start
    → s.text_start ≤ end
    → Covers 0 (flush end s) end
flush-Covers s end c h = elim (Bool-cases (ltb s.text_start end)) [
  | inl some_text ↦ rw some_text (
      Covers-concat 0 s.text_start end s.toks (run text s.text_start end) c refl
        (ltb→lt s.text_start end some_text) refl)
  | inr no_text ↦ rw no_text (Covers-end 0 s.toks c (ground arith))
]

advance-IsScanning :
    (n : ℕ) (s : Scanner) (cs : Bytes) (t : Token)
    → Moves s.i cs t
    → s.i + suc (length cs) ≤ n
    → IsScanning n s
    → IsScanning n (advance s t)
unfolding advance
advance-IsScanning n s cs t m h v = elim (Bool-cases (is_text t.kind)) [
  | inl merges ↦
      rw merges (record { covers = v.covers; behind = omega arith; inside = omega arith })
  | inr token ↦ rw token (record {
    covers =
        Covers-concat 0 s.i t.hi (flush s.i s) t (flush-Covers s s.i v.covers v.behind) m.begins
          (omega arith) refl;
    behind = omega arith;
    inside = omega arith;
  })
]

lex_loop-IsScanning :
    (fuel : ℕ) (sql : Bytes) (s : Scanner)
    → IsScanning (length sql) s
    → IsScanning (length sql) (lex_loop fuel sql s)
unfolding lex_loop
lex_loop-IsScanning zero sql s v = v
lex_loop-IsScanning (suc fuel) sql s v = elim (List-cases (drop s.i sql)) [
  | inl done ↦ rw (done, lex_loop) v
  | inr (c, cs, more) ↦
      rw (more, lex_loop)
        (lex_loop-IsScanning fuel sql (advance s (scan s.i c cs)) (
          advance-IsScanning (length sql) s cs (scan s.i c cs) (scan-Moves s.i c cs)
            (omega (arith, ap length more, length-drop s.i sql)) v))
]

-- With a round for each byte left, the loop ends at the end of the statement.
pub lex_loop-ends :
    (fuel : ℕ) (sql : Bytes) (s : Scanner)
    → s.i ≤ length sql
    → length sql ≤ s.i + fuel
    → (lex_loop fuel sql s).i ≡ length sql
unfolding lex_loop advance
lex_loop-ends zero sql s h f = omega arith
lex_loop-ends (suc fuel) sql s h f = elim (List-cases (drop s.i sql)) [
  | inl done ↦ rw (done, lex_loop) (omega (arith, ap length done, length-drop s.i sql))
  | inr (c, cs, more) ↦
      let t = scan s.i c cs in
      let m = scan-Moves s.i c cs in
      let e : (advance s t).i ≡ t.hi = ground arith in
      let left = ap length more ∙ refl in
      rw (more, lex_loop)
        (lex_loop-ends fuel sql (advance s t) (omega (arith, m, e, left, length-drop s.i sql))
          (omega (arith, m, e)))
]

-- The tokens of `lex` follow one another from the first byte of the statement to its end, each of
-- them at least one byte long: every byte belongs to exactly one token.
pub lex-Covers : (sql : Bytes) → Covers 0 (lex sql) (length sql)
unfolding lex
lex-Covers sql =
    let v =
      lex_loop-IsScanning (length sql) sql initial
        (record { covers = refl; behind = omega arith; inside = omega arith }) in
    flush-Covers (lex_loop (length sql) sql initial) (length sql) v.covers (omega (arith, v))

-- The bytes that the tokens stand for, in order.
unfoldable pub source : Bytes → List Token → Bytes
source sql [] = []
source sql (t ∷ ts) = slice sql t.lo t.hi ++ source sql ts

Covers-le : (lo hi : ℕ) (ts : List Token) → Covers lo ts hi → lo ≤ hi
Covers-le lo hi [] c = omega arith
Covers-le lo hi (t ∷ ts) c = omega (arith, c, Covers-le t.hi hi ts c.2)

pub Covers-source :
    (sql : Bytes) (lo hi : ℕ) (ts : List Token) → Covers lo ts hi → source sql ts ≡ slice sql lo hi
unfolding source
Covers-source sql lo hi [] c =
    ap (λ k. take k (drop lo sql)) (let e : 0 ≡ hi - lo = omega (arith, c) in e)
Covers-source sql lo hi (t ∷ ts) c =
    ap (λ xs. slice sql t.lo t.hi ++ xs) (Covers-source sql t.hi hi ts c.2)
    ∙ slice-append sql t.lo t.hi hi (omega (arith, c)) (Covers-le t.hi hi ts c.2)
    ∙ ap (λ k. slice sql k hi) c.0

-- Put together, the source slices of the tokens are the statement.
pub lex-source : (sql : Bytes) → source sql (lex sql) ≡ sql
lex-source sql =
    Covers-source sql 0 (length sql) (lex sql) (lex-Covers sql)
    ∙ take_of_length-le (length sql - 0) sql (omega arith)
