-- ===== src/Lex/Merged.antt =====
-- Adjacent text is merged, and the loop of `lex` reaches the end of the statement.
use row.Prelude.{
  ℕ, zero, suc, ◌≤◌, Bool, true, false, not, ◌&&◌, List, [], ◌∷◌, ◌++◌, ◌≡◌, refl, inl, inr, arith,
  ltb, Bytes, length, drop, Bool-cases, List-cases,
}
use row.Lex.Token.{text, Token, is_text}
use row.Lex.Scan.{run, scan, Scanner, flush, advance, lex_loop, initial, lex}
use row.Lex.Partition.{lex_loop-ends}

-- No text token follows another; the flag says that one stands right before the list.
abbrev pub merged : Bool → List Token → Bool
merged after_text [] = true
merged after_text (t ∷ ts) = not (after_text && is_text t.kind) && merged (is_text t.kind) ts

abbrev ends_in_text : Bool → List Token → Bool
ends_in_text after_text [] = after_text
ends_in_text after_text (t ∷ ts) = ends_in_text (is_text t.kind) ts

-- No text is flushed before another token follows it.
record IsClosed (ts : List Token) : Type 0 where
  apart : merged false ts ≡ true
  ended : ends_in_text false ts ≡ false

merged-concat :
    (b : Bool) (ts : List Token) (t : Token)
    → merged b ts ≡ true
    → (ends_in_text b ts && is_text t.kind) ≡ false
    → merged b (ts ++ t ∷ []) ≡ true
merged-concat b [] t m e = ground arith
merged-concat b (u ∷ ts) t m e = ground (arith, merged-concat (is_text u.kind) ts t)

ends_in_text-concat :
    (b : Bool) (ts : List Token) (t : Token) → ends_in_text b (ts ++ t ∷ []) ≡ is_text t.kind
ends_in_text-concat b [] t = refl
ends_in_text-concat b (u ∷ ts) t = ends_in_text-concat (is_text u.kind) ts t

flush-merged : (end : ℕ) (s : Scanner) → IsClosed s.toks → merged false (flush end s) ≡ true
flush-merged end s c = elim (Bool-cases (ltb s.text_start end)) [
  | inl y ↦ rw y (merged-concat false s.toks (run text s.text_start end) c.apart (rw c.ended))
  | inr n ↦ rw n c.apart
]

and-false : (b : Bool) → (b && false) ≡ false
and-false true = refl
and-false false = refl

advance-IsClosed : (s : Scanner) (t : Token) → IsClosed s.toks → IsClosed (advance s t).toks
unfolding advance
advance-IsClosed s t c = elim (Bool-cases (is_text t.kind)) [
  | inl y ↦ rw y c
  | inr n ↦ rw n (record {
    apart =
        merged-concat false (flush s.i s) t (flush-merged s.i s c)
          (rw n (and-false (ends_in_text false (flush s.i s))));
    ended = rw ends_in_text-concat n;
  })
]

lex_loop-IsClosed :
    (fuel : ℕ) (sql : Bytes) (s : Scanner) → IsClosed s.toks → IsClosed (lex_loop fuel sql s).toks
unfolding lex_loop
lex_loop-IsClosed zero sql s c = c
lex_loop-IsClosed (suc fuel) sql s c = elim (List-cases (drop s.i sql)) [
  | inl done ↦ rw (done, lex_loop) c
  | inr (b, cs, more) ↦
      rw (more, lex_loop)
        (lex_loop-IsClosed fuel sql (advance s (scan s.i b cs))
          (advance-IsClosed s (scan s.i b cs) c))
]

-- In what `lex` returns, no text token stands next to another.
pub lex-merged : (sql : Bytes) → merged false (lex sql) ≡ true
unfolding lex
lex-merged sql =
    flush-merged (length sql) (lex_loop (length sql) sql initial)
      (lex_loop-IsClosed (length sql) sql initial (record { apart = refl; ended = refl }))

-- With a round of fuel for each byte of the statement, or more, the loop of `lex` reaches the end
-- of the statement.
pub lex_loop-reaches_end :
    (sql : Bytes) (fuel : ℕ) → length sql ≤ fuel → (lex_loop fuel sql initial).i ≡ length sql
lex_loop-reaches_end sql fuel h = lex_loop-ends fuel sql initial (omega arith) (omega arith)
