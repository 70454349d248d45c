-- ===== src/Mapper/Parted.antt =====
-- The words that `SnakeCase` makes of a name.
use row.Prelude.{
  ℕ, true, false, ◌&&◌, List, [], ◌∷◌, ◌++◌, ◌≡◌, refl, sym, ap, ◌∙◌, inl, inr, arith, Option, some,
  Bool-cases,
}
use row.Mapper.Snake.{Unicode, next_lower, separates, snake_loop}
use row.Mapper.Words.{
  concat, low, joined, AllWords, AllBreaks, IsWord, begun-IsWord, lower-IsWord, upper-IsWord,
  AllBreaks-longer, joined-longer,
}

module _ (u : Unicode) where
  -- A rune that no separator stands before.
  snake_loop-joins :
      (prev : Option ℕ) (r : ℕ) (rs : List ℕ)
      → (u.is_upper r && separates u prev rs) ≡ false
      → snake_loop u prev (r ∷ rs) ≡ low u r ∷ snake_loop u (some r) rs
  unfolding snake_loop
  snake_loop-joins prev r rs h = ground (arith, h)

  snake_loop-separates :
      (r r' : ℕ) (rs : List ℕ)
      → u.is_upper r' ≡ true
      → separates u (some r) rs ≡ true
      → snake_loop u (some r) (r' ∷ rs) ≡ b'_' ∷ low u r' ∷ snake_loop u (some r') rs
  unfolding snake_loop
  snake_loop-separates r r' rs y s = ground (arith, y, s)

  -- What the loop makes of the runes behind `r`: `w` is the rest of the word of `r`, and `ws` are
  -- the words behind it.
  record Splits (r : ℕ) (rs : List ℕ) : Type 0 where
    w : List ℕ
    ws : List (List ℕ)
    all : w ++ concat ws ≡ rs
    text : low u r ∷ snake_loop u (some r) rs ≡ joined u ((r ∷ w) ∷ ws)
    words : AllWords u ((r ∷ w) ∷ ws)
    breaks : AllBreaks u ((r ∷ w) ∷ ws)

  -- The rune stays in the word.
  longer :
      (r r' : ℕ) (rs : List ℕ) (h : Splits r' rs)
      → (u.is_upper r' && separates u (some r) rs) ≡ false
      → IsWord u (r ∷ r' ∷ h.w)
      → Splits r (r' ∷ rs)
  longer r r' rs h n v = record {
    w = r' ∷ h.w;
    ws = h.ws;
    all = ap (λ x. r' ∷ x) h.all;
    text =
        ap (λ x. low u r ∷ x) (snake_loop-joins (some r) r' rs n ∙ h.text)
        ∙ sym (joined-longer u r r' h.w h.ws);
    words = (v, h.words.1);
    breaks = AllBreaks-longer u r r' h.w h.ws h.breaks;
  }

  -- The rune begins a word.
  parted :
      (r r' : ℕ) (rs : List ℕ) (h : Splits r' rs)
      → u.is_upper r' ≡ true
      → separates u (some r) rs ≡ true
      → Splits r (r' ∷ rs)
  unfolding joined separates
  parted r r' rs h y s = record {
    w = [];
    ws = (r' ∷ h.w) ∷ h.ws;
    all = ap (λ x. r' ∷ x) h.all;
    text = ap (λ x. low u r ∷ x) (snake_loop-separates r r' rs y s ∙ ap (λ x. b'_' ∷ x) h.text);
    words = (begun-IsWord u r [] refl, h.words);
    breaks = (
      y,
      elim (Bool-cases (u.is_upper r)) [
        | inr n ↦ inl n
        | inl x ↦ inr (ap (next_lower u) h.all ∙ ground (arith, s, x))
      ],
      h.breaks,
    );
  }

  unseparated :
      (r : ℕ) (rs : List ℕ)
      → separates u (some r) rs ≡ false
      → (u.is_upper r ≡ true) × (next_lower u rs ≡ false)
  unfolding separates
  unseparated r rs s = (ground (arith, s), ground (arith, s))

  split : (r : ℕ) (rs : List ℕ) → Splits r rs
  unfolding joined snake_loop
  split r [] = record {
    w = [];
    ws = [];
    all = refl;
    text = refl;
    words = (begun-IsWord u r [] refl, tt);
    breaks = tt;
  }
  split r (r' ∷ rs) =
      let h = split r' rs in
      elim (Bool-cases (u.is_upper r')) [
        | inr n ↦ longer r r' rs h (ground (arith, n)) (lower-IsWord u r r' h.w n h.words.0)
        | inl y ↦ elim (Bool-cases (separates u (some r) rs)) [
          | inl s ↦ parted r r' rs h y s
          | inr s ↦
              let (upper, n) = unseparated r rs s in
              longer r r' rs h (ground (arith, s)) (
                upper-IsWord u r r' h.w (concat h.ws) upper y (ap (next_lower u) h.all ∙ n)
                  h.words.0)
        ]
      ]
