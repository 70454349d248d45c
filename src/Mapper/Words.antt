-- ===== src/Mapper/Words.antt =====
-- Words of a name: what `SnakeCase` puts underscores between.
use row.Prelude.{
  ℕ, ◌≤◌, ◌<◌, Bool, true, false, ◌&&◌, ◌||◌, List, [], ◌∷◌, ◌++◌, map, ◌≡◌, refl, sym, ap, ◌∙◌,
  ◌⊎◌, inl, inr, arith, length, Bool-cases, if◌then◌else◌,
}
use row.Mapper.Snake.{Unicode, next_lower}

abbrev pub concat : List (List ℕ) → List ℕ
concat [] = []
concat (w ∷ ws) = w ++ concat ws

module _ (u : Unicode) where
  -- a rune, in lower case if it is upper-case
  abbrev pub low : ℕ → ℕ
  low r = if u.is_upper r then u.to_lower r else r

  -- words in lower case, with an underscore between two of them
  unfoldable pub joined : List (List ℕ) → List ℕ
  joined [] = []
  joined (w ∷ []) = map low w
  joined (w ∷ w' ∷ ws) = map low w ++ b'_' ∷ joined (w' ∷ ws)

  abbrev pub has_upper : List ℕ → Bool
  has_upper [] = false
  has_upper (r ∷ rs) = u.is_upper r || has_upper rs

  abbrev pub all_upper : List ℕ → Bool
  all_upper [] = true
  all_upper (r ∷ rs) = u.is_upper r && all_upper rs

  abbrev pub last_upper : List ℕ → Bool
  last_upper [] = false
  last_upper (r ∷ []) = u.is_upper r
  last_upper (r ∷ r' ∷ rs) = last_upper (r' ∷ rs)

  -- Upper-case letters and then runes that are none, not empty; behind two upper-case letters or
  -- more, there is no lower-case letter.
  abbrev pub IsWord : List ℕ → Type 0
  IsWord w =
      (us : List ℕ) × (ls : List ℕ) × (w ≡ us ++ ls)
      × (0 < length w)
      × (all_upper us ≡ true)
      × (has_upper ls ≡ false)
      × ((length us ≤ 1) ⊎ (next_lower u ls ≡ false))

  abbrev pub AllWords : List (List ℕ) → Type 0
  AllWords [] = Unit {0}
  AllWords (w ∷ ws) = IsWord w × AllWords ws

  -- A word behind another one begins with an upper-case letter; and the rune before that is not
  -- upper-case, or the rune behind it in the name is a lower-case letter.
  abbrev pub AllBreaks : List (List ℕ) → Type 0
  AllBreaks [] = Unit {0}
  AllBreaks (w ∷ []) = Unit {0}
  AllBreaks (w ∷ [] ∷ ws) = ⊥
  AllBreaks (w ∷ (r ∷ t) ∷ ws) =
      (u.is_upper r ≡ true)
      × ((last_upper w ≡ false) ⊎ (next_lower u (t ++ concat ws) ≡ true))
      × AllBreaks ((r ∷ t) ∷ ws)

  pub AllBreaks-longer :
      (r r' : ℕ) (w : List ℕ) (ws : List (List ℕ))
      → AllBreaks ((r' ∷ w) ∷ ws)
      → AllBreaks ((r ∷ r' ∷ w) ∷ ws)
  AllBreaks-longer r r' w [] h = tt
  AllBreaks-longer r r' w ([] ∷ ws) h = h
  AllBreaks-longer r r' w ((x ∷ t) ∷ ws) h = h

  pub joined-longer :
      (r r' : ℕ) (w : List ℕ) (ws : List (List ℕ))
      → joined ((r ∷ r' ∷ w) ∷ ws) ≡ low r ∷ joined ((r' ∷ w) ∷ ws)
  unfolding joined
  joined-longer r r' w [] = refl
  joined-longer r r' w (x ∷ ws) = refl

  -- One rune and others that are not upper-case are a word.
  pub begun-IsWord : (r : ℕ) (w : List ℕ) → has_upper w ≡ false → IsWord (r ∷ w)
  begun-IsWord r w h = elim (Bool-cases (u.is_upper r)) [
    | inl y ↦ (r ∷ [], w, refl, omega arith, ground (arith, y), h, inl (omega arith))
    | inr n ↦ ([], r ∷ w, refl, omega arith, refl, ground (arith, n, h), inl (omega arith))
  ]

  -- A rune that is not upper-case stays in the word of the rune before it.
  pub lower-IsWord :
      (r r' : ℕ) (w : List ℕ) → u.is_upper r' ≡ false → IsWord (r' ∷ w) → IsWord (r ∷ r' ∷ w)
  lower-IsWord r r' w n ([], ls, e, some_rune, a, h, s) =
      begun-IsWord r (r' ∷ w) (ap has_upper e ∙ h)
  lower-IsWord r r' w n (x ∷ us, ls, e, some_rune, a, h, s) =
      let same : r' ≡ x = cc in let upper : u.is_upper x ≡ true = ground (arith, a) in absurd (cc)

  next_lower-append : (w rest : List ℕ) → next_lower u (w ++ rest) ≡ false → next_lower u w ≡ false
  next_lower-append [] rest n = refl
  next_lower-append (r ∷ w) rest n = n

  -- Behind one upper-case letter, the rest is what stands behind the first rune.
  next_lower-single :
      (r' x : ℕ) (w us ls : List ℕ)
      → length (x ∷ us) ≤ 1
      → (r' ∷ w) ≡ x ∷ us ++ ls
      → next_lower u w ≡ false
      → next_lower u ls ≡ false
  next_lower-single r' x w [] ls le e q = let same : w ≡ ls = cc in ap (next_lower u) (sym same) ∙ q
  next_lower-single r' x w (v ∷ us) ls le e q = absurd (omega (arith, le))

  -- An upper-case letter stays in the word of the one before it if it ends no acronym.
  pub upper-IsWord :
      (r r' : ℕ) (w rest : List ℕ)
      → u.is_upper r ≡ true
      → u.is_upper r' ≡ true
      → next_lower u (w ++ rest) ≡ false
      → IsWord (r' ∷ w)
      → IsWord (r ∷ r' ∷ w)
  upper-IsWord r r' w rest y y' n ([], ls, e, some_rune, a, h, s) =
      let x : has_upper (r' ∷ w) ≡ false = ap has_upper e ∙ h in absurd (ground (arith, x, y'))
  upper-IsWord r r' w rest y y' n (x ∷ us, ls, e, some_rune, a, h, s) =
      let none_behind : next_lower u w ≡ false = next_lower-append w rest n in
      let all : all_upper (r ∷ x ∷ us) ≡ true = ground (arith, y, a) in
      (
        r ∷ x ∷ us,
        ls,
        ap (λ v. r ∷ v) e,
        omega arith,
        all,
        h,
        inr (elim s [ inr q ↦ q | inl le ↦ next_lower-single r' x w us ls le e none_behind ]),
      )
