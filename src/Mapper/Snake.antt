-- ===== src/Mapper/Snake.antt =====
-- mapper.go: `SnakeCase`, on the runes of a name.
use row.Prelude.{ℕ, Bool, false, not, ◌&&◌, ◌||◌, List, [], ◌∷◌, Option, none, some, if◌then◌else◌}

-- The functions of the package unicode that it calls.
pub record Unicode : Type 0 where
  pub is_upper : ℕ → Bool
  pub is_lower : ℕ → Bool
  pub to_lower : ℕ → ℕ

module _ (u : Unicode) where
  abbrev pub next_lower : List ℕ → Bool
  next_lower [] = false
  next_lower (r ∷ rs) = u.is_lower r

  -- whether a separator stands before the upper-case letter behind `prev`
  unfoldable pub separates : Option ℕ → List ℕ → Bool
  separates none rs = false
  separates (some prev) rs = not (u.is_upper prev) || (u.is_upper prev && next_lower rs)

  -- the loop, with the rune before
  unfoldable pub snake_loop : Option ℕ → List ℕ → List ℕ
  unfolding separates
  snake_loop prev [] = []
  snake_loop prev (r ∷ rs) =
      let rest = snake_loop (some r) rs in
      if not (u.is_upper r)
      then r ∷ rest
      else (if separates prev rs then b'_' ∷ u.to_lower r ∷ rest else u.to_lower r ∷ rest)

  unfoldable pub snake_case : List ℕ → List ℕ
  unfolding snake_loop
  snake_case rs = snake_loop none rs
