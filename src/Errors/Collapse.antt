-- ===== src/Errors/Collapse.antt =====
-- errors.go: `collapseSpace`.
use row.Prelude.{ℕ, Bool, true, false, not, ◌&&◌, ◌||◌, [], ◌∷◌, ◌++◌, ◌==◌, if◌then◌else◌, Bytes}

unfoldable pub is_space : ℕ → Bool
is_space c = c == b' ' || c == b'\t' || c == b'\n' || c == b'\r'

abbrev pub is_empty : Bytes → Bool
is_empty [] = true
is_empty (_ ∷ _) = false

-- the loop, with the flag `space` and what is written so far
unfoldable pub collapse_loop : Bool → Bytes → Bytes → Bytes
unfolding is_space
collapse_loop space b [] = b
collapse_loop space b (c ∷ cs) =
    let gap = if space && not (is_empty b) then b ++ b' ' ∷ [] else b in
    let skipped = collapse_loop true b cs in
    let written = collapse_loop false (gap ++ c ∷ []) cs in if is_space c then skipped else written

unfoldable pub collapse_space : Bytes → Bytes
unfolding collapse_loop
collapse_space s = collapse_loop false [] s
