-- ===== src/Rows/Read.antt =====
-- scan.go: which fields of a struct a row is assigned to (`read`, for a struct).
use row.Prelude.{
  ℕ, zero, suc, Bool, true, false, List, [], ◌∷◌, Option, none, some, length, get_elem?,
  if◌then◌else◌,
}
use row.Bind.Value.{Value, nil}
use row.Mapper.Types.{Group}

-- What the row reader has for a column: `raw[i]`, `fieldFor[i]` and `colGroup[i]`.
pub record Cell : Type 0 where
  pub raw : Value
  pub field : Option ℕ
  pub group : Option ℕ

unfoldable pub cells : List Value → List (Option ℕ) → List (Option ℕ) → List Cell
cells (v ∷ vs) (f ∷ fs) (g ∷ gs) = record { raw = v; field = f; group = g } ∷ cells vs fs gs
cells _ _ _ = []

abbrev pub is_nil : Value → Bool
is_nil nil = true
is_nil _ = false

-- `groups[g].parent`
unfoldable pub parent_of : List Group → ℕ → Option ℕ
parent_of groups g = elim (get_elem? groups g) [ none ↦ none | some x ↦ x.parent ]

-- `nulls[g] = false`, and `nulls[g]`
unfoldable pub set_false : ℕ → List Bool → List Bool
set_false g [] = []
set_false zero (b ∷ bs) = false ∷ bs
set_false (suc g) (b ∷ bs) = b ∷ set_false g bs

unfoldable pub null_at : List Bool → ℕ → Bool
null_at nulls g = elim (get_elem? nulls g) [ none ↦ false | some b ↦ b ]

-- the loop from a group to the outermost one, on fuel
unfoldable pub clear_groups : ℕ → List Group → Option ℕ → List Bool → List Bool
unfolding set_false parent_of
clear_groups fuel groups none nulls = nulls
clear_groups zero groups (some g) nulls = nulls
clear_groups (suc fuel) groups (some g) nulls =
    clear_groups fuel groups (parent_of groups g) (set_false g nulls)

-- `groupIsNull`, on fuel
unfoldable pub group_is_null : ℕ → List Group → List Bool → Option ℕ → Bool
unfolding null_at parent_of
group_is_null fuel groups nulls none = false
group_is_null zero groups nulls (some g) = false
group_is_null (suc fuel) groups nulls (some g) =
    let outer = group_is_null fuel groups nulls (parent_of groups g) in
    if null_at nulls g then true else outer

-- the loop that finds the groups that are NULL
abbrev pub clear_cell : List Group → Cell → List Bool → List Bool
clear_cell groups c nulls = elim c.field [
  | none ↦ nulls
  | some f ↦ if is_nil c.raw then nulls else clear_groups (length groups) groups c.group nulls
]

unfoldable pub null_groups : List Group → List Cell → List Bool → List Bool
unfolding clear_groups
null_groups groups [] nulls = nulls
null_groups groups (c ∷ cs) nulls = null_groups groups cs (clear_cell groups c nulls)

unfoldable pub all_true : List Group → List Bool
all_true [] = []
all_true (g ∷ gs) = true ∷ all_true gs

-- the loop that assigns: fields, with what they get
abbrev pub assign_cell : List Group → List Bool → Cell → List (ℕ × Value) → List (ℕ × Value)
assign_cell groups nulls c rest = elim c.field [
  | none ↦ rest
  | some f ↦ if group_is_null (length groups) groups nulls c.group then rest else (f, c.raw) ∷ rest
]

unfoldable pub assign_cells : List Group → List Bool → List Cell → List (ℕ × Value)
unfolding group_is_null
assign_cells groups nulls [] = []
assign_cells groups nulls (c ∷ cs) = assign_cell groups nulls c (assign_cells groups nulls cs)

abbrev pub assignments : List Group → List Cell → List (ℕ × Value)
assignments groups cs = assign_cells groups (null_groups groups cs (all_true groups)) cs
