-- ===== src/Rows/Nulls.antt =====
-- scan.go: no value that is not NULL is passed over.
use row.Prelude.{
  ℕ, zero, suc, Bool, true, false, List, [], ◌∷◌, ◌≡◌, refl, sym, ap, ◌∙◌, inl, inr, Option, none,
  some, length, get_elem?, Bool-cases, Option-cases,
}
use row.Bind.Value.{Value}
use row.Mapper.Types.{Group}
use row.Rows.Read.{
  Cell, is_nil, parent_of, set_false, null_at, clear_groups, group_is_null, clear_cell, null_groups,
  all_true, assign_cell, assign_cells, assignments,
}

-- `m` is false wherever `n` is.
Clearer : List Bool → List Bool → Type 0
Clearer n m = (g : ℕ) → null_at n g ≡ false → null_at m g ≡ false

set_false-Clearer : (g : ℕ) (n : List Bool) → Clearer n (set_false g n)
unfolding Clearer set_false null_at
set_false-Clearer g [] i h = h
set_false-Clearer zero (b ∷ n) zero h = refl
set_false-Clearer zero (b ∷ n) (suc i) h = h
set_false-Clearer (suc g) (b ∷ n) zero h = h
set_false-Clearer (suc g) (b ∷ n) (suc i) h = set_false-Clearer g n i h

null_at-set_false : (g : ℕ) (n : List Bool) → null_at (set_false g n) g ≡ false
unfolding set_false null_at
null_at-set_false g [] = refl
null_at-set_false zero (b ∷ n) = refl
null_at-set_false (suc g) (b ∷ n) = null_at-set_false g n

module _ (groups : List Group) where
  clear_groups-Clearer :
      (fuel : ℕ) (g : Option ℕ) (n : List Bool) → Clearer n (clear_groups fuel groups g n)
  unfolding Clearer clear_groups
  clear_groups-Clearer fuel none n i h = h
  clear_groups-Clearer zero (some g) n i h = h
  clear_groups-Clearer (suc fuel) (some g) n i h =
      clear_groups-Clearer fuel (parent_of groups g) (set_false g n) i
        (unfold Clearer in set_false-Clearer g n i h)

  group_is_null-Clearer :
      (fuel : ℕ) (g : Option ℕ) (n m : List Bool)
      → Clearer n m
      → group_is_null fuel groups n g ≡ false
      → group_is_null fuel groups m g ≡ false
  unfolding Clearer group_is_null
  group_is_null-Clearer fuel none n m c h = refl
  group_is_null-Clearer zero (some g) n m c h = refl
  group_is_null-Clearer (suc fuel) (some g) n m c h = elim (Bool-cases (null_at n g)) [
    | inl y ↦ let x : true ≡ false = sym (rw y refl) ∙ h in cc
    | inr unset ↦
        rw (c g unset)
          (group_is_null-Clearer fuel (parent_of groups g) n m c (sym (rw unset refl) ∙ h))
  ]

  -- After the groups from `g` on were cleared, none of them is NULL.
  group_is_null-clear_groups :
      (fuel : ℕ) (g : Option ℕ) (n : List Bool)
      → group_is_null fuel groups (clear_groups fuel groups g n) g ≡ false
  unfolding group_is_null clear_groups
  group_is_null-clear_groups fuel none n = refl
  group_is_null-clear_groups zero (some g) n = refl
  group_is_null-clear_groups (suc fuel) (some g) n =
      let cleared = clear_groups-Clearer fuel (parent_of groups g) (set_false g n) in
      let at : null_at (clear_groups fuel groups (parent_of groups g) (set_false g n)) g ≡ false =
        unfold Clearer in cleared g (null_at-set_false g n) in
      rw at (group_is_null-clear_groups fuel (parent_of groups g) (set_false g n))

  clear_cell-clear_groups :
      (c : Cell) (f : ℕ) (n : List Bool)
      → c.field ≡ some f
      → is_nil c.raw ≡ false
      → clear_cell groups c n ≡ clear_groups (length groups) groups c.group n
  clear_cell-clear_groups c f n p q = rw (p, clear_cell, q) refl

  clear_cell-Clearer : (c : Cell) (n : List Bool) → Clearer n (clear_cell groups c n)
  unfolding Clearer
  clear_cell-Clearer c n i h = elim (Option-cases c.field) [
    | inl missing ↦ rw (missing, clear_cell) h
    | inr (f, found) ↦ elim (Bool-cases (is_nil c.raw)) [
      | inl y ↦ rw (found, clear_cell, y) h
      | inr other ↦
          rw (clear_cell-clear_groups c f n found other)
            (clear_groups-Clearer (length groups) c.group n i h)
    ]
  ]

  null_groups-Clearer : (cs : List Cell) (n : List Bool) → Clearer n (null_groups groups cs n)
  unfolding Clearer null_groups
  null_groups-Clearer [] n i h = h
  null_groups-Clearer (c ∷ cs) n i h =
      null_groups-Clearer cs (clear_cell groups c n) i (clear_cell-Clearer c n i h)

  -- The groups of a cell that is not NULL are not NULL.
  null_groups-cell :
      (cs : List Cell) (k : ℕ) (c : Cell) (f : ℕ) (n : List Bool)
      → get_elem? cs k ≡ some c
      → c.field ≡ some f
      → is_nil c.raw ≡ false
      → group_is_null (length groups) groups (null_groups groups cs n) c.group ≡ false
  unfolding null_groups
  null_groups-cell [] k c f n h p q = cc
  null_groups-cell (x ∷ cs) zero c f n h p q =
      let same : x ≡ c = cc in
      let cleared : group_is_null (length groups) groups (clear_cell groups c n) c.group ≡ false =
        ap (λ m. group_is_null (length groups) groups m c.group) (clear_cell-clear_groups c f n p q)
        ∙ group_is_null-clear_groups (length groups) c.group n in
      ap
        (λ y.
          group_is_null (length groups) groups (null_groups groups cs (clear_cell groups y n))
            c.group)
        same
      ∙ group_is_null-Clearer (length groups) c.group (clear_cell groups c n) _
          (null_groups-Clearer cs (clear_cell groups c n)) cleared
  null_groups-cell (x ∷ cs) (suc k) c f n h p q =
      null_groups-cell cs k c f (clear_cell groups x n) h p q

  -- an element of a list stays in it behind another cell
  assign_cell-keeps :
      (nulls : List Bool) (c : Cell) (rest : List (ℕ × Value)) (a : ℕ × Value) (j : ℕ)
      → get_elem? rest j ≡ some a
      → (i : ℕ) × (get_elem? (assign_cell groups nulls c rest) i ≡ some a)
  assign_cell-keeps nulls c rest a j h = elim (Option-cases c.field) [
    | inl missing ↦ (j, rw (missing, assign_cell) h)
    | inr (f, found) ↦ elim (Bool-cases (group_is_null (length groups) groups nulls c.group)) [
      | inl y ↦ (j, rw (found, assign_cell, y) h)
      | inr unset ↦ (suc j, rw (found, assign_cell, unset) h)
    ]
  ]

  assign_cells-cell :
      (nulls : List Bool) (cs : List Cell) (k : ℕ) (c : Cell) (f : ℕ)
      → get_elem? cs k ≡ some c
      → c.field ≡ some f
      → group_is_null (length groups) groups nulls c.group ≡ false
      → (j : ℕ) × (get_elem? (assign_cells groups nulls cs) j ≡ some (f, c.raw))
  unfolding assign_cells
  assign_cells-cell nulls [] k c f h p q = cc
  assign_cells-cell nulls (x ∷ cs) zero c f h p q =
      let same : x ≡ c = cc in
      let rest = assign_cells groups nulls cs in
      let first : get_elem? (assign_cell groups nulls c rest) 0 ≡ some (f, c.raw) =
        rw (p, assign_cell, q) refl in
      (0, ap (λ y. get_elem? (assign_cell groups nulls y rest) 0) same ∙ first)
  assign_cells-cell nulls (x ∷ cs) (suc k) c f h p q =
      let (j, e) = assign_cells-cell nulls cs k c f h p q in
      assign_cell-keeps nulls x (assign_cells groups nulls cs) (f, c.raw) j e

  -- A column that has a field and whose value is not NULL is assigned to the field, however the
  -- nested structs are nested, and whatever is NULL in the other columns.
  pub assignments-non_null :
      (cs : List Cell) (k : ℕ) (c : Cell) (f : ℕ)
      → get_elem? cs k ≡ some c
      → c.field ≡ some f
      → is_nil c.raw ≡ false
      → (j : ℕ) × (get_elem? (assignments groups cs) j ≡ some (f, c.raw))
  assignments-non_null cs k c f h p q =
      assign_cells-cell (null_groups groups cs (all_true groups)) cs k c f h p
        (null_groups-cell cs k c f (all_true groups) h p q)
