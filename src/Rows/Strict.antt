-- ===== src/Rows/Strict.antt =====
-- scan.go: in strict mode a plan has a field for each column.
use row.Prelude.{
  ℕ, zero, suc, Bool, true, false, List, [], ◌∷◌, ◌≡◌, refl, sym, ap, ◌∙◌, inl, inr, arith, none,
  some, Bytes, ltb, length, get_elem?, Bool-cases, Option-cases,
}
use row.Mapper.Types.{GoType, struct_type, pointer, StructField, Field, StructInfo, lookup}
use row.Mapper.Walk.{build_struct}
use row.Mapper.Mapped.{build_struct-by_name}
use row.Rows.Plan.{
  Destination, typed, no_fields, no_mapping, map_column, map_columns, struct_plan, base_plan,
  build_scan_plan,
}

-- Where no column is missing, the first one is not, and none of the others.
map_columns-cons :
    (si : StructInfo) (c : Bytes) (cols : List Bytes)
    → length (map_columns si (c ∷ cols)).missing ≡ 0
    → (i : ℕ) × (lookup c si.by_name ≡ some i) × (length (map_columns si cols).missing ≡ 0)
unfolding map_columns
map_columns-cons si c cols n = elim (Option-cases (lookup c si.by_name)) [
  | inl absent ↦
      let long : suc (length (map_columns si cols).missing) ≡ 0 =
        sym (rw (absent, map_column) refl) ∙ n in
      absurd (omega (arith, long))
  | inr (i, found) ↦ (i, found, sym (rw (found, map_column) refl) ∙ n)
]

-- Where no column is missing, each has its field.
map_columns-found :
    (si : StructInfo) (cols : List Bytes) (k : ℕ) (col : Bytes)
    → length (map_columns si cols).missing ≡ 0
    → get_elem? cols k ≡ some col
    → (i : ℕ) × (lookup col si.by_name ≡ some i)
      × (get_elem? (map_columns si cols).field_for k ≡ some (some i))
unfolding map_columns
map_columns-found si [] k col n h = cc
map_columns-found si (c ∷ cols) zero col n h =
    let same : c ≡ col = cc in
    let (i, found, fewer) = map_columns-cons si c cols n in
    (i, ap (λ x. lookup x si.by_name) (sym same) ∙ found, rw (found, map_column) refl)
map_columns-found si (c ∷ cols) (suc k) col n h =
    let (i, found, fewer) = map_columns-cons si c cols n in
    let (j, at, there) = map_columns-found si cols k col fewer h in
    (j, at, rw (found, map_column) there)

-- A plan for a struct without an error, in strict mode.
struct_plan-strict :
    (base : GoType) (ptr : Bool) (cols : List Bytes) (si : StructInfo)
    → (struct_plan base ptr true cols si).error ≡ none
    → (length (map_columns si cols).missing ≡ 0)
      × ((struct_plan base ptr true cols si).columns ≡ map_columns si cols)
unfolding map_columns
struct_plan-strict base ptr cols si h = elim (Option-cases si.error) [
  | inr (e, failed) ↦
      let x : some (no_mapping e) ≡ none = sym (rw (failed, struct_plan) refl) ∙ h in cc
  | inl fine ↦ elim (Bool-cases (ltb 0 (length (map_columns si cols).missing))) [
    | inl some_missing ↦
        let x : some (no_fields (map_columns si cols).missing) ≡ none =
          sym (rw (fine, struct_plan, some_missing) refl) ∙ h in
        cc
    | inr none_missing ↦ (ground (arith, none_missing), rw (fine, struct_plan) refl)
  ]
]

-- a struct type, or a pointer to it
abbrev pub struct_destination : Bool → ℕ → Destination
struct_destination true t = typed (pointer (struct_type t))
struct_destination false t = typed (struct_type t)

module _ (name_mapper : Bytes → Bytes) (fields_of : ℕ → List StructField) (fuel : ℕ) where
  planned :
      (ptr : Bool) (t : ℕ) (cols : List Bytes) (k : ℕ) (col : Bytes)
      → let si = build_struct name_mapper fields_of fuel (struct_type t) in
        (struct_plan (struct_type t) ptr true cols si).error ≡ none
        → get_elem? cols k ≡ some col
        → let si = build_struct name_mapper fields_of fuel (struct_type t) in
          (i : ℕ) × (f : Field) × (get_elem?
              (struct_plan (struct_type t) ptr true cols si).columns.field_for
              k
            ≡ some (some i))
          × (get_elem? si.fields i ≡ some f)
          × (f.column ≡ col)
  planned ptr t cols k col h at =
      let si = build_struct name_mapper fields_of fuel (struct_type t) in
      let (none_missing, same) = struct_plan-strict (struct_type t) ptr cols si h in
      let (i, found, there) = map_columns-found si cols k col none_missing at in
      let (f, field, name) =
        (build_struct-by_name name_mapper fields_of fuel (struct_type t) col i).0.0 found in
      (i, f, ap (λ m. get_elem? m.field_for k) same ∙ there, field, name)

  -- In strict mode, a plan without an error for a struct, or for a pointer to it, has for each column
  -- of the result the index of a field that is mapped to this column.
  pub build_scan_plan-strict :
      (ptr : Bool) (t : ℕ) (cols : List Bytes) (k : ℕ) (col : Bytes)
      → (build_scan_plan name_mapper fields_of fuel (struct_destination ptr t) true cols).error
        ≡ none
      → get_elem? cols k ≡ some col
      → let plan =
          build_scan_plan name_mapper fields_of fuel (struct_destination ptr t) true cols in
        let si = build_struct name_mapper fields_of fuel (struct_type t) in
        (i : ℕ) × (f : Field) × (get_elem? plan.columns.field_for k ≡ some (some i))
        × (get_elem? si.fields i ≡ some f)
        × (f.column ≡ col)
  unfolding build_scan_plan base_plan
  build_scan_plan-strict true t cols k col h at = planned true t cols k col h at
  build_scan_plan-strict false t cols k col h at = planned false t cols k col h at
