-- ===== src/Rows/Plan.antt =====
-- scan.go: `buildScanPlan`, which maps the columns of a result to the fields of a struct.
use row.Prelude.{
  ℕ, Bool, true, false, not, ◌&&◌, List, [], ◌∷◌, Option, none, some, Bytes, ltb, ◌==◌, length,
  get_elem?, if◌then◌else◌,
}
use row.Mapper.Types.{GoType, struct_type, pointer, StructField, MapError, StructInfo, lookup}
use row.Mapper.Walk.{build_struct}

-- `scanKind`
pub data ScanKind : Type 0 where
  scan_struct scan_leaf scan_map : ScanKind

-- the type `T`: `map[string]any`, or another
pub data Destination : Type 0 where
  any_map : Destination
  typed : GoType → Destination

-- the errors of `buildScanPlan`: so many columns for one value, columns without a field, and that of
-- the mapping
pub data PlanError : Type 0 where
  not_one_column : ℕ → PlanError
  no_fields : List Bytes → PlanError
  no_mapping : MapError → PlanError

-- `fieldFor` and `colGroup`, where `none` is -1, with the columns that are missing
pub record ColumnMap : Type 0 where
  pub field_for : List (Option ℕ)
  pub col_group : List (Option ℕ)
  pub missing : List Bytes

abbrev pub no_columns : ColumnMap
no_columns = record { field_for = []; col_group = []; missing = [] }

-- `scanPlan`
pub record ScanPlan : Type 0 where
  pub kind : ScanKind
  pub si : Option StructInfo
  pub columns : ColumnMap
  pub elem_type : Destination
  pub ptr : Bool
  pub error : Option PlanError

-- `si.fields[fi].group`; `byName` holds indexes of fields
unfoldable pub group_of : StructInfo → ℕ → Option ℕ
group_of si i = elim (get_elem? si.fields i) [ none ↦ none | some f ↦ f.in_group ]

-- a column of the result, in front of the rest of them
abbrev pub map_column : StructInfo → Bytes → Option ℕ → ColumnMap → ColumnMap
map_column si col none m = record {
  field_for = none ∷ m.field_for;
  col_group = none ∷ m.col_group;
  missing = col ∷ m.missing;
}
map_column si col (some i) m = record {
  field_for = some i ∷ m.field_for;
  col_group = group_of si i ∷ m.col_group;
  missing = m.missing;
}

-- the loop over the columns
unfoldable pub map_columns : StructInfo → List Bytes → ColumnMap
unfolding lookup group_of
map_columns si [] = no_columns
map_columns si (col ∷ cols) = map_column si col (lookup col si.by_name) (map_columns si cols)

abbrev pub leaf_plan : GoType → Bool → List Bytes → ScanPlan
leaf_plan base ptr cols = record {
  kind = scan_leaf;
  si = none;
  columns = no_columns;
  elem_type = typed base;
  ptr = ptr;
  error = if not (length cols == 1) then some (not_one_column (length cols)) else none;
}

-- a plan for the struct type `base`, whose mapping is `si`
abbrev pub struct_plan : GoType → Bool → Bool → List Bytes → StructInfo → ScanPlan
struct_plan base ptr strict cols si = elim si.error [
  | some e ↦ record {
    kind = scan_struct;
    si = none;
    columns = no_columns;
    elem_type = typed base;
    ptr = ptr;
    error = some (no_mapping e);
  }
  | none ↦
      let m = map_columns si cols in
      record {
        kind = scan_struct;
        si = some si;
        columns = m;
        elem_type = typed base;
        ptr = ptr;
        error = if ltb 0 (length m.missing) && strict then some (no_fields m.missing) else none;
      }
]

module _ (name_mapper : Bytes → Bytes) (fields_of : ℕ → List StructField) (fuel : ℕ) where
  -- The rest, for the type behind one pointer: `isLeaf` holds of all types but structs that the
  -- mapper walks, and pointers to these, which are no structs.
  unfoldable pub base_plan : GoType → Bool → Bool → List Bytes → ScanPlan
  unfolding map_columns
  base_plan (struct_type t) ptr strict cols =
      struct_plan (struct_type t) ptr strict cols
        (build_struct name_mapper fields_of fuel (struct_type t))
  base_plan base ptr strict cols = leaf_plan base ptr cols

  unfoldable pub build_scan_plan : Destination → Bool → List Bytes → ScanPlan
  unfolding base_plan
  build_scan_plan any_map strict cols = record {
    kind = scan_map;
    si = none;
    columns = no_columns;
    elem_type = any_map;
    ptr = false;
    error = none;
  }
  build_scan_plan (typed (pointer t)) strict cols = base_plan t true strict cols
  build_scan_plan (typed t) strict cols = base_plan t false strict cols
