-- ===== src/Mapper/Walk.antt =====
-- mapper.go: `buildStruct`.
use row.Prelude.{
  ℕ, zero, suc, ◌+◌, Bool, true, false, not, ◌&&◌, ◌||◌, List, [], ◌∷◌, ◌++◌, Option, none, some,
  ◌==◌, Bytes, codes, length, if◌then◌else◌,
}
use row.Mapper.Types.{
  GoType, struct_type, opaque_struct, pointer, is_leaf, StructField, Field, Group, MapError,
  same_column, no_struct, StructInfo, lookup,
}
use row.Mapper.Tag.{TagInfo, parse_tag}

-- The variables that the closure `walk` writes: the fields of `si`, and `dup`. The flag says that
-- the fuel was used up.
pub record Builder : Type 0 where
  pub fields : List Field
  pub by_name : List (Bytes × ℕ)
  pub groups : List Group
  pub pks : List ℕ
  pub error : Option MapError
  pub dup : List (Bytes × Bytes)
  pub out_of_fuel : Bool

abbrev pub fresh : Builder
fresh = record {
  fields = [];
  by_name = [];
  groups = [];
  pks = [];
  error = none;
  dup = [];
  out_of_fuel = false;
}

abbrev pub failed : Builder → Bool
failed b = elim b.error [ none ↦ false | some e ↦ true ]

-- where `walk` stands: its parameters `idx`, `prefix`, `path`, `grp` and `seen`
pub record Place : Type 0 where
  pub idx : List ℕ
  pub prefix : Bytes
  pub path : Bytes
  pub grp : Option ℕ
  pub seen : List ℕ

unfoldable pub seen_type : ℕ → List ℕ → Bool
seen_type t [] = false
seen_type t (s ∷ ss) = s == t || seen_type t ss

abbrev pub tag_of : StructField → TagInfo
tag_of sf = parse_tag (elim sf.tag [ none ↦ [] | some raw ↦ raw ])

abbrev pub is_tagged : StructField → Bool
is_tagged sf = elim sf.tag [ none ↦ false | some raw ↦ true ]

-- a column that nothing has claimed
abbrev pub add_column : Bytes → Place → StructField → List ℕ → Bytes → Builder → Builder
add_column col p sf idx path b = record b {
  dup = (col, path) ∷ b.dup;
  by_name = (col, length b.fields) ∷ b.by_name;
  fields =
      b.fields
      ++ record {
        column = col;
        index = idx;
        in_group = p.grp;
        pk = (tag_of sf).pk;
        readonly = (tag_of sf).readonly;
        path = path;
      }
        ∷ [];
  pks = if (tag_of sf).pk then b.pks ++ length b.fields ∷ [] else b.pks;
}

-- the branch for a leaf
unfoldable pub walk_leaf : Bytes → Place → StructField → List ℕ → Bytes → Builder → Builder
unfolding lookup
walk_leaf name p sf idx path b =
    if not sf.exported then b else elim (lookup (p.prefix ++ name) b.dup) [
      | some prev ↦ record b { error = some (same_column prev path (p.prefix ++ name)) }
      | none ↦ add_column (p.prefix ++ name) p sf idx path b
    ]

-- the prefix of the columns of a nested struct
abbrev pub sub_prefix : Bytes → Place → StructField → Bytes
sub_prefix name p sf =
    if (tag_of sf).has_pfx
    then p.prefix ++ (tag_of sf).prefix
    else if sf.anonymous && not (is_tagged sf)
    then p.prefix
    else p.prefix ++ (name ++ codes "_")

-- the type behind a pointer, and whether there is one
abbrev pub base_of : GoType → ℕ × Bool
base_of (pointer (struct_type t)) = (t, true)
base_of (struct_type t) = (t, false)
base_of _ = (0, false)

-- a group, if the nested struct is behind a pointer
abbrev pub add_group : Bool → Place → List ℕ → Bytes → Builder → Builder
add_group nilable p idx path b =
    if nilable
    then record b { groups = b.groups ++ record { index = idx; parent = p.grp; path = path } ∷ [] }
    else b

abbrev pub child_group : Bool → Place → Builder → Option ℕ
child_group nilable p b = if nilable then some (length b.groups) else p.grp

-- the end of `buildStruct`, which clears the mapping at an error
abbrev pub info_with : Option MapError → Builder → StructInfo
info_with none b = record {
  fields = b.fields;
  by_name = b.by_name;
  groups = b.groups;
  pks = b.pks;
  error = none;
}
info_with (some e) b = record { fields = []; by_name = []; groups = []; pks = []; error = some e }

abbrev pub info_of : Builder → StructInfo
info_of b = info_with b.error b

module _ (name_mapper : Bytes → Bytes) where
  abbrev pub column_name : StructField → Bytes
  column_name sf = elim (tag_of sf).name [ [] ↦ name_mapper sf.name | c ∷ cs ↦ c ∷ cs ]

  abbrev pub path_of : Place → StructField → Bytes
  path_of p sf = elim p.path [ [] ↦ sf.name | c ∷ cs ↦ (c ∷ cs) ++ (codes "." ++ sf.name) ]

  -- the branch for a nested struct; `rec` is the call of `walk`
  unfoldable pub walk_nested :
      (ℕ → Place → Builder → Builder) → Place → StructField → List ℕ → Builder → Builder
  unfolding seen_type
  walk_nested rec p sf idx b =
      let (base, nilable) = base_of sf.type_of in
      let path = path_of p sf in
      let inner =
        rec base
          (record {
            idx = idx;
            prefix = sub_prefix (column_name sf) p sf;
            path = path;
            grp = child_group nilable p b;
            seen = base ∷ p.seen;
          })
          (add_group nilable p idx path b) in
      if seen_type base p.seen then b else inner

  -- one round of the loop, for field `i`
  unfoldable pub walk_field :
      (ℕ → Place → Builder → Builder) → Place → ℕ → StructField → Builder → Builder
  unfolding walk_leaf walk_nested
  walk_field rec p i sf b =
      let idx = p.idx ++ i ∷ [] in
      if not sf.exported && not sf.anonymous || (tag_of sf).skip
      then b
      else if is_leaf sf.type_of
      then walk_leaf (column_name sf) p sf idx (path_of p sf) b
      else walk_nested rec p sf idx b

  -- the loop, which ends at an error
  unfoldable pub walk_fields :
      (ℕ → Place → Builder → Builder) → Place → ℕ → List StructField → Builder → Builder
  unfolding walk_field
  walk_fields rec p i [] b = b
  walk_fields rec p i (sf ∷ sfs) b =
      let b' = walk_field rec p i sf b in
      let rest = walk_fields rec p (i + 1) sfs b' in if failed b' then b' else rest

  module _ (fields_of : ℕ → List StructField) where
    -- `walk`, on fuel
    unfoldable pub walk : ℕ → ℕ → Place → Builder → Builder
    unfolding walk_fields
    walk zero t p b = record b { out_of_fuel = true }
    walk (suc fuel) t p b = walk_fields (walk fuel) p 0 (fields_of t) b

    -- the first call of `walk`
    unfoldable pub walk_root : ℕ → ℕ → Builder
    unfolding walk
    walk_root fuel t =
        walk fuel t (record { idx = []; prefix = []; path = []; grp = none; seen = t ∷ [] }) fresh

    unfoldable pub build_struct : ℕ → GoType → StructInfo
    unfolding walk_root
    build_struct fuel (struct_type t) = info_of (walk_root fuel t)
    build_struct fuel (opaque_struct t) = info_of (walk_root fuel t)
    build_struct fuel _ = record {
      fields = [];
      by_name = [];
      groups = [];
      pks = [];
      error = some no_struct;
    }
