-- ===== src/Mapper/Mapped.antt =====
-- `buildStruct` keeps what is said of the columns.
use row.Prelude.{
  ℕ, zero, suc, ◌+◌, Bool, true, false, not, ◌&&◌, ◌||◌, List, [], ◌∷◌, ◌++◌, ◌≡◌, refl, sym, ap,
  ◌∙◌, ◌↔◌, inl, inr, arith, Option, none, some, Bytes, bytes_eq, bytes_eq_iff, get_elem?,
  if◌then◌else◌, Bool-cases, Option-cases,
}
use row.Mapper.Types.{
  GoType, struct_type, opaque_struct, pointer, other_kind, is_leaf, StructField, Field, MapError,
  StructInfo, lookup,
}
use row.Mapper.Walk.{
  Builder, fresh, failed, Place, seen_type, tag_of, walk_leaf, add_group, base_of, column_name,
  path_of, walk_nested, walk_field, walk_fields, walk, info_with, walk_root, build_struct,
}
use row.Mapper.Columns.{index_from, pk_from, IsMapped, add_column-IsMapped}

-- So `walk` keeps it, if the call of itself does.
abbrev Keeps : (ℕ → Place → Builder → Builder) → Type 0
Keeps rec = (t : ℕ) (p : Place) (b : Builder) → IsMapped b → IsMapped (rec t p b)

walk_leaf-IsMapped :
    (name : Bytes) (p : Place) (sf : StructField) (idx : List ℕ) (path : Bytes) (b : Builder)
    → IsMapped b
    → IsMapped (walk_leaf name p sf idx path b)
unfolding walk_leaf
walk_leaf-IsMapped name p sf idx path b m = elim (Bool-cases (not sf.exported)) [
  | inl y ↦ rw y m
  | inr n ↦ elim (Option-cases (lookup (p.prefix ++ name) b.dup)) [
    | inl free ↦
        rw (n, free, walk_leaf) (add_column-IsMapped (p.prefix ++ name) p sf idx path b free m)
    | inr (prev, clash) ↦
        rw (n, clash, walk_leaf)
          (record { named = m.named; dups = m.dups; once = m.once; keys = m.keys })
  ]
]

add_group-IsMapped :
    (nilable : Bool) (p : Place) (idx : List ℕ) (path : Bytes) (b : Builder)
    → IsMapped b
    → IsMapped (add_group nilable p idx path b)
add_group-IsMapped true p idx path b m = record {
  named = m.named;
  dups = m.dups;
  once = m.once;
  keys = m.keys;
}
add_group-IsMapped false p idx path b m = m

if-IsMapped :
    (t : Bool) (b b' : Builder) → IsMapped b → IsMapped b' → IsMapped (if t then b else b')
if-IsMapped true b b' m m' = m
if-IsMapped false b b' m m' = m'

module _ (name_mapper : Bytes → Bytes) where
  walk_field-IsMapped :
      (rec : ℕ → Place → Builder → Builder) (p : Place) (i : ℕ) (sf : StructField) (b : Builder)
      → Keeps rec
      → IsMapped b
      → IsMapped (walk_field name_mapper rec p i sf b)
  unfolding walk_field walk_nested
  walk_field-IsMapped rec p i sf b k m =
      let (base, nilable) = base_of sf.type_of in
      let idx = p.idx ++ i ∷ [] in
      let path = path_of name_mapper p sf in
      if-IsMapped (not sf.exported && not sf.anonymous || (tag_of sf).skip) b _ m (
        if-IsMapped (is_leaf sf.type_of) (walk_leaf (column_name name_mapper sf) p sf idx path b)
          (walk_nested name_mapper rec p sf idx b)
          (walk_leaf-IsMapped (column_name name_mapper sf) p sf idx path b m)
          (if-IsMapped (seen_type base p.seen) b _ m (
            k base _ (add_group nilable p idx path b) (add_group-IsMapped nilable p idx path b m))))

  walk_fields-IsMapped :
      (rec : ℕ → Place → Builder → Builder) (p : Place) (i : ℕ) (sfs : List StructField)
      (b : Builder)
      → Keeps rec
      → IsMapped b
      → IsMapped (walk_fields name_mapper rec p i sfs b)
  unfolding walk_fields
  walk_fields-IsMapped rec p i [] b k m = m
  walk_fields-IsMapped rec p i (sf ∷ sfs) b k m =
      let b' = walk_field name_mapper rec p i sf b in
      let kept = walk_field-IsMapped rec p i sf b k m in
      if-IsMapped (failed b') b' (walk_fields name_mapper rec p (i + 1) sfs b') kept
        (walk_fields-IsMapped rec p (i + 1) sfs b' k kept)

  module _ (fields_of : ℕ → List StructField) where
    walk-IsMapped : (fuel : ℕ) → Keeps (walk name_mapper fields_of fuel)
    unfolding walk
    walk-IsMapped zero t p b m = record {
      named = m.named;
      dups = m.dups;
      once = m.once;
      keys = m.keys;
    }
    walk-IsMapped (suc fuel) t p b m =
        walk_fields-IsMapped (walk name_mapper fields_of fuel) p 0 (fields_of t) b
          (walk-IsMapped fuel) m

fresh-IsMapped : IsMapped fresh
unfolding lookup index_from pk_from
fresh-IsMapped = record { named = λ c. refl; dups = λ c. refl; once = λ i f h. cc; keys = refl }

some_injective : {i j : ℕ} → some i ≡ some j → i ≡ j
some_injective h = cc

index_from-found :
    (c : Bytes) (k i : ℕ) (fs : List Field)
    → index_from c k fs ≡ some i
    → (j : ℕ) × (i ≡ k + j) × (f : Field) × (get_elem? fs j ≡ some f) × (f.column ≡ c)
unfolding index_from
index_from-found c k i [] h = cc
index_from-found c k i (f ∷ fs) h = elim (Bool-cases (bytes_eq f.column c)) [
  | inl y ↦
      let e : some k ≡ some i = sym (rw y refl) ∙ h in
      (0, omega (arith, some_injective e), f, refl, (bytes_eq_iff f.column c).0 y)
  | inr n ↦
      let (j, e, g, found, name) = index_from-found c (k + 1) i fs (sym (rw n refl) ∙ h) in
      (suc j, omega (arith, e), g, found, name)
]

-- What holds of a mapping.
pub record IsColumns (si : StructInfo) : Type 0 where
  pub found :
      (c : Bytes) (i : ℕ)
      → (lookup c si.by_name ≡ some i)
        ↔ ((f : Field) × (get_elem? si.fields i ≡ some f) × (f.column ≡ c))
  pub keys : si.pks ≡ pk_from 0 si.fields

info_with-IsColumns : (e : Option MapError) (b : Builder) → IsMapped b → IsColumns (info_with e b)
unfolding lookup pk_from
info_with-IsColumns none b m = record {
  found = λ c i. (
    λ h.
        let (j, e, f, at, name) = index_from-found c 0 i b.fields (sym (m.named c) ∙ h) in
        (f, ap (get_elem? b.fields) (let k : i ≡ j = omega (arith, e) in k) ∙ at, name),
    λ x. m.named c ∙ ap (λ k. index_from k 0 b.fields) (sym x.2) ∙ m.once i x.0 x.1,
  );
  keys = m.keys;
}
info_with-IsColumns (some e) b m = record { found = λ c i. (λ h. cc, λ x. cc); keys = refl }

module _ (name_mapper : Bytes → Bytes) (fields_of : ℕ → List StructField) where
  build_struct-IsColumns :
      (fuel : ℕ) (t : GoType) → IsColumns (build_struct name_mapper fields_of fuel t)
  unfolding build_struct walk_root lookup pk_from
  build_struct-IsColumns fuel (struct_type t) =
      info_with-IsColumns (walk_root name_mapper fields_of fuel t).error
        (walk_root name_mapper fields_of fuel t)
        (walk-IsMapped name_mapper fields_of fuel t _ fresh fresh-IsMapped)
  build_struct-IsColumns fuel (opaque_struct t) =
      info_with-IsColumns (walk_root name_mapper fields_of fuel t).error
        (walk_root name_mapper fields_of fuel t)
        (walk-IsMapped name_mapper fields_of fuel t _ fresh fresh-IsMapped)
  build_struct-IsColumns fuel (other_kind t) = record {
    found = λ c i. (λ h. cc, λ x. cc);
    keys = refl;
  }
  build_struct-IsColumns fuel (pointer t) = record {
    found = λ c i. (λ h. cc, λ x. cc);
    keys = refl;
  }

  -- For every type: `byName` has a column exactly if a field has it, and gives the index of
  -- that field, so that no two fields have one column; and `pks` are the indexes of the fields that
  -- are tagged `pk`, in their order.
  pub build_struct-by_name :
      (fuel : ℕ) (t : GoType) (c : Bytes) (i : ℕ)
      → let si = build_struct name_mapper fields_of fuel t in
        ((lookup c si.by_name ≡ some i)
          ↔ ((f : Field) × (get_elem? si.fields i ≡ some f) × (f.column ≡ c)))
        × (si.pks ≡ pk_from 0 si.fields)
  build_struct-by_name fuel t c i = let v = build_struct-IsColumns fuel t in (v.found c i, v.keys)
