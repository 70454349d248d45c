-- ===== src/Mapper/Nesting.antt =====
-- mapper.go: the groups of a mapping are nested: each stands behind the one around it.
use row.Prelude.{
  ℕ, zero, suc, ◌+◌, ◌≤◌, ◌<◌, Bool, true, false, not, ◌&&◌, ◌||◌, List, [], ◌∷◌, ◌++◌, inl, inr,
  arith, Option, none, some, Bytes, length, length-append, if◌then◌else◌, Bool-cases, Option-cases,
}
use row.Mapper.Types.{
  GoType, struct_type, opaque_struct, pointer, other_kind, is_leaf, StructField, Group, MapError,
  lookup,
}
use row.Mapper.Walk.{
  Builder, fresh, failed, Place, seen_type, tag_of, walk_leaf, add_group, base_of, child_group,
  column_name, path_of, walk_nested, walk_field, walk_fields, walk, info_with, walk_root,
  build_struct,
}

-- A group, if there is one, stands in front of `n`.
abbrev pub Under : Option ℕ → ℕ → Type 0
Under none n = Unit {0}
Under (some g) n = g < n

-- So do the parents of groups from the index `i` on.
abbrev pub AllUnder : ℕ → List Group → Type 0
AllUnder i [] = Unit {0}
AllUnder i (x ∷ gs) = Under x.parent i × AllUnder (i + 1) gs

Under-le : (g : Option ℕ) (n m : ℕ) → n ≤ m → Under g n → Under g m
Under-le none n m h u = tt
Under-le (some g) n m h u = omega (arith, h, u)

AllUnder-append :
    (i : ℕ) (gs : List Group) (x : Group)
    → AllUnder i gs
    → Under x.parent (i + length gs)
    → AllUnder i (gs ++ x ∷ [])
AllUnder-append i [] x h u = (Under-le x.parent (i + 0) i (omega arith) u, tt)
AllUnder-append i (y ∷ gs) x h u = (
  h.0,
  AllUnder-append (i + 1) gs x h.1
      (Under-le x.parent (i + suc (length gs)) (i + 1 + length gs) (omega arith) u),
)

-- `b'` has the groups of `b`, and perhaps more, which are nested.
abbrev Nests : Builder → Builder → Type 0
Nests b b' = AllUnder 0 b'.groups × (length b.groups ≤ length b'.groups)

-- So `walk` does, in a group that is there.
abbrev KeepsNesting : (ℕ → Place → Builder → Builder) → Type 0
KeepsNesting rec =
    (t : ℕ) (p : Place) (b : Builder)
    → AllUnder 0 b.groups
    → Under p.grp (length b.groups)
    → Nests b (rec t p b)

if-Nests : (t : Bool) (b c c' : Builder) → Nests b c → Nests b c' → Nests b (if t then c else c')
if-Nests true b c c' h k = h
if-Nests false b c c' h k = k

walk_leaf-Nests :
    (name : Bytes) (p : Place) (sf : StructField) (idx : List ℕ) (path : Bytes) (b : Builder)
    → AllUnder 0 b.groups
    → Nests b (walk_leaf name p sf idx path b)
unfolding walk_leaf
walk_leaf-Nests name p sf idx path b h = elim (Bool-cases (not sf.exported)) [
  | inl y ↦ rw y (h, omega arith)
  | inr n ↦ elim (Option-cases (lookup (p.prefix ++ name) b.dup)) [
    | inl free ↦ rw (n, free, walk_leaf) (h, omega arith)
    | inr (prev, clash) ↦ rw (n, clash, walk_leaf) (h, omega arith)
  ]
]

add_group-Nests :
    (nilable : Bool) (p : Place) (idx : List ℕ) (path : Bytes) (b : Builder)
    → AllUnder 0 b.groups
    → Under p.grp (length b.groups)
    → Nests b (add_group nilable p idx path b)
      × Under (child_group nilable p b) (length (add_group nilable p idx path b).groups)
add_group-Nests false p idx path b h u = ((h, omega arith), u)
add_group-Nests true p idx path b h u =
    let x : Group = record { index = idx; parent = p.grp; path = path } in
    (
      (
        AllUnder-append 0 b.groups x h
            (Under-le p.grp (length b.groups) (0 + length b.groups) (omega arith) u),
        omega (arith, length-append b.groups (x ∷ [])),
      ),
      omega (arith, length-append b.groups (x ∷ [])),
    )

module _ (name_mapper : Bytes → Bytes) where
  walk_field-Nests :
      (rec : ℕ → Place → Builder → Builder) (p : Place) (i : ℕ) (sf : StructField) (b : Builder)
      → KeepsNesting rec
      → AllUnder 0 b.groups
      → Under p.grp (length b.groups)
      → Nests b (walk_field name_mapper rec p i sf b)
  unfolding walk_field walk_nested
  walk_field-Nests rec p i sf b k h u =
      let (base, nilable) = base_of sf.type_of in
      let idx = p.idx ++ i ∷ [] in
      let path = path_of name_mapper p sf in
      let ((nested, longer), under) = add_group-Nests nilable p idx path b h u in
      let (inner, more) = k base _ (add_group nilable p idx path b) nested under in
      let same : Nests b b = (h, omega arith) in
      if-Nests (not sf.exported && not sf.anonymous || (tag_of sf).skip) b b _ same (
        if-Nests (is_leaf sf.type_of) b (walk_leaf (column_name name_mapper sf) p sf idx path b)
          (walk_nested name_mapper rec p sf idx b)
          (walk_leaf-Nests (column_name name_mapper sf) p sf idx path b h)
          (if-Nests (seen_type base p.seen) b b _ same (inner, omega (arith, longer, more))))

  walk_fields-Nests :
      (rec : ℕ → Place → Builder → Builder) (p : Place) (i : ℕ) (sfs : List StructField)
      (b : Builder)
      → KeepsNesting rec
      → AllUnder 0 b.groups
      → Under p.grp (length b.groups)
      → Nests b (walk_fields name_mapper rec p i sfs b)
  unfolding walk_fields
  walk_fields-Nests rec p i [] b k h u = (h, omega arith)
  walk_fields-Nests rec p i (sf ∷ sfs) b k h u =
      let b' = walk_field name_mapper rec p i sf b in
      let (nested, longer) = walk_field-Nests rec p i sf b k h u in
      let (all, more) =
        walk_fields-Nests rec p (i + 1) sfs b' k nested
          (Under-le p.grp (length b.groups) (length b'.groups) longer u) in
      if-Nests (failed b') b b' (walk_fields name_mapper rec p (i + 1) sfs b') (nested, longer)
        (all, omega (arith, longer, more))

  module _ (fields_of : ℕ → List StructField) where
    walk-Nests : (fuel : ℕ) → KeepsNesting (walk name_mapper fields_of fuel)
    unfolding walk
    walk-Nests zero t p b h u = (h, omega arith)
    walk-Nests (suc fuel) t p b h u =
        walk_fields-Nests (walk name_mapper fields_of fuel) p 0 (fields_of t) b (walk-Nests fuel) h
          u

    info_with-AllUnder :
        (e : Option MapError) (b : Builder)
        → AllUnder 0 b.groups
        → AllUnder 0 (info_with e b).groups
    info_with-AllUnder none b h = h
    info_with-AllUnder (some e) b h = tt

    pub build_struct-AllUnder :
        (fuel : ℕ) (t : GoType) → AllUnder 0 (build_struct name_mapper fields_of fuel t).groups
    unfolding build_struct walk_root
    build_struct-AllUnder fuel (struct_type t) =
        info_with-AllUnder (walk_root name_mapper fields_of fuel t).error
          (walk_root name_mapper fields_of fuel t) (walk-Nests fuel t _ fresh tt tt).0
    build_struct-AllUnder fuel (opaque_struct t) =
        info_with-AllUnder (walk_root name_mapper fields_of fuel t).error
          (walk_root name_mapper fields_of fuel t) (walk-Nests fuel t _ fresh tt tt).0
    build_struct-AllUnder fuel (other_kind t) = tt
    build_struct-AllUnder fuel (pointer t) = tt
