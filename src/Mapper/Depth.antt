-- ===== src/Mapper/Depth.antt =====
-- The recursion of `buildStruct` ends, since a type is not entered inside itself.
use row.Prelude.{
  ℕ, zero, suc, ◌+◌, ◌≤◌, ◌<◌, Bool, true, false, not, ◌&&◌, ◌||◌, List, [], ◌∷◌, ◌++◌, ◌≡◌, refl,
  ap, ◌∙◌, inl, inr, arith, none, ◌==◌, Bytes, if◌then◌else◌, Bool-cases, Option-cases,
}
use row.Mapper.Types.{StructField, is_leaf, lookup}
use row.Mapper.Walk.{
  Builder, fresh, failed, Place, seen_type, tag_of, walk_leaf, add_group, base_of, column_name,
  path_of, walk_nested, walk_field, walk_fields, walk, walk_root,
}

-- How many of the first `n` types are not in `seen`.
unfoldable pub unseen : ℕ → List ℕ → ℕ
unseen zero seen = 0
unseen (suc n) seen = (if seen_type n seen then 0 else 1) + unseen n seen

unseen-le : (n : ℕ) (seen : List ℕ) → unseen n seen ≤ n
unfolding unseen
unseen-le zero seen = omega arith
unseen-le (suc n) seen = ground (arith, unseen-le n seen)

unseen-cons : (n t : ℕ) (seen : List ℕ) → unseen n (t ∷ seen) ≤ unseen n seen
unfolding unseen seen_type
unseen-cons zero t seen = omega arith
unseen-cons (suc n) t seen = ground (arith, unseen-cons n t seen)

unseen-new :
    (n t : ℕ) (seen : List ℕ)
    → t < n
    → seen_type t seen ≡ false
    → unseen n (t ∷ seen) < unseen n seen
unfolding unseen seen_type
unseen-new zero t seen h k = omega arith
unseen-new (suc n) t seen h k = elim (Bool-cases (t == n)) [
  | inl here ↦
      let e : seen_type n seen ≡ false =
        ap (λ i. seen_type i seen) (let e : n ≡ t = ground arith in e) ∙ k in
      rw (here, e) (omega (arith, unseen-cons n t seen))
  | inr other ↦ rw other (ground (arith, unseen-new n t seen))
]

-- The types of the fields have numbers below `n`.
abbrev pub AllBelow : ℕ → List StructField → Type 0
AllBelow n [] = Unit {0}
AllBelow n (sf ∷ sfs) = ((base_of sf.type_of).0 < n) × AllBelow n sfs

abbrev IsFueled : Builder → Type 0
IsFueled b = b.out_of_fuel ≡ false

-- A call of `walk` with more fuel than types that it has not seen does not use it up.
abbrev Suffices : ℕ → ℕ → (ℕ → Place → Builder → Builder) → Type 0
Suffices n fuel rec =
    (t : ℕ) (p : Place) (b : Builder) → unseen n p.seen < fuel → IsFueled b → IsFueled (rec t p b)

walk_leaf-IsFueled :
    (name : Bytes) (p : Place) (sf : StructField) (idx : List ℕ) (path : Bytes) (b : Builder)
    → IsFueled b
    → IsFueled (walk_leaf name p sf idx path b)
unfolding walk_leaf
walk_leaf-IsFueled name p sf idx path b m = elim (Bool-cases (not sf.exported)) [
  | inl y ↦ rw y m
  | inr n ↦ elim (Option-cases (lookup (p.prefix ++ name) b.dup)) [
    | inl free ↦ rw (n, free, walk_leaf) m
    | inr (prev, clash) ↦ rw (n, clash, walk_leaf) m
  ]
]

add_group-IsFueled :
    (nilable : Bool) (p : Place) (idx : List ℕ) (path : Bytes) (b : Builder)
    → IsFueled b
    → IsFueled (add_group nilable p idx path b)
add_group-IsFueled true p idx path b m = m
add_group-IsFueled false p idx path b m = m

if-IsFueled :
    (t : Bool) (b b' : Builder)
    → IsFueled b
    → (t ≡ false → IsFueled b')
    → IsFueled (if t then b else b')
if-IsFueled true b b' m k = m
if-IsFueled false b b' m k = k refl

module _ (name_mapper : Bytes → Bytes) (n fuel : ℕ) (rec : ℕ → Place → Builder → Builder)
    (k : Suffices n fuel rec) where
  walk_nested-IsFueled :
      (p : Place) (sf : StructField) (idx : List ℕ) (b : Builder)
      → (base_of sf.type_of).0 < n
      → unseen n p.seen < suc fuel
      → IsFueled b
      → IsFueled (walk_nested name_mapper rec p sf idx b)
  unfolding walk_nested
  walk_nested-IsFueled p sf idx b h u m =
      let (base, nilable) = base_of sf.type_of in
      if-IsFueled (seen_type base p.seen) b _ m λ new.
        k base _ (add_group nilable p idx (path_of name_mapper p sf) b)
          (omega (arith, unseen-new n base p.seen h new, u))
          (add_group-IsFueled nilable p idx (path_of name_mapper p sf) b m)

  walk_fields-IsFueled :
      (p : Place) (i : ℕ) (sfs : List StructField) (b : Builder)
      → AllBelow n sfs
      → unseen n p.seen < suc fuel
      → IsFueled b
      → IsFueled (walk_fields name_mapper rec p i sfs b)
  unfolding walk_fields walk_field
  walk_fields-IsFueled p i [] b h u m = m
  walk_fields-IsFueled p i (sf ∷ sfs) b h u m =
      let idx = p.idx ++ i ∷ [] in
      let b' = walk_field name_mapper rec p i sf b in
      let kept : IsFueled b' =
        if-IsFueled (not sf.exported && not sf.anonymous || (tag_of sf).skip) b _ m λ _.
          if-IsFueled (is_leaf sf.type_of)
            (walk_leaf (column_name name_mapper sf) p sf idx (path_of name_mapper p sf) b) _
            (walk_leaf-IsFueled (column_name name_mapper sf) p sf idx (path_of name_mapper p sf) b
              m)
            λ _. walk_nested-IsFueled p sf idx b h.0 u m in
      if-IsFueled (failed b') b' _ kept λ _. walk_fields-IsFueled p (i + 1) sfs b' h.1 u kept

module _ (name_mapper : Bytes → Bytes) (fields_of : ℕ → List StructField) where
  walk-Suffices :
      (n fuel : ℕ)
      → ((t : ℕ) → AllBelow n (fields_of t))
      → Suffices n fuel (walk name_mapper fields_of fuel)
  unfolding walk
  walk-Suffices n zero h t p b u m = elim u [ ]
  walk-Suffices n (suc fuel) h t p b u m =
      walk_fields-IsFueled name_mapper n fuel (walk name_mapper fields_of fuel)
        (walk-Suffices n fuel h) p 0 (fields_of t) b (h t) u m

  -- If there are `n` types to which the types of fields lead, the recursion of `buildStruct` ends
  -- within the depth of `n + 1`, whether or not a type contains itself.
  pub walk_root-fuel :
      (n t : ℕ)
      → ((s : ℕ) → AllBelow n (fields_of s))
      → (walk_root name_mapper fields_of (suc n) t).out_of_fuel ≡ false
  unfolding walk_root
  walk_root-fuel n t h =
      walk-Suffices n (suc n) h t
        (record { idx = []; prefix = []; path = []; grp = none; seen = t ∷ [] }) fresh
        (omega (arith, unseen-le n (t ∷ []))) refl
