-- ===== src/Mapper/Columns.antt =====
-- The columns of a mapping: each stands for one field, and `byName` finds it.
use row.Prelude.{
  ℕ, zero, suc, ◌+◌, Bool, true, false, List, [], ◌∷◌, ◌++◌, ◌≡◌, refl, sym, ap, ◌∙◌, ◌⊎◌, inl, inr,
  arith, Option, none, some, Bytes, bytes_eq, bytes_eq_iff, length, get_elem?, if◌then◌else◌,
  Bool-cases, append-nil,
}
use row.Mapper.Types.{StructField, Field, lookup}
use row.Mapper.Walk.{Builder, Place, tag_of, add_column}

-- The first field of a column, and the fields of the primary key, by their indexes.
unfoldable pub index_from : Bytes → ℕ → List Field → Option ℕ
index_from c i [] = none
index_from c i (f ∷ fs) = if bytes_eq f.column c then some i else index_from c (i + 1) fs

unfoldable pub pk_from : ℕ → List Field → List ℕ
pk_from i [] = []
pk_from i (f ∷ fs) = let rest = pk_from (i + 1) fs in if f.pk then i ∷ rest else rest

abbrev pub is_some {ℓ} : {A : Type ℓ} → Option A → Bool
is_some none = false
is_some (some a) = true

abbrev or_else : Option ℕ → Option ℕ → Option ℕ
or_else none o = o
or_else (some i) o = some i

index_from-append :
    (c : Bytes) (i : ℕ) (fs : List Field) (f : Field)
    → index_from c i (fs ++ f ∷ [])
      ≡ or_else (index_from c i fs) (if bytes_eq f.column c then some (i + length fs) else none)
unfolding index_from
index_from-append c i [] f = ground arith
index_from-append c i (g ∷ fs) f = elim (Bool-cases (bytes_eq g.column c)) [
  | inl y ↦ rw y refl
  | inr n ↦ rw n (
      index_from-append c (i + 1) fs f
      ∙ ap (λ k. or_else (index_from c (i + 1) fs) (if bytes_eq f.column c then some k else none))
          (omega arith))
]

pk_from-append :
    (i : ℕ) (fs : List Field) (f : Field)
    → pk_from i (fs ++ f ∷ []) ≡ pk_from i fs ++ (if f.pk then (i + length fs) ∷ [] else [])
unfolding pk_from
pk_from-append i [] f = ground arith
pk_from-append i (g ∷ fs) f =
    let e : i + 1 + length fs ≡ i + suc (length fs) = omega arith in
    elim (Bool-cases g.pk) [
      | inl y ↦ rw y (
          ap (λ x. i ∷ x)
            (pk_from-append (i + 1) fs f
              ∙ ap (λ k. pk_from (i + 1) fs ++ (if f.pk then k ∷ [] else [])) e))
      | inr n ↦ rw n (
          pk_from-append (i + 1) fs f
          ∙ ap (λ k. pk_from (i + 1) fs ++ (if f.pk then k ∷ [] else [])) e)
    ]

-- What `walk` keeps: `by_name` finds the first field of each column, `dup` has the same columns,
-- and `pks` lists the fields of the primary key.
pub record IsMapped (b : Builder) : Type 0 where
  pub named : (c : Bytes) → lookup c b.by_name ≡ index_from c 0 b.fields
  pub dups : (c : Bytes) → is_some (lookup c b.dup) ≡ is_some (index_from c 0 b.fields)
  pub once :
      (i : ℕ) (f : Field) → get_elem? b.fields i ≡ some f → index_from f.column 0 b.fields ≡ some i
  pub keys : b.pks ≡ pk_from 0 b.fields

get_elem?-concat :
    (fs : List Field) (f : Field) (i : ℕ) (g : Field)
    → get_elem? (fs ++ f ∷ []) i ≡ some g
    → (get_elem? fs i ≡ some g) ⊎ ((i ≡ length fs) × (g ≡ f))
get_elem?-concat [] f zero g h = inr (refl, cc)
get_elem?-concat [] f (suc i) g h = cc
get_elem?-concat (x ∷ fs) f zero g h = inl h
get_elem?-concat (x ∷ fs) f (suc i) g h = elim (get_elem?-concat fs f i g h) [
  | inl k ↦ inl k
  | inr (e, k) ↦ inr (omega (arith, e), k)
]

or_else-none : (o : Option ℕ) → or_else o none ≡ o
or_else-none none = refl
or_else-none (some i) = refl

not_some {ℓ} : {A : Type ℓ} (o : Option A) → is_some o ≡ false → o ≡ none
not_some none h = refl
not_some (some a) h = cc

is_some-if :
    (t : Bool) (path : Bytes) (n : ℕ) (o : Option Bytes) (o' : Option ℕ)
    → is_some o ≡ is_some o'
    → is_some (if t then some path else o) ≡ is_some (if t then some n else o')
is_some-if true path n o o' h = refl
is_some-if false path n o o' h = h

keys-if :
    (t : Bool) (pks qs : List ℕ) (n n' : ℕ)
    → pks ≡ qs
    → n ≡ n'
    → (if t then pks ++ n ∷ [] else pks) ≡ qs ++ (if t then n' ∷ [] else [])
keys-if true pks qs n n' h e = ap (λ x. x ++ n ∷ []) h ∙ ap (λ k. qs ++ k ∷ []) e
keys-if false pks qs n n' h e = h ∙ sym (append-nil qs)

module _ (fs : List Field) (f : Field) where
  index_from-concat :
      (c : Bytes)
      → index_from c 0 (fs ++ f ∷ [])
        ≡ or_else (index_from c 0 fs) (if bytes_eq f.column c then some (length fs) else none)
  index_from-concat c =
      index_from-append c 0 fs f
      ∙ ap (λ k. or_else (index_from c 0 fs) (if bytes_eq f.column c then some k else none))
          (omega arith)

  -- the index of a column behind a new one
  index_from-new :
      (c : Bytes)
      → index_from f.column 0 fs ≡ none
      → index_from c 0 (fs ++ f ∷ [])
        ≡ (if bytes_eq f.column c then some (length fs) else index_from c 0 fs)
  index_from-new c absent = elim (Bool-cases (bytes_eq f.column c)) [
    | inl y ↦
        let gone : index_from c 0 fs ≡ none =
          ap (λ x. index_from x 0 fs) (sym ((bytes_eq_iff f.column c).0 y)) ∙ absent in
        rw (y, index_from-concat c, gone, y) refl
    | inr n ↦ rw (n, index_from-concat c, n) (or_else-none (index_from c 0 fs))
  ]

  once-concat :
      index_from f.column 0 fs ≡ none
      → ((i : ℕ) (g : Field) → get_elem? fs i ≡ some g → index_from g.column 0 fs ≡ some i)
      → (i : ℕ) (g : Field) → get_elem? (fs ++ f ∷ []) i ≡ some g
      → index_from g.column 0 (fs ++ f ∷ []) ≡ some i
  once-concat absent once i g h = elim (get_elem?-concat fs f i g h) [
    | inl k ↦
        index_from-concat g.column
        ∙ ap (λ o. or_else o (if bytes_eq f.column g.column then some (length fs) else none))
            (once i g k)
    | inr (e, k) ↦
        let same : bytes_eq f.column f.column ≡ true = (bytes_eq_iff f.column f.column).1 refl in
        ap (λ (x : Field). index_from x.column 0 (fs ++ f ∷ [])) k
        ∙ index_from-new f.column absent
        ∙ rw same (ap some (sym e))
  ]

module _ (name : Bytes) (p : Place) (sf : StructField) (idx : List ℕ) (path : Bytes)
    (b : Builder) where
  pub add_column-IsMapped :
      lookup name b.dup ≡ none → IsMapped b → IsMapped (add_column name p sf idx path b)
  unfolding lookup
  add_column-IsMapped free m =
      let f : Field = record {
        column = name;
        index = idx;
        in_group = p.grp;
        pk = (tag_of sf).pk;
        readonly = (tag_of sf).readonly;
        path = path;
      } in
      let absent : index_from name 0 b.fields ≡ none =
        not_some _ (sym (m.dups name) ∙ ap is_some free) in
      record {
        named = λ c.
            ap (λ o. if bytes_eq name c then some (length b.fields) else o) (m.named c)
            ∙ sym (index_from-new b.fields f c absent);
        dups = λ c.
            is_some-if (bytes_eq name c) path (length b.fields) (lookup c b.dup)
              (index_from c 0 b.fields) (m.dups c)
            ∙ ap is_some (sym (index_from-new b.fields f c absent));
        once = once-concat b.fields f absent m.once;
        keys =
            keys-if (tag_of sf).pk b.pks (pk_from 0 b.fields) (length b.fields)
              (0 + length b.fields) m.keys (omega arith)
            ∙ sym (pk_from-append 0 b.fields f);
      }
