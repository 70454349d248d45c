-- ===== src/Mapper/Types.antt =====
-- mapper.go: the mapping between a struct type and its columns, and `isLeaf` of convert.go.
use row.Prelude.{
  ℕ, Bool, true, false, List, [], ◌∷◌, Option, none, some, Bytes, bytes_eq, if◌then◌else◌,
}

-- A `reflect.Type`, by what `isLeaf` and `buildStruct` ask of it: a struct type, known by a number;
-- a struct that is a `time.Time` or implements `sql.Scanner` or `driver.Valuer`; a type of any other
-- kind; and a pointer to a type.
pub data GoType : Type 0 where
  struct_type : ℕ → GoType
  opaque_struct : ℕ → GoType
  other_kind : ℕ → GoType
  pointer : GoType → GoType

abbrev pub is_struct : GoType → Bool
is_struct (struct_type t) = true
is_struct _ = false

-- `isLeaf`
abbrev pub is_leaf : GoType → Bool
is_leaf (pointer (struct_type t)) = false
is_leaf (struct_type t) = false
is_leaf _ = true

-- A `reflect.StructField`, with the value of its tag `db`.
pub record StructField : Type 0 where
  pub name : Bytes
  pub exported : Bool
  pub anonymous : Bool
  pub tag : Option Bytes
  pub type_of : GoType

-- `field`, `group` and `structInfo`; `none` is the group -1
pub record Field : Type 0 where
  pub column : Bytes
  pub index : List ℕ
  pub in_group : Option ℕ
  pub pk : Bool
  pub readonly : Bool
  pub path : Bytes

pub record Group : Type 0 where
  pub index : List ℕ
  pub parent : Option ℕ
  pub path : Bytes

-- why a type cannot be mapped: two paths to one column, or a type that is no struct
pub data MapError : Type 0 where
  same_column : Bytes → Bytes → Bytes → MapError
  no_struct : MapError

pub record StructInfo : Type 0 where
  pub fields : List Field
  pub by_name : List (Bytes × ℕ)
  pub groups : List Group
  pub pks : List ℕ
  pub error : Option MapError

-- `m[k]` on a map as the list of its entries, the latest first
unfoldable pub lookup {ℓ} : {V : Type ℓ} → Bytes → List (Bytes × V) → Option V
lookup k [] = none
lookup k ((j, v) ∷ m) = if bytes_eq j k then some v else lookup k m
