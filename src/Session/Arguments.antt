-- ===== src/Session/Arguments.antt =====
-- row.go: the arguments of a statement, named or positional, with the sources of names of bind.go
-- and mapper.go.
use row.Prelude.{List, [], ◌∷◌, map, Option, none, some, Bytes, get_elem?}
use row.Bind.Value.{Value}
use row.Bind.Render.{NamedSource}
use row.Qb.Strings.{sort_strings}
use row.Mapper.Types.{MapError, StructInfo, lookup}
use row.Write.Statement.{Struct}

-- What an argument is, besides a value for the driver: an `Args` or a `map[string]any`; a struct
-- that is no leaf, behind its pointers, with the mapping of its type; or anything else.
pub data Shape : Type 0 where
  args_shape : List (Bytes × Value) → Shape
  struct_shape : StructInfo → Struct → Shape
  plain_shape : Shape

pub record Argument : Type 0 where
  pub value : Value
  pub shape : Shape

-- `argsSource`
abbrev pub args_source : List (Bytes × Value) → NamedSource
args_source a = record {
  lookup = λ name. lookup name a;
  describe = sort_strings (map (λ e. e.0) a);
}

-- `sortedColumns`
unfoldable pub sorted_columns : StructInfo → List Bytes
sorted_columns si = sort_strings (map (λ f. f.column) si.fields)

-- `structArgs`; `byName` holds indexes of fields
unfoldable pub struct_lookup : StructInfo → Struct → Bytes → Option Value
struct_lookup si v name = elim (lookup name si.by_name) [
  | none ↦ none
  | some i ↦ elim (get_elem? si.fields i) [ none ↦ none | some f ↦ some (v f) ]
]

abbrev pub struct_args : StructInfo → Struct → NamedSource
struct_args si v = record { lookup = struct_lookup si v; describe = sorted_columns si }

-- what `splitArgs` returns: a source of names, positions, or the error of a mapping
pub data Split : Type 0 where
  by_name : NamedSource → Split
  by_position : List Value → Split
  unmapped : MapError → Split

-- `structSource`
abbrev pub struct_source : StructInfo → Struct → Split
struct_source si v = elim si.error [ none ↦ by_name (struct_args si v) | some e ↦ unmapped e ]

-- `splitArgs`
unfoldable pub split_args : List Argument → Split
unfolding struct_lookup sorted_columns
split_args [] = by_position []
split_args (a ∷ []) = elim a.shape [
  | args_shape m ↦ by_name (args_source m)
  | struct_shape si v ↦ struct_source si v
  | plain_shape ↦ by_position (a.value ∷ [])
]
split_args (a ∷ b ∷ rest) = by_position (map (λ x. x.value) (a ∷ b ∷ rest))
