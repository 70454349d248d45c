-- ===== src/Tests/Mapping.antt =====
-- Examples for the struct mapper.
use row.Prelude.{
  ℕ, zero, suc, ◌+◌, Bool, true, false, ◌&&◌, leb, List, [], ◌∷◌, ◌≡◌, ◌↔◌, refl, arith, Option,
  none, some, Bytes, codes, bytes_eq, get_elem?, if◌then◌else◌,
}
use row.Mapper.Snake.{Unicode, snake_case}
use row.Mapper.Types.{
  GoType, struct_type, pointer, other_kind, StructField, Field, StructInfo, lookup,
}
use row.Mapper.Tag.{plain_tag, parse_tag}
use row.Mapper.Walk.{walk_root, build_struct}
use row.Mapper.Columns.{pk_from}
use row.Mapper.Mapped.{build_struct-by_name}
use row.Mapper.Depth.{AllBelow, walk_root-fuel}

abbrev upper : ℕ → Bool
upper r = leb 65 r && leb r 90

-- the letters of ASCII
abbrev ascii : Unicode
ascii = record {
  is_upper = upper;
  is_lower = λ r. leb 97 r && leb r 122;
  to_lower = λ r. if upper r then r + 32 else r;
}

snake_http : snake_case ascii (codes "HTTPCode") ≡ codes "http_code"
unfolding snake_case
snake_http = refl

snake_oauth : snake_case ascii (codes "OAuth2Key") ≡ codes "o_auth2_key"
unfolding snake_case
snake_oauth = refl

parse_tag_options :
    parse_tag (codes "id,pk,prefix=a_")
    ≡ record plain_tag { name = codes "id"; pk = true; prefix = codes "a_"; has_pfx = true }
unfolding parse_tag bytes_eq
parse_tag_options = refl

abbrev plain_field : Bytes → Option Bytes → GoType → StructField
plain_field name tag t = record {
  name = name;
  exported = true;
  anonymous = false;
  tag = tag;
  type_of = t;
}

-- A user with an address, and an address that leads back to a user.
abbrev fields_of : ℕ → List StructField
fields_of zero =
    plain_field (codes "id") (some (codes "id,pk")) (other_kind 0)
    ∷ plain_field (codes "name") none (other_kind 1)
    ∷ plain_field (codes "home") none (pointer (struct_type 1))
    ∷ []
fields_of (suc zero) =
    plain_field (codes "city") none (other_kind 1)
    ∷ plain_field (codes "owner") none (pointer (struct_type 0))
    ∷ []
fields_of (suc (suc _)) = []

abbrev user : StructInfo
user = build_struct (λ s. s) fields_of 3 (struct_type 0)

nested_column : lookup (codes "home_city") user.by_name ≡ some 2
unfolding build_struct lookup parse_tag bytes_eq
nested_column = refl

build_struct-by_name_example :
    ((lookup (codes "home_city") user.by_name ≡ some 2)
      ↔ ((f : Field) × (get_elem? user.fields 2 ≡ some f) × (f.column ≡ codes "home_city")))
    × (user.pks ≡ pk_from 0 user.fields)
build_struct-by_name_example =
    build_struct-by_name (λ s. s) fields_of 3 (struct_type 0) (codes "home_city") 2

fields_of-AllBelow : (s : ℕ) → AllBelow 2 (fields_of s)
fields_of-AllBelow zero = (omega arith, (omega arith, (omega arith, tt)))
fields_of-AllBelow (suc zero) = (omega arith, (omega arith, tt))
fields_of-AllBelow (suc (suc s)) = tt

walk_root-fuel_example : (walk_root (λ s. s) fields_of 3 0).out_of_fuel ≡ false
walk_root-fuel_example = walk_root-fuel (λ s. s) fields_of 2 0 fields_of-AllBelow
