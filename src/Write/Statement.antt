-- ===== src/Write/Statement.antt =====
-- write.go: the statements of `Insert`, `Update` and `Delete`.
use row.Prelude.{
  ℕ, ◌+◌, Bool, true, false, not, ltb, ◌==◌, List, [], ◌∷◌, ◌++◌, none, some, Bytes, codes, length,
  get_elem?, if◌then◌else◌,
}
use row.Dialect.Engines.{Dialect}
use row.Bind.Value.{Value}
use row.Qb.Writer.{Writer, str}
use row.Qb.Query.Clauses.{blank}
use row.Mapper.Types.{Field, MapError, StructInfo}
use row.Write.Options.{WriteConfig, quote_table, writable_fields}

-- the errors of this file
pub data WriteError : Type 0 where
  nil_value not_struct no_writable no_primary_key nothing_to_update : WriteError
  unmapped : MapError → WriteError
  too_wide : ℕ → WriteError
  no_returning : Bytes → WriteError

-- `panic` is an index out of range.
pub data Result {ℓ} (A : Type ℓ) : Type ℓ where
  ok : A → Result A
  err : WriteError → Result A
  panic : Result A

infixl 5 ◌>>=◌
abbrev pub ◌>>=◌ {ℓ κ} : {A : Type ℓ} {B : Type κ} → Result A → (A → Result B) → Result B
ok a >>= f = f a
err e >>= f = err e
panic >>= f = panic

-- `fieldValue` of a struct value: what reflection reads in it
abbrev pub Struct : Type 0
Struct = Field → Value

-- A value that is written, behind its pointers: nil, something else than a struct, or a struct.
pub data Subject : Type 0 where
  nil_subject : Subject
  other_subject : Subject
  struct_subject : Struct → Subject

-- `structOf`; the mapping of the type is given, with its error
unfoldable pub struct_of : StructInfo → Subject → Result Struct
struct_of si nil_subject = err nil_value
struct_of si other_subject = err not_struct
struct_of si (struct_subject v) = elim si.error [ none ↦ ok v | some e ↦ err (unmapped e) ]

-- `b.WriteString(d.QuoteIdent(c))`, behind a separator where the flag `i > 0` is set
abbrev pub quoted : Dialect → Bool → Bytes → Bytes → Writer → Writer
quoted d later sep column w = str (d.quote_ident column) (if later then str sep w else w)

unfoldable pub quoted_list : Dialect → Bool → List Bytes → Writer → Writer
quoted_list d later [] w = w
quoted_list d later (c ∷ cs) w = quoted_list d true cs (quoted d later (codes ", ") c w)

unfoldable pub append_returning : Dialect → List Bytes → Writer → Result Writer
unfolding quoted_list
append_returning d [] w = ok w
append_returning d (c ∷ cs) w =
    if not d.features.returning
    then err (no_returning d.name)
    else ok (quoted_list d false (c ∷ cs) (str (codes " RETURNING ") w))

-- the first loop of `Insert`: the columns, and the arguments
unfoldable pub insert_columns : Dialect → Struct → Bool → List Field → Writer → Writer
insert_columns d v later [] w = w
insert_columns d v later (f ∷ fs) w =
    let w' = quoted d later (codes ", ") f.column w in
    insert_columns d v true fs (record w' { args = w'.args ++ v f ∷ [] })

-- the second loop: the placeholders of the fields from `i`, in `ph`
unfoldable pub insert_placeholders : Dialect → ℕ → List Field → Bytes → Bytes
insert_placeholders d i [] ph = ph
insert_placeholders d i (f ∷ fs) ph =
    insert_placeholders d (i + 1) fs
      (d.append_placeholder (if ltb 0 i then ph ++ codes ", " else ph) (i + 1))

unfoldable pub insert_statement : Dialect → Bytes → List Field → Struct → List Bytes → Result Writer
unfolding insert_columns insert_placeholders append_returning quote_table
insert_statement d table fields v returning = do
  let head = str (codes " (") (str (quote_table d table) (str (codes "INSERT INTO ") blank))
  let listed = str (codes ") VALUES (") (insert_columns d v false fields head)
  let filled = str (codes ")") (str (insert_placeholders d 0 fields []) listed)
  append_returning d returning filled

-- `Insert`, up to the call that sends the statement
unfoldable pub build_insert : Dialect → Bytes → StructInfo → WriteConfig → Subject → Result Writer
unfolding struct_of insert_statement
build_insert d table si c s = do
  v ← struct_of si s
  let fields = writable_fields si c false
  if length fields == 0 then err no_writable else insert_statement d table fields v c.returning

-- `column = placeholder`, with its argument
abbrev pub assignment : Dialect → Struct → Bool → Bytes → Field → Writer → Writer
assignment d v later sep f w =
    let w' = str (codes " = ") (quoted d later sep f.column w) in
    let args = w'.args ++ v f ∷ [] in
    record { b = w'.b ++ d.append_placeholder [] (length args); args = args }

-- the loop of the `SET` clause
unfoldable pub set_clause : Dialect → Struct → Bool → List Field → Writer → Writer
set_clause d v later [] w = w
set_clause d v later (f ∷ fs) w = set_clause d v true fs (assignment d v later (codes ", ") f w)

-- the loop over `si.pks`
unfoldable pub where_key : Dialect → StructInfo → Struct → Bool → List ℕ → Writer → Result Writer
where_key d si v later [] w = ok w
where_key d si v later (i ∷ is) w = elim (get_elem? si.fields i) [
  | none ↦ panic
  | some f ↦ where_key d si v true is (assignment d v later (codes " AND ") f w)
]

unfoldable pub update_statement :
    Dialect → Bytes → StructInfo → List Field → Struct → List Bytes → Result Writer
unfolding set_clause where_key append_returning quote_table
update_statement d table si fields v returning = do
  let head = str (codes " SET ") (str (quote_table d table) (str (codes "UPDATE ") blank))
  keyed ← where_key d si v false si.pks (str (codes " WHERE ") (set_clause d v false fields head))
  append_returning d returning keyed

-- the checks of `Update`
unfoldable pub update_fields :
    Dialect → Bytes → StructInfo → List Field → Struct → List Bytes → Result Writer
unfolding update_statement
update_fields d table si fields v returning =
    if length si.pks == 0
    then err no_primary_key
    else if length fields == 0
    then err nothing_to_update
    else update_statement d table si fields v returning

-- `Update`, up to the call that sends the statement
unfoldable pub build_update : Dialect → Bytes → StructInfo → WriteConfig → Subject → Result Writer
unfolding struct_of update_fields
build_update d table si c s = do
  v ← struct_of si s
  update_fields d table si (writable_fields si c true) v c.returning

unfoldable pub delete_statement : Dialect → Bytes → StructInfo → Struct → List Bytes → Result Writer
unfolding where_key append_returning quote_table
delete_statement d table si v returning = do
  let head = str (codes " WHERE ") (str (quote_table d table) (str (codes "DELETE FROM ") blank))
  keyed ← where_key d si v false si.pks head
  append_returning d returning keyed

-- `Delete`, up to the call that sends the statement
unfoldable pub build_delete : Dialect → Bytes → StructInfo → WriteConfig → Subject → Result Writer
unfolding struct_of delete_statement
build_delete d table si c s = do
  v ← struct_of si s
  if length si.pks == 0 then err no_primary_key else delete_statement d table si v c.returning
