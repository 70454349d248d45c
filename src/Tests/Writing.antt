-- ===== src/Tests/Writing.antt =====
-- Examples for the writes.
use row.Prelude.{
  slice, arith, ◌-◌, ℕ, ◌*◌, Bool, true, false, List, [], ◌∷◌, ◌++◌, map, ◌≡◌, refl, Option, none,
  Bytes, codes, length,
}
use row.Errors.{Err}
use row.Dialect.Engines.{Dialect, pg, sqlite, pg-IsAppending}
use row.Bind.Value.{Value, string}
use row.Qb.Writer.{Writer}
use row.Mapper.Types.{Field, StructInfo}
use row.Mapper.Columns.{pk_from}
use row.Write.Options.{plain_config, with_returning, writable_fields}
use row.Write.Statement.{
  Struct, Subject, struct_subject, nil_subject, ok, err, nil_value, build_insert, build_update,
  build_delete,
}
use row.Write.Many.{done, insert_prefix, batch_statement, insert_many}
use row.Write.Sizes.{concat, AllWithin}
use row.Write.Batches.{Sent, insert_many-Sent}
use row.Write.Returned.{is_returned, insert_many-returned}
use row.Write.Rows.{row_list, BindsRows, batch_statement-BindsRows}
use row.Write.Statements.{key_fields, Binds, writes-Binds}

abbrev column_field : Bytes → ℕ → Bool → Field
column_field column i pk = record {
  column = column;
  index = i ∷ [];
  in_group = none;
  pk = pk;
  readonly = false;
  path = column;
}

abbrev user : StructInfo
user = record {
  fields = column_field (codes "id") 0 true ∷ column_field (codes "name") 1 false ∷ [];
  by_name = (codes "name", 1) ∷ (codes "id", 0) ∷ [];
  groups = [];
  pks = 0 ∷ [];
  error = none;
}

-- a struct that has its columns' names for values
abbrev ada : Struct
ada f = string f.column

user_keys : user.pks ≡ pk_from 0 user.fields
unfolding pk_from
user_keys = refl

update_built :
    build_update pg (codes "app.users") user plain_config (struct_subject ada)
    ≡ ok (record {
      b = codes "UPDATE \"app\".\"users\" SET \"name\" = $1 WHERE \"id\" = $2";
      args = string (codes "name") ∷ string (codes "id") ∷ [];
    })
unfolding build_update row.Write.Options.writable row.Dialect.Quote.quote_with
    row.Dialect.Decimal.append_ordinal
update_built = refl

insert_nil : build_insert pg (codes "users") user plain_config nil_subject ≡ err nil_value
unfolding build_insert
insert_nil = refl

writes-Binds_example :
    Binds pg
      (map ada (writable_fields user plain_config false))
      (build_insert pg (codes "users") user plain_config (struct_subject ada))
    × Binds pg
        (map ada (writable_fields user plain_config true) ++ map ada (key_fields user.fields))
        (build_update pg (codes "users") user plain_config (struct_subject ada))
    × Binds pg
        (map ada (key_fields user.fields))
        (build_delete pg (codes "users") user plain_config (struct_subject ada))
writes-Binds_example =
    writes-Binds pg pg-IsAppending (codes "users") user plain_config ada user_keys

abbrev rows : List Subject
rows = struct_subject ada ∷ struct_subject ada ∷ struct_subject ada ∷ []

batch_statement-BindsRows_example :
    BindsRows pg
      (codes "INSERT ")
      (row_list user.fields (slice rows 1 3))
      ((3 - 1) * length user.fields)
      (batch_statement pg user user.fields (codes "INSERT ") [] rows 1 3)
batch_statement-BindsRows_example =
    batch_statement-BindsRows pg pg-IsAppending user user.fields (codes "INSERT ") [] rows 1 3
      (omega arith) (omega arith)

-- SQLite, if it took four placeholders in a statement
abbrev narrow : Dialect
narrow = record sqlite { features = record sqlite.features { max_placeholders = 4 } }

-- a session that notes the arguments of what it is sent
abbrev note : Writer → ℕ → List (List Value) → List (List Value) × Option Err
note st n w = (w ++ st.args ∷ [], none)

abbrev pair_of : List Value
pair_of = string (codes "id") ∷ string (codes "name") ∷ []

-- two rows in the first statement, and one in the second
two_statements :
    insert_many note narrow (codes "users") user plain_config rows []
    ≡ ((pair_of ++ pair_of) ∷ pair_of ∷ [], done)
unfolding insert_many row.Write.Options.writable
two_statements = refl

insert_many-Sent_example :
    (bs : List (List Subject)) × (concat bs ≡ rows)
    × AllWithin narrow (length (writable_fields user plain_config false)) bs
    × Sent note
        (λ b.
          batch_statement narrow user
            (writable_fields user plain_config false)
            (insert_prefix narrow (codes "users") (writable_fields user plain_config false))
            []
            b
            0
            (length b))
        bs
        []
        ((pair_of ++ pair_of) ∷ pair_of ∷ [])
insert_many-Sent_example =
    insert_many-Sent note narrow (codes "users") user plain_config rows []
      ((pair_of ++ pair_of) ∷ pair_of ∷ []) two_statements

insert_many-returned_example :
    is_returned (insert_many note narrow (codes "users") user plain_config rows []).1 ≡ true
insert_many-returned_example =
    insert_many-returned note narrow (codes "users") user plain_config rows []
