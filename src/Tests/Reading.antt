-- ===== src/Tests/Reading.antt =====
-- Examples for the rows of a query.
use row.Prelude.{
  ℕ, zero, suc, Bool, true, false, List, [], ◌∷◌, ◌++◌, ◌≡◌, ◌↔◌, refl, Option, none, some, Bytes,
  codes, get_elem?,
}
use row.Errors.{Err, other, row_error, unknown}
use row.Dialect.Engines.{pg}
use row.Bind.Value.{Value, nil, scalar}
use row.Mapper.Types.{struct_type, other_kind, StructField, Field, Group, pointer}
use row.Mapper.Walk.{build_struct}
use row.Session.Run.{Reply, got, met, Driver}
use row.Session.Entry.{returned, exec}
use row.Rows.Entry.{all_rows, one_row, first_row}
use row.Rows.Errors.{CallErrorsAre, calls-CallErrorsAre}
use row.Rows.Deliver.{RowSet, RowErrors, collect, single, stream}
use row.Rows.Items.{IsEndedByError, gather, feed, items_of, closed, stream-collect}
use row.Rows.Single.{single-collect}
use row.Rows.Plan.{build_scan_plan}
use row.Rows.Read.{Cell, assignments}
use row.Rows.Nulls.{assignments-non_null}
use row.Rows.Strict.{struct_destination, build_scan_plan-strict}

-- a reader of one column
abbrev read_first : List Value → Reply Value
read_first [] = met (other 1)
read_first (v ∷ vs) = got v

abbrev new_reader : List Bytes → Reply (List Value → Reply Value)
new_reader cols = got read_first

-- Two rows, and then the connection fails; the world is what was yielded.
abbrev two_rows : RowSet (List (Reply Value))
two_rows = record {
  columns = got (codes "id" ∷ []);
  pending = got (scalar 1 ∷ []) ∷ got (scalar 2 ∷ []) ∷ [];
  early = none;
  failure = some (other 9);
  close = λ w. w;
}

abbrev single_set : RowSet (List (Reply Value))
single_set = record two_rows { pending = got (scalar 1 ∷ []) ∷ []; failure = none }

abbrev note : Reply Value → List (Reply Value) → List (Reply Value) × Bool
note i w = (w ++ i ∷ [], true)

streamed :
    stream new_reader (λ e. e) note ([], got two_rows)
    ≡ got (scalar 1) ∷ got (scalar 2) ∷ met (other 9) ∷ []
unfolding stream
streamed = refl

stream-collect_example :
    IsEndedByError (items_of new_reader (λ e. e) (got two_rows))
    × (stream new_reader (λ e. e) note ([], got two_rows)
        ≡ closed new_reader
            (λ e. e)
            (got two_rows)
            (feed note (items_of new_reader (λ e. e) (got two_rows)) []))
    × (collect new_reader (λ e. e) ([], got two_rows) ≡ (
      closed new_reader (λ e. e) (got two_rows) [],
      gather (items_of new_reader (λ e. e) (got two_rows)),
    ))
stream-collect_example = stream-collect new_reader (λ e. e) note [] (got two_rows)

abbrev row_errors : RowErrors
row_errors = record { no_rows = other 2; too_many_rows = other 3 }

single-collect_example :
    ((single new_reader (λ e. e) row_errors true ([], got single_set)).1 ≡ got (scalar 1))
    ↔ ((collect new_reader (λ e. e) ([], got single_set)).1 ≡ got (scalar 1 ∷ []))
single-collect_example =
    single-collect new_reader (λ e. e) row_errors [] (got single_set) (scalar 1)

-- a struct in a struct, each behind a pointer
abbrev nested : List Group
nested =
    record { index = 1 ∷ []; parent = none; path = codes "Home" }
    ∷ record { index = 1 ∷ 0 ∷ []; parent = some 0; path = codes "Home.City" }
    ∷ []

abbrev row_cells : List Cell
row_cells =
    record { raw = scalar 1; field = some 0; group = none }
    ∷ record { raw = nil; field = some 1; group = some 0 }
    ∷ record { raw = scalar 5; field = some 2; group = some 1 }
    ∷ []

all_assigned : assignments nested row_cells ≡ (0, scalar 1) ∷ (1, nil) ∷ (2, scalar 5) ∷ []
unfolding row.Rows.Read.assign_cells row.Rows.Read.null_groups row.Rows.Read.all_true
all_assigned = refl

assignments-non_null_example :
    (j : ℕ) × (get_elem? (assignments nested row_cells) j ≡ some (2, scalar 5))
assignments-non_null_example =
    assignments-non_null nested row_cells 2
      (record { raw = scalar 5; field = some 2; group = some 1 }) 2 refl refl refl

abbrev plain_field : Bytes → StructField
plain_field name = record {
  name = name;
  exported = true;
  anonymous = false;
  tag = none;
  type_of = other_kind 0;
}

abbrev fields_of : ℕ → List StructField
fields_of _ = plain_field (codes "id") ∷ plain_field (codes "name") ∷ []

abbrev columns : List Bytes
columns = codes "name" ∷ codes "id" ∷ []

planned :
    (build_scan_plan (λ s. s) fields_of 2 (struct_destination true 0) true columns).error ≡ none
unfolding build_scan_plan build_struct row.Mapper.Tag.parse_tag row.Prelude.bytes_eq
planned = refl

build_scan_plan-strict_example :
    let plan = build_scan_plan (λ s. s) fields_of 2 (struct_destination true 0) true columns in
    let si = build_struct (λ s. s) fields_of 2 (struct_type 0) in
    (i : ℕ) × (f : Field) × (get_elem? plan.columns.field_for 0 ≡ some (some i))
    × (get_elem? si.fields i ≡ some f)
    × (f.column ≡ codes "name")
build_scan_plan-strict_example =
    build_scan_plan-strict (λ s. s) fields_of 2 true 0 columns 0 (codes "name") planned refl

-- a driver whose connection is lost, and one that finds two rows
abbrev lost : Driver (List (Reply Value)) ℕ (RowSet (List (Reply Value)))
lost = record {
  query_context = λ ctx q a w. (w, met (other 9));
  exec_context = λ ctx q a w. (w, met (other 9));
  now = λ w. 0;
}

abbrev finds_two : Driver (List (Reply Value)) ℕ (RowSet (List (Reply Value)))
finds_two = record lost { query_context = λ ctx q a w. (w, got two_rows) }

too_many :
    (one_row finds_two [] pg new_reader row_errors 0 (codes "SELECT 1") [] none []).1.1
    ≡ returned (met (row_error (codes "row.One") (codes "SELECT 1") unknown (other 3)))
unfolding one_row row.Session.Prepare.prepare row.Bind.Compile.compile row.Lex.Scan.lex
    row.Lex.Token.is_ident_start row.Lex.Skip.skip_ident row.Lex.Token.is_ident_byte
    row.Session.Arguments.split_args row.Bind.Render.render_as row.Errors.wrap
    row.Dialect.Engines.pg_classify row.Errors.as_pg_error
too_many = refl

calls-CallErrorsAre_example :
    CallErrorsAre (exec lost [] pg 0 (codes "SELECT 1") [] none []).1.1
    × CallErrorsAre (all_rows lost [] pg new_reader 0 (codes "SELECT 1") [] none []).1.1
    × CallErrorsAre (one_row lost [] pg new_reader row_errors 0 (codes "SELECT 1") [] none []).1.1
    × CallErrorsAre (first_row lost [] pg new_reader row_errors 0 (codes "SELECT 1") [] none []).1.1
calls-CallErrorsAre_example =
    calls-CallErrorsAre lost [] pg new_reader row_errors 0 (codes "SELECT 1") [] none []

-- a struct that leads to another through a pointer
abbrev with_home : ℕ → List StructField
with_home zero =
    plain_field (codes "id")
    ∷ record (plain_field (codes "home")) { type_of = pointer (struct_type 1) }
    ∷ []
with_home (suc t) = plain_field (codes "city") ∷ []
