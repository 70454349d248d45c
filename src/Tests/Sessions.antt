-- ===== src/Tests/Sessions.antt =====
-- Examples for sessions.
use row.Prelude.{ℕ, List, [], ◌∷◌, ◌++◌, ◌≡◌, refl, Option, none, some, Bytes, codes}
use row.Errors.{other}
use row.Dialect.Engines.{pg}
use row.Bind.Value.{Value, scalar}
use row.Cache.Plans.{new_plan_cache}
use row.Session.Arguments.{Argument, args_shape, plain_shape}
use row.Session.Prepare.{ready, prepare, prepare_all}
use row.Session.Prepared.{prepare-uncached}
use row.Session.Run.{Reply, got, met, ExecResult, run_query, run_exec}
use row.Session.Traced.{noting, noting_driver, around, run-around}

abbrev by_id : Bytes
by_id = codes "SELECT :id"

abbrev named_id : List Argument
named_id = record { value = scalar 0; shape = args_shape ((codes "id", scalar 7) ∷ []) } ∷ []

abbrev earlier : List (Bytes × List Argument)
earlier =
    (by_id, named_id)
    ∷ (codes "SELECT ?", record { value = scalar 1; shape = plain_shape } ∷ [])
    ∷ []

by_id_prepared : (prepare pg by_id named_id none).1 ≡ ready (codes "SELECT $1") (scalar 7 ∷ [])
unfolding prepare row.Bind.Compile.compile row.Lex.Scan.lex row.Lex.Token.is_ident_start
    row.Lex.Skip.skip_ident row.Lex.Token.is_ident_byte row.Lex.Scan.lex_colon
    row.Session.Arguments.split_args row.Bind.Render.render_as row.Mapper.Types.lookup
    row.Prelude.bytes_eq row.Bind.Value.slice_elems row.Dialect.Decimal.append_ordinal
by_id_prepared = refl

prepare-uncached_example :
    (prepare pg by_id named_id (prepare_all pg earlier (some (new_plan_cache 0)))).1
    ≡ (prepare pg by_id named_id none).1
prepare-uncached_example = prepare-uncached pg 0 earlier by_id named_id

-- a driver that fails
abbrev no_rows : ℕ → Bytes → List Value → Reply ℕ
no_rows ctx query args = met (other ctx)

abbrev no_result : ℕ → Bytes → List Value → Reply ExecResult
no_result ctx query args = got none

run-around_example :
    ((run_query
        (noting_driver no_rows no_result)
        (noting 1 ∷ noting 2 ∷ [])
        pg
        0
        (codes "row.All")
        by_id
        []
        []).0
      ≡ around (1 ∷ 2 ∷ []))
    × ((run_exec
          (noting_driver no_rows no_result)
          (noting 1 ∷ noting 2 ∷ [])
          pg
          0
          (codes "row.All")
          by_id
          []
          []).0
        ≡ around (1 ∷ 2 ∷ []))
run-around_example = run-around no_rows no_result pg (1 ∷ 2 ∷ []) 0 (codes "row.All") by_id [] []
