-- ===== src/Rows/Entry.antt =====
-- scan.go: `All`, `One` and `First`.
use row.Prelude.{Bool, true, false, List, Option, some, Bytes, codes}
use row.Dialect.Engines.{Dialect}
use row.Bind.Value.{Value}
use row.Cache.Plans.{PlanCache}
use row.Session.Arguments.{Argument}
use row.Session.Run.{Reply, Hook, Driver, wrapped, run_query}
use row.Session.Entry.{Call, bind_for, call_then}
use row.Rows.Deliver.{RowSet, RowErrors, collect, single}

module _ {W C T : Type 0} (driver : Driver W C (RowSet W)) (hooks : List (Hook W C)) (d : Dialect)
    (new_reader : List Bytes → Reply (List Value → Reply T)) where
  -- `collect` and `single`, with the call of `runQuery` that they begin with
  unfoldable pub collect_query : C → Bytes → Bytes × List Value → W → W × Reply (List T)
  unfolding run_query collect
  collect_query ctx op (q, a) w =
      collect new_reader (wrapped op q d) (run_query driver hooks d ctx op q a w)

  unfoldable pub single_query : RowErrors → Bool → C → Bytes → Bytes × List Value → W → W × Reply T
  unfolding run_query single
  single_query errors exactly ctx op (q, a) w =
      single new_reader (wrapped op q d) errors exactly (run_query driver hooks d ctx op q a w)

  -- `All`
  unfoldable pub all_rows :
      C → Bytes → List Argument → Option PlanCache → W → Option PlanCache × (W × Call (List T))
  unfolding bind_for collect_query
  all_rows ctx query args pc w =
      let (pc', b) = bind_for (codes "row.All") (some d) query args pc in
      (pc', call_then b (collect_query ctx (codes "row.All")) w)

  -- `One`, and `First`
  unfoldable pub one_row :
      RowErrors → C → Bytes → List Argument → Option PlanCache → W → Option PlanCache × (W × Call T)
  unfolding bind_for single_query
  one_row errors ctx query args pc w =
      let (pc', b) = bind_for (codes "row.One") (some d) query args pc in
      (pc', call_then b (single_query errors true ctx (codes "row.One")) w)

  unfoldable pub first_row :
      RowErrors → C → Bytes → List Argument → Option PlanCache → W → Option PlanCache × (W × Call T)
  unfolding bind_for single_query
  first_row errors ctx query args pc w =
      let (pc', b) = bind_for (codes "row.First") (some d) query args pc in
      (pc', call_then b (single_query errors false ctx (codes "row.First")) w)
