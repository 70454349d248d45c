-- ===== src/Session/Run.antt =====
-- row.go: `runQuery` and `runExec`, with the hooks of hook.go.
use row.Prelude.{
  ℕ, zero, suc, ◌-◌, ◌^◌, List, [], ◌∷◌, Option, none, some, Bytes, length, get_elem?,
}
use row.Errors.{Err, wrap}
use row.Dialect.Engines.{Dialect}
use row.Bind.Value.{Value}

-- a result and an error, of which one is nil
pub data Reply {ℓ} (A : Type ℓ) : Type ℓ where
  got : A → Reply A
  met : Err → Reply A

abbrev pub error_of {ℓ} : {A : Type ℓ} → Reply A → Option Err
error_of (got a) = none
error_of (met e) = some e

-- `QueryInfo`; times are numbers of a clock, and the number of rows is an int64, as its two's
-- complement
pub record QueryInfo : Type 0 where
  pub op : Bytes
  pub sql : Bytes
  pub args : List Value
  pub started : ℕ
  pub duration : ℕ
  pub rows_affected : ℕ
  pub err : Option Err

abbrev pub minus_one : ℕ
minus_one = 2 ^ 64 - 1

-- `Hook`: `BeforeQuery` and `AfterQuery`, which may change what their pointer shows
pub record Hook (W C : Type 0) : Type 0 where
  pub before_query : C → QueryInfo → W → W × C × QueryInfo
  pub after_query : C → QueryInfo → W → W × QueryInfo

-- A result of database/sql, with what its method `RowsAffected` returns; it may be nil.
abbrev pub ExecResult : Type 0
ExecResult = Option (Reply ℕ)

-- What a session's methods `queryContext` and `execContext` do, and the clock.
pub record Driver (W C R : Type 0) : Type 0 where
  pub query_context : C → Bytes → List Value → W → W × Reply R
  pub exec_context : C → Bytes → List Value → W → W × Reply ExecResult
  pub now : W → ℕ

-- `wrap`, of an error that is not nil
abbrev pub wrapped : Bytes → Bytes → Dialect → Err → Err
wrapped op query d e = elim (wrap op query (some d.classify_error) (some e)) [
  | none ↦ e
  | some e' ↦ e'
]

abbrev pub wrap_reply {ℓ} : {A : Type ℓ} → Bytes → Bytes → Dialect → Reply A → Reply A
wrap_reply op query d (got a) = got a
wrap_reply op query d (met e) = met (wrapped op query d e)

-- the number of rows that `runExec` notes
abbrev pub note_rows : Reply ExecResult → QueryInfo → QueryInfo
note_rows (got (some (got n))) info = record info { rows_affected = n }
note_rows _ info = info

module _ {W C : Type 0} where
  -- `fireBefore`
  unfoldable pub fire_before : List (Hook W C) → C → QueryInfo → W → W × C × QueryInfo
  fire_before [] ctx info w = (w, ctx, info)
  fire_before (h ∷ hs) ctx info w =
      let (w', ctx', info') = h.before_query ctx info w in fire_before hs ctx' info' w'

  -- `fireAfter`: the loop from `i - 1` down to 0
  unfoldable pub fire_after_from : ℕ → List (Hook W C) → C → QueryInfo → W → W
  fire_after_from zero hs ctx info w = w
  fire_after_from (suc i) hs ctx info w = elim (get_elem? hs i) [
    | none ↦ w
    | some h ↦ let (w', info') = h.after_query ctx info w in fire_after_from i hs ctx info' w'
  ]

  abbrev pub fire_after : List (Hook W C) → C → QueryInfo → W → W
  fire_after hs = fire_after_from (length hs) hs

  module _ {R : Type 0} (driver : Driver W C R) (hooks : List (Hook W C)) (d : Dialect) where
    abbrev pub query_info : Bytes → Bytes → List Value → W → QueryInfo
    query_info op query args w = record {
      op = op;
      sql = query;
      args = args;
      started = driver.now w;
      duration = 0;
      rows_affected = minus_one;
      err = none;
    }

    abbrev pub finished : QueryInfo → Option Err → W → QueryInfo
    finished info e w = record info { duration = driver.now w - info.started; err = e }

    -- `runQuery`
    unfoldable pub run_query : C → Bytes → Bytes → List Value → W → W × Reply R
    unfolding fire_before fire_after_from
    run_query ctx op query args w =
        let (w1, ctx', info) = fire_before hooks ctx (query_info op query args w) w in
        let (w2, rows) = driver.query_context ctx' query args w1 in
        (fire_after hooks ctx' (finished info (error_of rows) w2) w2, wrap_reply op query d rows)

    -- `runExec`
    unfoldable pub run_exec : C → Bytes → Bytes → List Value → W → W × Reply ExecResult
    unfolding fire_before fire_after_from
    run_exec ctx op query args w =
        let (w1, ctx', info) = fire_before hooks ctx (query_info op query args w) w in
        let (w2, res) = driver.exec_context ctx' query args w1 in
        (
          fire_after hooks ctx' (note_rows res (finished info (error_of res) w2)) w2,
          wrap_reply op query d res,
        )
