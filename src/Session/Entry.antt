-- ===== src/Session/Entry.antt =====
-- scan.go, row.go: `bindFor`, which every call with a statement begins with, and `Exec`.
use row.Prelude.{List, Option, none, some, Bytes, codes}
use row.Errors.{Err, other}
use row.Dialect.Engines.{Dialect}
use row.Bind.Value.{Value}
use row.Cache.Plans.{PlanCache}
use row.Session.Arguments.{Argument}
use row.Session.Prepare.{Prepared, ready, unbound, no_mapping, crashed, prepare}
use row.Session.Run.{Reply, got, met, Hook, Driver, ExecResult, wrapped, run_exec}

-- How a call ends: with a value or an error, or it panics.
pub data Call {ℓ} (A : Type ℓ) : Type ℓ where
  returned : Reply A → Call A
  panicked : Call A

-- The errors that are made of texts are `other` with a number of their own.
abbrev pub nil_session : Err
nil_session = other 100

abbrev pub bind_failure : Err
bind_failure = other 101

abbrev pub mapping_failure : Err
mapping_failure = other 102

-- the end of `bindFor`
abbrev pub bound_call : Bytes → Bytes → Dialect → Prepared → Call (Bytes × List Value)
bound_call op query d (ready q a) = returned (got (q, a))
bound_call op query d (unbound e) = returned (met (wrapped op query d bind_failure))
bound_call op query d (no_mapping e) = returned (met (wrapped op query d mapping_failure))
bound_call op query d crashed = panicked

-- `bindFor`, of a session that may be nil; a session is its dialect here
unfoldable pub bind_for :
    Bytes
    → Option Dialect
    → Bytes
    → List Argument
    → Option PlanCache
    → Option PlanCache × Call (Bytes × List Value)
bind_for op none query args pc = (pc, returned (met nil_session))
bind_for op (some d) query args pc =
    let (pc', p) = prepare d query args pc in (pc', bound_call op query d p)

-- A call, and what follows it with its value; the world changes only behind it.
abbrev pub call_then : {W A B : Type 0} → Call A → (A → W → W × Reply B) → W → W × Call B
call_then (returned (got a)) next w = let (w', r) = next a w in (w', returned r)
call_then (returned (met e)) next w = (w, returned (met e))
call_then panicked next w = (w, panicked)

module _ {W C R : Type 0} (driver : Driver W C R) (hooks : List (Hook W C)) (d : Dialect) where
  -- `Exec`
  unfoldable pub exec :
      C → Bytes → List Argument → Option PlanCache → W → Option PlanCache × (W × Call ExecResult)
  unfolding bind_for run_exec
  exec ctx query args pc w =
      let (pc', b) = bind_for (codes "row.Exec") (some d) query args pc in
      (pc', call_then b (λ q. run_exec driver hooks d ctx (codes "row.Exec") q.0 q.1) w)
