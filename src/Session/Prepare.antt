-- ===== src/Session/Prepare.antt =====
-- row.go: `prepare`.
use row.Prelude.{List, [], ◌∷◌, ◌++◌, Option, none, some, Bytes}
use row.Dialect.Engines.{Dialect}
use row.Bind.Value.{Value}
use row.Bind.Compile.{Plan, BindError, Result, ok, err, panic, compile}
use row.Bind.Render.{render}
use row.Mapper.Types.{MapError}
use row.Cache.Plans.{PlanCache, cache_get, cache_put}
use row.Session.Arguments.{Argument, Split, by_name, by_position, unmapped, split_args}

-- what `prepare` returns: the text and the arguments for the driver, or an error
pub data Prepared : Type 0 where
  ready : Bytes → List Value → Prepared
  unbound : BindError → Prepared
  no_mapping : MapError → Prepared
  crashed : Prepared

-- `key`
abbrev pub cache_key : Dialect → Bytes → Bytes
cache_key d query = d.name ++ 0 ∷ query

-- the lookup, where there is a cache
unfoldable pub cached : Bytes → Option PlanCache → Option PlanCache × Option Plan
cached key none = (none, none)
cached key (some c) = (some (cache_get key c).0, (cache_get key c).1)

-- the plan that was found, or a new one, which goes into the cache
abbrev pub stored : Bytes → Result Plan → Option PlanCache → Option PlanCache × Result Plan
stored key (ok p) (some c) = (some (cache_put key p c), ok p)
stored key (ok p) none = (none, ok p)
stored key (err e) pc = (pc, err e)
stored key panic pc = (pc, panic)

abbrev pub plan_or_compile :
    Bytes → Bytes → Option PlanCache × Option Plan → Option PlanCache × Result Plan
plan_or_compile key query (pc, some p) = (pc, ok p)
plan_or_compile key query (pc, none) = stored key (compile query) pc

-- `p.render(d, src, pos)`
abbrev pub rendered : Result (Bytes × List Value) → Prepared
rendered (ok (text, args)) = ready text args
rendered (err e) = unbound e
rendered panic = crashed

abbrev pub bound : Dialect → Plan → Split → Prepared
bound d p (by_name src) = rendered (render p d (some src) [])
bound d p (by_position pos) = rendered (render p d none pos)
bound d p (unmapped e) = no_mapping e

-- what follows the compilation
abbrev pub with_plan : Dialect → List Argument → Result Plan → Prepared
with_plan d args (ok p) = bound d p (split_args args)
with_plan d args (err e) = unbound e
with_plan d args panic = crashed

-- `prepare`
unfoldable pub prepare :
    Dialect → Bytes → List Argument → Option PlanCache → Option PlanCache × Prepared
unfolding cached
prepare d query args pc =
    let (pc', r) = plan_or_compile (cache_key d query) query (cached (cache_key d query) pc) in
    (pc', with_plan d args r)

-- statements that are prepared one after the other
unfoldable pub prepare_all :
    Dialect → List (Bytes × List Argument) → Option PlanCache → Option PlanCache
unfolding prepare
prepare_all d [] pc = pc
prepare_all d ((query, args) ∷ ss) pc = prepare_all d ss (prepare d query args pc).0
