-- ===== src/Session/Prepared.antt =====
-- row.go: what `prepare` returns does not depend on the cache.
use row.Prelude.{ℕ, List, [], ◌∷◌, ◌++◌, ◌≡◌, refl, sym, ap, ◌∙◌, Option, none, some, Bytes}
use row.Dialect.Engines.{Dialect}
use row.Bind.Compile.{Plan, Result, ok, err, panic, compile}
use row.Cache.Plans.{PlanCache, new_plan_cache}
use row.Cache.Sound.{
  AllSound, new_plan_cache-AllSound, cache_get-AllSound, cache_put-AllSound, cache_get-Good,
}
use row.Session.Arguments.{Argument}
use row.Session.Prepare.{
  cache_key, cached, stored, plan_or_compile, with_plan, prepare, prepare_all,
}

append_cancel : (xs ys zs : Bytes) → xs ++ ys ≡ xs ++ zs → ys ≡ zs
append_cancel [] ys zs h = h
append_cancel (x ∷ xs) ys zs h = append_cancel xs ys zs (ap tail h)
  where
    tail : Bytes → Bytes
    tail [] = []
    tail (_ ∷ s) = s

module _ (d : Dialect) where
  -- the plan of each statement that has the key
  abbrev Good : Bytes → Plan → Type 0
  Good key p = (query : Bytes) → key ≡ cache_key d query → compile query ≡ ok p

  abbrev IsGood : Option PlanCache → Type 0
  IsGood none = Unit {0}
  IsGood (some c) = AllSound Good c

  compile-Good : (query : Bytes) (p : Plan) → compile query ≡ ok p → Good (cache_key d query) p
  compile-Good query p h other same =
      let e = append_cancel d.name (0 ∷ query) (0 ∷ other) same in
      let q : query ≡ other = cc in sym (ap compile q) ∙ h

  stored-result : (key : Bytes) (r : Result Plan) (pc : Option PlanCache) → (stored key r pc).1 ≡ r
  stored-result key (ok p) (some c) = refl
  stored-result key (ok p) none = refl
  stored-result key (err e) pc = refl
  stored-result key panic pc = refl

  stored-IsGood :
      (key : Bytes) (r : Result Plan) (pc : Option PlanCache)
      → ((p : Plan) → r ≡ ok p → Good key p)
      → IsGood pc
      → IsGood (stored key r pc).0
  stored-IsGood key (ok p) (some c) g h = cache_put-AllSound Good key p c (g p refl) h
  stored-IsGood key (ok p) none g h = tt
  stored-IsGood key (err e) pc g h = h
  stored-IsGood key panic pc g h = h

  cached-IsGood : (key : Bytes) (pc : Option PlanCache) → IsGood pc → IsGood (cached key pc).0
  unfolding cached
  cached-IsGood key none h = tt
  cached-IsGood key (some c) h = cache_get-AllSound Good key c h

  cached-Good :
      (key : Bytes) (pc : Option PlanCache) (p : Plan)
      → IsGood pc
      → (cached key pc).1 ≡ some p
      → Good key p
  unfolding cached
  cached-Good key none p h f = cc
  cached-Good key (some c) p h f = cache_get-Good Good key c p h f

  -- The plan is that of `compile`, and the cache stays good.
  plan_or_compile-compile :
      (query : Bytes) (found : Option PlanCache × Option Plan)
      → IsGood found.0
      → ((p : Plan) → found.1 ≡ some p → Good (cache_key d query) p)
      → ((plan_or_compile (cache_key d query) query found).1 ≡ compile query)
        × IsGood (plan_or_compile (cache_key d query) query found).0
  plan_or_compile-compile query (pc, some p) h g = (sym (g p refl query refl), h)
  plan_or_compile-compile query (pc, none) h g = (
    stored-result (cache_key d query) (compile query) pc,
    stored-IsGood (cache_key d query) (compile query) pc (compile-Good query) h,
  )

  prepare-compile :
      (query : Bytes) (args : List Argument) (pc : Option PlanCache)
      → IsGood pc
      → ((prepare d query args pc).1 ≡ with_plan d args (compile query))
        × IsGood (prepare d query args pc).0
  unfolding prepare
  prepare-compile query args pc h =
      let key = cache_key d query in
      let (same, good) =
        plan_or_compile-compile query (cached key pc) (cached-IsGood key pc h)
          (λ p. cached-Good key pc p h) in
      (ap (with_plan d args) same, good)

  prepare_all-IsGood :
      (ss : List (Bytes × List Argument)) (pc : Option PlanCache)
      → IsGood pc
      → IsGood (prepare_all d ss pc)
  unfolding prepare_all
  prepare_all-IsGood [] pc h = h
  prepare_all-IsGood ((query, args) ∷ ss) pc h =
      prepare_all-IsGood ss (prepare d query args pc).0 (prepare-compile query args pc h).1

  -- Whatever statements were prepared before with a cache that was made for `max` plans, `prepare`
  -- returns for a statement what it returns without a cache.
  pub prepare-uncached :
      (max : ℕ) (ss : List (Bytes × List Argument)) (query : Bytes) (args : List Argument)
      → (prepare d query args (prepare_all d ss (some (new_plan_cache max)))).1
        ≡ (prepare d query args none).1
  prepare-uncached max ss query args =
      let c = prepare_all d ss (some (new_plan_cache max)) in
      let good =
        prepare_all-IsGood ss (some (new_plan_cache max)) (new_plan_cache-AllSound Good max) in
      (prepare-compile query args c good).0 ∙ sym (prepare-compile query args none tt).0
