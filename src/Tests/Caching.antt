-- ===== src/Tests/Caching.antt =====
-- Examples for the cache.
use row.Prelude.{
  ℕ, ◌≤◌, List, [], ◌∷◌, ◌≡◌, refl, ltb, if◌then◌else◌, Bytes, codes, Option, some, none,
}
use row.Bind.Compile.{Plan, style_none, text_part}
use row.Cache.Plans.{
  new_plan_cache, shard_for, cache_get, cache_put, cache_len, Op, get_op, put_op, run_ops,
}
use row.Cache.Bounds.{run_ops-len}

abbrev plan_of : Bytes → Plan
plan_of sql = record {
  style = style_none;
  parts = text_part sql ∷ [];
  names = [];
  nslots = 0;
  size = 1;
}

-- "a" and "q" share a stripe.
abbrev uses : List Op
uses =
    put_op (codes "a") (plan_of (codes "a"))
    ∷ put_op (codes "q") (plan_of (codes "q"))
    ∷ get_op (codes "a")
    ∷ []

stripe_of_a : shard_for (codes "a") ≡ 12
unfolding shard_for
stripe_of_a = refl

stripe_of_q : shard_for (codes "q") ≡ 12
unfolding shard_for
stripe_of_q = refl

stored :
    (cache_get (codes "a") (cache_put (codes "a") (plan_of (codes "a")) (new_plan_cache 0))).1
    ≡ some (plan_of (codes "a"))
unfolding cache_get cache_put new_plan_cache row.Prelude.bytes_eq
stored = refl

run_ops-len_example : cache_len (run_ops uses (new_plan_cache 3)) ≤ (if ltb 3 16 then 16 else 3)
run_ops-len_example = run_ops-len 3 uses
