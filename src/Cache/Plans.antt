-- ===== src/Cache/Plans.antt =====
-- cache.go: the sixteen stripes.
use row.Prelude.{
  ℕ, zero, suc, ◌+◌, ◌*◌, ◌/◌, ◌%◌, ◌^◌, List, [], ◌∷◌, Option, none, some, ltb, get_elem?,
  if◌then◌else◌, Bytes, length,
}
use row.Bind.Compile.{Plan}
use row.Cache.Shard.{Shard, shard_get, shard_put}

-- `planCache`
abbrev pub PlanCache : Type 0
PlanCache = List Shard

abbrev pub nshards : ℕ
nshards = 16

-- `per`
abbrev pub per_shard : ℕ → ℕ
per_shard max = if ltb (max / nshards) 1 then 1 else max / nshards

unfoldable pub copies : ℕ → Shard → List Shard
copies zero s = []
copies (suc n) s = s ∷ copies n s

-- `newPlanCache`
unfoldable pub new_plan_cache : ℕ → PlanCache
unfolding copies
new_plan_cache max =
    copies nshards (record { max = per_shard max; items = []; order = []; next = 0 })

-- Go's `^` on the lowest `n` bits
unfoldable pub xor : ℕ → ℕ → ℕ → ℕ
xor zero a b = 0
xor (suc n) a b = (a % 2 + b % 2) % 2 + 2 * xor n (a / 2) (b / 2)

-- the loop of `shardFor`, on a `uint32`
unfoldable pub hash : ℕ → Bytes → ℕ
unfolding xor
hash h [] = h
hash h (c ∷ cs) = hash ((xor 32 h c * 16777619) % 2 ^ 32) cs

unfoldable pub shard_for : Bytes → ℕ
unfolding hash
shard_for key = hash 2166136261 key % nshards

-- `c.shards[i]` after a change to it
unfoldable pub modify : ℕ → (Shard → Shard) → List Shard → List Shard
modify i f [] = []
modify zero f (s ∷ ss) = f s ∷ ss
modify (suc i) f (s ∷ ss) = s ∷ modify i f ss

-- `get` and `put`
unfoldable pub cache_get : Bytes → PlanCache → PlanCache × Option Plan
unfolding shard_for modify shard_get
cache_get key c = (
  modify (shard_for key) (λ s. (shard_get key s).0) c,
  elim (get_elem? c (shard_for key)) [ none ↦ none | some s ↦ (shard_get key s).1 ],
)

unfoldable pub cache_put : Bytes → Plan → PlanCache → PlanCache
unfolding shard_for modify shard_put
cache_put key p c = modify (shard_for key) (shard_put key p) c

-- `len`
unfoldable pub cache_len : PlanCache → ℕ
cache_len [] = 0
cache_len (s ∷ ss) = length s.order + cache_len ss

-- A use of the cache.
pub data Op : Type 0 where
  get_op : Bytes → Op
  put_op : Bytes → Plan → Op

unfoldable pub run_ops : List Op → PlanCache → PlanCache
unfolding cache_get cache_put
run_ops [] c = c
run_ops (get_op key ∷ ops) c = run_ops ops (cache_get key c).0
run_ops (put_op key p ∷ ops) c = run_ops ops (cache_put key p c)
