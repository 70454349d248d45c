-- ===== src/Cache/Bounds.antt =====
-- How many plans the cache holds.
use row.Prelude.{
  ℕ, zero, suc, ◌+◌, ◌≤◌, List, [], ◌∷◌, ◌≡◌, refl, ap, ◌∙◌, inl, inr, arith, none, some, ltb, ◌==◌,
  if◌then◌else◌, Bytes, length, Bool-cases, Option-cases,
}
use row.Bind.Compile.{Plan}
use row.Cache.Shard.{
  Element, Shard, find_item, find_element, remove, delete_item, move_to_front, back, set_val,
  shard_get, evict, push_front, shard_put,
}
use row.Cache.Plans.{
  PlanCache, nshards, per_shard, copies, new_plan_cache, shard_for, modify, cache_get, cache_put,
  cache_len, Op, get_op, put_op, run_ops,
}

-- Removing the last element makes the list shorter by one.
length-remove-back :
    (es : List Element) (e : Element) → back es ≡ some e → length (remove e.id es) + 1 ≡ length es
unfolding back remove
length-remove-back [] e h = cc
length-remove-back (x ∷ []) e h =
    let same : x.id ≡ e.id = ap (λ o. elim o [ none ↦ 0 | some y ↦ y.id ]) h in ground (arith, same)
length-remove-back (x ∷ y ∷ es) e h = elim (Bool-cases (x.id == e.id)) [
  | inl hit ↦ rw hit (omega arith)
  | inr miss ↦ rw miss (omega (arith, length-remove-back (y ∷ es) e h))
]

length-remove-find_element :
    (id : ℕ) (es : List Element) (e : Element)
    → find_element id es ≡ some e
    → length (remove id es) + 1 ≡ length es
unfolding find_element remove
length-remove-find_element id [] e h = cc
length-remove-find_element id (x ∷ es) e h = elim (Bool-cases (x.id == id)) [
  | inl hit ↦ rw hit (omega arith)
  | inr miss ↦ rw miss (omega (arith, length-remove-find_element id es e (ground arith)))
]

back-none : (es : List Element) → back es ≡ none → length es ≡ 0
unfolding back
back-none [] h = refl
back-none (e ∷ []) h = cc
back-none (e ∷ e' ∷ es) h =
    let shorter : length (e' ∷ es) ≡ 0 = back-none (e' ∷ es) h in absurd (omega (arith, shorter))

length-move_to_front : (id : ℕ) (es : List Element) → length (move_to_front id es) ≡ length es
unfolding move_to_front
length-move_to_front id es = elim (Option-cases (find_element id es)) [
  | inl missing ↦ rw (missing, move_to_front) refl
  | inr (e, found) ↦
      rw (found, move_to_front) (omega (arith, length-remove-find_element id es e found))
]

length-set_val : (id : ℕ) (p : Plan) (es : List Element) → length (set_val id p es) ≡ length es
unfolding set_val
length-set_val id p [] = refl
length-set_val id p (e ∷ es) = elim (Bool-cases (e.id == id)) [
  | inl hit ↦ rw hit refl
  | inr miss ↦ rw miss (omega (arith, length-set_val id p es))
]

-- A stripe of the size `per` that is not too full.
abbrev pub IsBounded : ℕ → Shard → Type 0
IsBounded per s = (s.max ≡ per) × (length s.order ≤ per)

-- The loop of `put` ends within its fuel, and leaves at most `max` elements.
evict-IsBounded :
    (fuel per : ℕ) (s : Shard)
    → s.max ≡ per
    → length s.order ≤ fuel + per
    → IsBounded per (evict fuel s)
unfolding evict
evict-IsBounded zero per s m h = (m, omega (arith, h))
evict-IsBounded (suc fuel) per s m h = elim (Bool-cases (ltb s.max (length s.order))) [
  | inr miss ↦ rw miss (m, ground (arith, miss))
  | inl hit ↦ elim (Option-cases (back s.order)) [
    | inl nothing ↦ rw (hit, nothing, evict) (m, omega (arith, back-none s.order nothing))
    | inr (e, last) ↦
        rw (hit, last, evict)
          (evict-IsBounded fuel per
            (record s { order = remove e.id s.order; items = delete_item e.key s.items }) m
            (omega (arith, h, length-remove-back s.order e last)))
  ]
]

shard_get-IsBounded :
    (per : ℕ) (key : Bytes) (s : Shard) → IsBounded per s → IsBounded per (shard_get key s).0
unfolding shard_get
shard_get-IsBounded per key s h = elim (Option-cases (find_item key s.items)) [
  | inl missing ↦ rw (missing, shard_get) h
  | inr (id, found) ↦
      rw (found, shard_get) (h.0, omega (arith, h.1, length-move_to_front id s.order))
]

shard_put-IsBounded :
    (per : ℕ) (key : Bytes) (p : Plan) (s : Shard)
    → IsBounded per s
    → IsBounded per (shard_put key p s)
unfolding shard_put push_front
shard_put-IsBounded per key p s h = elim (Option-cases (find_item key s.items)) [
  | inl missing ↦
      rw (missing, shard_put)
        (evict-IsBounded (suc (length s.order)) per (push_front key p s) h.0 (omega (arith, h.1)))
  | inr (id, found) ↦
      rw (found, shard_put)
        (
          h.0,
          omega (
            arith,
            h.1,
            length-move_to_front id s.order,
            length-set_val id p (move_to_front id s.order),
          ),
        )
]

abbrev AllBounded : ℕ → List Shard → Type 0
AllBounded per [] = Unit {0}
AllBounded per (s ∷ ss) = IsBounded per s × AllBounded per ss

modify-AllBounded :
    (per i : ℕ) (f : Shard → Shard) (ss : List Shard)
    → ((s : Shard) → IsBounded per s → IsBounded per (f s))
    → AllBounded per ss
    → AllBounded per (modify i f ss)
unfolding modify
modify-AllBounded per i f [] k h = tt
modify-AllBounded per zero f (s ∷ ss) k h = (k s h.0, h.1)
modify-AllBounded per (suc i) f (s ∷ ss) k h = (h.0, modify-AllBounded per i f ss k h.1)

length-modify : (i : ℕ) (f : Shard → Shard) (ss : List Shard) → length (modify i f ss) ≡ length ss
unfolding modify
length-modify i f [] = refl
length-modify zero f (s ∷ ss) = refl
length-modify (suc i) f (s ∷ ss) = omega (arith, length-modify i f ss)

abbrev IsSized : ℕ → PlanCache → Type 0
IsSized per c = (length c ≡ nshards) × AllBounded per c

run_ops-IsSized :
    (per : ℕ) (ops : List Op) (c : PlanCache) → IsSized per c → IsSized per (run_ops ops c)
unfolding run_ops cache_get cache_put
run_ops-IsSized per [] c h = h
run_ops-IsSized per (get_op key ∷ ops) c h = run_ops-IsSized per ops (cache_get key c).0 (
  length-modify (shard_for key) (λ s. (shard_get key s).0) c ∙ h.0,
  modify-AllBounded per (shard_for key) (λ s. (shard_get key s).0) c (shard_get-IsBounded per key)
      h.1,
)
run_ops-IsSized per (put_op key p ∷ ops) c h = run_ops-IsSized per ops (cache_put key p c) (
  length-modify (shard_for key) (shard_put key p) c ∙ h.0,
  modify-AllBounded per (shard_for key) (shard_put key p) c (shard_put-IsBounded per key p) h.1,
)

-- so many times the size of a stripe
abbrev times : ℕ → ℕ → ℕ
times zero per = 0
times (suc n) per = per + times n per

cache_len-le : (per : ℕ) (c : PlanCache) → AllBounded per c → cache_len c ≤ times (length c) per
unfolding cache_len
cache_len-le per [] h = omega arith
cache_len-le per (s ∷ ss) h = omega (arith, h.0.1, cache_len-le per ss h.1)

copies-AllBounded : (n : ℕ) (s : Shard) → IsBounded s.max s → AllBounded s.max (copies n s)
unfolding copies
copies-AllBounded zero s h = tt
copies-AllBounded (suc n) s h = (h, copies-AllBounded n s h)

new_plan_cache-IsSized : (max : ℕ) → IsSized (per_shard max) (new_plan_cache max)
unfolding new_plan_cache
new_plan_cache-IsSized max =
    let s : Shard = record { max = per_shard max; items = []; order = []; next = 0 } in
    (unfold copies in refl, copies-AllBounded nshards s (refl, omega arith))

per_shard-times : (max : ℕ) → times nshards (per_shard max) ≤ (if ltb max 16 then 16 else max)
per_shard-times max = ground arith

-- Whatever plans are looked up and stored, and in whatever order: a cache that was made for `max`
-- plans holds at most `max` of them, or at most 16 if `max` is less than that.
pub run_ops-len :
    (max : ℕ) (ops : List Op)
    → cache_len (run_ops ops (new_plan_cache max)) ≤ (if ltb max 16 then 16 else max)
run_ops-len max ops =
    let per = per_shard max in
    let sized = run_ops-IsSized per ops (new_plan_cache max) (new_plan_cache-IsSized max) in
    let total = cache_len-le per (run_ops ops (new_plan_cache max)) sized.1 in
    omega (arith, total, ap (λ n. times n per) sized.0, per_shard-times max)
