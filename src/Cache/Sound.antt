-- ===== src/Cache/Sound.antt =====
-- cache.go: a plan is found only under the key that it was stored with.
use row.Prelude.{
  ℕ, zero, suc, ◌+◌, ◌<◌, List, [], ◌∷◌, ◌≡◌, refl, sym, subst, ◌∙◌, inl, inr, arith, none, some,
  ltb, Bytes, length, get_elem?, Bool-cases, Option-cases,
}
use row.Bind.Compile.{Plan}
use row.Cache.Shard.{
  Element, Shard, find_item, find_element, remove, delete_item, move_to_front, back, shard_get,
  evict, push_front, shard_put,
}
use row.Cache.Plans.{
  PlanCache, copies, nshards, new_plan_cache, shard_for, modify, cache_get, cache_put,
}
use row.Cache.Elements.{
  All, remove-All, find_element-All, move_to_front-All, All-map, All-and, set_val-All,
  find_item-kept, find_item-set_item,
}

-- an element that has the key, if it has the identity
abbrev Keyed : Bytes → ℕ → Element → Type 0
Keyed k id e = e.id ≡ id → e.key ≡ k

module _ (Good : Bytes → Plan → Type 0) where
  abbrev IsOld : ℕ → Element → Type 0
  IsOld n e = (e.id < n) × Good e.key e.val

  -- A stripe whose plans are good for their keys, and whose map gives elements of the key.
  pub record IsSound (s : Shard) : Type 0 where
    pub items_old : (k : Bytes) (id : ℕ) → find_item k s.items ≡ some id → id < s.next
    pub order_old : All (IsOld s.next) s.order
    pub keyed : (k : Bytes) (id : ℕ) → find_item k s.items ≡ some id → All (Keyed k id) s.order

  evict-IsSound : (fuel : ℕ) (s : Shard) → IsSound s → IsSound (evict fuel s)
  unfolding evict
  evict-IsSound zero s h = h
  evict-IsSound (suc fuel) s h = elim (Bool-cases (ltb s.max (length s.order))) [
    | inr miss ↦ rw miss h
    | inl hit ↦ elim (Option-cases (back s.order)) [
      | inl nothing ↦ rw (hit, nothing, evict) h
      | inr (e, last) ↦
          rw (hit, last, evict)
            (evict-IsSound fuel
              (record s { order = remove e.id s.order; items = delete_item e.key s.items })
              (record {
                items_old = λ k id f. h.items_old k id (find_item-kept e.key k id s.items f);
                order_old = remove-All (IsOld s.next) e.id s.order h.order_old;
                keyed = λ k id f.
                    remove-All (Keyed k id) e.id s.order
                      (h.keyed k id (find_item-kept e.key k id s.items f));
              }))
    ]
  ]

  push_front-IsSound :
      (key : Bytes) (p : Plan) (s : Shard) → Good key p → IsSound s → IsSound (push_front key p s)
  unfolding push_front find_item
  push_front-IsSound key p s g h = record {
    items_old = λ k id f. elim (find_item-set_item key k s.next id s.items f) [
      | inl (same, e) ↦ omega (arith, e)
      | inr old ↦ omega (arith, h.items_old k id old)
    ];
    order_old = (
      (omega arith, g),
      All-map (IsOld s.next) (IsOld (s.next + 1)) s.order (λ e x. (omega (arith, x.0), x.1))
          h.order_old,
    );
    keyed = λ k id f. elim (find_item-set_item key k s.next id s.items f) [
      | inl (same, e) ↦ (
        λ _. same,
        All-map (IsOld s.next) (Keyed k id) s.order (λ x y q. absurd (omega (arith, y.0, q, e)))
            h.order_old,
      )
      | inr old ↦ (λ q. absurd (omega (arith, q, h.items_old k id old)), h.keyed k id old)
    ];
  }

  shard_get-IsSound : (key : Bytes) (s : Shard) → IsSound s → IsSound (shard_get key s).0
  unfolding shard_get
  shard_get-IsSound key s h = elim (Option-cases (find_item key s.items)) [
    | inl missing ↦ rw (missing, shard_get) h
    | inr (id, found) ↦
        rw (found, shard_get)
          (record {
            items_old = h.items_old;
            order_old = move_to_front-All (IsOld s.next) id s.order h.order_old;
            keyed = λ k i f. move_to_front-All (Keyed k i) id s.order (h.keyed k i f);
          })
  ]

  shard_put-IsSound :
      (key : Bytes) (p : Plan) (s : Shard) → Good key p → IsSound s → IsSound (shard_put key p s)
  unfolding shard_put
  shard_put-IsSound key p s g h = elim (Option-cases (find_item key s.items)) [
    | inl missing ↦
        rw (missing, shard_put)
          (evict-IsSound (suc (length s.order)) (push_front key p s)
            (push_front-IsSound key p s g h))
    | inr (id, found) ↦
        let front = move_to_front id s.order in
        let olds = move_to_front-All (IsOld s.next) id s.order h.order_old in
        let keys = move_to_front-All (Keyed key id) id s.order (h.keyed key id found) in
        rw (found, shard_put)
          (record {
            items_old = h.items_old;
            order_old =
                set_val-All (λ e. IsOld s.next e × Keyed key id e) (IsOld s.next) id p front
                  (λ e x. x.0) (λ e same x. (x.0.0, subst (λ k. Good k p) (sym (x.1 same)) g))
                  (All-and (IsOld s.next) (Keyed key id) front olds keys);
            keyed = λ k i f.
                set_val-All (Keyed k i) (Keyed k i) id p front (λ e x. x) (λ e same x. x)
                  (move_to_front-All (Keyed k i) id s.order (h.keyed k i f));
          })
  ]

  -- What `get` finds is good for the key.
  shard_get-Good :
      (key : Bytes) (s : Shard) (p : Plan) → IsSound s → (shard_get key s).1 ≡ some p → Good key p
  unfolding shard_get
  shard_get-Good key s p h f = elim (Option-cases (find_item key s.items)) [
    | inl missing ↦ let x : none ≡ some p = sym (rw (missing, shard_get) refl) ∙ f in cc
    | inr (id, found) ↦ elim (Option-cases (find_element id s.order)) [
      | inl gone ↦ let x : none ≡ some p = sym (rw (found, gone, shard_get) refl) ∙ f in cc
      | inr (e, there) ↦
          let x : some e.val ≡ some p = sym (rw (found, there, shard_get) refl) ∙ f in
          let val : e.val ≡ p = cc in
          let (old, is_id) = find_element-All (IsOld s.next) id s.order e h.order_old there in
          let (keyed, _) =
            find_element-All (Keyed key id) id s.order e (h.keyed key id found) there in
          subst (λ q. Good key q) val (subst (λ k. Good k e.val) (keyed is_id) old.1)
    ]
  ]

  abbrev pub AllSound : List Shard → Type 0
  AllSound [] = Unit {0}
  AllSound (s ∷ ss) = IsSound s × AllSound ss

  modify-AllSound :
      (i : ℕ) (f : Shard → Shard) (ss : List Shard)
      → ((s : Shard) → IsSound s → IsSound (f s))
      → AllSound ss
      → AllSound (modify i f ss)
  unfolding modify
  modify-AllSound i f [] k h = tt
  modify-AllSound zero f (s ∷ ss) k h = (k s h.0, h.1)
  modify-AllSound (suc i) f (s ∷ ss) k h = (h.0, modify-AllSound i f ss k h.1)

  get_elem?-AllSound :
      (i : ℕ) (ss : List Shard) (s : Shard) → AllSound ss → get_elem? ss i ≡ some s → IsSound s
  get_elem?-AllSound i [] s h f = cc
  get_elem?-AllSound zero (x ∷ ss) s h f = let e : x ≡ s = cc in subst IsSound e h.0
  get_elem?-AllSound (suc i) (x ∷ ss) s h f = get_elem?-AllSound i ss s h.1 f

  copies-AllSound : (n : ℕ) (s : Shard) → IsSound s → AllSound (copies n s)
  unfolding copies
  copies-AllSound zero s h = tt
  copies-AllSound (suc n) s h = (h, copies-AllSound n s h)

  pub new_plan_cache-AllSound : (max : ℕ) → AllSound (new_plan_cache max)
  unfolding new_plan_cache
  new_plan_cache-AllSound max = copies-AllSound nshards _ (record {
    items_old = λ k id f. unfold find_item in cc;
    order_old = tt;
    keyed = λ k id f. tt;
  })

  pub cache_get-AllSound : (key : Bytes) (c : PlanCache) → AllSound c → AllSound (cache_get key c).0
  unfolding cache_get
  cache_get-AllSound key c h =
      modify-AllSound (shard_for key) (λ s. (shard_get key s).0) c (shard_get-IsSound key) h

  pub cache_put-AllSound :
      (key : Bytes) (p : Plan) (c : PlanCache)
      → Good key p
      → AllSound c
      → AllSound (cache_put key p c)
  unfolding cache_put
  cache_put-AllSound key p c g h =
      modify-AllSound (shard_for key) (shard_put key p) c (λ s. shard_put-IsSound key p s g) h

  pub cache_get-Good :
      (key : Bytes) (c : PlanCache) (p : Plan)
      → AllSound c
      → (cache_get key c).1 ≡ some p
      → Good key p
  unfolding cache_get
  cache_get-Good key c p h f = elim (Option-cases (get_elem? c (shard_for key))) [
    | inl missing ↦ let x : none ≡ some p = sym (rw (missing, cache_get) refl) ∙ f in cc
    | inr (s, there) ↦
        shard_get-Good key s p (get_elem?-AllSound (shard_for key) c s h there)
          (sym (rw (there, cache_get) refl) ∙ f)
  ]
