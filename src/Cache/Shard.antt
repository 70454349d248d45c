-- ===== src/Cache/Shard.antt =====
-- cache.go: one stripe of the cache, with the map and the list of container/list that it uses.
use row.Prelude.{
  ℕ, zero, suc, ◌+◌, List, [], ◌∷◌, Option, none, some, ltb, ◌==◌, if◌then◌else◌, Bytes, bytes_eq,
  length,
}
use row.Bind.Compile.{Plan}

-- A `*list.Element` with its `*lruEntry`. The identity stands for the pointer.
pub record Element : Type 0 where
  pub id : ℕ
  pub key : Bytes
  pub val : Plan

-- `lruShard`, without its mutex; `next` is the identity of the next element. The map holds at most
-- one entry for a key.
pub record Shard : Type 0 where
  pub max : ℕ
  pub items : List (Bytes × ℕ)
  pub order : List Element
  pub next : ℕ

-- `s.items[key]`, `delete(s.items, key)` and `s.items[key] = el`
unfoldable pub find_item : Bytes → List (Bytes × ℕ) → Option ℕ
find_item key [] = none
find_item key ((k, id) ∷ items) = if bytes_eq k key then some id else find_item key items

unfoldable pub delete_item : Bytes → List (Bytes × ℕ) → List (Bytes × ℕ)
delete_item key [] = []
delete_item key ((k, id) ∷ items) =
    let rest = delete_item key items in if bytes_eq k key then rest else (k, id) ∷ rest

abbrev pub set_item : Bytes → ℕ → List (Bytes × ℕ) → List (Bytes × ℕ)
set_item key id items = (key, id) ∷ delete_item key items

unfoldable pub find_element : ℕ → List Element → Option Element
find_element id [] = none
find_element id (e ∷ es) = if e.id == id then some e else find_element id es

-- `Remove`
unfoldable pub remove : ℕ → List Element → List Element
remove id [] = []
remove id (e ∷ es) = if e.id == id then es else e ∷ remove id es

-- `MoveToFront`, which does nothing for an element that is not in the list
unfoldable pub move_to_front : ℕ → List Element → List Element
unfolding find_element remove
move_to_front id es = elim (find_element id es) [ none ↦ es | some e ↦ e ∷ remove id es ]

-- `Back`
unfoldable pub back : List Element → Option Element
back [] = none
back (e ∷ []) = some e
back (_ ∷ e ∷ es) = back (e ∷ es)

-- `el.Value.(*lruEntry).val = p`
unfoldable pub set_val : ℕ → Plan → List Element → List Element
set_val id p [] = []
set_val id p (e ∷ es) = if e.id == id then record e { val = p } ∷ es else e ∷ set_val id p es

-- `get`, in its shard
unfoldable pub shard_get : Bytes → Shard → Shard × Option Plan
unfolding find_item move_to_front find_element
shard_get key s = elim (find_item key s.items) [
  | none ↦ (s, none)
  | some id ↦ (
    record s { order = move_to_front id s.order },
    elim (find_element id s.order) [ none ↦ none | some e ↦ some e.val ],
  )
]

-- the loop that evicts, on fuel; a round removes an element
unfoldable pub evict : ℕ → Shard → Shard
unfolding back remove delete_item
evict zero s = s
evict (suc fuel) s =
    if ltb s.max (length s.order)
    then elim (back s.order) [
      | none ↦ s
      | some last ↦
          evict fuel
            (record s { order = remove last.id s.order; items = delete_item last.key s.items })
    ]
    else s

-- `PushFront`, and the new entry of the map
unfoldable pub push_front : Bytes → Plan → Shard → Shard
unfolding delete_item
push_front key p s = record {
  max = s.max;
  items = set_item key s.next s.items;
  order = record { id = s.next; key = key; val = p } ∷ s.order;
  next = s.next + 1;
}

-- `put`, in its shard
unfoldable pub shard_put : Bytes → Plan → Shard → Shard
unfolding find_item move_to_front set_val evict push_front
shard_put key p s = elim (find_item key s.items) [
  | some id ↦ record s { order = set_val id p (move_to_front id s.order) }
  | none ↦ evict (suc (length s.order)) (push_front key p s)
]
