-- ===== src/Cache/Elements.antt =====
-- cache.go: what the operations on the list and on the map of a stripe keep.
use row.Prelude.{
  ℕ, true, false, List, [], ◌∷◌, ◌≡◌, refl, sym, ap, subst, ◌∙◌, ◌⊎◌, inl, inr, arith, none, some,
  ◌==◌, if◌then◌else◌, Bytes, bytes_eq, bytes_eq_iff, Bool-cases, Option-cases,
}
use row.Bind.Compile.{Plan}
use row.Cache.Shard.{Element, find_item, find_element, remove, delete_item, move_to_front, set_val}

abbrev pub All : (Element → Type 0) → List Element → Type 0
All P [] = Unit {0}
All P (e ∷ es) = P e × All P es

module _ (P : Element → Type 0) where
  pub remove-All : (id : ℕ) (es : List Element) → All P es → All P (remove id es)
  unfolding remove
  remove-All id [] h = tt
  remove-All id (e ∷ es) h = elim (Bool-cases (e.id == id)) [
    | inl y ↦ rw y (h.1)
    | inr n ↦ rw n (h.0, remove-All id es h.1)
  ]

  pub find_element-All :
      (id : ℕ) (es : List Element) (e : Element)
      → All P es
      → find_element id es ≡ some e
      → P e × (e.id ≡ id)
  unfolding find_element
  find_element-All id [] e h f = cc
  find_element-All id (x ∷ es) e h f = elim (Bool-cases (x.id == id)) [
    | inl y ↦
        let g : some x ≡ some e = sym (rw y refl) ∙ f in
        let i : x ≡ e = cc in (subst P i h.0, sym (ap (λ z. z.id) i) ∙ ground (arith, y))
    | inr n ↦ find_element-All id es e h.1 (sym (rw n refl) ∙ f)
  ]

  pub move_to_front-All : (id : ℕ) (es : List Element) → All P es → All P (move_to_front id es)
  unfolding move_to_front
  move_to_front-All id es h = elim (Option-cases (find_element id es)) [
    | inl missing ↦ rw (missing, move_to_front) h
    | inr (e, found) ↦
        rw (found, move_to_front) ((find_element-All id es e h found).0, remove-All id es h)
  ]

bytes_eq-other :
    (j k key : Bytes) → bytes_eq j k ≡ true → bytes_eq j key ≡ false → bytes_eq key k ≡ false
bytes_eq-other j k key y n = elim (Bool-cases (bytes_eq key k)) [
  | inr m ↦ m
  | inl m ↦
      let same : j ≡ key = (bytes_eq_iff j k).0 y ∙ sym ((bytes_eq_iff key k).0 m) in
      let z = (bytes_eq_iff j key).1 same in cc
]

find_item-delete_item :
    (key k : Bytes) (items : List (Bytes × ℕ))
    → find_item k (delete_item key items) ≡ (if bytes_eq key k then none else find_item k items)
unfolding find_item delete_item
find_item-delete_item key k [] = elim (Bool-cases (bytes_eq key k)) [
  | inl y ↦ rw y refl
  | inr n ↦ rw n refl
]
find_item-delete_item key k ((j, id) ∷ items) =
    let rest = find_item-delete_item key k items in
    elim (Bool-cases (bytes_eq j key)) [
      | inl gone ↦
          let same : bytes_eq j k ≡ bytes_eq key k =
            ap (λ x. bytes_eq x k) ((bytes_eq_iff j key).0 gone) in
          elim (Bool-cases (bytes_eq key k)) [
            | inl y ↦ rw (gone, y) (rest ∙ rw y refl)
            | inr n ↦ rw (gone, same, n) (rest ∙ rw n refl)
          ]
      | inr kept ↦ elim (Bool-cases (bytes_eq j k)) [
        | inr n ↦ rw (kept, n) rest
        | inl y ↦ let other = bytes_eq-other j k key y kept in rw (kept, y, other) refl
      ]
    ]

pub find_item-kept :
    (key k : Bytes) (id : ℕ) (items : List (Bytes × ℕ))
    → find_item k (delete_item key items) ≡ some id
    → find_item k items ≡ some id
find_item-kept key k id items f = elim (Bool-cases (bytes_eq key k)) [
  | inl y ↦ let x : none ≡ some id = sym (find_item-delete_item key k items ∙ rw y refl) ∙ f in cc
  | inr n ↦ sym (find_item-delete_item key k items ∙ rw n refl) ∙ f
]

-- The entry of a map after one is set: it is the new one, or it was there.
pub find_item-set_item :
    (key k : Bytes) (new id : ℕ) (items : List (Bytes × ℕ))
    → find_item k ((key, new) ∷ delete_item key items) ≡ some id
    → ((key ≡ k) × (id ≡ new)) ⊎ (find_item k items ≡ some id)
unfolding find_item
find_item-set_item key k new id items f = elim (Bool-cases (bytes_eq key k)) [
  | inl y ↦ let x : some new ≡ some id = sym (rw y refl) ∙ f in inl ((bytes_eq_iff key k).0 y, cc)
  | inr n ↦ inr (find_item-kept key k id items (sym (rw n refl) ∙ f))
]

pub All-map :
    (P Q : Element → Type 0) (es : List Element) → ((e : Element) → P e → Q e) → All P es → All Q es
All-map P Q [] f h = tt
All-map P Q (e ∷ es) f h = (f e h.0, All-map P Q es f h.1)

pub All-and :
    (P Q : Element → Type 0) (es : List Element) → All P es → All Q es → All (λ e. P e × Q e) es
All-and P Q [] h k = tt
All-and P Q (e ∷ es) h k = ((h.0, k.0), All-and P Q es h.1 k.1)

pub set_val-All :
    (P Q : Element → Type 0) (id : ℕ) (p : Plan) (es : List Element)
    → ((e : Element) → P e → Q e)
    → ((e : Element) → e.id ≡ id → P e → Q (record e { val = p }))
    → All P es
    → All Q (set_val id p es)
unfolding set_val
set_val-All P Q id p [] f g h = tt
set_val-All P Q id p (e ∷ es) f g h = elim (Bool-cases (e.id == id)) [
  | inl y ↦ rw y (g e (ground (arith, y)) h.0, All-map P Q es f h.1)
  | inr n ↦ rw n (f e h.0, set_val-All P Q id p es f g h.1)
]
