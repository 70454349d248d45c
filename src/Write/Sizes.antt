-- ===== src/Write/Sizes.antt =====
-- How many rows a batch of `InsertMany` has.
use native.Mathlib.Nat.{div-mul-le_self, mul-le-mul_right}
use row.Prelude.{
  ℕ, ◌*◌, ◌/◌, ◌≤◌, ◌<◌, ltb, List, [], ◌∷◌, ◌++◌, ◌≡◌, ◌⊎◌, inl, inr, arith, length, Bool-cases,
}
use row.Dialect.Engines.{Dialect}
use row.Write.Statement.{Subject}
use row.Write.Many.{batch_size}

abbrev pub concat : List (List Subject) → List Subject
concat [] = []
concat (b ∷ bs) = b ++ concat bs

-- A batch is not empty, and no larger than `batch`.
abbrev pub AllSized : ℕ → List (List Subject) → Type 0
AllSized batch [] = Unit {0}
AllSized batch (b ∷ bs) = (0 < length b) × (length b ≤ batch) × AllSized batch bs

-- A batch is not empty, and its values do not exceed what the dialect takes, if that is limited.
abbrev pub AllWithin : Dialect → ℕ → List (List Subject) → Type 0
AllWithin d columns [] = Unit {0}
AllWithin d columns (b ∷ bs) =
    (0 < length b)
    × ((d.features.max_placeholders ≡ 0) ⊎ (length b * columns ≤ d.features.max_placeholders))
    × AllWithin d columns bs

pub batch_size-bound :
    (d : Dialect) (per_row count : ℕ)
    → (d.features.max_placeholders ≡ 0)
      ⊎ (batch_size d per_row count * per_row ≤ d.features.max_placeholders)
unfolding batch_size
batch_size-bound d per_row count =
    let max = d.features.max_placeholders in
    let bound : max / per_row * per_row ≤ max = div-mul-le_self max per_row in
    elim (Bool-cases (ltb 0 max)) [
      | inr unlimited ↦ inl (ground arith)
      | inl limited ↦ inr (elim (Bool-cases (ltb 0 per_row)) [
        | inr none_per_row ↦
            let z : per_row ≡ 0 = ground arith in rw (limited, none_per_row, z) (omega arith)
        | inl some_per_row ↦ elim (Bool-cases (ltb (max / per_row) count)) [
          | inl over ↦ rw (limited, some_per_row, over) bound
          | inr under ↦
              let le : count ≤ max / per_row = ground arith in
              let all_le = mul-le-mul_right per_row le in
              rw (limited, some_per_row, under) (omega arith)
        ]
      ])
    ]

pub AllSized-AllWithin :
    (d : Dialect) (columns batch : ℕ) (bs : List (List Subject))
    → (d.features.max_placeholders ≡ 0) ⊎ (batch * columns ≤ d.features.max_placeholders)
    → AllSized batch bs
    → AllWithin d columns bs
AllSized-AllWithin d columns batch [] p h = tt
AllSized-AllWithin d columns batch (b ∷ bs) p (some_row, fits, more) = (
  some_row,
  elim p [
    | inl unlimited ↦ inl unlimited
    | inr limited ↦ inr (let le = mul-le-mul_right columns fits in omega arith)
  ],
  AllSized-AllWithin d columns batch bs p more,
)
