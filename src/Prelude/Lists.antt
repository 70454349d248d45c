-- ===== src/Prelude/Lists.antt =====
-- Lists measured and indexed by native numbers, under the library's names.
use Prim.Native.Nat.{ℕ, zero, suc, ◌+◌, ◌-◌, ◌≤◌, min}
use mathlib.Core.Logic.{◌⊎◌, inl, inr}
use mathlib.Core.Path.{◌≡◌, refl, sym, ap, ◌∙◌}
use mathlib.Core.List.{List, [], ◌∷◌, ◌++◌, map}
use mathlib.Core.Option.{Option, none, some}
use native.Mathlib.Omega.{arith}

module _ {ℓ} {A : Type ℓ} where
  abbrev pub drop : ℕ → List A → List A
  drop zero s = s
  drop (suc lo) [] = []
  drop (suc lo) (_ ∷ s) = drop lo s

  abbrev pub take : ℕ → List A → List A
  take zero s = []
  take (suc hi) [] = []
  take (suc hi) (c ∷ s) = c ∷ take hi s

  -- `s[lo:hi]`
  abbrev pub slice : List A → ℕ → ℕ → List A
  slice s lo hi = take (hi - lo) (drop lo s)

  -- `len(s)`
  abbrev pub length : List A → ℕ
  length [] = 0
  length (_ ∷ s) = suc (length s)

  pub length-append : (xs ys : List A) → length (xs ++ ys) ≡ length xs + length ys
  length-append [] ys = omega arith
  length-append (_ ∷ s) ys = omega (arith, length-append s ys)

  -- `s[i]`, if it is in range
  abbrev pub get_elem? : List A → ℕ → Option A
  get_elem? [] i = none
  get_elem? (c ∷ s) zero = some c
  get_elem? (c ∷ s) (suc i) = get_elem? s i

module _ {ℓ} {A : Type ℓ} where
  pub take-append-drop : (n : ℕ) (xs : List A) → take n xs ++ drop n xs ≡ xs
  take-append-drop zero xs = refl
  take-append-drop (suc n) [] = refl
  take-append-drop (suc n) (x ∷ xs) = ap (◌∷◌ x) (take-append-drop n xs)

  pub length-take : (n : ℕ) (xs : List A) → length (take n xs) ≡ min n (length xs)
  length-take zero xs = omega arith
  length-take (suc n) [] = omega arith
  length-take (suc n) (x ∷ xs) = omega (arith, length-take n xs)

  pub length-drop : (n : ℕ) (xs : List A) → length (drop n xs) ≡ length xs - n
  length-drop zero xs = omega arith
  length-drop (suc n) [] = omega arith
  length-drop (suc n) (x ∷ xs) = omega (arith, length-drop n xs)

  pub drop-nil : (n : ℕ) → drop {A = A} n [] ≡ []
  drop-nil zero = refl
  drop-nil (suc n) = refl

  pub take-nil : (n : ℕ) → take {A = A} n [] ≡ []
  take-nil zero = refl
  take-nil (suc n) = refl

  pub drop-drop : (m n : ℕ) (xs : List A) → drop m (drop n xs) ≡ drop (n + m) xs
  drop-drop m zero xs = ap (λ k. drop k xs) (omega arith)
  drop-drop m (suc n) [] = rw (drop-nil m, drop-nil (suc n + m))
  drop-drop m (suc n) (x ∷ xs) =
      drop-drop m n xs
      ∙ ap (λ k. drop k (x ∷ xs)) (let e : suc (n + m) ≡ suc n + m = omega arith in e)

  pub take_of_length-le : (n : ℕ) (xs : List A) → length xs ≤ n → take n xs ≡ xs
  take_of_length-le n [] h = take-nil n
  take_of_length-le zero (c ∷ s) h = absurd (omega arith)
  take_of_length-le (suc n) (c ∷ s) h =
      let shorter : length s ≤ n = omega arith in ap (◌∷◌ c) (take_of_length-le n s shorter)

  pub drop_of_length-le : (n : ℕ) (xs : List A) → length xs ≤ n → drop n xs ≡ []
  drop_of_length-le zero [] h = refl
  drop_of_length-le zero (x ∷ xs) h = absurd (omega arith)
  drop_of_length-le (suc n) [] h = refl
  drop_of_length-le (suc n) (x ∷ xs) h = drop_of_length-le n xs (omega arith)

  pub take-length-append : (xs ys : List A) → take (length xs) (xs ++ ys) ≡ xs
  take-length-append [] ys = refl
  take-length-append (x ∷ xs) ys = ap (◌∷◌ x) (take-length-append xs ys)

  pub drop-length-append : (xs ys : List A) → drop (length xs) (xs ++ ys) ≡ ys
  drop-length-append [] ys = refl
  drop-length-append (x ∷ xs) ys = drop-length-append xs ys

  pub take-append-take-drop :
      (a b : ℕ) (xs : List A) → take a xs ++ take b (drop a xs) ≡ take (a + b) xs
  take-append-take-drop zero b xs = ap (λ k. take k xs) (let e : b ≡ 0 + b = omega arith in e)
  take-append-take-drop (suc a) zero [] = sym (take-nil (suc a + 0))
  take-append-take-drop (suc a) (suc b) [] = sym (take-nil (suc a + suc b))
  take-append-take-drop (suc a) b (x ∷ xs) =
      ap (◌∷◌ x) (take-append-take-drop a b xs)
      ∙ ap (λ k. take k (x ∷ xs)) (let e : suc (a + b) ≡ suc a + b = omega arith in e)

  pub slice-append :
      (xs : List A) (lo mid hi : ℕ)
      → lo ≤ mid
      → mid ≤ hi
      → slice xs lo mid ++ slice xs mid hi ≡ slice xs lo hi
  slice-append xs lo mid hi p q =
      let e : lo + (mid - lo) ≡ mid = omega arith in
      let f : mid - lo + (hi - mid) ≡ hi - lo = omega arith in
      ap (λ ys. slice xs lo mid ++ take (hi - mid) ys)
        (ap (λ k. drop k xs) (sym e) ∙ sym (drop-drop (mid - lo) lo xs))
      ∙ take-append-take-drop (mid - lo) (hi - mid) (drop lo xs)
      ∙ ap (λ k. take k (drop lo xs)) f

  pub List-cases : (xs : List A) → (xs ≡ []) ⊎ ((x : A) × (ys : List A) × (xs ≡ x ∷ ys))
  List-cases [] = inl refl
  List-cases (x ∷ ys) = inr (x, ys, refl)

pub length-map {ℓ κ} :
    {A : Type ℓ} {B : Type κ} (f : A → B) (xs : List A) → length (map f xs) ≡ length xs
length-map f [] = omega arith
length-map f (x ∷ xs) = omega (arith, length-map f xs)
