-- ===== src/Bind/Value.antt =====
-- bind.go: argument values (`any`), and which of them a statement expands.
use row.Prelude.{ℕ, Bool, true, false, List, [], ◌∷◌, Option, none, some, Bytes}

-- A Go value held in an `any`, by what `sliceElems` asks of it: `nil`, a `[]byte`, a `string`, a
-- `driver.Valuer`, a slice or an array with the flag that its elements are of kind `uint8`, and
-- any other value, by an identity.
mutual
  pub data Value : Type 0 where
    nil : Value
    byte_slice : Bytes → Value
    string : Bytes → Value
    valuer : ℕ → Value
    slice_of : Bool → Values → Value
    scalar : ℕ → Value

  pub data Values : Type 0 where
    end : Values
    item : Value → Values → Values

-- the loop over `rv.Index(i).Interface()`
unfoldable pub elems_of : Values → List Value
elems_of end = []
elems_of (item v vs) = v ∷ elems_of vs

-- `sliceElems`, and `ExpandSlice`, its exported name
unfoldable pub slice_elems : Value → Option (List Value)
unfolding elems_of
slice_elems nil = none
slice_elems (byte_slice b) = none
slice_elems (string s) = none
slice_elems (valuer v) = none
slice_elems (slice_of true vs) = none
slice_elems (slice_of false vs) = some (elems_of vs)
slice_elems (scalar v) = none

abbrev pub expand_slice : Value → Option (List Value)
expand_slice = slice_elems
