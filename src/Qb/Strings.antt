-- ===== src/Qb/Strings.antt =====
-- What qb uses of Go's `strings`, `sort` and `strconv`.
use row.Prelude.{
  ℕ, ◌+◌, ◌-◌, Bool, true, false, ◌&&◌, ◌||◌, List, [], ◌∷◌, ◌++◌, ◌==◌, ltb, leb, if◌then◌else◌,
  Bytes, codes, bytes_eq,
}
use row.Dialect.Decimal.{decimal_digits}
use Prim.Native.Nat.{suc}

-- An `int64`: `negsuc n` is -(n + 1).
pub data ℤ : Type 0 where
  pos : ℕ → ℤ
  negsuc : ℕ → ℤ

-- `strconv.FormatInt(n, 10)`
unfoldable pub format_int : ℤ → Bytes
unfolding decimal_digits
format_int (pos n) = decimal_digits (suc n) n
format_int (negsuc n) = b'-' ∷ decimal_digits (suc (suc n)) (suc n)

abbrev pub push_byte : ℕ → List Bytes → List Bytes
push_byte c [] = (c ∷ []) ∷ []
push_byte c (w ∷ ws) = (c ∷ w) ∷ ws

-- `strings.Split(s, sep)`, for a separator of one byte
unfoldable pub split : ℕ → Bytes → List Bytes
split sep [] = [] ∷ []
split sep (c ∷ cs) = if c == sep then [] ∷ split sep cs else push_byte c (split sep cs)

-- Does a white-space rune begin with these bytes, and how many bytes has it? The runes are those
-- of `unicode.IsSpace`; their encodings cannot begin inside another rune.
unfoldable pub space_width : Bytes → ℕ
space_width [] = 0
space_width (a ∷ []) = if a == b' ' || leb 9 a && leb a 13 then 1 else 0
space_width (a ∷ b ∷ []) =
    if a == b' ' || leb 9 a && leb a 13
    then 1
    else if a == 0xc2 && (b == 0x85 || b == 0xa0)
    then 2
    else 0
space_width (a ∷ b ∷ c ∷ _) =
    if a == b' ' || leb 9 a && leb a 13
    then 1
    else if a == 0xc2 && (b == 0x85 || b == 0xa0)
    then 2
    else if a == 0xe1 && b == 0x9a && c == 0x80
    then 3
    else if a == 0xe2
        && b == 0x80
        && (leb 0x80 c && leb c 0x8a || c == 0xa8 || c == 0xa9 || c == 0xaf)
    then 3
    else if a == 0xe2 && b == 0x81 && c == 0x9f
    then 3
    else if a == 0xe3 && b == 0x80 && c == 0x80
    then 3
    else 0

abbrev pub close_word : Bytes → List Bytes → List Bytes
close_word [] ws = ws
close_word (c ∷ cs) ws = (c ∷ cs) ∷ ws

-- The words of a text: the word read so far, and the bytes left of a white-space rune.
unfoldable pub fields_loop : Bytes → ℕ → Bytes → List Bytes
unfolding space_width
fields_loop word skip [] = close_word word []
fields_loop word (suc skip) (c ∷ cs) = fields_loop word skip cs
fields_loop word skip (c ∷ cs) =
    let w = space_width (c ∷ cs) in
    let inside = fields_loop (word ++ c ∷ []) 0 cs in
    let behind = close_word word (fields_loop [] (w - 1) cs) in if w == 0 then inside else behind

-- `strings.Fields`
unfoldable pub fields : Bytes → List Bytes
unfolding fields_loop
fields s = fields_loop [] 0 s

-- `strings.ToUpper`, on the ASCII letters and the one other rune, U+017F, that it takes to a
-- letter of a word which qb compares with.
unfoldable pub to_upper : Bytes → Bytes
to_upper [] = []
to_upper (c ∷ []) = (if leb b'a' c && leb c b'z' then c - 32 else c) ∷ []
to_upper (c ∷ d ∷ cs) = elim (c == 0xc5 && d == 0xbf) [
  | true ↦ b'S' ∷ to_upper cs
  | false ↦ (if leb b'a' c && leb c b'z' then c - 32 else c) ∷ to_upper (d ∷ cs)
]

-- `strings.EqualFold(s, "AS")`
unfoldable pub folds_to_as : Bytes → Bool
unfolding to_upper
folds_to_as s = bytes_eq (to_upper s) (codes "AS")

-- Go's `<=` on strings
unfoldable pub bytes_le : Bytes → Bytes → Bool
bytes_le [] t = true
bytes_le (a ∷ s) [] = false
bytes_le (a ∷ s) (b ∷ t) = ltb a b || a == b && bytes_le s t

-- `sort.Strings`
unfoldable pub insert_sorted : Bytes → List Bytes → List Bytes
unfolding bytes_le
insert_sorted k [] = k ∷ []
insert_sorted k (j ∷ js) = if bytes_le k j then k ∷ j ∷ js else j ∷ insert_sorted k js

unfoldable pub sort_strings : List Bytes → List Bytes
unfolding insert_sorted
sort_strings [] = []
sort_strings (k ∷ ks) = insert_sorted k (sort_strings ks)

-- `strings.Count(s, "?")`, and `strings.Cut(s, "?")`
unfoldable pub count_byte : ℕ → Bytes → ℕ
count_byte b [] = 0
count_byte b (c ∷ cs) = (if c == b then 1 else 0) + count_byte b cs

abbrev pub push_first : ℕ → Bytes × Bytes → Bytes × Bytes
push_first c (before, after) = (c ∷ before, after)

unfoldable pub cut : ℕ → Bytes → Bytes × Bytes
cut b [] = ([], [])
cut b (c ∷ cs) = if c == b then ([], cs) else push_first c (cut b cs)
