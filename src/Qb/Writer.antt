-- ===== src/Qb/Writer.antt =====
-- qb/expr.go: the writer, and identifiers.
use row.Prelude.{
  Bool, true, false, not, ◌&&◌, ◌||◌, List, [], ◌∷◌, ◌++◌, ◌==◌, leb, if◌then◌else◌, Bytes, codes,
  bytes_eq, length,
}
use row.Dialect.Engines.{Dialect}
use row.Bind.Value.{Value}
use row.Qb.Strings.{split}

-- the fields of `writer` that change
pub record Writer : Type 0 where
  pub b : Bytes
  pub args : List Value

abbrev pub str : Bytes → Writer → Writer
str s w = record w { b = w.b ++ s }

unfoldable pub bind : Dialect → Value → Writer → Writer
bind d v w =
    let args = w.args ++ v ∷ [] in
    record { b = d.append_placeholder w.b (length args); args = args }

-- the bytes of a part of an identifier; the flag is `i > 0`
unfoldable pub is_word : Bool → Bytes → Bool
is_word later [] = true
is_word later (c ∷ cs) =
    (c == b'_'
      || leb b'a' c && leb c b'z'
      || leb b'A' c && leb c b'Z'
      || leb b'0' c && leb c b'9' && later)
    && is_word true cs

abbrev pub is_empty : Bytes → Bool
is_empty [] = true
is_empty (_ ∷ _) = false

unfoldable pub is_quotable_part : Bytes → Bool
unfolding is_word
is_quotable_part part = bytes_eq part (codes "*") || not (is_empty part) && is_word false part

unfoldable pub all_quotable : List Bytes → Bool
unfolding is_quotable_part
all_quotable [] = true
all_quotable (p ∷ ps) = is_quotable_part p && all_quotable ps

unfoldable pub is_quotable_ident : Bytes → Bool
unfolding all_quotable split
is_quotable_ident name = not (is_empty name) && all_quotable (split b'.' name)

-- the loop of `ident`; the flag is `i > 0`
unfoldable pub ident_parts : Dialect → Bool → List Bytes → Writer → Writer
ident_parts d later [] w = w
ident_parts d later (p ∷ ps) w =
    let w' = if later then str (codes ".") w else w in
    ident_parts d true ps
      (if bytes_eq p (codes "*") then str (codes "*") w' else str (d.quote_ident p) w')

unfoldable pub ident : Dialect → Bytes → Writer → Writer
unfolding is_quotable_ident ident_parts split
ident d name w =
    if not (is_quotable_ident name) then str name w else ident_parts d false (split b'.' name) w

-- `for i, c := range columns { if i > 0 { w.str(", ") }; w.ident(c) }`
unfoldable pub ident_list : Dialect → Bool → List Bytes → Writer → Writer
unfolding ident
ident_list d later [] w = w
ident_list d later (c ∷ cs) w =
    ident_list d true cs (ident d c (if later then str (codes ", ") w else w))
