-- ===== src/Lex/Token.antt =====
-- lex.go: the tokens, and the classes of bytes.
use row.Prelude.{ℕ, Bool, true, false, ◌&&◌, ◌||◌, ◌==◌, leb, Bytes}

-- `tokText`, `tokNamed`, `tokOrdinal`, `tokNumbered`, `tokEscapedQ`
pub data TokenKind : Type 0 where
  text named ordinal numbered escaped_q : TokenKind

-- `lo` is inclusive and `hi` exclusive; `num` is the bit pattern of a 64-bit `int`.
pub record Token : Type 0 where
  pub kind : TokenKind
  pub lo : ℕ
  pub hi : ℕ
  pub name : Bytes
  pub num : ℕ

abbrev pub is_text : TokenKind → Bool
is_text text = true
is_text _ = false

unfoldable pub is_ident_start : ℕ → Bool
is_ident_start c = c == b'_' || leb b'a' c && leb c b'z' || leb b'A' c && leb c b'Z' || leb 0x80 c

unfoldable pub is_digit : ℕ → Bool
is_digit c = leb b'0' c && leb c b'9'

unfoldable pub is_ident_byte : ℕ → Bool
unfolding is_ident_start is_digit
is_ident_byte c = is_ident_start c || leb b'0' c && leb c b'9'
