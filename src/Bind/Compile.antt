-- ===== src/Bind/Compile.antt =====
-- bind.go: `paramStyle`, `part`, `plan` and `compile`.
use row.Prelude.{
  ℕ, ◌+◌, Bool, true, false, ◌&&◌, ◌||◌, List, [], ◌∷◌, ◌++◌, ltb, if◌then◌else◌, Bytes, codes,
  bytes_eq, length, slice,
}
use row.Lex.Token.{TokenKind, text, named, ordinal, numbered, escaped_q, Token}
use row.Lex.Scan.{lex}

-- `styleNone`, `styleNamed`, `styleOrdinal`, `styleNumbered`
pub data ParamStyle : Type 0 where
  style_none style_named style_ordinal style_numbered : ParamStyle

pub record Part : Type 0 where
  pub text : Bytes
  pub name : Bytes
  pub pos : ℕ
  pub param : Bool

pub record Plan : Type 0 where
  pub style : ParamStyle
  pub parts : List Part
  pub names : List Bytes
  pub nslots : ℕ
  pub size : ℕ

-- The errors of bind.go, with the values that their texts show.
pub data BindError : Type 0 where
  mixes_named_numbered mixes_ordinal_numbered : BindError
  no_named_parameters : BindError
  named_missing : List Bytes → BindError
  positional_supplied : ℕ → BindError
  named_supplied : ParamStyle → BindError
  wrong_count : ℕ → ℕ → BindError
  no_argument : Bytes → List Bytes → BindError

-- A Go function's outcome; `panic` is an index out of range.
pub data Result {ℓ} (A : Type ℓ) : Type ℓ where
  ok : A → Result A
  err : BindError → Result A
  panic : Result A

infixl 5 ◌>>=◌
abbrev pub ◌>>=◌ {ℓ κ} : {A : Type ℓ} {B : Type κ} → Result A → (A → Result B) → Result B
ok a >>= f = f a
err e >>= f = err e
panic >>= f = panic

abbrev pub is_named : TokenKind → Bool
is_named named = true
is_named _ = false

abbrev pub is_ordinal : TokenKind → Bool
is_ordinal ordinal = true
is_ordinal _ = false

abbrev pub is_numbered : TokenKind → Bool
is_numbered numbered = true
is_numbered _ = false

-- the first loop: is a token of this kind there?
unfoldable pub has : (TokenKind → Bool) → List Token → Bool
has k [] = false
has k (t ∷ ts) = k t.kind || has k ts

-- the first `switch`
unfoldable pub choose_style : Bool → Bool → Bool → Result ParamStyle
choose_style has_named has_ordinal has_numbered =
    if has_named && has_numbered
    then err mixes_named_numbered
    else if has_ordinal && has_numbered
    then err mixes_ordinal_numbered
    else if has_named
    then ok style_named
    else if has_ordinal
    then ok style_ordinal
    else if has_numbered
    then ok style_numbered
    else ok style_none

-- the variables of `compile` in its second loop; `seen` holds the keys of the map
pub record Compiler : Type 0 where
  pub parts : List Part
  pub names : List Bytes
  pub nslots : ℕ
  pub size : ℕ
  pub lit : Bytes
  pub seen : List Bytes

abbrev pub text_part : Bytes → Part
text_part s = record { text = s; name = []; pos = 0; param = false }

abbrev pub named_part : Bytes → Part
named_part n = record { text = []; name = n; pos = 0; param = true }

abbrev pub ordinal_part : ℕ → Part
ordinal_part i = record { text = []; name = []; pos = i; param = true }

unfoldable pub contains : Bytes → List Bytes → Bool
contains k [] = false
contains k (j ∷ js) = bytes_eq j k || contains k js

-- the closure `flushLit`
unfoldable pub flush_lit : Compiler → Compiler
flush_lit c =
    if ltb 0 (length c.lit)
    then record c {
      parts = c.parts ++ text_part c.lit ∷ [];
      size = c.size + length c.lit;
      lit = [];
    }
    else c

abbrev pub write_lit : Bytes → Compiler → Compiler
write_lit s c = record c { lit = c.lit ++ s }

-- `if !seen[t.name] { … }`
unfoldable pub note_name : Bytes → Compiler → Compiler
unfolding contains
note_name n c =
    if contains n c.seen then c else record c { seen = n ∷ c.seen; names = c.names ++ n ∷ [] }

unfoldable pub add_named : Bytes → Compiler → Compiler
unfolding flush_lit note_name
add_named n c =
    let f = flush_lit c in
    let g = note_name n (record f { parts = f.parts ++ named_part n ∷ [] }) in
    record g { nslots = g.nslots + 1 }

unfoldable pub add_ordinal : Compiler → Compiler
unfolding flush_lit
add_ordinal c =
    let f = flush_lit c in
    record f { parts = f.parts ++ ordinal_part f.nslots ∷ []; nslots = f.nslots + 1 }

-- `case tokOrdinal`
unfoldable pub compile_ordinal : ParamStyle → Compiler → Compiler
unfolding add_ordinal
compile_ordinal style_named c = write_lit (codes "?") c
compile_ordinal style_none c = add_ordinal c
compile_ordinal style_ordinal c = add_ordinal c
compile_ordinal style_numbered c = add_ordinal c

-- the `switch` of the second loop, on the kind of the token
unfoldable pub compile_kind : TokenKind → ParamStyle → Bytes → Token → Compiler → Compiler
unfolding compile_ordinal add_named
compile_kind text style sql t c = write_lit (slice sql t.lo t.hi) c
compile_kind escaped_q style sql t c = write_lit (codes "?") c
compile_kind numbered style sql t c = write_lit (slice sql t.lo t.hi) c
compile_kind named style sql t c = add_named t.name c
compile_kind ordinal style sql t c = compile_ordinal style c

unfoldable pub compile_loop : ParamStyle → Bytes → List Token → Compiler → Compiler
unfolding compile_kind
compile_loop style sql [] c = c
compile_loop style sql (t ∷ ts) c = compile_loop style sql ts (compile_kind t.kind style sql t c)

abbrev pub fresh : Compiler
fresh = record { parts = []; names = []; nslots = 0; size = 0; lit = []; seen = [] }

-- the plan, once the last text is flushed
abbrev pub finish : ParamStyle → Compiler → Plan
finish style c = record {
  style = style;
  parts = c.parts;
  names = c.names;
  nslots = c.nslots;
  size = c.size;
}

unfoldable pub compile_tokens : Bytes → List Token → Result Plan
unfolding has choose_style compile_loop flush_lit
compile_tokens sql toks = do
  style ← choose_style (has is_named toks) (has is_ordinal toks) (has is_numbered toks)
  ok (finish style (flush_lit (compile_loop style sql toks fresh)))

unfoldable pub compile : Bytes → Result Plan
unfolding compile_tokens
compile sql = compile_tokens sql (lex sql)
