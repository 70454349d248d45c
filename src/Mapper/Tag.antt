-- ===== src/Mapper/Tag.antt =====
-- mapper.go: `parseTag`.
use row.Prelude.{Bool, true, false, List, [], ◌∷◌, Bytes, codes, bytes_eq, if◌then◌else◌}
use row.Lex.Skip.{starts_with}
use row.Qb.Strings.{split}
use row.Prelude.{drop}

pub record TagInfo : Type 0 where
  pub name : Bytes
  pub skip : Bool
  pub pk : Bool
  pub readonly : Bool
  pub inline : Bool
  pub prefix : Bytes
  pub has_pfx : Bool

abbrev pub plain_tag : TagInfo
plain_tag = record {
  name = [];
  skip = false;
  pk = false;
  readonly = false;
  inline = false;
  prefix = [];
  has_pfx = false;
}

-- the `switch` on an option
unfoldable pub tag_option : Bytes → TagInfo → TagInfo
unfolding starts_with
tag_option opt ti =
    if bytes_eq opt (codes "pk")
    then record ti { pk = true }
    else if bytes_eq opt (codes "readonly")
    then record ti { readonly = true }
    else if bytes_eq opt (codes "inline")
    then record ti { inline = true; prefix = []; has_pfx = true }
    else if starts_with (codes "prefix=") opt
    then record ti { prefix = drop 7 opt; has_pfx = true }
    else ti

unfoldable pub tag_options : List Bytes → TagInfo → TagInfo
unfolding tag_option
tag_options [] ti = ti
tag_options (opt ∷ opts) ti = tag_options opts (tag_option opt ti)

-- the parts that the commas of the tag separate
unfoldable pub tag_parts : List Bytes → TagInfo
unfolding tag_options
tag_parts [] = plain_tag
tag_parts (name ∷ opts) = tag_options opts (record plain_tag { name = name })

unfoldable pub parse_tag : Bytes → TagInfo
unfolding tag_parts split
parse_tag raw =
    if bytes_eq raw (codes "-")
    then record plain_tag { skip = true }
    else tag_parts (split b',' raw)
