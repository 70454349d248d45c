-- ===== src/Write/Options.antt =====
-- write.go: the options of a write, and the columns that it writes.
use row.Prelude.{
  Bool, false, not, ◌&&◌, ◌||◌, ltb, List, [], ◌∷◌, ◌++◌, map, Bytes, codes, bytes_eq, length,
  if◌then◌else◌,
}
use row.Qb.Strings.{split}
use row.Dialect.Engines.{Dialect}
use row.Mapper.Types.{Field, StructInfo}

pub record WriteConfig : Type 0 where
  pub returning : List Bytes
  pub only : List Bytes
  pub omit : List Bytes

abbrev pub plain_config : WriteConfig
plain_config = record { returning = []; only = []; omit = [] }

-- `Returning`, `Only` and `Omit`
abbrev pub with_returning : List Bytes → WriteConfig → WriteConfig
with_returning columns c = record c { returning = c.returning ++ columns }

abbrev pub with_only : List Bytes → WriteConfig → WriteConfig
with_only columns c = record c { only = c.only ++ columns }

abbrev pub with_omit : List Bytes → WriteConfig → WriteConfig
with_omit columns c = record c { omit = c.omit ++ columns }

-- `newWriteConfig`
unfoldable pub new_write_config : List (WriteConfig → WriteConfig) → WriteConfig → WriteConfig
new_write_config [] c = c
new_write_config (o ∷ os) c = new_write_config os (o c)

-- Is the column in the list?
unfoldable pub listed : Bytes → List Bytes → Bool
listed column [] = false
listed column (o ∷ os) = bytes_eq o column || listed column os

unfoldable pub selects : WriteConfig → Bytes → Bool
unfolding listed
selects c column =
    if ltb 0 (length c.only) then listed column c.only else not (listed column c.omit)

-- `strings.Join`
unfoldable pub join : Bytes → List Bytes → Bytes
join sep [] = []
join sep (p ∷ []) = p
join sep (p ∷ p' ∷ ps) = p ++ (sep ++ join sep (p' ∷ ps))

unfoldable pub quote_table : Dialect → Bytes → Bytes
unfolding split join
quote_table d table = join (codes ".") (map d.quote_ident (split b'.' table))

-- the loop of `writableFields`
unfoldable pub writable : WriteConfig → Bool → List Field → List Field
unfolding selects
writable c skip_pk [] = []
writable c skip_pk (f ∷ fs) =
    let rest = writable c skip_pk fs in
    if f.readonly || (skip_pk && f.pk)
    then rest
    else if not (selects c f.column)
    then rest
    else f ∷ rest

abbrev pub writable_fields : StructInfo → WriteConfig → Bool → List Field
writable_fields si c skip_pk = writable c skip_pk si.fields
