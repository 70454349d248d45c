-- ===== src/Qb/Alike.antt =====
-- Two runs of a writer that give the same text and as many arguments.
use row.Prelude.{
  Bool, true, false, not, List, [], ◌∷◌, ◌++◌, ◌≡◌, refl, ap, ap₂, arith, if◌then◌else◌, Bytes,
  codes, bytes_eq, length, length-append,
}
use row.Dialect.Engines.{Dialect}
use row.Bind.Value.{Value}
use row.Qb.Strings.{split}
use row.Qb.Writer.{Writer, str, bind, is_quotable_ident, ident_parts, ident}
use row.Qb.Expr.{QbError, Result, ok, err, panic, ◌>>=◌, bind_elems, write_in, write_null}

-- Two writers with the same text and as many arguments.
abbrev pub Alike : Writer → Writer → Type 0
Alike w v = (w.b ≡ v.b) × (length w.args ≡ length v.args)

abbrev pub AlikeResults : Result Writer → Result Writer → Type 0
AlikeResults (ok w) (ok v) = Alike w v
AlikeResults (err e) (err f) = e ≡ f
AlikeResults panic panic = Unit {0}
AlikeResults _ _ = ⊥

pub >>=-Alike :
    (m n : Result Writer) (f g : Writer → Result Writer)
    → AlikeResults m n
    → ((w v : Writer) → Alike w v → AlikeResults (f w) (g v))
    → AlikeResults (m >>= f) (n >>= g)
>>=-Alike (ok w) (ok v) f g h k = k w v h
>>=-Alike (err e) (err e') f g h k = h
>>=-Alike panic panic f g h k = tt
>>=-Alike (ok w) (err e) f g h k = absurd h
>>=-Alike (ok w) panic f g h k = absurd h
>>=-Alike (err e) (ok w) f g h k = absurd h
>>=-Alike (err e) panic f g h k = absurd h
>>=-Alike panic (ok w) f g h k = absurd h
>>=-Alike panic (err e) f g h k = absurd h

pub str-Alike : (s : Bytes) (w v : Writer) → Alike w v → Alike (str s w) (str s v)
str-Alike s w v h = (ap (λ b. b ++ s) h.0, h.1)

pub if-Alike :
    (b : Bool) (w w' v v' : Writer)
    → Alike w v
    → Alike w' v'
    → Alike (if b then w else w') (if b then v else v')
if-Alike true w w' v v' h k = h
if-Alike false w w' v v' h k = k

pub later-Alike :
    (b : Bool) (s : Bytes) (w v : Writer)
    → Alike w v
    → Alike (if b then str s w else w) (if b then str s v else v)
later-Alike true s w v h = str-Alike s w v h
later-Alike false s w v h = h

pub bind-Alike :
    (d : Dialect) (x y : Value) (w v : Writer) → Alike w v → Alike (bind d x w) (bind d y v)
unfolding bind
bind-Alike d x y w v h =
    let n : length (w.args ++ x ∷ []) ≡ length (v.args ++ y ∷ []) =
      omega (arith, h, length-append w.args (x ∷ []), length-append v.args (y ∷ [])) in
    (ap₂ d.append_placeholder h.0 n, n)

pub ident_parts-Alike :
    (d : Dialect) (later : Bool) (ps : List Bytes) (w v : Writer)
    → Alike w v
    → Alike (ident_parts d later ps w) (ident_parts d later ps v)
unfolding ident_parts
ident_parts-Alike d later [] w v h = h
ident_parts-Alike d later (p ∷ ps) w v h =
    let k = later-Alike later (codes ".") w v h in
    ident_parts-Alike d true ps _ _ (
      if-Alike (bytes_eq p (codes "*")) _ _ _ _ (str-Alike (codes "*") _ _ k)
        (str-Alike (d.quote_ident p) _ _ k))

pub ident-Alike :
    (d : Dialect) (name : Bytes) (w v : Writer)
    → Alike w v
    → Alike (ident d name w) (ident d name v)
unfolding ident
ident-Alike d name w v h =
    if-Alike (not (is_quotable_ident name)) _ _ _ _ (str-Alike name w v h)
      (ident_parts-Alike d false (split b'.' name) w v h)

pub bind_elems-Alike :
    (d : Dialect) (later : Bool) (es fs : List Value) (w v : Writer)
    → length es ≡ length fs
    → Alike w v
    → Alike (bind_elems d later es w) (bind_elems d later fs v)
unfolding bind_elems
bind_elems-Alike d later [] [] w v n h = h
bind_elems-Alike d later [] (f ∷ fs) w v n h = absurd (omega arith)
bind_elems-Alike d later (e ∷ es) [] w v n h = absurd (omega arith)
bind_elems-Alike d later (e ∷ es) (f ∷ fs) w v n h =
    bind_elems-Alike d true es fs _ _ (omega arith)
      (bind-Alike d e f _ _ (later-Alike later (codes ",") w v h))

pub write_in-Alike :
    (d : Dialect) (col : Bytes) (es fs : List Value) (positive : Bool) (w v : Writer)
    → length es ≡ length fs
    → Alike w v
    → Alike (write_in d col es positive w) (write_in d col fs positive v)
unfolding write_in
write_in-Alike d col [] [] positive w v n h = str-Alike _ w v h
write_in-Alike d col [] (f ∷ fs) positive w v n h = absurd (omega arith)
write_in-Alike d col (e ∷ es) [] positive w v n h = absurd (omega arith)
write_in-Alike d col (e ∷ es) (f ∷ fs) positive w v n h =
    str-Alike (codes ")") _ _
      (bind_elems-Alike d false (e ∷ es) (f ∷ fs) _ _ n (str-Alike _ _ _ (ident-Alike d col w v h)))

pub write_null-Alike :
    (d : Dialect) (op null k : Bytes) (w v : Writer)
    → Alike w v
    → AlikeResults (write_null d op null k w) (write_null d op null k v)
unfolding write_null
write_null-Alike d op [] k w v h = refl
write_null-Alike d op (c ∷ cs) k w v h = str-Alike _ _ _ (str-Alike _ _ _ (ident-Alike d k w v h))

-- A check that refuses in both runs alike.
pub guard-Alike :
    (b b' : Bool) (x : QbError) (m n : Result Writer)
    → b' ≡ b
    → AlikeResults m n
    → AlikeResults (if b then err x else m) (if b' then err x else n)
guard-Alike true true x m n e h = refl
guard-Alike false false x m n e h = h
guard-Alike true false x m n e h = cc
guard-Alike false true x m n e h = cc
