-- ===== src/Errors/Wrap.antt =====
-- What `wrap` keeps, and what it adds.
use row.Prelude.{Option, none, some, ◌≡◌, refl, sym, ap, ◌∙◌, inl, inr, Bytes, Option-cases}
use row.Errors.{Code, Err, row_error, as_error, code_of, classified, wrap}

pub wrap_plain :
    (op query : Bytes) (d : Option (Err → Option Code)) (err : Err)
    → as_error err ≡ none
    → wrap op query d (some err) ≡ some (row_error op query (classified d err) err)
unfolding wrap
wrap_plain op query d err h = rw (h, wrap) refl

pub wrap_already :
    (op query : Bytes) (d : Option (Err → Option Code)) (err : Err) (c : Code)
    → as_error err ≡ some c
    → wrap op query d (some err) ≡ some err
unfolding wrap
wrap_already op query d err c h = rw (h, wrap) refl

some_injective : {a b : Err} → some a ≡ some b → a ≡ b
some_injective h = cc

wrap_twice :
    (op query op' query' : Bytes) (d d' : Option (Err → Option Code)) (err e : Err)
    → wrap op query d (some err) ≡ some e
    → wrap op' query' d' (some e) ≡ some e
unfolding as_error
wrap_twice op query op' query' d d' err e h = elim (Option-cases (as_error err)) [
  | inl plain ↦
      wrap_already op' query' d' e (classified d err)
        (ap as_error (some_injective (sym h ∙ wrap_plain op query d err plain)))
  | inr (c, already) ↦
      let kept : e ≡ err = some_injective (sym h ∙ wrap_already op query d err c already) in
      wrap_already op' query' d' e c (ap as_error kept ∙ already)
]

code_of-wrap :
    (op query : Bytes) (d : Option (Err → Option Code)) (err e : Err)
    → wrap op query d (some err) ≡ some e
    → code_of e ≡ elim (as_error err) [ none ↦ classified d err | some c ↦ c ]
unfolding code_of as_error
code_of-wrap op query d err e h = elim (Option-cases (as_error err)) [
  | inl plain ↦ rw plain (ap code_of (some_injective (sym h ∙ wrap_plain op query d err plain)))
  | inr (c, already) ↦
      let kept : e ≡ err = some_injective (sym h ∙ wrap_already op query d err c already) in
      rw already (ap code_of kept ∙ rw (already, code_of) refl)
]

-- An error that `wrap` returned is returned as it is when it is wrapped again, at whatever place,
-- with whatever statement and for whatever dialect; and its code is the code of the `*Error` that it
-- already was, or else what the dialect says of it.
pub wrap-wrap :
    (op query op' query' : Bytes) (d d' : Option (Err → Option Code)) (err e : Err)
    → wrap op query d (some err) ≡ some e
    → (wrap op' query' d' (some e) ≡ some e)
      × (code_of e ≡ elim (as_error err) [ none ↦ classified d err | some c ↦ c ])
wrap-wrap op query op' query' d d' err e h =
    (wrap_twice op query op' query' d d' err e h, code_of-wrap op query d err e h)
