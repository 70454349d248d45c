-- ===== src/Tx/Nested.antt =====
-- Nested transactions and the stack of savepoints.
use row.Prelude.{
  ◌+◌, ◌%◌, ◌^◌, Bool, true, false, List, ◌∷◌, ◌++◌, ◌≡◌, refl, ap, ◌∙◌, inl, inr, Option, none,
  some, Bytes, codes, Option-cases,
}
use row.Errors.{Code, Err, as_error, wrap}
use row.Errors.Wrap.{wrap_plain, wrap_already}
use row.Dialect.Engines.{Dialect}
use row.Tx.Session.{
  Database, World, Tx, Outcome, returned, panicked, Body, op, savepoint_call, after_failure,
  after_nested, after_savepoint, savepoint_name, nest,
}

-- What SQL says of the statements on savepoints that succeed: `SAVEPOINT` opens one inside those
-- that are open, `ROLLBACK TO SAVEPOINT` of the innermost one leaves it open, and `RELEASE
-- SAVEPOINT` of the innermost one closes it.
pub record IsSavepoints {W : Type 0} (db : Database W) (d : Dialect) (stack : W → List Bytes)
    : Type 0 where
  pub opens :
      (n : Bytes) (w : W)
      → (db.exec (codes "SAVEPOINT " ++ d.quote_ident n) w).1 ≡ none
      → stack (db.exec (codes "SAVEPOINT " ++ d.quote_ident n) w).0 ≡ n ∷ stack w
  pub keeps :
      (n : Bytes) (rest : List Bytes) (w : W)
      → stack w ≡ n ∷ rest
      → (db.exec (codes "ROLLBACK TO SAVEPOINT " ++ d.quote_ident n) w).1 ≡ none
      → stack (db.exec (codes "ROLLBACK TO SAVEPOINT " ++ d.quote_ident n) w).0 ≡ n ∷ rest
  pub releases :
      (n : Bytes) (rest : List Bytes) (w : W)
      → stack w ≡ n ∷ rest
      → (db.exec (codes "RELEASE SAVEPOINT " ++ d.quote_ident n) w).1 ≡ none
      → stack (db.exec (codes "RELEASE SAVEPOINT " ++ d.quote_ident n) w).0 ≡ rest

-- Has the call returned without an error?
abbrev pub succeeded : Outcome → Bool
succeeded (returned none) = true
succeeded (returned (some e)) = false
succeeded panicked = false

-- `wrap` returns nil for nil alone.
succeeded-wrap :
    (o query : Bytes) (d : Option (Err → Option Code)) (e : Option Err)
    → succeeded (returned (wrap o query d e)) ≡ true
    → e ≡ none
succeeded-wrap o query d none h = refl
succeeded-wrap o query d (some e) h = elim (Option-cases (as_error e)) [
  | inl plain ↦
      let fails : succeeded (returned (wrap o query d (some e))) ≡ false =
        ap (λ x. succeeded (returned x)) (wrap_plain o query d e plain) in
      cc
  | inr (c, already) ↦
      let fails : succeeded (returned (wrap o query d (some e))) ≡ false =
        ap (λ x. succeeded (returned x)) (wrap_already o query d e c already) in
      cc
]

module _ {W : Type 0} (db : Database W) (d : Dialect) (stack : W → List Bytes)
    (s : IsSavepoints db d stack) where
  after_failure-fails :
      (name : Bytes) (err : Err) (r : World W × Option Err)
      → succeeded (after_failure db d name err r).1 ≡ false
  unfolding after_failure
  after_failure-fails name err (w, some rb) = refl
  after_failure-fails name err (w, none) = refl

  after_nested-stack :
      (name : Bytes) (rest : List Bytes) (r : World W × Outcome)
      → stack r.0.outer ≡ name ∷ rest
      → succeeded (after_nested db d name r).1 ≡ true
      → stack (after_nested db d name r).0.outer ≡ rest
  unfolding after_nested savepoint_call
  after_nested-stack name rest (w, panicked) e h = cc
  after_nested-stack name rest (w, returned none) e h =
      s.releases name rest w.outer e
        (succeeded-wrap op (codes "RELEASE SAVEPOINT") (some d.classify_error) _ h)
  after_nested-stack name rest (w, returned (some err)) e h =
      let f =
        after_failure-fails name err
          (savepoint_call db d (codes "ROLLBACK TO SAVEPOINT ") name w) in
      cc

  after_savepoint-stack :
      (t : Tx) (fn : Body W) (name : Bytes) (rest : List Bytes) (r : World W × Option Err)
      → ((tx : Tx) (v : World W) → stack (fn tx v).0.outer ≡ stack v.outer)
      → (r.1 ≡ none → stack r.0.outer ≡ name ∷ rest)
      → succeeded (after_savepoint db d t fn name r).1 ≡ true
      → stack (after_savepoint db d t fn name r).0.outer ≡ rest
  unfolding after_savepoint
  after_savepoint-stack t fn name rest (w, some e) k o h =
      let x : some e ≡ none =
        succeeded-wrap op (codes "SAVEPOINT") (some d.classify_error) (some e) h in
      cc
  after_savepoint-stack t fn name rest (w, none) k o h =
      after_nested-stack name rest (fn (record { savepoint = name; depth = t.depth + 1 }) w)
        (k (record { savepoint = name; depth = t.depth + 1 }) w ∙ o refl) h

  -- If the statements on savepoints that succeed do what SQL says, and the body leaves the open
  -- savepoints as it found them, then so does a nested transaction that succeeds.
  pub nest-stack :
      (t : Tx) (fn : Body W) (w : World W)
      → ((tx : Tx) (v : World W) → stack (fn tx v).0.outer ≡ stack v.outer)
      → succeeded (nest db d t fn w).1 ≡ true
      → stack (nest db d t fn w).0.outer ≡ stack w.outer
  unfolding nest savepoint_call
  nest-stack t fn w k h =
      let seq = (w.seq + 1) % 2 ^ 64 in
      let name = savepoint_name db d seq in
      after_savepoint-stack t fn name (stack w.outer)
        (savepoint_call db d (codes "SAVEPOINT ") name (record w { seq = seq })) k
        (s.opens name w.outer) h
