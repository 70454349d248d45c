-- ===== src/Tx/Closed.antt =====
-- No transaction is left open.
use row.Prelude.{ℕ, ◌+◌, ◌-◌, Bool, ◌≡◌, refl, arith, Option, none, some, []}
use row.Errors.{Err}
use row.Dialect.Engines.{Dialect}
use row.Tx.Session.{
  Database, World, Tx, Outcome, returned, panicked, Body, beginner, after_body, after_begin,
  begin_tx, in_tx,
}

-- What database/sql says of the number of open transactions: `BeginTx` opens one if it succeeds,
-- and `Commit` and `Rollback` end one, whether they fail or not.
pub record IsTransactions {W : Type 0} (db : Database W) (count : W → ℕ) : Type 0 where
  pub begins : (w : W) → (db.begin w).1 ≡ none → count (db.begin w).0 ≡ count w + 1
  pub refuses : (w : W) (e : Err) → (db.begin w).1 ≡ some e → count (db.begin w).0 ≡ count w
  pub commits : (w : W) → count (db.commit w).0 ≡ count w - 1
  pub rolls_back : (w : W) → count (db.rollback w).0 ≡ count w - 1

module _ {W : Type 0} (db : Database W) (d : Dialect) (count : W → ℕ)
    (s : IsTransactions db count) where
  after_body-count :
      (r : World W × Outcome) → count (after_body db d r).0.outer ≡ count r.0.outer - 1
  unfolding after_body
  after_body-count (w, panicked) = s.rolls_back w.outer
  after_body-count (w, returned none) = s.commits w.outer
  after_body-count (w, returned (some err)) = s.rolls_back w.outer

  after_begin-count :
      (fn : Body W) (n : ℕ) (r : World W × Option Err)
      → ((tx : Tx) (v : World W) → count (fn tx v).0.outer ≡ count v.outer)
      → (r.1 ≡ none → count r.0.outer ≡ n + 1)
      → ((e : Err) → r.1 ≡ some e → count r.0.outer ≡ n)
      → count (after_begin db d fn r).0.outer ≡ n
  unfolding after_begin
  after_begin-count fn n (w, some e) k o f = f e refl
  after_begin-count fn n (w, none) k o f = omega (
    arith,
    after_body-count (fn (record { savepoint = []; depth = 0 }) w),
    k (record { savepoint = []; depth = 0 }) w,
    o refl,
  )

  -- If `BeginTx`, `Commit` and `Rollback` open and end transactions as database/sql says, and the
  -- body leaves as many open as it found, then behind `InTx` of a session that is not a transaction
  -- as many are open as before: whether the body succeeds, fails or panics, and whether or not the
  -- calls to database/sql fail.
  pub in_tx-count :
      (with_opts : Bool) (fn : Body W) (w : World W)
      → ((tx : Tx) (v : World W) → count (fn tx v).0.outer ≡ count v.outer)
      → count (in_tx db d beginner with_opts fn w).0.outer ≡ count w.outer
  unfolding in_tx begin_tx
  in_tx-count with_opts fn w k =
      after_begin-count fn (count w.outer)
        (record w { outer = (db.begin w.outer).0 }, (db.begin w.outer).1) k (s.begins w.outer)
        (s.refuses w.outer)
